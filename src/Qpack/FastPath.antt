-- ===== src/Qpack/FastPath.antt =====
-- The fast path of `find_status` gives what the walk over the section gives.
use shb.Common.{
  ℕ, ◌*◌, ◌/◌, ◌%◌, ◌≡◌, refl, sym, ap, ◌∙◌, ◌&&◌, true, false, not, List, [], ◌∷◌, Option, none,
  some, arith, ltb, ◌==◌, bit_and, Bool-cases, inl, inr,
}
use shb.Common.Bits.{bit_and_low, bit_and_high}
use shb.Prefix.{ok, status_found, walk, on_step, decode_int}
use shb.Qpack.{
  status_for_index, read_int, field, find_slowly, fast_status, fast_or_slow, find_status,
}
use shb.Qpack.Shortens.{find_status-field}

-- The two high bits of a byte whose `0xc0` bits are all set.
both_bits :
    (first : ℕ)
    → bit_and first 0xc0 ≡ 0xc0
    → (bit_and first 0x80 ≡ 0x80) × (bit_and first 0x40 ≡ 0x40)
both_bits first h =
    let d = first / 64 in
    let c0 : bit_and first 0xc0 ≡ 64 * bit_and d 3 =
      bit_and_high 6 first 3 d (first % 64) (omega arith) (omega arith) in
    let three : bit_and d 3 ≡ d % 4 = bit_and_low 2 d (d / 4) (d % 4) (omega arith) (omega arith) in
    let c80 : bit_and first 0x80 ≡ 64 * bit_and d 2 =
      bit_and_high 6 first 2 d (first % 64) (omega arith) (omega arith) in
    let c40 : bit_and first 0x40 ≡ 64 * bit_and d 1 =
      bit_and_high 6 first 1 d (first % 64) (omega arith) (omega arith) in
    let one : bit_and d 1 ≡ d % 2 = bit_and_low 1 d (d / 2) (d % 2) (omega arith) (omega arith) in
    let two : bit_and d 2 ≡ 2 * bit_and (d / 2) 1 =
      bit_and_high 1 d 1 (d / 2) (d % 2) (omega arith) (omega arith) in
    let two' : bit_and (d / 2) 1 ≡ d / 2 % 2 =
      bit_and_low 1 (d / 2) (d / 4) (d / 2 % 2) (omega arith) (omega arith) in
    (omega arith, omega arith)

-- The prefix of an all-zero section.
pub slow_zeros : (rest : List ℕ) → find_slowly (0 ∷ 0 ∷ rest) ≡ walk field rest
unfolding find_slowly decode_int
slow_zeros rest = refl

one_byte :
    (first : ℕ) (rest : List ℕ)
    → (bit_and first 0x3f == 0x3f) ≡ false
    → read_int 6 (first ∷ rest) ≡ ok (bit_and first 0x3f, rest)
unfolding decode_int
one_byte first rest h =
    let low : bit_and first 0x3f ≡ first % 64 =
      bit_and_low 6 first (first / 64) (first % 64) (omega arith) (omega arith) in
    let short : ltb (bit_and first 0x3f) 0x3f ≡ true = ground arith in rw short refl

indexed_status :
    (first status : ℕ) (rest : List ℕ)
    → bit_and first 0xc0 ≡ 0xc0
    → (bit_and first 0x3f == 0x3f) ≡ false
    → status_for_index (bit_and first 0x3f) ≡ some status
    → field first rest ≡ ok (status_found status)
unfolding field
indexed_status first status rest h k e =
    let (high, next_high) = both_bits first h in rw (high, next_high, one_byte first rest k, e) refl

slow_fast :
    (first status : ℕ) (rest : List ℕ)
    → bit_and first 0xc0 ≡ 0xc0
    → (bit_and first 0x3f == 0x3f) ≡ false
    → status_for_index (bit_and first 0x3f) ≡ some status
    → find_slowly (0 ∷ 0 ∷ first ∷ rest) ≡ ok (some status)
slow_fast first status rest h k e =
    slow_zeros (first ∷ rest)
    ∙ (find_status-field first rest
        ∙ ap (on_step (walk field)) (indexed_status first status rest h k e))

fast-slow :
    (section : List ℕ) (status : ℕ)
    → fast_status section ≡ some status
    → find_slowly section ≡ ok (some status)
fast-slow [] status h = absurd (cc)
fast-slow (a ∷ []) status h = absurd (cc)
fast-slow (a ∷ b ∷ []) status h = absurd (cc)
fast-slow (a ∷ b ∷ first ∷ rest) status h =
    elim (Bool-cases
      (a == 0 && b == 0 && bit_and first 0xc0 == 0xc0 && not (bit_and first 0x3f == 0x3f))) [
        | inl taken ↦
            let za : a ≡ 0 = ground arith in
            let zb : b ≡ 0 = ground arith in
            let e : status_for_index (bit_and first 0x3f) ≡ some status = rw taken at h in
            rw (za, zb) (slow_fast first status rest (ground arith) (ground arith) e)
        | inr left ↦ absurd (ground (arith, rw left at h))
      ]

-- `find_status` is its walk over the fields on every section: the fast path is never of consequence.
pub find_status-find_slowly : (section : List ℕ) → find_status section ≡ find_slowly section
unfolding find_status
find_status-find_slowly section = go (fast_status section) refl
  where
    go : (o : Option ℕ) → fast_status section ≡ o → fast_or_slow o section ≡ find_slowly section
    go none h = refl
    go (some status) h = sym (fast-slow section status h)
