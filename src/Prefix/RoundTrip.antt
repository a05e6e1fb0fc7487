-- ===== src/Prefix/RoundTrip.antt =====
-- Prefix integers read back.
use shb.Common.{
  ℕ, zero, suc, ◌+◌, ◌-◌, ◌*◌, ◌/◌, ◌%◌, ◌^◌, ◌≤◌, ◌<◌, ◌≡◌, refl, sym, ap, ◌∙◌, true, false, List,
  ◌++◌, ltb, leb, ◌==◌, arith, bit_and, bit_or, Bool-cases, inl, inr,
}
use shb.Common.Bits.{pow2, bit_or_high, bit_and_low, bit_and_high}
use native.Mathlib.Nat.{mod-eq_of_lt, two-pow-succ, pow-zero, pow-suc, one-le-pow}
use shb.Prefix.{ok, encode_rest, encode_int, decode_tail, decode_int}

pub pow2-pow : (k : ℕ) → pow2 k ≡ 2 ^ k
pow2-pow zero = sym (pow-zero 2)
pow2-pow (suc k) = let ih = pow2-pow k in omega (arith, two-pow-succ k, ih)

-- The two fields of a byte: what is above its low `k` bits, and these.
pub field_low : (k m v : ℕ) → v < pow2 k → bit_and (bit_or (pow2 k * m) v) (pow2 k - 1) ≡ v
field_low k m v h = bit_and_low k _ m v (bit_or_high k v m h) h

pub field_high :
    (k m v n : ℕ) → v < pow2 k → bit_and (bit_or (pow2 k * m) v) (pow2 k * n) ≡ pow2 k * bit_and m n
field_high k m v n h = bit_and_high k _ n m v (bit_or_high k v m h) h

low_seven : (n : ℕ) → bit_and (n % 128 + 128) 0x7f ≡ n % 128
low_seven n = bit_and_low 7 (n % 128 + 128) 1 (n % 128) (omega arith) (omega arith)

goes_on : (n : ℕ) → (bit_and (n % 128 + 128) 0x80 == 0) ≡ false
goes_on n =
    let high : bit_and (n % 128 + 128) 0x80 ≡ 128 =
      bit_and_high 7 (n % 128 + 128) 1 1 (n % 128) (omega arith) (omega arith) in
    rw high refl

low_small : (n : ℕ) → n < 128 → bit_and n 0x7f ≡ n
low_small n h = bit_and_low 7 n 0 n (omega arith) h

ends : (n : ℕ) → n < 128 → (bit_and n 0x80 == 0) ≡ true
ends n h = let high : bit_and n 0x80 ≡ 0 = bit_and_high 7 n 1 0 n (omega arith) h in rw high refl

pow_seven : (shift : ℕ) → 2 ^ (shift + 7) ≡ 2 ^ shift * 128
pow_seven shift =
    let e : shift + 7 ≡ suc (suc (suc (suc (suc (suc (suc shift)))))) = omega arith in
    rw e (
      omega (
        arith,
        two-pow-succ shift,
        two-pow-succ (suc shift),
        two-pow-succ (suc (suc shift)),
        two-pow-succ (suc (suc (suc shift))),
        two-pow-succ (suc (suc (suc (suc shift)))),
        two-pow-succ (suc (suc (suc (suc (suc shift))))),
        two-pow-succ (suc (suc (suc (suc (suc (suc shift)))))),
      ))

-- A number split into its low seven bits and the others, scaled.
split_scaled : (rest P : ℕ) → rest % 128 * P + rest / 128 * (P * 128) ≡ rest * P
split_scaled rest P =
    let whole : rest ≡ rest % 128 + rest / 128 * 128 = omega arith in
    let scaled : rest * P ≡ (rest % 128 + rest / 128 * 128) * P = ap (λ (n : ℕ). n * P) whole in
    omega (arith, scaled)

some_more : (k rest : ℕ) → rest < 128 ^ suc k → 128 ≤ rest → 0 < k
some_more zero rest small long = let one : 128 ^ 1 ≡ 128 = refl in omega arith
some_more (suc k) rest small long = omega arith

-- `k` is the number of bytes that are still allowed.
decode_tail-encode_rest :
    (k fuel limit last_shift value shift rest : ℕ) (more : List ℕ)
    → shift + 7 * k ≡ last_shift + 7
    → k ≤ fuel
    → 0 < k
    → rest < 128 ^ k
    → value + rest * 2 ^ shift < limit
    → decode_tail limit last_shift value shift (encode_rest fuel rest ++ more)
      ≡ ok (value + rest * 2 ^ shift, more)
unfolding encode_rest decode_tail
decode_tail-encode_rest zero fuel limit last_shift value shift rest more e f p small fits =
    absurd (omega arith)
decode_tail-encode_rest (suc k) zero limit last_shift value shift rest more e f p small fits =
    absurd (omega arith)
decode_tail-encode_rest (suc k) (suc fuel) limit last_shift value shift rest more e f p small fits =
    elim (Bool-cases (leb 128 rest)) [
      | inr short ↦
          let low = low_small rest (ground arith) in
          let stop = ends rest (ground arith) in
          let whole : rest * 2 ^ shift % limit ≡ rest * 2 ^ shift = mod-eq_of_lt (omega arith) in
          let fits' : ltb (value + rest * 2 ^ shift) limit ≡ true = ground arith in
          rw (short, low, stop, whole, fits') refl
      | inl long ↦
          let long' : 128 ≤ rest = ground arith in
          let again = some_more k rest small long' in
          let power = pow_seven shift in
          let split = split_scaled rest (2 ^ shift) in
          let total : value + rest % 128 * 2 ^ shift + rest / 128 * 2 ^ (shift + 7)
              ≡ value + rest * 2 ^ shift =
            rw power (omega (arith, split)) in
          let whole : rest % 128 * 2 ^ shift % limit ≡ rest % 128 * 2 ^ shift =
            mod-eq_of_lt (omega (arith, split)) in
          let fits' : ltb (value + rest % 128 * 2 ^ shift) limit ≡ true = ground (arith, split) in
          let allowed : ltb last_shift (shift + 7) ≡ false = ground arith in
          let smaller : rest / 128 < 128 ^ k = omega (arith, pow-suc 128 k) in
          rw (long, low_seven rest, goes_on rest, whole, fits', allowed)
            (decode_tail-encode_rest k fuel limit last_shift (value + rest % 128 * 2 ^ shift)
                (shift + 7) (rest / 128) more (omega arith) (omega arith) again smaller
                (rw total fits)
              ∙ ap (λ (n : ℕ). ok (n, more)) total)
    ]

-- `decode_int` reads back what `encode_int` wrote, whatever stands above the prefix in the first
-- byte and whatever follows, where the part behind the prefix takes at most the `k` bytes allowed.
pub decode_int-encode_int :
    (k limit last_shift prefix_bits high value : ℕ) (more : List ℕ)
    → 7 * k ≡ last_shift + 7
    → k ≤ 10
    → 0 < k
    → value - (2 ^ prefix_bits - 1) < 128 ^ k
    → value < limit
    → decode_int limit last_shift prefix_bits
        (encode_int prefix_bits (2 ^ prefix_bits * high) value ++ more)
      ≡ ok (value, more)
unfolding decode_int encode_int
decode_int-encode_int k limit last_shift prefix_bits high value more e f p small fits =
    let power = pow2-pow prefix_bits in
    let some_bit = one-le-pow prefix_bits 2 (omega arith) in
    elim (Bool-cases (ltb value (2 ^ prefix_bits - 1))) [
      | inl one_byte ↦
          let low : bit_and (bit_or (2 ^ prefix_bits * high) value) (2 ^ prefix_bits - 1) ≡ value =
            rw power at (field_low prefix_bits high value (rw power (ground arith))) in
          rw (one_byte, low, one_byte) refl
      | inr more_bytes ↦
          let low : bit_and (bit_or (2 ^ prefix_bits * high) (2 ^ prefix_bits - 1))
                (2 ^ prefix_bits - 1)
              ≡ 2 ^ prefix_bits - 1 =
            rw power at
              (field_low prefix_bits high (2 ^ prefix_bits - 1) (rw power (omega arith))) in
          let past : ltb (2 ^ prefix_bits - 1) (2 ^ prefix_bits - 1) ≡ false = ground arith in
          let one : 2 ^ 0 ≡ 1 = refl in
          let total : 2 ^ prefix_bits - 1 + (value - (2 ^ prefix_bits - 1)) * 2 ^ 0 ≡ value =
            rw one (ground arith) in
          rw (more_bytes, low, past)
            (decode_tail-encode_rest k 10 limit last_shift (2 ^ prefix_bits - 1) 0
                (value - (2 ^ prefix_bits - 1)) more (omega arith) f p small (rw total fits)
              ∙ ap (λ (n : ℕ). ok (n, more)) total)
    ]
