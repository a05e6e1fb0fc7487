-- ===== src/Prefix/Shortens.antt =====
-- What is read is no longer there.
use shb.Common.{
  ℕ, ◌+◌, ◌-◌, ◌*◌, ◌%◌, ◌^◌, ◌≤◌, Bool, not, List, [], ◌∷◌, arith, length, length-drop, ltb, leb,
  ◌==◌, bit_and, if_elim,
}
use shb.Prefix.{
  Result, ok, err, ◌>>=◌, decode_tail, decode_int, read_str, slice_off, Step, status_found, next,
}
use shb.Prefix.Walk.{Shortens}

-- A reader leaves at most `n` bytes.
abbrev pub Leaves {ℓ} : {A : Type ℓ} → ℕ → Result (A × List ℕ) → Type 0
Leaves n (err e) = Unit
Leaves n (ok (a, left)) = length left ≤ n

pub decode_tail-Leaves :
    (limit last_shift value shift : ℕ) (rest : List ℕ)
    → Leaves (length rest) (decode_tail limit last_shift value shift rest)
unfolding decode_tail
decode_tail-Leaves limit last_shift value shift [] = tt
decode_tail-Leaves limit last_shift value shift (byte ∷ rest) =
    let added = value + bit_and byte 0x7f * 2 ^ shift % limit in
    if_elim (Leaves (length (byte ∷ rest))) (not (ltb added limit)) (λ over. tt)
      (λ fits.
        if_elim (Leaves (length (byte ∷ rest))) (bit_and byte 0x80 == 0) (λ last. omega arith)
          (λ goes_on.
            if_elim (Leaves (length (byte ∷ rest))) (ltb last_shift (shift + 7)) (λ long. tt)
              (λ room.
                later (decode_tail limit last_shift added (shift + 7) rest)
                  (decode_tail-Leaves limit last_shift added (shift + 7) rest))))
  where
    later : (r : Result (ℕ × List ℕ)) → Leaves (length rest) r → Leaves (length (byte ∷ rest)) r
    later (err e) v = tt
    later (ok (a, left)) v = omega arith

pub decode_int-Leaves :
    (limit last_shift prefix_bits first : ℕ) (rest : List ℕ)
    → Leaves (length rest) (decode_int limit last_shift prefix_bits (first ∷ rest))
unfolding decode_int
decode_int-Leaves limit last_shift prefix_bits first rest =
    if_elim (Leaves (length rest)) (ltb (bit_and first (2 ^ prefix_bits - 1)) (2 ^ prefix_bits - 1))
      (λ one. omega arith)
      (λ more. decode_tail-Leaves limit last_shift (2 ^ prefix_bits - 1) 0 rest)

slice_off-Leaves :
    (huffman : Bool) (len : ℕ) (rest : List ℕ)
    → Leaves (length rest) (slice_off huffman (len, rest))
slice_off-Leaves huffman len rest =
    if_elim (Leaves (length rest)) (leb len (length rest))
      (λ fits. omega (arith, length-drop len rest)) (λ short. tt)

-- A string behind its first byte.
pub read_str-Leaves_rest :
    (limit last_shift prefix_bits first : ℕ) (rest : List ℕ)
    → Leaves (length rest) (read_str limit last_shift prefix_bits (first ∷ rest))
unfolding read_str
read_str-Leaves_rest limit last_shift prefix_bits first rest =
    go (not (bit_and first (2 ^ prefix_bits) == 0))
      (decode_int limit last_shift prefix_bits (first ∷ rest))
      (decode_int-Leaves limit last_shift prefix_bits first rest)
  where
    widen :
        (left : List ℕ) (r : Result ((List ℕ × Bool) × List ℕ))
        → length left ≤ length rest
        → Leaves (length left) r
        → Leaves (length rest) r
    widen left (err e) v w = tt
    widen left (ok (s, after)) v w = omega (arith, v)

    go :
        (huffman : Bool) (r : Result (ℕ × List ℕ))
        → Leaves (length rest) r
        → Leaves (length rest) (r >>= slice_off huffman)
    go huffman (err e) v = tt
    go huffman (ok (len, left)) v =
        widen left (slice_off huffman (len, left)) v (slice_off-Leaves huffman len left)

pub read_str-Leaves :
    (limit last_shift prefix_bits : ℕ) (rest : List ℕ)
    → Leaves (length rest) (read_str limit last_shift prefix_bits rest)
unfolding read_str
read_str-Leaves limit last_shift prefix_bits [] = tt
read_str-Leaves limit last_shift prefix_bits (first ∷ rest) =
    go (read_str limit last_shift prefix_bits (first ∷ rest))
      (read_str-Leaves_rest limit last_shift prefix_bits first rest)
  where
    go :
        (r : Result ((List ℕ × Bool) × List ℕ))
        → Leaves (length rest) r
        → Leaves (length (first ∷ rest)) r
    go (err e) v = tt
    go (ok (s, left)) v = omega arith

-- A reader and then a field that shortens what the reader left.
pub then-Shortens :
    {A : Type 0} (rest : List ℕ) (r : Result (A × List ℕ)) (f : A × List ℕ → Result Step)
    → Leaves (length rest) r
    → ((a : A) (left : List ℕ) → Shortens left (f (a, left)))
    → Shortens rest (r >>= f)
then-Shortens rest (err e) f v w = tt
then-Shortens rest (ok (a, left)) f v w = go (f (a, left)) (w a left)
  where
    go : (r : Result Step) → Shortens left r → Shortens rest r
    go (err e) u = tt
    go (ok (status_found status)) u = tt
    go (ok (next after)) u = omega (arith, u, v)
