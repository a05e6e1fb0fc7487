-- ===== src/Prefix/Strings.antt =====
-- String literals read back.
use shb.Common.{
  ℕ, ◌+◌, ◌-◌, ◌*◌, ◌^◌, ◌≤◌, ◌<◌, ◌≡◌, refl, ap, ◌∙◌, Bool, true, false, not, List, [], ◌∷◌, ◌++◌,
  append_assoc, ltb, leb, ◌==◌, if◌then◌else◌, arith, bit_and, bit_or, Bool-cases, inl, inr, length,
  take, drop, length-append,
}
use native.Mathlib.Nat.{one-le-pow, mul-one}
use shb.Prefix.{ok, ◌>>=◌, encode_rest, encode_int, decode_int, encode_str, read_str, slice_off}
use shb.Common.Bits.{pow2}
use shb.Prefix.RoundTrip.{pow2-pow, field_high, decode_int-encode_int}

pub take-length :
    (xs ys : List ℕ) → (take (length xs) (xs ++ ys) ≡ xs) × (drop (length xs) (xs ++ ys) ≡ ys)
take-length [] ys = (refl, refl)
take-length (x ∷ xs) ys = let (a, b) = take-length xs ys in (ap (λ (l : List ℕ). x ∷ l) a, b)

-- The first byte of an integer: the bits above the prefix are those that were given.
pub encode_int-first :
    (prefix_bits mask value : ℕ)
    → (v : ℕ) × (rest : List ℕ) × (encode_int prefix_bits mask value ≡ bit_or mask v ∷ rest)
      × (v < 2 ^ prefix_bits)
unfolding encode_int
encode_int-first prefix_bits mask value =
    let some_bit = one-le-pow prefix_bits 2 (omega arith) in
    elim (Bool-cases (ltb value (2 ^ prefix_bits - 1))) [
      | inl h ↦ (value, [], rw h refl, ground arith)
      | inr h ↦ (
        2 ^ prefix_bits - 1,
        encode_rest 10 (value - (2 ^ prefix_bits - 1)),
        rw h refl,
        omega arith,
      )
    ]

read_str-first :
    (limit last_shift prefix_bits byte : ℕ) (xs rest more : List ℕ)
    → xs ≡ byte ∷ rest
    → read_str limit last_shift prefix_bits (xs ++ more) ≡ (
        decode_int limit last_shift prefix_bits (xs ++ more)
        >>= slice_off (not (bit_and byte (2 ^ prefix_bits) == 0)))
unfolding read_str
read_str-first limit last_shift prefix_bits byte xs rest more e = rw e refl

slice_off-all :
    (huffman : Bool) (s more : List ℕ)
    → slice_off huffman (length s, s ++ more) ≡ ok ((s, huffman), more)
slice_off-all huffman s more =
    let (a, b) = take-length s more in
    let long = length-append s more in
    let fits : leb (length s) (length (s ++ more)) ≡ true = ground arith in rw (fits, a, b) refl

-- Whether the bit above the prefix is set.
flag_bit : (n : ℕ) (huffman : Bool) → 0 < n → not (n * (if huffman then 1 else 0) == 0) ≡ huffman
flag_bit n true h = ground arith
flag_bit n false h = ground arith

-- A literal reads back: its bytes, and whether they are in the Huffman code.
pub read_str-encode_str :
    (k limit last_shift prefix_bits high : ℕ) (huffman : Bool) (s more : List ℕ)
    → 7 * k ≡ last_shift + 7
    → k ≤ 10
    → 0 < k
    → length s - (2 ^ prefix_bits - 1) < 128 ^ k
    → length s < limit
    → bit_and high 1 ≡ (if huffman then 1 else 0)
    → read_str limit last_shift prefix_bits
        (encode_str prefix_bits (2 ^ prefix_bits * high) s ++ more)
      ≡ ok ((s, huffman), more)
unfolding encode_str
read_str-encode_str k limit last_shift prefix_bits high huffman s more e f p small fits flagged =
    let (v, rest, shape, below) =
      encode_int-first prefix_bits (2 ^ prefix_bits * high) (length s) in
    let power = pow2-pow prefix_bits in
    let some_bit = one-le-pow prefix_bits 2 (omega arith) in
    let bit : bit_and (bit_or (pow2 prefix_bits * high) v) (pow2 prefix_bits * 1)
        ≡ pow2 prefix_bits * bit_and high 1 =
      field_high prefix_bits high v 1 (rw power below) in
    let bit' : bit_and (bit_or (2 ^ prefix_bits * high) v) (2 ^ prefix_bits)
        ≡ 2 ^ prefix_bits * (if huffman then 1 else 0) =
      rw (power, mul-one (2 ^ prefix_bits), flagged) at bit in
    let flag : not (bit_and (bit_or (2 ^ prefix_bits * high) v) (2 ^ prefix_bits) == 0) ≡ huffman =
      rw bit' (flag_bit (2 ^ prefix_bits) huffman (omega (arith, some_bit))) in
    ap (λ (x : List ℕ). read_str limit last_shift prefix_bits x)
      (append_assoc (encode_int prefix_bits (2 ^ prefix_bits * high) (length s)) s more)
    ∙ (read_str-first limit last_shift prefix_bits _ _ rest (s ++ more) shape
        ∙ rw
            (
              decode_int-encode_int k limit last_shift prefix_bits high (length s) (s ++ more) e f p
                  small fits,
              flag,
            )
            (slice_off-all huffman s more))
