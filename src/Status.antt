-- ===== src/Status.antt =====
-- src/status.rs: reading a three-digit `:status`, plain or in the Huffman code.
pub mod Table
mod Runs
use shb.Common.{
  ℕ, zero, suc, ◌+◌, ◌-◌, ◌*◌, ◌/◌, ◌%◌, ◌^◌, ◌&&◌, ◌||◌, Bool, true, false, not, List, [], ◌∷◌,
  ◌++◌, Option, none, some, ltb, leb, ◌==◌, if◌then◌else◌, length,
}

-- `u8::is_ascii_digit`.
abbrev pub is_ascii_digit : ℕ → Bool
is_ascii_digit c = leb 48 c && leb c 57

-- `n` digits as they are written, `b'0'` being 48.
abbrev pub three_digits : ℕ → ℕ → ℕ → ℕ
three_digits a b c = (a - 48) * 100 + (b - 48) * 10 + (c - 48)

abbrev pub plain : List ℕ → Option ℕ
plain (a ∷ b ∷ c ∷ []) =
    if is_ascii_digit a && (is_ascii_digit b && is_ascii_digit c)
    then some (three_digits a b c)
    else none
plain s = none

-- '0' to '2' have five bits, '3' to '9' six; with the number of bits used.
unfoldable pub huffman_digit : ℕ → ℕ → Option (ℕ × ℕ)
huffman_digit bits nbits =
    let top5 = bits / 2 ^ (nbits - 5) % 32 in
    let top6 = bits / 2 ^ (nbits - 6) % 64 in
    if leb 5 nbits && leb top5 0b00010
    then some (48 + top5, 5)
    else if leb 6 nbits && (leb 0b011001 top6 && leb top6 0b011111)
    then some (51 + (top6 - 0b011001), 6)
    else none

-- The bits that are left, their number, and the digits read, the last first.
pub record Reader : Type 0 where
  pub bits : ℕ
  pub nbits : ℕ
  pub digits : List ℕ

abbrev pub put_digit : Reader → ℕ × ℕ → Reader
put_digit r (digit, used) = record {
  bits = r.bits % 2 ^ (r.nbits - used);
  nbits = r.nbits - used;
  digits = digit ∷ r.digits;
}

-- `while n < 3`, on the number of digits still to read: each turn reads one or leaves the loop.
unfoldable pub read_digits : ℕ → Reader → Reader
unfolding huffman_digit
read_digits zero r = r
read_digits (suc missing) r = elim (huffman_digit r.bits r.nbits) [
  | none ↦ r
  | some found ↦ read_digits missing (put_digit r found)
]

-- The loop over the bytes; `bits` is 32 bits wide.
unfoldable pub read_bytes : List ℕ → Reader → Reader
unfolding read_digits
read_bytes [] r = r
read_bytes (byte ∷ s) r = read_bytes s (
    read_digits (3 - length r.digits)
      (record r { bits = (r.bits * 256 + byte) % 2 ^ 32; nbits = r.nbits + 8 }))

-- Three digits, and behind them at most seven bits, all ones.
abbrev pub settle_digits : Reader → List ℕ → Option ℕ
settle_digits r (c ∷ b ∷ a ∷ []) =
    if ltb 7 r.nbits || not (r.bits == 2 ^ r.nbits - 1) then none else some (three_digits a b c)
settle_digits r digits = none

unfoldable pub status_value : List ℕ → Bool → Option ℕ
unfolding read_bytes
status_value s false = plain s
status_value s true =
    let r = read_bytes s (record { bits = 0; nbits = 0; digits = [] }) in
    if leb 2 (length s) && leb (length s) 3 then settle_digits r r.digits else none
