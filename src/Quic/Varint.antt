-- ===== src/Quic/Varint.antt =====
-- src/quic/varint.rs: variable-length integers. A byte buffer is a list of numbers.
pub mod RoundTrip
pub mod Shortest
mod Runs
use shb.Common.{
  ℕ, zero, suc, ◌+◌, ◌-◌, ◌*◌, ◌/◌, ◌%◌, ◌^◌, bit_and, bit_or, List, [], ◌∷◌, ◌++◌, Option, none,
  some, ltb, leb, if◌then◌else◌, length, take, u64_mod,
}

-- `to_be_bytes` of a word of `n` bytes.
abbrev pub to_be_bytes : ℕ → ℕ → List ℕ
to_be_bytes zero v = []
to_be_bytes (suc n) v = (v / 256 ^ n % 256) ∷ to_be_bytes n v

unfoldable pub put_varint : List ℕ → ℕ → List ℕ
put_varint out value =
    if leb value 0x3f
    then out ++ ((value % 2 ^ 8) ∷ [])
    else if leb value 0x3fff
    then out ++ to_be_bytes 2 (bit_or (value % 2 ^ 16) 0x4000)
    else if leb value 0x3fff_ffff
    then out ++ to_be_bytes 4 (bit_or (value % 2 ^ 32) 0x8000_0000)
    else out ++ to_be_bytes 8 (bit_or value 0xc000_0000_0000_0000)

-- `value = (value << 8) | byte` over the bytes.
unfoldable pub fold_be : ℕ → List ℕ → ℕ
fold_be value [] = value
fold_be value (byte ∷ bytes) = fold_be (bit_or (value * 2 ^ 8 % u64_mod) byte) bytes

-- The value and its length in bytes; `none` if the buffer does not hold the whole integer.
unfoldable pub get_varint : List ℕ → Option (ℕ × ℕ)
unfolding fold_be
get_varint [] = none
get_varint (first ∷ rest) =
    let len = 2 ^ (first / 2 ^ 6) in
    if ltb (suc (length rest)) len
    then none
    else some (fold_be (bit_and first 0x3f) (take (len - 1) rest), len)
