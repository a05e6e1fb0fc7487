-- ===== src/Http1/Numbers.antt =====
-- src/http1/parse.rs: `parse_status`, `parse_u64` and `parse_chunk_size`.
use shb.Common.{
  ℕ, ◌+◌, ◌-◌, ◌*◌, ◌&&◌, Bool, List, [], ◌∷◌, Option, none, some, ltb, leb, ◌==◌, if◌then◌else◌,
  u64_mod,
}
use shb.Http1.Bytes.{
  Result, ok, err, HttpError, ◌>>=◌, trim_ows, invalid_status, empty_length, invalid_length,
  length_overflow, empty_chunk_size, invalid_chunk_size, chunk_size_overflow,
}

abbrev pub is_digit : ℕ → Bool
is_digit c = leb b'0' c && leb c b'9'

unfoldable pub parse_status : ℕ → ℕ → ℕ → Result ℕ
parse_status a c d =
    if is_digit a && (is_digit c && is_digit d)
    then ok ((a - b'0') * 100 + (c - b'0') * 10 + (d - b'0'))
    else err invalid_status

-- `checked_mul` by the base and `checked_add` of the digit.
abbrev pub shift_in : HttpError → ℕ → ℕ → ℕ → Result ℕ
shift_in e base n d =
    if ltb (n * base) u64_mod && ltb (n * base + d) u64_mod then ok (n * base + d) else err e

-- The loop over the digits, in either base: `digit` gives none for a byte that is no digit.
unfoldable pub add_digits : (ℕ → Option ℕ) → HttpError → HttpError → ℕ → ℕ → List ℕ → Result ℕ
add_digits digit invalid overflow base n [] = ok n
add_digits digit invalid overflow base n (c ∷ cs) = elim (digit c) [
  | none ↦ err invalid
  | some d ↦ shift_in overflow base n d >>= λ m. add_digits digit invalid overflow base m cs
]

abbrev pub decimal_digit : ℕ → Option ℕ
decimal_digit c = if is_digit c then some (c - b'0') else none

abbrev pub hex_digit : ℕ → Option ℕ
hex_digit c =
    if is_digit c
    then some (c - b'0')
    else if leb b'a' c && leb c b'f'
    then some (c - b'a' + 10)
    else if leb b'A' c && leb c b'F'
    then some (c - b'A' + 10)
    else none

unfoldable pub parse_u64 : List ℕ → Result ℕ
unfolding add_digits
parse_u64 [] = err empty_length
parse_u64 (c ∷ cs) = add_digits decimal_digit invalid_length length_overflow 10 0 (c ∷ cs)

-- The bytes before `;`.
abbrev pub before_extension : List ℕ → List ℕ
before_extension [] = []
before_extension (c ∷ cs) = if c == b';' then [] else c ∷ before_extension cs

abbrev pub hex_of : List ℕ → Result ℕ
unfolding add_digits
hex_of [] = err empty_chunk_size
hex_of (c ∷ cs) = add_digits hex_digit invalid_chunk_size chunk_size_overflow 16 0 (c ∷ cs)

unfoldable pub parse_chunk_size : List ℕ → Result ℕ
unfolding hex_of trim_ows
parse_chunk_size b = hex_of (trim_ows (before_extension b))
