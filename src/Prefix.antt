-- ===== src/Prefix.antt =====
-- The integers and string literals of HPACK and QPACK (RFC 7541, section 5): `encode_int`,
-- `decode_int`, `encode_str` and `read_str` of src/http2/hpack.rs and src/http3/qpack.rs. The two
-- files have the same code at 32 and at 64 bits: `limit` is what `checked_add` stays below, and
-- `last_shift` the last shift that is allowed. A buffer with a position is what is left of the buffer.
pub mod RoundTrip
pub mod Strings
pub mod Names
pub mod Walk
pub mod Shortens
mod Runs
use shb.Common.{
  bytes_of, bytes_eq, ℕ, zero, suc, ◌+◌, ◌-◌, ◌*◌, ◌/◌, ◌%◌, ◌^◌, Bool, true, false, not, List, [],
  ◌∷◌, ◌++◌, Option, none, some, ltb, leb, ◌==◌, if◌then◌else◌, length, take, drop, bit_and, bit_or,
}

pub data FieldError : Type 0 where
  truncated overflow too_long index_zero dynamic_reference bad_status : FieldError
  -- Of the model alone: a loop that was cut off.
  out_of_fuel : FieldError

pub data Result {ℓ} (A : Type ℓ) : Type ℓ where
  ok : A → Result A
  err : FieldError → Result A

infixl 5 ◌>>=◌
abbrev pub ◌>>=◌ {ℓ κ} : {A : Type ℓ} {B : Type κ} → Result A → (A → Result B) → Result B
ok a >>= f = f a
err e >>= f = err e

-- The loop of `encode_int`: `fuel` is the number of bytes that the widest integer takes.
unfoldable pub encode_rest : ℕ → ℕ → List ℕ
encode_rest zero rest = []
encode_rest (suc fuel) rest =
    if leb 128 rest then (rest % 128 + 128) ∷ encode_rest fuel (rest / 128) else rest ∷ []

-- Ten groups of seven bits hold 64.
unfoldable pub encode_int : ℕ → ℕ → ℕ → List ℕ
encode_int prefix_bits mask value =
    if ltb value (2 ^ prefix_bits - 1)
    then bit_or mask value ∷ []
    else bit_or mask (2 ^ prefix_bits - 1) ∷ encode_rest 10 (value - (2 ^ prefix_bits - 1))

-- The loop over the bytes behind the prefix, with the value and the shift so far.
unfoldable pub decode_tail : ℕ → ℕ → ℕ → ℕ → List ℕ → Result (ℕ × List ℕ)
decode_tail limit last_shift value shift [] = err truncated
decode_tail limit last_shift value shift (byte ∷ rest) =
    let added = value + bit_and byte 0x7f * 2 ^ shift % limit in
    if not (ltb added limit)
    then err overflow
    else if bit_and byte 0x80 == 0
    then ok (added, rest)
    else if ltb last_shift (shift + 7)
    then err too_long
    else decode_tail limit last_shift added (shift + 7) rest

unfoldable pub decode_int : ℕ → ℕ → ℕ → List ℕ → Result (ℕ × List ℕ)
decode_int limit last_shift prefix_bits [] = err truncated
decode_int limit last_shift prefix_bits (byte ∷ rest) =
    if ltb (bit_and byte (2 ^ prefix_bits - 1)) (2 ^ prefix_bits - 1)
    then ok (bit_and byte (2 ^ prefix_bits - 1), rest)
    else decode_tail limit last_shift (2 ^ prefix_bits - 1) 0 rest

unfoldable pub encode_str : ℕ → ℕ → List ℕ → List ℕ
encode_str prefix_bits mask s = encode_int prefix_bits mask (length s) ++ s

-- The bytes of a literal whose length was read.
abbrev pub slice_off : Bool → ℕ × List ℕ → Result ((List ℕ × Bool) × List ℕ)
slice_off huffman (len, rest) =
    if leb len (length rest) then ok ((take len rest, huffman), drop len rest) else err truncated

unfoldable pub read_str : ℕ → ℕ → ℕ → List ℕ → Result ((List ℕ × Bool) × List ℕ)
read_str limit last_shift prefix_bits [] = err truncated
read_str limit last_shift prefix_bits (byte ∷ rest) =
    decode_int limit last_shift prefix_bits (byte ∷ rest)
    >>= slice_off (not (bit_and byte (2 ^ prefix_bits) == 0))

-- One field of a section: a status, or on with what is left.
pub data Step : Type 0 where
  status_found : ℕ → Step
  next : List ℕ → Step

-- What the loop does with a field.
abbrev pub on_step : (List ℕ → Result (Option ℕ)) → Result Step → Result (Option ℕ)
on_step go (err e) = err e
on_step go (ok (status_found status)) = ok (some status)
on_step go (ok (next rest)) = go rest

-- `while pos < section.len()`: `turn` reads the field that begins with a byte.
unfoldable pub walk_fuel : ℕ → (ℕ → List ℕ → Result Step) → List ℕ → Result (Option ℕ)
walk_fuel zero turn rest = err out_of_fuel
walk_fuel (suc fuel) turn [] = ok none
walk_fuel (suc fuel) turn (first ∷ rest) = on_step (walk_fuel fuel turn) (turn first rest)

-- Each field takes a byte at least.
unfoldable pub walk : (ℕ → List ℕ → Result Step) → List ℕ → Result (Option ℕ)
walk turn section = walk_fuel (suc (length section)) turn section

-- The status of a value, `status_value(value, huffman).map(Some)`.
abbrev pub as_status : Option ℕ → Result Step
as_status none = err bad_status
as_status (some status) = ok (status_found status)

-- b":status", and its Huffman code.
abbrev pub status_name : List ℕ
status_name = bytes_of ":status"

abbrev pub status_name_huffman : List ℕ
status_name_huffman = 0xb8 ∷ 0x84 ∷ 0x8d ∷ 0x36 ∷ 0xa3 ∷ []

abbrev pub names_status : List ℕ → Bool → Bool
names_status name true = bytes_eq name status_name_huffman
names_status name false = bytes_eq name status_name

-- `to_string` of a `usize`, which has at most twenty digits.
unfoldable pub decimal_fuel : ℕ → ℕ → List ℕ
decimal_fuel zero n = []
decimal_fuel (suc fuel) n =
    if ltb n 10 then (b'0' + n) ∷ [] else decimal_fuel fuel (n / 10) ++ ((b'0' + n % 10) ∷ [])

abbrev pub to_string : ℕ → List ℕ
to_string n = decimal_fuel 20 n
