-- ===== src/Hpack/Runs.antt =====
-- Header blocks on the bytes of src/http2/hpack.rs.
use shb.Common.{bytes_of, ◌≡◌, refl, List, [], ◌∷◌, some, true, arith}
use shb.Prefix.{
  ok, err, encode_rest, encode_int, decode_tail, decode_int, read_str, walk, walk_fuel,
  dynamic_reference,
}
use shb.Prefix.Walk.{Ends}
use shb.Status
use shb.Hpack.{field, find_status, encode_request}
use shb.Hpack.Shortens.{find_status-Ends}
use shb.Prefix.Names.{verbatim}
use shb.Hpack.Blocks.{
  HeaderField, entering, never_indexed, indexed, named, spelled, resized, render_all,
}
use shb.Hpack.Fields.{find_status-render_all}

-- RFC 7541, C.1.2.
int_1337 : encode_int 5 0 1337 ≡ 31 ∷ 154 ∷ 10 ∷ []
unfolding encode_int encode_rest
int_1337 = refl

get_root :
    encode_request (bytes_of "GET") (bytes_of "http") (bytes_of "a") (bytes_of "/") [] 0
    ≡ 0x82 ∷ 0x86 ∷ 0x01 ∷ 0x01 ∷ b'a' ∷ 0x84 ∷ []
unfolding encode_request encode_int encode_rest
get_root = refl

plain_status : find_status (0x08 ∷ 0x03 ∷ b'2' ∷ b'0' ∷ b'1' ∷ []) ≡ ok (some 201)
unfolding find_status walk walk_fuel field decode_int decode_tail read_str Status.status_value
plain_status = refl

beyond_table : find_status (0xbe ∷ []) ≡ err dynamic_reference
unfolding find_status walk walk_fuel field decode_int decode_tail
beyond_table = refl

-- A cookie that must stay out of tables, a new table size, ':status' in the Huffman code under which
-- the value is in that code too, and entry 9, which is not reached.
abbrev four_fields : List HeaderField
four_fields =
    named never_indexed 32 (verbatim (bytes_of "x"))
    ∷ resized 4096
    ∷ spelled entering (0xb8 ∷ 0x84 ∷ 0x8d ∷ 0x36 ∷ 0xa3 ∷ [], true) (0x10 ∷ 0x01 ∷ [], true)
    ∷ indexed 9
    ∷ []

find_status-Ends_example : Ends field (0x82 ∷ 0x88 ∷ []) (find_status (0x82 ∷ 0x88 ∷ []))
find_status-Ends_example = find_status-Ends (0x82 ∷ 0x88 ∷ [])

find_status-render_all_example : find_status (render_all four_fields) ≡ ok (some 200)
unfolding Status.status_value Status.huffman_digit
find_status-render_all_example = find_status-render_all four_fields (
  (omega arith, omega arith, omega arith),
  (omega arith, ((omega arith, omega arith), (omega arith, tt))),
)
