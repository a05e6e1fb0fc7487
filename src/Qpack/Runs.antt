-- ===== src/Qpack/Runs.antt =====
-- Field sections on the bytes of src/http3/qpack.rs.
use shb.Common.{bytes_of, ◌≡◌, refl, List, [], ◌∷◌, some, true, arith}
use shb.Prefix.{
  ok, err, encode_rest, encode_int, encode_str, decode_tail, decode_int, read_str, walk, walk_fuel,
  dynamic_reference,
}
use shb.Qpack.{field, find_status, find_slowly, encode_request, status_for_index}
use shb.Qpack.FastPath.{find_status-find_slowly}
use shb.Status
use shb.Prefix.Names.{verbatim}
use shb.Qpack.Lines.{Line, static_name, in_full, dynamic_entry, written_all}
use shb.Qpack.Fields.{find_status-written_all}

get_root :
    encode_request (bytes_of "GET") (bytes_of "https") (bytes_of "a") (bytes_of "/") [] 0
    ≡ 0 ∷ 0 ∷ 0xd1 ∷ 0xd7 ∷ 0x50 ∷ 0x01 ∷ b'a' ∷ 0xc1 ∷ []
unfolding encode_request encode_int encode_rest encode_str
get_root = refl

slow_status : find_slowly (0 ∷ 0 ∷ 0xd9 ∷ []) ≡ ok (some 200)
unfolding find_slowly walk walk_fuel field decode_int decode_tail read_str status_for_index
slow_status = refl

dynamic : find_status (1 ∷ 0 ∷ 0xd9 ∷ []) ≡ err dynamic_reference
unfolding find_status find_slowly walk walk_fuel field decode_int decode_tail read_str
    status_for_index
dynamic = refl

-- A cookie that no hop may index, ':status' and its value in the Huffman code, and a line of the
-- dynamic table, which is not reached.
abbrev three_lines : List Line
three_lines =
    static_name true 5 (verbatim (bytes_of "x"))
    ∷ in_full true (0xb8 ∷ 0x84 ∷ 0x8d ∷ 0x36 ∷ 0xa3 ∷ [], true) (0x10 ∷ 0x01 ∷ [], true)
    ∷ dynamic_entry 3
    ∷ []

find_status-find_slowly_example : find_status (0 ∷ 0 ∷ 0xd9 ∷ []) ≡ find_slowly (0 ∷ 0 ∷ 0xd9 ∷ [])
find_status-find_slowly_example = find_status-find_slowly (0 ∷ 0 ∷ 0xd9 ∷ [])

find_status-written_all_example : find_status (0 ∷ 0 ∷ written_all three_lines) ≡ ok (some 200)
unfolding Status.status_value Status.huffman_digit
find_status-written_all_example =
    find_status-written_all three_lines
      ((omega arith, omega arith), ((omega arith, omega arith), (omega arith, tt)))
