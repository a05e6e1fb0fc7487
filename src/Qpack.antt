-- ===== src/Qpack.antt =====
-- src/http3/qpack.rs: the field section of a request, and the status in a response's.
pub mod Shortens
pub mod FastPath
pub mod Lines
pub mod FirstByte
pub mod Fields
pub mod Request
mod Runs
use shb.Common.{
  bytes_of, bytes_eq, ℕ, ◌+◌, ◌-◌, ◌*◌, ◌%◌, ◌^◌, ◌&&◌, Bool, true, false, not, List, [], ◌∷◌, ◌++◌,
  Option, none, some, is_some, ltb, leb, ◌==◌, if◌then◌else◌, length, bit_and, bit_or, u64_mod,
}
use shb.Status.{status_value}
use shb.Prefix.{
  Result, ok, err, ◌>>=◌, dynamic_reference, encode_int, encode_str, decode_int, read_str, Step,
  status_found, next, walk, as_status, names_status, to_string,
}

-- Static entries whose name is ':status', as (index, code).
abbrev pub status_entries : List (ℕ × ℕ)
status_entries =
    (24, 103)
    ∷ (25, 200)
    ∷ (26, 304)
    ∷ (27, 404)
    ∷ (28, 503)
    ∷ (63, 100)
    ∷ (64, 204)
    ∷ (65, 206)
    ∷ (66, 302)
    ∷ (67, 400)
    ∷ (68, 403)
    ∷ (69, 421)
    ∷ (70, 425)
    ∷ (71, 500)
    ∷ []

abbrev pub status_at : List (ℕ × ℕ) → ℕ → Option ℕ
status_at [] index = none
status_at ((i, status) ∷ entries) index =
    if i == index then some status else status_at entries index

unfoldable pub status_for_index : ℕ → Option ℕ
status_for_index index = status_at status_entries index

abbrev pub is_status_index : ℕ → Bool
is_status_index index = is_some (status_for_index index)

abbrev pub method_index : List ℕ → Option ℕ
method_index method =
    if bytes_eq method (bytes_of "CONNECT")
    then some 15
    else if bytes_eq method (bytes_of "DELETE")
    then some 16
    else if bytes_eq method (bytes_of "GET")
    then some 17
    else if bytes_eq method (bytes_of "HEAD")
    then some 18
    else if bytes_eq method (bytes_of "OPTIONS")
    then some 19
    else if bytes_eq method (bytes_of "POST")
    then some 20
    else if bytes_eq method (bytes_of "PUT")
    then some 21
    else none

abbrev pub scheme_index : List ℕ → Option ℕ
scheme_index scheme =
    if bytes_eq scheme (bytes_of "http")
    then some 22
    else if bytes_eq scheme (bytes_of "https")
    then some 23
    else none

abbrev pub indexed_line : ℕ → List ℕ
indexed_line index = encode_int 6 0xc0 index

abbrev pub literal_named : ℕ → List ℕ → List ℕ
literal_named name_index value = encode_int 4 0x50 name_index ++ encode_str 7 0x00 value

abbrev pub literal : List ℕ → List ℕ → List ℕ
literal name value = encode_str 3 0x20 name ++ encode_str 7 0x00 value

abbrev pub indexed_or : Option ℕ → List ℕ → List ℕ → List ℕ
indexed_or (some index) name value = indexed_line index
indexed_or none name value = literal name value

abbrev pub path_line : List ℕ → List ℕ
path_line path =
    if bytes_eq path (bytes_of "/") then indexed_line 1 else literal (bytes_of ":path") path

abbrev pub header_lines : List (List ℕ × List ℕ) → List ℕ
header_lines [] = []
header_lines ((name, value) ∷ headers) = literal name value ++ header_lines headers

abbrev pub length_line : ℕ → List ℕ
length_line body_len = if ltb 0 body_len then literal_named 4 (to_string body_len) else []

unfoldable pub encode_request :
    List ℕ → List ℕ → List ℕ → List ℕ → List (List ℕ × List ℕ) → ℕ → List ℕ
encode_request method scheme authority path headers body_len =
    0x00
    ∷ 0x00
    ∷ (indexed_or (method_index method) (bytes_of ":method") method
        ++ (indexed_or (scheme_index scheme) (bytes_of ":scheme") scheme
            ++ (literal_named 0 authority
                ++ (path_line path ++ (header_lines headers ++ length_line body_len)))))

-- `decode_int` and `read_str` at 64 bits, where the last shift is 56.
abbrev pub read_int : ℕ → List ℕ → Result (ℕ × List ℕ)
read_int prefix_bits rest = decode_int u64_mod 56 prefix_bits rest

abbrev pub read_string : ℕ → List ℕ → Result ((List ℕ × Bool) × List ℕ)
read_string prefix_bits rest = read_str u64_mod 56 prefix_bits rest

abbrev pub status_or_next : Option ℕ → List ℕ → Step
status_or_next (some status) left = status_found status
status_or_next none left = next left

abbrev pub indexed_field : Bool → ℕ × List ℕ → Result Step
indexed_field static_table (index, left) =
    if not static_table
    then err dynamic_reference
    else ok (status_or_next (status_for_index index) left)

abbrev pub value_read : Bool → (List ℕ × Bool) × List ℕ → Result Step
value_read named_status ((value, huffman), left) =
    if named_status then as_status (status_value value huffman) else ok (next left)

abbrev pub value_field : Bool → List ℕ → Result Step
value_field named_status rest = read_string 7 rest >>= value_read named_status

abbrev pub named_line : Bool → ℕ × List ℕ → Result Step
named_line static_table (index, left) =
    if not static_table then err dynamic_reference else value_field (is_status_index index) left

abbrev pub spelled_field : (List ℕ × Bool) × List ℕ → Result Step
spelled_field ((name, huffman), left) = value_field (names_status name huffman) left

unfoldable pub field : ℕ → List ℕ → Result Step
field first rest =
    if not (bit_and first 0x80 == 0)
    then read_int 6 (first ∷ rest) >>= indexed_field (not (bit_and first 0x40 == 0))
    else if not (bit_and first 0x40 == 0)
    then read_int 4 (first ∷ rest) >>= named_line (not (bit_and first 0x10 == 0))
    else if not (bit_and first 0x20 == 0)
    then read_string 3 (first ∷ rest) >>= spelled_field
    else err dynamic_reference

-- Behind the required insert count: it must be zero, and the base is read and left.
abbrev pub after_base : ℕ × List ℕ → Result (Option ℕ)
after_base (delta_base, rest) = walk field rest

abbrev pub after_count : ℕ × List ℕ → Result (Option ℕ)
after_count (count, rest) =
    if not (count == 0) then err dynamic_reference else read_int 7 rest >>= after_base

-- All of `find_status` but the fast path.
unfoldable pub find_slowly : List ℕ → Result (Option ℕ)
find_slowly section = read_int 8 section >>= after_count

-- What the fast path reads: an all-zero prefix and an indexed line of one byte.
abbrev pub fast_status : List ℕ → Option ℕ
fast_status (a ∷ b ∷ first ∷ rest) =
    if a == 0 && b == 0 && bit_and first 0xc0 == 0xc0 && not (bit_and first 0x3f == 0x3f)
    then status_for_index (bit_and first 0x3f)
    else none
fast_status section = none

abbrev pub fast_or_slow : Option ℕ → List ℕ → Result (Option ℕ)
fast_or_slow (some status) section = ok (some status)
fast_or_slow none section = find_slowly section

unfoldable pub find_status : List ℕ → Result (Option ℕ)
find_status section = fast_or_slow (fast_status section) section
