-- ===== src/Hpack.antt =====
-- src/http2/hpack.rs: the header block of a request, and the status in a response's.
pub mod Shortens
pub mod Blocks
pub mod Fields
pub mod Request
mod Runs
use shb.Common.{
  bytes_of, bytes_eq, ℕ, ◌+◌, ◌-◌, ◌*◌, ◌%◌, ◌^◌, ◌&&◌, Bool, true, false, not, List, [], ◌∷◌, ◌++◌,
  Option, none, some, ltb, leb, ◌==◌, if◌then◌else◌, length, get_elem?, bit_and, bit_or,
}
use shb.Status.{status_value}
use shb.Prefix.{
  Result, ok, err, ◌>>=◌, index_zero, dynamic_reference, encode_int, encode_str, decode_int,
  read_str, Step, status_found, next, walk, as_status, names_status, to_string,
}

abbrev pub u32_mod : ℕ
u32_mod = 4294967296

-- Static table entries whose name is ':status', by index.
abbrev pub status_by_index : List ℕ
status_by_index = 200 ∷ 204 ∷ 206 ∷ 304 ∷ 400 ∷ 404 ∷ 500 ∷ []

abbrev pub status_index_lo : ℕ
status_index_lo = 8

abbrev pub status_index_hi : ℕ
status_index_hi = 14

abbrev pub is_status_index : ℕ → Bool
is_status_index index = leb status_index_lo index && leb index status_index_hi

-- `s.len() as u32`.
abbrev pub string_literal : List ℕ → List ℕ
string_literal s = encode_int 7 0x00 (length s % u32_mod) ++ s

abbrev pub literal_indexed_name : ℕ → List ℕ → List ℕ
literal_indexed_name name_index value = encode_int 4 0x00 name_index ++ string_literal value

abbrev pub size_update : ℕ → List ℕ
size_update size = encode_int 5 0x20 size

abbrev pub literal : List ℕ → List ℕ → List ℕ
literal name value = 0x00 ∷ (string_literal name ++ string_literal value)

abbrev pub static_names : List (List ℕ × ℕ)
static_names =
    (bytes_of ":authority", 1)
    ∷ (bytes_of ":method", 2)
    ∷ (bytes_of ":path", 4)
    ∷ (bytes_of ":scheme", 6)
    ∷ (bytes_of ":status", 8)
    ∷ (bytes_of "accept-charset", 15)
    ∷ (bytes_of "accept-encoding", 16)
    ∷ (bytes_of "accept-language", 17)
    ∷ (bytes_of "accept-ranges", 18)
    ∷ (bytes_of "accept", 19)
    ∷ (bytes_of "access-control-allow-origin", 20)
    ∷ (bytes_of "age", 21)
    ∷ (bytes_of "allow", 22)
    ∷ (bytes_of "authorization", 23)
    ∷ (bytes_of "cache-control", 24)
    ∷ (bytes_of "content-disposition", 25)
    ∷ (bytes_of "content-encoding", 26)
    ∷ (bytes_of "content-language", 27)
    ∷ (bytes_of "content-length", 28)
    ∷ (bytes_of "content-location", 29)
    ∷ (bytes_of "content-range", 30)
    ∷ (bytes_of "content-type", 31)
    ∷ (bytes_of "cookie", 32)
    ∷ (bytes_of "date", 33)
    ∷ (bytes_of "etag", 34)
    ∷ (bytes_of "expect", 35)
    ∷ (bytes_of "expires", 36)
    ∷ (bytes_of "from", 37)
    ∷ (bytes_of "host", 38)
    ∷ (bytes_of "if-match", 39)
    ∷ (bytes_of "if-modified-since", 40)
    ∷ (bytes_of "if-none-match", 41)
    ∷ (bytes_of "if-range", 42)
    ∷ (bytes_of "if-unmodified-since", 43)
    ∷ (bytes_of "last-modified", 44)
    ∷ (bytes_of "link", 45)
    ∷ (bytes_of "location", 46)
    ∷ (bytes_of "max-forwards", 47)
    ∷ (bytes_of "proxy-authenticate", 48)
    ∷ (bytes_of "proxy-authorization", 49)
    ∷ (bytes_of "range", 50)
    ∷ (bytes_of "referer", 51)
    ∷ (bytes_of "refresh", 52)
    ∷ (bytes_of "retry-after", 53)
    ∷ (bytes_of "server", 54)
    ∷ (bytes_of "set-cookie", 55)
    ∷ (bytes_of "strict-transport-security", 56)
    ∷ (bytes_of "transfer-encoding", 57)
    ∷ (bytes_of "user-agent", 58)
    ∷ (bytes_of "vary", 59)
    ∷ (bytes_of "via", 60)
    ∷ (bytes_of "www-authenticate", 61)
    ∷ []

abbrev pub index_of : List (List ℕ × ℕ) → List ℕ → Option ℕ
index_of [] name = none
index_of ((known, index) ∷ table) name =
    if bytes_eq name known then some index else index_of table name

unfoldable pub static_name_index : List ℕ → Option ℕ
static_name_index name = index_of static_names name

abbrev pub method_field : List ℕ → List ℕ
method_field method =
    if bytes_eq method (bytes_of "GET")
    then 0x82 ∷ []
    else if bytes_eq method (bytes_of "POST")
    then 0x83 ∷ []
    else literal_indexed_name 2 method

abbrev pub scheme_field : List ℕ → List ℕ
scheme_field scheme =
    if bytes_eq scheme (bytes_of "http")
    then 0x86 ∷ []
    else if bytes_eq scheme (bytes_of "https")
    then 0x87 ∷ []
    else literal_indexed_name 6 scheme

abbrev pub path_field : List ℕ → List ℕ
path_field path = if bytes_eq path (bytes_of "/") then 0x84 ∷ [] else literal_indexed_name 4 path

abbrev pub named_field : Option ℕ → List ℕ → List ℕ → List ℕ
named_field none name value = literal name value
named_field (some index) name value = literal_indexed_name index value

abbrev pub header_fields : List (List ℕ × List ℕ) → List ℕ
header_fields [] = []
header_fields ((name, value) ∷ headers) =
    named_field (static_name_index name) name value ++ header_fields headers

abbrev pub length_field : ℕ → List ℕ
length_field body_len = if ltb 0 body_len then literal_indexed_name 28 (to_string body_len) else []

unfoldable pub encode_request :
    List ℕ → List ℕ → List ℕ → List ℕ → List (List ℕ × List ℕ) → ℕ → List ℕ
encode_request method scheme authority path headers body_len =
    method_field method
    ++ (scheme_field scheme
        ++ (literal_indexed_name 1 authority
            ++ (path_field path ++ (header_fields headers ++ length_field body_len))))

-- `decode_int` and `read_str` at 32 bits, where the shifts are 0, 7, 14 and 21.
abbrev pub read_int : ℕ → List ℕ → Result (ℕ × List ℕ)
read_int prefix_bits rest = decode_int u32_mod 21 prefix_bits rest

abbrev pub read_string : List ℕ → Result ((List ℕ × Bool) × List ℕ)
read_string rest = read_str u32_mod 21 7 rest

abbrev pub indexed_field : ℕ × List ℕ → Result Step
indexed_field (index, rest) =
    if is_status_index index
    then as_status (get_elem? status_by_index (index - status_index_lo))
    else if index == 0
    then err index_zero
    else if ltb 61 index
    then err dynamic_reference
    else ok (next rest)

-- The value of a field, and its status where the name is ':status'.
abbrev pub value_read : Bool → (List ℕ × Bool) × List ℕ → Result Step
value_read named_status ((value, huffman), left) =
    if named_status then as_status (status_value value huffman) else ok (next left)

abbrev pub value_field : Bool → List ℕ → Result Step
value_field named_status rest = read_string rest >>= value_read named_status

abbrev pub spelled_field : (List ℕ × Bool) × List ℕ → Result Step
spelled_field ((name, huffman), left) = value_field (names_status name huffman) left

abbrev pub literal_field : ℕ × List ℕ → Result Step
literal_field (name_index, rest) =
    if name_index == 0
    then read_string rest >>= spelled_field
    else if ltb 61 name_index
    then err dynamic_reference
    else value_field (is_status_index name_index) rest

-- A table size update, which no field follows.
abbrev pub passed_update : ℕ × List ℕ → Result Step
passed_update (size, left) = ok (next left)

unfoldable pub field : ℕ → List ℕ → Result Step
field first rest =
    if not (bit_and first 0x80 == 0)
    then read_int 7 (first ∷ rest) >>= indexed_field
    else if not (bit_and first 0x40 == 0)
    then read_int 6 (first ∷ rest) >>= literal_field
    else if not (bit_and first 0x20 == 0)
    then read_int 5 (first ∷ rest) >>= passed_update
    else read_int 4 (first ∷ rest) >>= literal_field

unfoldable pub find_status : List ℕ → Result (Option ℕ)
find_status block = walk field block
