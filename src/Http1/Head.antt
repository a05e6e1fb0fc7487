-- ===== src/Http1/Head.antt =====
-- src/http1/parse.rs: the status line and the header lines that `scan_head` reads.
use shb.Common.{
  bytes_eq, ℕ, ◌&&◌, ◌||◌, Bool, true, false, not, List, [], ◌∷◌, ◌++◌, Option, none, some, ltb,
  ◌==◌, if◌then◌else◌, length, take, drop, get_elem?, bit_or,
}
use shb.Http1.Bytes.{
  Result, ok, err, ◌>>=◌, trim_ows, ci_eq, ci_prefix, split_comma, not_http, unsupported_version,
  malformed_status_line, conflicting_length, unterminated_parameter,
}
use shb.Http1.Numbers.{parse_status, parse_u64}

pub data Body : Type 0 where
  exact : ℕ → Body
  chunk_size : Body
  chunk : ℕ → Body
  trailers : Body
  eof : Body

-- The source's `Head`.
pub record HeadFields : Type 0 where
  pub content_length : Option ℕ
  pub status : ℕ
  pub http_1_0 : Bool
  pub te_present : Bool
  pub te_chunked : Bool
  pub close : Bool
  pub keep_alive_token : Bool

pub record ResponseHead : Type 0 where
  pub status : ℕ
  pub body : Body
  pub keep_alive : Bool

-- An index into the line and the newline behind it.
abbrev pub byte_at : List ℕ → ℕ → ℕ
byte_at line i = elim (get_elem? line i) [ none ↦ b'\n' | some c ↦ c ]

-- 'HTTP/1.'
abbrev pub version_prefix : List ℕ
version_prefix = b'H' ∷ b'T' ∷ b'T' ∷ b'P' ∷ b'/' ∷ b'1' ∷ b'.' ∷ []

-- `match buf[7]`.
abbrev pub minor_version : ℕ → Result Bool
minor_version c =
    if c == b'0' then ok true else if c == b'1' then ok false else err unsupported_version

abbrev pub started : Bool → ℕ → HeadFields
started http_1_0 status = record {
  content_length = none;
  status = status;
  http_1_0 = http_1_0;
  te_present = false;
  te_chunked = false;
  close = false;
  keep_alive_token = false;
}

unfoldable pub status_line : List ℕ → Result HeadFields
unfolding parse_status
status_line line =
    if ltb (length line) 12 || not (bytes_eq (take 7 line) version_prefix)
    then err not_http
    else minor_version (byte_at line 7) >>= λ http_1_0.
        if not (byte_at line 8 == b' ')
        then err malformed_status_line
        else parse_status (byte_at line 9) (byte_at line 10) (byte_at line 11) >>= λ status.
            if byte_at line 12 == b' ' || byte_at line 12 == b'\r' || byte_at line 12 == b'\n'
            then ok (started http_1_0 status)
            else err malformed_status_line

-- 'content-length:', 'connection:', 'transfer-encoding:', 'close', 'keep-alive', 'chunked'
abbrev pub content_length_name : List ℕ
content_length_name =
    b'c' ∷ b'o' ∷ b'n' ∷ b't' ∷ b'e' ∷ b'n' ∷ b't' ∷ b'-' ∷ b'l' ∷ b'e' ∷ b'n' ∷ b'g' ∷ b't' ∷ b'h'
    ∷ b':' ∷ []

abbrev pub connection_name : List ℕ
connection_name = b'c' ∷ b'o' ∷ b'n' ∷ b'n' ∷ b'e' ∷ b'c' ∷ b't' ∷ b'i' ∷ b'o' ∷ b'n' ∷ b':' ∷ []

abbrev pub transfer_encoding_name : List ℕ
transfer_encoding_name =
    b't' ∷ b'r' ∷ b'a' ∷ b'n' ∷ b's' ∷ b'f' ∷ b'e' ∷ b'r' ∷ b'-' ∷ b'e' ∷ b'n' ∷ b'c' ∷ b'o' ∷ b'd'
    ∷ b'i' ∷ b'n' ∷ b'g' ∷ b':' ∷ []

abbrev pub close_token : List ℕ
close_token = b'c' ∷ b'l' ∷ b'o' ∷ b's' ∷ b'e' ∷ []

abbrev pub keep_alive_name : List ℕ
keep_alive_name = b'k' ∷ b'e' ∷ b'e' ∷ b'p' ∷ b'-' ∷ b'a' ∷ b'l' ∷ b'i' ∷ b'v' ∷ b'e' ∷ []

abbrev pub chunked_token : List ℕ
chunked_token = b'c' ∷ b'h' ∷ b'u' ∷ b'n' ∷ b'k' ∷ b'e' ∷ b'd' ∷ []

-- The loop over the tokens of `Connection`.
abbrev pub read_tokens : HeadFields → List (List ℕ) → HeadFields
unfolding trim_ows ci_eq
read_tokens h [] = h
read_tokens h (token ∷ tokens) =
    read_tokens
      (if ci_eq (trim_ows token) close_token
        then record h { close = true }
        else if ci_eq (trim_ows token) keep_alive_name
        then record h { keep_alive_token = true }
        else h)
      tokens

-- Whether a coding is `chunked`, if there is one.
abbrev pub note_coding : Option Bool → List ℕ → Option Bool
unfolding ci_eq
note_coding last [] = last
note_coding last (c ∷ cs) = some (ci_eq (c ∷ cs) chunked_token)

-- The loop of `final_coding`; `piece` is `value[start..i]`.
unfoldable pub codings : Option Bool → List ℕ → Bool → Bool → List ℕ → Result (Option Bool)
unfolding note_coding trim_ows
codings last piece quoted escaped [] =
    if quoted then err unterminated_parameter else ok (note_coding last (trim_ows piece))
codings last piece quoted escaped (c ∷ cs) =
    let plain = codings last (piece ++ (c ∷ [])) quoted false cs in
    let escape = codings last (piece ++ (c ∷ [])) quoted true cs in
    let quote = codings last (piece ++ (c ∷ [])) (not quoted) false cs in
    let next = codings (note_coding last (trim_ows piece)) [] quoted false cs in
    if escaped
    then plain
    else if quoted && c == b'\\'
    then escape
    else if c == b'"'
    then quote
    else if not quoted && c == b','
    then next
    else plain

unfoldable pub final_coding : List ℕ → Result (Option Bool)
unfolding codings trim_ows ci_eq
final_coding value =
    if ci_eq (trim_ows value) chunked_token
    then ok (some true)
    else codings none [] false false (trim_ows value)

abbrev pub disagrees : Option ℕ → ℕ → Bool
disagrees none n = false
disagrees (some prev) n = not (prev == n)

abbrev pub set_length : HeadFields → ℕ → Result HeadFields
set_length h n =
    if disagrees h.content_length n
    then err conflicting_length
    else ok (record h { content_length = some n })

abbrev pub set_coding : HeadFields → Option Bool → HeadFields
set_coding h none = record h { te_present = true }
set_coding h (some chunked) = record h { te_present = true; te_chunked = chunked }

-- `line[0] | 0x20`, of a line that is not empty.
abbrev pub first_folded : List ℕ → ℕ
first_folded line = bit_or (byte_at line 0) 0x20

unfoldable pub header_line : HeadFields → List ℕ → Result HeadFields
unfolding parse_u64 trim_ows ci_prefix read_tokens final_coding
header_line h line =
    if first_folded line == b'c' && ci_prefix line content_length_name
    then (parse_u64 (trim_ows (drop 15 line)) >>= λ n. set_length h n)
    else if first_folded line == b'c' && ci_prefix line connection_name
    then ok (read_tokens h (split_comma [] (drop 11 line)))
    else if first_folded line == b't' && ci_prefix line transfer_encoding_name
    then (final_coding (drop 18 line) >>= λ coding. ok (set_coding h coding))
    else ok h

abbrev pub body_of : HeadFields → Body
body_of h =
    if h.te_present
    then (if h.te_chunked then chunk_size else eof)
    else elim h.content_length [ none ↦ eof | some n ↦ exact n ]

abbrev pub complete : HeadFields → ResponseHead
complete h = record {
  status = h.status;
  body = body_of h;
  keep_alive =
      if h.http_1_0 then h.keep_alive_token && (not h.close && not h.te_present) else not h.close;
}
