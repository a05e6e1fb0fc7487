-- ===== src/Qpack/Request.antt =====
-- The field section of a request: the lines that it is.
use shb.Common.{
  bytes_of, bytes_eq, ℕ, ◌≡◌, refl, sym, ap, ◌∙◌, false, List, [], ◌∷◌, ◌++◌, append_assoc,
  append-nil, Option, none, some, ltb, if◌then◌else◌, Bool-cases, inl, inr,
}
use shb.Prefix.{to_string}
use shb.Qpack.{
  method_index, scheme_index, literal_named, indexed_or, path_line, header_lines, length_line,
  encode_request,
}
use shb.Prefix.Names.{verbatim}
use shb.Qpack.Lines.{Line, static_entry, static_name, in_full, written, written_all}

abbrev pub entry_or : Option ℕ → List ℕ → List ℕ → Line
entry_or (some index) name value = static_entry index
entry_or none name value = in_full false (verbatim name) (verbatim value)

abbrev pub path_as_line : List ℕ → Line
path_as_line path =
    if bytes_eq path (bytes_of "/")
    then static_entry 1
    else in_full false (verbatim (bytes_of ":path")) (verbatim path)

abbrev pub headers_as_lines : List (List ℕ × List ℕ) → List Line
headers_as_lines [] = []
headers_as_lines ((name, value) ∷ headers) =
    in_full false (verbatim name) (verbatim value) ∷ headers_as_lines headers

abbrev pub length_as_lines : ℕ → List Line
length_as_lines body_len =
    if ltb 0 body_len then static_name false 4 (verbatim (to_string body_len)) ∷ [] else []

-- The lines of a request: the pseudo-headers first.
abbrev pub request_lines :
    List ℕ → List ℕ → List ℕ → List ℕ → List (List ℕ × List ℕ) → ℕ → List Line
request_lines method scheme authority path headers body_len =
    entry_or (method_index method) (bytes_of ":method") method
    ∷ entry_or (scheme_index scheme) (bytes_of ":scheme") scheme
    ∷ static_name false 0 (verbatim authority)
    ∷ path_as_line path
    ∷ (headers_as_lines headers ++ length_as_lines body_len)

or-written :
    (index : Option ℕ) (name value : List ℕ)
    → indexed_or index name value ≡ written (entry_or index name value)
or-written none name value = refl
or-written (some index) name value = refl

path-written : (path : List ℕ) → path_line path ≡ written (path_as_line path)
path-written path = elim (Bool-cases (bytes_eq path (bytes_of "/"))) [
  | inl h ↦ rw h refl
  | inr h ↦ rw h refl
]

headers-written :
    (headers : List (List ℕ × List ℕ))
    → header_lines headers ≡ written_all (headers_as_lines headers)
headers-written [] = refl
headers-written ((name, value) ∷ headers) = rw (headers-written headers) refl

length-written : (body_len : ℕ) → length_line body_len ≡ written_all (length_as_lines body_len)
length-written body_len = elim (Bool-cases (ltb 0 body_len)) [
  | inl h ↦ rw h (sym (append-nil (literal_named 4 (to_string body_len))))
  | inr h ↦ rw h refl
]

written_all-append : (ls ms : List Line) → written_all (ls ++ ms) ≡ written_all ls ++ written_all ms
written_all-append [] ms = refl
written_all-append (l ∷ ls) ms =
    ap (λ (x : List ℕ). written l ++ x) (written_all-append ls ms)
    ∙ sym (append_assoc (written l) (written_all ls) (written_all ms))

-- `encode_request` writes the two zero bytes of the prefix, and then the lines of the request in
-- their order, none of which refers to a dynamic table.
pub encode_request-written_all :
    (method scheme authority path : List ℕ) (headers : List (List ℕ × List ℕ)) (body_len : ℕ)
    → encode_request method scheme authority path headers body_len
      ≡ 0 ∷ 0 ∷ written_all (request_lines method scheme authority path headers body_len)
unfolding encode_request
encode_request-written_all method scheme authority path headers body_len =
    rw
      (
        or-written (method_index method) (bytes_of ":method") method,
        or-written (scheme_index scheme) (bytes_of ":scheme") scheme,
        path-written path,
        headers-written headers,
        length-written body_len,
        written_all-append (headers_as_lines headers) (length_as_lines body_len),
      )
      refl
