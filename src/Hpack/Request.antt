-- ===== src/Hpack/Request.antt =====
-- The block of a request: the fields that it renders.
use shb.Common.{
  bytes_of, bytes_eq, ℕ, ◌≡◌, refl, sym, ap, ◌∙◌, List, [], ◌∷◌, ◌++◌, append_assoc, append-nil,
  Option, none, some, ltb, if◌then◌else◌, Bool-cases, inl, inr,
}
use shb.Prefix.{encode_int, to_string}
use shb.Hpack.{
  string_literal, literal_indexed_name, static_name_index, method_field, scheme_field, path_field,
  named_field, header_fields, length_field, encode_request,
}
use shb.Prefix.Names.{verbatim}
use shb.Hpack.Blocks.{HeaderField, passing, indexed, named, spelled, render, render_all}

abbrev pub method_of : List ℕ → HeaderField
method_of method =
    if bytes_eq method (bytes_of "GET")
    then indexed 2
    else if bytes_eq method (bytes_of "POST")
    then indexed 3
    else named passing 2 (verbatim method)

abbrev pub scheme_of : List ℕ → HeaderField
scheme_of scheme =
    if bytes_eq scheme (bytes_of "http")
    then indexed 6
    else if bytes_eq scheme (bytes_of "https")
    then indexed 7
    else named passing 6 (verbatim scheme)

abbrev pub path_of : List ℕ → HeaderField
path_of path = if bytes_eq path (bytes_of "/") then indexed 4 else named passing 4 (verbatim path)

abbrev pub under_name : Option ℕ → List ℕ → List ℕ → HeaderField
under_name none name value = spelled passing (verbatim name) (verbatim value)
under_name (some index) name value = named passing index (verbatim value)

abbrev pub headers_of : List (List ℕ × List ℕ) → List HeaderField
headers_of [] = []
headers_of ((name, value) ∷ headers) =
    under_name (static_name_index name) name value ∷ headers_of headers

abbrev pub length_of : ℕ → List HeaderField
length_of body_len =
    if ltb 0 body_len then named passing 28 (verbatim (to_string body_len)) ∷ [] else []

-- The fields of a request: the pseudo-headers first, in the order of RFC 9113.
abbrev pub request_fields :
    List ℕ → List ℕ → List ℕ → List ℕ → List (List ℕ × List ℕ) → ℕ → List HeaderField
request_fields method scheme authority path headers body_len =
    method_of method
    ∷ scheme_of scheme
    ∷ named passing 1 (verbatim authority)
    ∷ path_of path
    ∷ (headers_of headers ++ length_of body_len)

method-render : (method : List ℕ) → method_field method ≡ render (method_of method)
unfolding encode_int
method-render method = elim (Bool-cases (bytes_eq method (bytes_of "GET"))) [
  | inl g ↦ rw g refl
  | inr g ↦ elim (Bool-cases (bytes_eq method (bytes_of "POST"))) [
    | inl p ↦ rw (g, p) refl
    | inr p ↦ rw (g, p) refl
  ]
]

scheme-render : (scheme : List ℕ) → scheme_field scheme ≡ render (scheme_of scheme)
unfolding encode_int
scheme-render scheme = elim (Bool-cases (bytes_eq scheme (bytes_of "http"))) [
  | inl g ↦ rw g refl
  | inr g ↦ elim (Bool-cases (bytes_eq scheme (bytes_of "https"))) [
    | inl p ↦ rw (g, p) refl
    | inr p ↦ rw (g, p) refl
  ]
]

path-render : (path : List ℕ) → path_field path ≡ render (path_of path)
unfolding encode_int
path-render path = elim (Bool-cases (bytes_eq path (bytes_of "/"))) [
  | inl g ↦ rw g refl
  | inr g ↦ rw g refl
]

render_all-append :
    (fs gs : List HeaderField) → render_all (fs ++ gs) ≡ render_all fs ++ render_all gs
render_all-append [] gs = refl
render_all-append (f ∷ fs) gs =
    ap (λ (x : List ℕ). render f ++ x) (render_all-append fs gs)
    ∙ sym (append_assoc (render f) (render_all fs) (render_all gs))

zero_byte : 0x00 ∷ [] ≡ encode_int 4 0x00 0
unfolding encode_int
zero_byte = refl

named-render :
    (index : Option ℕ) (name value : List ℕ)
    → named_field index name value ≡ render (under_name index name value)
named-render none name value =
    ap (λ (x : List ℕ). x ++ (string_literal name ++ string_literal value)) zero_byte
named-render (some index) name value = refl

headers-render :
    (headers : List (List ℕ × List ℕ)) → header_fields headers ≡ render_all (headers_of headers)
headers-render [] = refl
headers-render ((name, value) ∷ headers) =
    rw (named-render (static_name_index name) name value, headers-render headers) refl

length-render : (body_len : ℕ) → length_field body_len ≡ render_all (length_of body_len)
length-render body_len = elim (Bool-cases (ltb 0 body_len)) [
  | inl h ↦ rw h (sym (append-nil (literal_indexed_name 28 (to_string body_len))))
  | inr h ↦ rw h refl
]

-- `encode_request` renders the fields of the request, in their order.
pub encode_request-render_all :
    (method scheme authority path : List ℕ) (headers : List (List ℕ × List ℕ)) (body_len : ℕ)
    → encode_request method scheme authority path headers body_len
      ≡ render_all (request_fields method scheme authority path headers body_len)
unfolding encode_request
encode_request-render_all method scheme authority path headers body_len =
    rw
      (
        method-render method,
        scheme-render scheme,
        path-render path,
        headers-render headers,
        length-render body_len,
        render_all-append (headers_of headers) (length_of body_len),
      )
      refl
