-- ===== src/Http1/Bytes.antt =====
-- src/http1/parse.rs: the errors, and the functions on the bytes of a line.
use shb.Common.{
  ℕ, ◌&&◌, ◌||◌, Bool, true, false, List, [], ◌∷◌, ◌++◌, Option, none, some, leb, ◌==◌,
  if◌then◌else◌, length, take, bit_or,
}

pub data HttpError : Type 0 where
  not_http unsupported_version malformed_status_line invalid_status : HttpError
  switching_protocols conflicting_length empty_length invalid_length length_overflow : HttpError
  empty_chunk_size invalid_chunk_size chunk_size_overflow chunk_terminator : HttpError
  unterminated_parameter : HttpError
  -- Of the model alone: a loop that was cut off.
  out_of_fuel : HttpError

pub data Result {ℓ} (A : Type ℓ) : Type ℓ where
  ok : A → Result A
  err : HttpError → Result A

infixl 5 ◌>>=◌
abbrev pub ◌>>=◌ {ℓ κ} : {A : Type ℓ} {B : Type κ} → Result A → (A → Result B) → Result B
ok a >>= f = f a
err e >>= f = err e

-- `memchr(b'\n', ..)`: the bytes before the newline, and those behind it.
unfoldable pub next_line : List ℕ → Option (List ℕ × List ℕ)
next_line [] = none
next_line (c ∷ cs) =
    if c == b'\n'
    then some ([], cs)
    else elim (next_line cs) [ none ↦ none | some (line, rest) ↦ some (c ∷ line, rest) ]

abbrev pub trim_cr : List ℕ → List ℕ
trim_cr [] = []
trim_cr (c ∷ []) = if c == b'\r' then [] else c ∷ []
trim_cr (c ∷ d ∷ cs) = c ∷ trim_cr (d ∷ cs)

abbrev pub is_ows : ℕ → Bool
is_ows c = c == b' ' || c == b'\t'

abbrev pub trim_front : List ℕ → List ℕ
trim_front [] = []
trim_front (c ∷ cs) = if is_ows c then trim_front cs else c ∷ cs

abbrev pub trim_back : List ℕ → List ℕ
trim_back [] = []
trim_back (c ∷ cs) = elim (trim_back cs) [
  | [] ↦ if is_ows c then [] else c ∷ []
  | d ∷ ds ↦ c ∷ d ∷ ds
]

unfoldable pub trim_ows : List ℕ → List ℕ
trim_ows b = trim_back (trim_front b)

-- `a | 0x20 == b` at each byte of two slices, as far as both go.
abbrev pub folded_eq : List ℕ → List ℕ → Bool
folded_eq [] ys = true
folded_eq (x ∷ xs) [] = true
folded_eq (x ∷ xs) (y ∷ ys) = bit_or x 0x20 == y && folded_eq xs ys

unfoldable pub ci_eq : List ℕ → List ℕ → Bool
ci_eq a b = length a == length b && folded_eq a b

unfoldable pub ci_prefix : List ℕ → List ℕ → Bool
ci_prefix line name = leb (length name) (length line) && folded_eq (take (length name) line) name

-- `split(|&b| b == b',')`: `piece` is what stands before.
abbrev pub split_comma : List ℕ → List ℕ → List (List ℕ)
split_comma piece [] = piece ∷ []
split_comma piece (c ∷ cs) = elim (c == b',') [
  | true ↦ piece ∷ split_comma [] cs
  | false ↦ split_comma (piece ++ (c ∷ [])) cs
]
