-- ===== src/Qpack/Lines.antt =====
-- What a field section says, in every form of a field line that a peer can send (RFC 9204,
-- section 4.5), and the status that it gives.
use shb.Common.{
  ℕ, ◌+◌, ◌-◌, ◌<◌, ◌≡◌, refl, Bool, true, false, List, [], ◌∷◌, ◌++◌, ◌&&◌, leb, Option, none,
  some, is_some, zero, suc, arith, length, get_elem?, if◌then◌else◌, Bool-cases, inl, inr,
}
use shb.Status.{status_value}
use shb.Prefix.{Result, ok, err, dynamic_reference, bad_status, encode_int, encode_str}
use shb.Prefix.Names.{Text, says_status}
use shb.Qpack.{status_for_index}

-- An entry of the static or the dynamic table, a value under a name of one of them, a name and a
-- value spelled out, or entries and names of the dynamic table behind the base. The flag of a literal
-- says that no hop may index it.
pub data Line : Type 0 where
  static_entry : ℕ → Line
  dynamic_entry : ℕ → Line
  static_name : Bool → ℕ → Text → Line
  dynamic_name : Bool → ℕ → Text → Line
  in_full : Bool → Text → Text → Line
  post_base_entry : ℕ → Line
  post_base_name : Bool → ℕ → Text → Line

-- The bits 01, the flag, and which table.
abbrev pub name_mask : Bool → Bool → ℕ
name_mask static_table false = if static_table then 0x50 else 0x40
name_mask static_table true = if static_table then 0x70 else 0x60

-- The bits 001, the flag, and whether the name is in the Huffman code.
abbrev pub full_mask : Bool → Bool → ℕ
full_mask false huffman = if huffman then 0x28 else 0x20
full_mask true huffman = if huffman then 0x38 else 0x30

abbrev pub post_mask : Bool → ℕ
post_mask never = if never then 0x08 else 0x00

abbrev pub value_text : Text → List ℕ
value_text value = encode_str 7 (if value.1 then 0x80 else 0x00) value.0

abbrev pub written : Line → List ℕ
written (static_entry index) = encode_int 6 0xc0 index
written (dynamic_entry index) = encode_int 6 0x80 index
written (static_name never index value) =
    encode_int 4 (name_mask true never) index ++ value_text value
written (dynamic_name never index value) =
    encode_int 4 (name_mask false never) index ++ value_text value
written (in_full never name value) =
    encode_str 3 (full_mask never name.1) name.0 ++ value_text value
written (post_base_entry index) = encode_int 4 0x10 index
written (post_base_name never index value) =
    encode_int 3 (post_mask never) index ++ value_text value

abbrev pub written_all : List Line → List ℕ
written_all [] = []
written_all (l ∷ ls) = written l ++ written_all ls

-- What nine bytes behind a prefix hold.
abbrev pub room : ℕ
room = 9223372036854775808

abbrev pub Fits : Line → Type 0
Fits (static_entry index) = index < room
Fits (dynamic_entry index) = index < room
Fits (static_name never index value) = (index < room) × (length value.0 < room)
Fits (dynamic_name never index value) = (index < room) × (length value.0 < room)
Fits (in_full never name value) = (length name.0 < room) × (length value.0 < room)
Fits (post_base_entry index) = index < room
Fits (post_base_name never index value) = (index < room) × (length value.0 < room)

abbrev pub AllFit : List Line → Type 0
AllFit [] = Unit
AllFit (l ∷ ls) = Fits l × AllFit ls

-- The entries of the static table under ':status' (RFC 9204, appendix A): 24 to 28 and 63 to 71.
abbrev low_entries : List ℕ
low_entries = 103 ∷ 200 ∷ 304 ∷ 404 ∷ 503 ∷ []

abbrev high_entries : List ℕ
high_entries = 100 ∷ 204 ∷ 206 ∷ 302 ∷ 400 ∷ 403 ∷ 421 ∷ 425 ∷ 500 ∷ []

abbrev pub table_status : ℕ → Option ℕ
table_status index =
    if leb 24 index && leb index 28
    then get_elem? low_entries (index - 24)
    else if leb 63 index && leb index 71
    then get_elem? high_entries (index - 63)
    else none

abbrev pub given : Option ℕ → Result (Option ℕ)
given none = err bad_status
given (some status) = ok (some status)

-- The status that a line gives: an error, none yet, or the status. Nothing was ever inserted into the
-- dynamic table.
abbrev pub status_on : Line → Result (Option ℕ)
status_on (static_entry index) = ok (table_status index)
status_on (dynamic_entry index) = err dynamic_reference
status_on (static_name never index value) =
    if is_some (table_status index) then given (status_value value.0 value.1) else ok none
status_on (dynamic_name never index value) = err dynamic_reference
status_on (in_full never name value) =
    if says_status name then given (status_value value.0 value.1) else ok none
status_on (post_base_entry index) = err dynamic_reference
status_on (post_base_name never index value) = err dynamic_reference

-- The first line that gives a status or an error.
abbrev pub unless_given : Result (Option ℕ) → Result (Option ℕ) → Result (Option ℕ)
unless_given (err e) later = err e
unless_given (ok (some status)) later = ok (some status)
unless_given (ok none) later = later

abbrev pub first_status : List Line → Result (Option ℕ)
first_status [] = ok none
first_status (l ∷ ls) = unless_given (status_on l) (first_status ls)

low_place : (k : ℕ) → k < 5 → status_for_index (24 + k) ≡ get_elem? low_entries k
unfolding status_for_index
low_place zero h = refl
low_place (suc zero) h = refl
low_place (suc (suc zero)) h = refl
low_place (suc (suc (suc zero))) h = refl
low_place (suc (suc (suc (suc zero)))) h = refl
low_place (suc (suc (suc (suc (suc k))))) h = absurd (omega arith)

high_place : (k : ℕ) → k < 9 → status_for_index (63 + k) ≡ get_elem? high_entries k
unfolding status_for_index
high_place zero h = refl
high_place (suc zero) h = refl
high_place (suc (suc zero)) h = refl
high_place (suc (suc (suc zero))) h = refl
high_place (suc (suc (suc (suc zero)))) h = refl
high_place (suc (suc (suc (suc (suc zero))))) h = refl
high_place (suc (suc (suc (suc (suc (suc zero)))))) h = refl
high_place (suc (suc (suc (suc (suc (suc (suc zero))))))) h = refl
high_place (suc (suc (suc (suc (suc (suc (suc (suc zero)))))))) h = refl
high_place (suc (suc (suc (suc (suc (suc (suc (suc (suc k))))))))) h = absurd (omega arith)

no_place :
    (index : ℕ)
    → (leb 24 index && leb index 28) ≡ false
    → (leb 63 index && leb index 71) ≡ false
    → status_for_index index ≡ none
unfolding status_for_index
no_place index h k = ground arith

-- The code's list is the part of the static table under ':status'.
pub status_for_index-table_status : (index : ℕ) → status_for_index index ≡ table_status index
status_for_index-table_status index = elim (Bool-cases (leb 24 index && leb index 28)) [
  | inl low ↦
      let whole : 24 + (index - 24) ≡ index = ground arith in
      rw low (rw whole at (low_place (index - 24) (ground arith)))
  | inr past ↦ elim (Bool-cases (leb 63 index && leb index 71)) [
    | inl high ↦
        let whole : 63 + (index - 63) ≡ index = ground arith in
        rw (past, high) (rw whole at (high_place (index - 63) (ground arith)))
    | inr none_there ↦ rw (past, none_there) (no_place index past none_there)
  ]
]
