-- ===== src/Hpack/Blocks.antt =====
-- What a header block says, in every form that a peer can send (RFC 7541, section 6), and the status
-- that it gives.
use shb.Common.{
  ℕ, ◌+◌, ◌-◌, ◌<◌, ◌≡◌, refl, true, false, List, [], ◌∷◌, ◌++◌, Option, none, some, is_some, zero,
  suc, arith, length, get_elem?, ltb, ◌==◌, if◌then◌else◌,
}
use shb.Status.{status_value}
use shb.Prefix.{Result, ok, err, index_zero, dynamic_reference, bad_status, encode_int}
use shb.Prefix.Names.{Text, says_status}
use shb.Hpack.{is_status_index, status_by_index, status_index_lo, string_literal}

-- A literal field may enter the dynamic table, stay out of it, or have to stay out on every hop.
pub data Form : Type 0 where
  entering passing never_indexed : Form

-- What a field says: an entry of the table, a value under a name of the table, a name and a value
-- spelled out, or a new size of the table.
pub data HeaderField : Type 0 where
  indexed : ℕ → HeaderField
  named : Form → ℕ → Text → HeaderField
  spelled : Form → Text → Text → HeaderField
  resized : ℕ → HeaderField

abbrev pub name_bits : Form → ℕ
name_bits entering = 6
name_bits passing = 4
name_bits never_indexed = 4

abbrev pub form_mask : Form → ℕ
form_mask entering = 0x40
form_mask passing = 0x00
form_mask never_indexed = 0x10

abbrev pub name_index : Form → ℕ → List ℕ
name_index form index = encode_int (name_bits form) (form_mask form) index

abbrev pub render_text : Text → List ℕ
render_text (s, false) = string_literal s
render_text (s, true) = encode_int 7 0x80 (length s) ++ s

abbrev pub render : HeaderField → List ℕ
render (indexed index) = encode_int 7 0x80 index
render (named form index value) = name_index form index ++ render_text value
render (spelled form name value) = name_index form 0 ++ (render_text name ++ render_text value)
render (resized size) = encode_int 5 0x20 size

abbrev pub render_all : List HeaderField → List ℕ
render_all [] = []
render_all (f ∷ fs) = render f ++ render_all fs

-- What four bytes behind a prefix hold.
abbrev pub small : ℕ
small = 268435456

abbrev pub IsSmall : HeaderField → Type 0
IsSmall (indexed index) = index < small
IsSmall (named form index value) = (0 < index) × (index < small) × (length value.0 < small)
IsSmall (spelled form name value) = (length name.0 < small) × (length value.0 < small)
IsSmall (resized size) = size < small

abbrev pub AllSmall : List HeaderField → Type 0
AllSmall [] = Unit
AllSmall (f ∷ fs) = IsSmall f × AllSmall fs

abbrev pub found : Option ℕ → Result (Option ℕ)
found none = err bad_status
found (some status) = ok (some status)

-- The entries 8 to 14 of the static table (RFC 7541, appendix A) are those under ':status'.
abbrev pub table_status : ℕ → Option ℕ
table_status index =
    if index == 8
    then some 200
    else if index == 9
    then some 204
    else if index == 10
    then some 206
    else if index == 11
    then some 304
    else if index == 12
    then some 400
    else if index == 13
    then some 404
    else if index == 14
    then some 500
    else none

-- The status that a field gives: an error, none yet, or the status.
abbrev pub status_in : HeaderField → Result (Option ℕ)
status_in (indexed index) =
    if index == 0
    then err index_zero
    else if ltb 61 index
    then err dynamic_reference
    else ok (table_status index)
status_in (named form index value) =
    if ltb 61 index
    then err dynamic_reference
    else if is_some (table_status index)
    then found (status_value value.0 value.1)
    else ok none
status_in (spelled form name value) =
    if says_status name then found (status_value value.0 value.1) else ok none
status_in (resized size) = ok none

-- A field, and then those that follow it, where it gives none.
abbrev pub or_later : Result (Option ℕ) → Result (Option ℕ) → Result (Option ℕ)
or_later (err e) later = err e
or_later (ok (some status)) later = ok (some status)
or_later (ok none) later = later

-- The first field that gives a status or an error.
abbrev pub status_of : List HeaderField → Result (Option ℕ)
status_of [] = ok none
status_of (f ∷ fs) = or_later (status_in f) (status_of fs)

at_place : (k : ℕ) → k < 7 → get_elem? status_by_index k ≡ table_status (8 + k)
at_place zero h = refl
at_place (suc zero) h = refl
at_place (suc (suc zero)) h = refl
at_place (suc (suc (suc zero))) h = refl
at_place (suc (suc (suc (suc zero)))) h = refl
at_place (suc (suc (suc (suc (suc zero))))) h = refl
at_place (suc (suc (suc (suc (suc (suc zero)))))) h = refl
at_place (suc (suc (suc (suc (suc (suc (suc k))))))) h = absurd (omega arith)

-- The code's list is the part of the static table under ':status'.
pub status_by_index-table_status :
    (index : ℕ)
    → is_status_index index ≡ true
    → get_elem? status_by_index (index - status_index_lo) ≡ table_status index
status_by_index-table_status index h =
    let whole : 8 + (index - 8) ≡ index = ground arith in
    rw whole at (at_place (index - 8) (ground arith))

pub table_status_outside : (index : ℕ) → is_status_index index ≡ false → table_status index ≡ none
table_status_outside index h = ground arith

pub is_status_index-table_status :
    (index : ℕ) → is_status_index index ≡ is_some (table_status index)
is_status_index-table_status index = ground arith
