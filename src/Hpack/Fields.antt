-- ===== src/Hpack/Fields.antt =====
-- `find_status` on a header block, against what the block says.
use shb.Common.{
  ℕ, ◌*◌, ◌%◌, ◌^◌, ◌<◌, ◌≡◌, refl, sym, ap, ◌∙◌, Bool, true, false, List, [], ◌∷◌, ◌++◌,
  append_assoc, Option, none, some, is_some, arith, length, ltb, ◌==◌, if◌then◌else◌, bit_and,
  bit_or, Bool-cases, inl, inr,
}
use native.Mathlib.Nat.{mod-eq_of_lt}
use shb.Status.{status_value}
use shb.Prefix.{Result, ok, ◌>>=◌, Step, walk, on_step, as_status, encode_int, encode_str}
use shb.Prefix.RoundTrip.{decode_int-encode_int, field_high}
use shb.Prefix.Strings.{encode_int-first, read_str-encode_str}
use shb.Prefix.Walk.{walk-nil}
use shb.Hpack.{
  u32_mod, is_status_index, indexed_field, value_field, literal_field, passed_update, read_int,
  read_string, field, find_status,
}
use shb.Prefix.Names.{Text, says_status, names_status-says}
use shb.Hpack.Blocks.{
  Form, entering, passing, never_indexed, HeaderField, indexed, named, spelled, resized, name_bits,
  form_mask, name_index, render_text, render, render_all, small, IsSmall, AllSmall, found,
  table_status, status_in, or_later, status_of, status_by_index-table_status, table_status_outside,
  is_status_index-table_status,
}
use shb.Hpack.Shortens.{find_status-field}

int_byte :
    (prefix_bits mask value : ℕ) (more : List ℕ) (f : ℕ × List ℕ → Result Step)
    → ((v : ℕ) (rest : List ℕ)
        → v < 2 ^ prefix_bits
        → field (bit_or mask v) rest ≡ (read_int prefix_bits (bit_or mask v ∷ rest) >>= f))
    → walk field (encode_int prefix_bits mask value ++ more)
      ≡ on_step
          (walk field)
          (read_int prefix_bits (encode_int prefix_bits mask value ++ more) >>= f)
int_byte prefix_bits mask value more f e =
    let (v, rest, shape, below) = encode_int-first prefix_bits mask value in
    rw shape (
      find_status-field (bit_or mask v) (rest ++ more)
      ∙ ap (on_step (walk field)) (e v (rest ++ more) below))

first_indexed :
    (v : ℕ) (rest : List ℕ)
    → v < 2 ^ 7
    → field (bit_or 0x80 v) rest ≡ (read_int 7 (bit_or 0x80 v ∷ rest) >>= indexed_field)
unfolding field
first_indexed v rest h =
    let high : bit_and (bit_or 0x80 v) 0x80 ≡ 0x80 = field_high 7 1 v 1 h in rw high refl

first_literal :
    (form : Form) (v : ℕ) (rest : List ℕ)
    → v < 2 ^ name_bits form
    → field (bit_or (form_mask form) v) rest
      ≡ (read_int (name_bits form) (bit_or (form_mask form) v ∷ rest) >>= literal_field)
unfolding field
first_literal entering v rest h =
    let top : bit_and (bit_or 0x40 v) 0x80 ≡ 0 = field_high 6 1 v 2 h in
    let second : bit_and (bit_or 0x40 v) 0x40 ≡ 0x40 = field_high 6 1 v 1 h in rw (top, second) refl
first_literal passing v rest h =
    let top : bit_and (bit_or 0 v) 0x80 ≡ 0 = field_high 4 0 v 8 h in
    let second : bit_and (bit_or 0 v) 0x40 ≡ 0 = field_high 4 0 v 4 h in
    let third : bit_and (bit_or 0 v) 0x20 ≡ 0 = field_high 4 0 v 2 h in rw (top, second, third) refl
first_literal never_indexed v rest h =
    let top : bit_and (bit_or 0x10 v) 0x80 ≡ 0 = field_high 4 1 v 8 h in
    let second : bit_and (bit_or 0x10 v) 0x40 ≡ 0 = field_high 4 1 v 4 h in
    let third : bit_and (bit_or 0x10 v) 0x20 ≡ 0 = field_high 4 1 v 2 h in
    rw (top, second, third) refl

first_update :
    (v : ℕ) (rest : List ℕ)
    → v < 2 ^ 5
    → field (bit_or 0x20 v) rest ≡ (read_int 5 (bit_or 0x20 v ∷ rest) >>= passed_update)
unfolding field
first_update v rest h =
    let top : bit_and (bit_or 0x20 v) 0x80 ≡ 0 = field_high 5 1 v 4 h in
    let second : bit_and (bit_or 0x20 v) 0x40 ≡ 0 = field_high 5 1 v 2 h in
    let third : bit_and (bit_or 0x20 v) 0x20 ≡ 0x20 = field_high 5 1 v 1 h in
    rw (top, second, third) refl

read_back :
    (prefix_bits high value : ℕ) (more : List ℕ)
    → value < small
    → read_int prefix_bits (encode_int prefix_bits (2 ^ prefix_bits * high) value ++ more)
      ≡ ok (value, more)
read_back prefix_bits high value more h =
    let bound : 128 ^ 4 ≡ small = refl in
    decode_int-encode_int 4 u32_mod 21 prefix_bits high value more (omega arith) (omega arith)
      (omega arith) (rw bound (omega arith)) (omega arith)

name_back :
    (form : Form) (index : ℕ) (more : List ℕ)
    → index < small
    → read_int (name_bits form) (name_index form index ++ more) ≡ ok (index, more)
name_back entering index more h = read_back 6 1 index more h
name_back passing index more h = read_back 4 0 index more h
name_back never_indexed index more h = read_back 4 1 index more h

string_back :
    (s : Text) (more : List ℕ)
    → length s.0 < small
    → read_string (render_text s ++ more) ≡ ok (s, more)
unfolding encode_str
string_back (s, false) more h =
    let bound : 128 ^ 4 ≡ small = refl in
    let len : length s % u32_mod ≡ length s = mod-eq_of_lt (omega arith) in
    rw len (
      read_str-encode_str 4 u32_mod 21 7 0 false s more (omega arith) (omega arith) (omega arith)
        (rw bound (omega arith)) (omega arith) refl)
string_back (s, true) more h =
    let bound : 128 ^ 4 ≡ small = refl in
    read_str-encode_str 4 u32_mod 21 7 1 true s more (omega arith) (omega arith) (omega arith)
      (rw bound (omega arith)) (omega arith) refl

found_step :
    (go : List ℕ → Result (Option ℕ)) (o : Option ℕ) (later : Result (Option ℕ))
    → on_step go (as_status o) ≡ or_later (found o) later
found_step go none later = refl
found_step go (some v) later = refl

entry_step :
    (go : List ℕ → Result (Option ℕ)) (o : Option ℕ) (later : Result (Option ℕ))
    → is_some o ≡ true
    → on_step go (as_status o) ≡ or_later (ok o) later
entry_step go none later h = absurd (cc)
entry_step go (some v) later h = refl

value_back :
    (is_status : Bool) (value : Text) (more : List ℕ)
    → length value.0 < small
    → on_step (walk field) (value_field is_status (render_text value ++ more))
      ≡ or_later
          (if is_status then found (status_value value.0 value.1) else ok none)
          (walk field more)
value_back true value more h =
    rw (string_back value more h)
      (found_step (walk field) (status_value value.0 value.1) (walk field more))
value_back false value more h = rw (string_back value more h) refl

-- The code asks first whether an entry is a status, and then whether it is in the table at all.
walk-indexed :
    (index : ℕ) (more : List ℕ)
    → index < small
    → walk field (render (indexed index) ++ more)
      ≡ or_later (status_in (indexed index)) (walk field more)
walk-indexed index more h =
    int_byte 7 0x80 index more indexed_field first_indexed
    ∙ rw (read_back 7 1 index more h) (elim (Bool-cases (is_status_index index)) [
      | inl s ↦
          let z : (index == 0) ≡ false = ground arith in
          let d : ltb 61 index ≡ false = ground arith in
          let there : is_some (table_status index) ≡ true =
            sym (is_status_index-table_status index) ∙ s in
          rw (s, z, d, status_by_index-table_status index s)
            (entry_step (walk field) (table_status index) (walk field more) there)
      | inr s ↦ elim (Bool-cases (index == 0)) [
        | inl z ↦ rw (s, z) refl
        | inr z ↦ elim (Bool-cases (ltb 61 index)) [
          | inl d ↦ rw (s, z, d) refl
          | inr d ↦ rw (s, z, d, table_status_outside index s) refl
        ]
      ]
    ])

walk-named :
    (form : Form) (index : ℕ) (value : Text) (more : List ℕ)
    → 0 < index
    → index < small
    → length value.0 < small
    → walk field (render (named form index value) ++ more)
      ≡ or_later (status_in (named form index value)) (walk field more)
walk-named form index value more positive h long =
    let some_name : (index == 0) ≡ false = ground arith in
    ap (walk field) (append_assoc (name_index form index) (render_text value) more)
    ∙ (int_byte (name_bits form) (form_mask form) index (render_text value ++ more) literal_field
          (first_literal form)
        ∙ rw (name_back form index (render_text value ++ more) h, some_name)
            (elim (Bool-cases (ltb 61 index)) [
              | inl d ↦ rw d refl
              | inr d ↦
                  rw (d, sym (is_status_index-table_status index))
                    (value_back (is_status_index index) value more long)
            ]))

walk-spelled :
    (form : Form) (name value : Text) (more : List ℕ)
    → length name.0 < small
    → length value.0 < small
    → walk field (render (spelled form name value) ++ more)
      ≡ or_later (status_in (spelled form name value)) (walk field more)
walk-spelled form name value more long_name long =
    ap (walk field) (
      append_assoc (name_index form 0) (render_text name ++ render_text value) more
      ∙ ap (λ (x : List ℕ). name_index form 0 ++ x)
          (append_assoc (render_text name) (render_text value) more))
    ∙ (int_byte (name_bits form) (form_mask form) 0
          (render_text name ++ (render_text value ++ more)) literal_field (first_literal form)
        ∙ rw
            (
              name_back form 0 (render_text name ++ (render_text value ++ more)) (omega arith),
              string_back name (render_text value ++ more) long_name,
              names_status-says name,
            )
            (value_back (says_status name) value more long))

walk-resized :
    (size : ℕ) (more : List ℕ)
    → size < small
    → walk field (render (resized size) ++ more) ≡ walk field more
walk-resized size more h =
    int_byte 5 0x20 size more passed_update first_update ∙ rw (read_back 5 1 size more h) refl

pub walk-render :
    (f : HeaderField) (more : List ℕ)
    → IsSmall f
    → walk field (render f ++ more) ≡ or_later (status_in f) (walk field more)
walk-render (indexed index) more h = walk-indexed index more h
walk-render (named form index value) more (positive, h, long) =
    walk-named form index value more positive h long
walk-render (spelled form name value) more (h, long) = walk-spelled form name value more h long
walk-render (resized size) more h = walk-resized size more h

-- A block of fields in any form that a peer can send (entries of the table, literals with or without
-- a name of the table, that enter the dynamic table or not, with strings plain or in the Huffman code,
-- and table sizes), with every index and length below 2^28 and no name index zero: `find_status` gives
-- the first status among them, or the first error, and steps over every other field, whatever its
-- bytes are.
pub find_status-render_all :
    (fs : List HeaderField) → AllSmall fs → find_status (render_all fs) ≡ status_of fs
unfolding find_status
find_status-render_all [] h = walk-nil field
find_status-render_all (f ∷ fs) (h, hs) =
    walk-render f (render_all fs) h ∙ ap (or_later (status_in f)) (find_status-render_all fs hs)
