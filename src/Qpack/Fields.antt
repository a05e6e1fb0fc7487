-- ===== src/Qpack/Fields.antt =====
-- `find_status` on a field section, against what the section says.
use shb.Common.{
  ℕ, ◌*◌, ◌^◌, ◌<◌, ◌≡◌, refl, sym, ap, ◌∙◌, Bool, true, false, List, [], ◌∷◌, ◌++◌, append_assoc,
  Option, none, some, arith, length, if◌then◌else◌, bit_and, bit_or, u64_mod, is_some,
}
use shb.Status.{status_value}
use shb.Prefix.{
  Result, ok, err, ◌>>=◌, dynamic_reference, Step, walk, on_step, as_status, encode_int, encode_str,
}
use shb.Prefix.RoundTrip.{decode_int-encode_int}
use shb.Prefix.Strings.{encode_int-first, read_str-encode_str}
use shb.Prefix.Walk.{walk-nil}
use shb.Qpack.{
  read_int, read_string, status_or_next, indexed_field, value_field, named_line, spelled_field,
  field, find_status,
}
use shb.Prefix.Names.{Text, says_status, names_status-says}
use shb.Qpack.Lines.{
  Line, static_entry, dynamic_entry, static_name, dynamic_name, in_full, post_base_entry,
  post_base_name, name_mask, full_mask, post_mask, value_text, written, written_all, room, Fits,
  AllFit, table_status, given, status_on, unless_given, first_status, status_for_index-table_status,
}
use shb.Qpack.FirstByte.{entry_byte, name_byte, full_byte, post_entry_byte, post_name_byte}
use shb.Qpack.Shortens.{find_status-field}
use shb.Qpack.FastPath.{slow_zeros, find_status-find_slowly}

line_byte :
    (A : Type 0) (prefix_bits mask value : ℕ) (more : List ℕ) (read : List ℕ → Result (A × List ℕ))
    (f : A × List ℕ → Result Step)
    → ((v : ℕ) (rest : List ℕ)
        → v < 2 ^ prefix_bits
        → field (bit_or mask v) rest ≡ (read (bit_or mask v ∷ rest) >>= f))
    → walk field (encode_int prefix_bits mask value ++ more)
      ≡ on_step (walk field) (read (encode_int prefix_bits mask value ++ more) >>= f)
line_byte A prefix_bits mask value more read f e =
    let (v, rest, shape, below) = encode_int-first prefix_bits mask value in
    rw shape (
      find_status-field (bit_or mask v) (rest ++ more)
      ∙ ap (on_step (walk field)) (e v (rest ++ more) below))

-- A line that the first byte gives away as one of the dynamic table.
stop_byte :
    (prefix_bits mask value : ℕ) (more : List ℕ)
    → ((v : ℕ) (rest : List ℕ)
        → v < 2 ^ prefix_bits
        → field (bit_or mask v) rest ≡ err dynamic_reference)
    → walk field (encode_int prefix_bits mask value ++ more) ≡ err dynamic_reference
stop_byte prefix_bits mask value more e =
    let (v, rest, shape, below) = encode_int-first prefix_bits mask value in
    rw shape (
      find_status-field (bit_or mask v) (rest ++ more)
      ∙ ap (on_step (walk field)) (e v (rest ++ more) below))

read_back :
    (prefix_bits high value : ℕ) (more : List ℕ)
    → value < room
    → read_int prefix_bits (encode_int prefix_bits (2 ^ prefix_bits * high) value ++ more)
      ≡ ok (value, more)
read_back prefix_bits high value more h =
    let bound : 128 ^ 9 ≡ room = refl in
    decode_int-encode_int 9 u64_mod 56 prefix_bits high value more (omega arith) (omega arith)
      (omega arith) (rw bound (omega arith)) (omega arith)

name_back :
    (static_table never : Bool) (index : ℕ) (more : List ℕ)
    → index < room
    → read_int 4 (encode_int 4 (name_mask static_table never) index ++ more) ≡ ok (index, more)
name_back true false index more h = read_back 4 5 index more h
name_back true true index more h = read_back 4 7 index more h
name_back false false index more h = read_back 4 4 index more h
name_back false true index more h = read_back 4 6 index more h

string_back :
    (prefix_bits high : ℕ) (s : Text) (more : List ℕ)
    → length s.0 < room
    → bit_and high 1 ≡ (if s.1 then 1 else 0)
    → read_string prefix_bits (encode_str prefix_bits (2 ^ prefix_bits * high) s.0 ++ more)
      ≡ ok (s, more)
string_back prefix_bits high s more h flagged =
    let bound : 128 ^ 9 ≡ room = refl in
    read_str-encode_str 9 u64_mod 56 prefix_bits high s.1 s.0 more (omega arith) (omega arith)
      (omega arith) (rw bound (omega arith)) (omega arith) flagged

full_back :
    (never : Bool) (name : Text) (more : List ℕ)
    → length name.0 < room
    → read_string 3 (encode_str 3 (full_mask never name.1) name.0 ++ more) ≡ ok (name, more)
full_back false (name, false) more h = string_back 3 4 (name, false) more h refl
full_back false (name, true) more h = string_back 3 5 (name, true) more h refl
full_back true (name, false) more h = string_back 3 6 (name, false) more h refl
full_back true (name, true) more h = string_back 3 7 (name, true) more h refl

text_back :
    (value : Text) (more : List ℕ)
    → length value.0 < room
    → read_string 7 (value_text value ++ more) ≡ ok (value, more)
text_back (value, false) more h = string_back 7 0 (value, false) more h refl
text_back (value, true) more h = string_back 7 1 (value, true) more h refl

given_step :
    (go : List ℕ → Result (Option ℕ)) (o : Option ℕ) (later : Result (Option ℕ))
    → on_step go (as_status o) ≡ unless_given (given o) later
given_step go none later = refl
given_step go (some v) later = refl

value_back :
    (is_status : Bool) (value : Text) (more : List ℕ)
    → length value.0 < room
    → on_step (walk field) (value_field is_status (value_text value ++ more))
      ≡ unless_given
          (if is_status then given (status_value value.0 value.1) else ok none)
          (walk field more)
value_back true value more h =
    rw (text_back value more h)
      (given_step (walk field) (status_value value.0 value.1) (walk field more))
value_back false value more h = rw (text_back value more h) refl

entry_step :
    (go : List ℕ → Result (Option ℕ)) (o : Option ℕ) (more : List ℕ)
    → on_step go (ok (status_or_next o more)) ≡ unless_given (ok o) (go more)
entry_step go none more = refl
entry_step go (some v) more = refl

walk-in_full :
    (never : Bool) (name value : Text) (more : List ℕ)
    → length name.0 < room
    → length value.0 < room
    → walk field (written (in_full never name value) ++ more)
      ≡ unless_given (status_on (in_full never name value)) (walk field more)
unfolding encode_str
walk-in_full never name value more h long =
    let mask : ℕ = full_mask never name.1 in
    let whole =
      append_assoc (encode_int 3 (full_mask never name.1) (length name.0)) name.0
        (value_text value ++ more) in
    ap (walk field)
      (append_assoc (encode_str 3 (full_mask never name.1) name.0) (value_text value) more)
    ∙ (ap (walk field) whole
        ∙ (line_byte (List ℕ × Bool) 3 (full_mask never name.1) (length name.0)
              (name.0 ++ (value_text value ++ more)) (read_string 3) spelled_field
              (full_byte never name.1)
            ∙ (ap (λ (x : List ℕ). on_step (walk field) (read_string 3 x >>= spelled_field))
                  (sym whole)
                ∙ rw (full_back never name (value_text value ++ more) h, names_status-says name)
                    (value_back (says_status name) value more long))))

pub walk-written :
    (l : Line) (more : List ℕ)
    → Fits l
    → walk field (written l ++ more) ≡ unless_given (status_on l) (walk field more)
walk-written (static_entry index) more h =
    line_byte ℕ 6 0xc0 index more (read_int 6) (indexed_field true) (entry_byte true)
    ∙ rw (read_back 6 3 index more h, status_for_index-table_status index)
        (entry_step (walk field) (table_status index) more)
walk-written (dynamic_entry index) more h =
    line_byte ℕ 6 0x80 index more (read_int 6) (indexed_field false) (entry_byte false)
    ∙ rw (read_back 6 2 index more h) refl
walk-written (static_name never index value) more (h, long) =
    ap (walk field)
      (append_assoc (encode_int 4 (name_mask true never) index) (value_text value) more)
    ∙ (line_byte ℕ 4 (name_mask true never) index (value_text value ++ more) (read_int 4)
          (named_line true) (name_byte true never)
        ∙ rw
            (
              name_back true never index (value_text value ++ more) h,
              status_for_index-table_status index,
            )
            (value_back (is_some (table_status index)) value more long))
walk-written (dynamic_name never index value) more (h, long) =
    ap (walk field)
      (append_assoc (encode_int 4 (name_mask false never) index) (value_text value) more)
    ∙ (line_byte ℕ 4 (name_mask false never) index (value_text value ++ more) (read_int 4)
          (named_line false) (name_byte false never)
        ∙ rw (name_back false never index (value_text value ++ more) h) refl)
walk-written (in_full never name value) more (h, long) = walk-in_full never name value more h long
walk-written (post_base_entry index) more h = stop_byte 4 0x10 index more post_entry_byte
walk-written (post_base_name never index value) more h =
    ap (walk field) (append_assoc (encode_int 3 (post_mask never) index) (value_text value) more)
    ∙ stop_byte 3 (post_mask never) index (value_text value ++ more) (post_name_byte never)

walk-written_all : (ls : List Line) → AllFit ls → walk field (written_all ls) ≡ first_status ls
walk-written_all [] h = walk-nil field
walk-written_all (l ∷ ls) (h, hs) =
    walk-written l (written_all ls) h ∙ ap (unless_given (status_on l)) (walk-written_all ls hs)

-- Behind an all-zero prefix, on lines of any form that a peer can send (of the static or the dynamic
-- table, literal, behind the base, with strings plain or in the Huffman code) whose indices and lengths
-- are below 2^63: `find_status` gives the first status among the lines, or the first error, which every
-- line that refers to the dynamic table is; it steps over every other line, whatever its bytes are.
pub find_status-written_all :
    (ls : List Line) → AllFit ls → find_status (0 ∷ 0 ∷ written_all ls) ≡ first_status ls
find_status-written_all ls h =
    find_status-find_slowly (0 ∷ 0 ∷ written_all ls)
    ∙ (slow_zeros (written_all ls) ∙ walk-written_all ls h)
