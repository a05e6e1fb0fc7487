-- ===== src/Qpack/FirstByte.antt =====
-- What the first byte of a field line decides.
use shb.Common.{
  ℕ, ◌^◌, ◌<◌, ◌≡◌, refl, Bool, true, false, List, ◌∷◌, if◌then◌else◌, bit_and, bit_or,
}
use shb.Prefix.{err, ◌>>=◌, dynamic_reference}
use shb.Prefix.RoundTrip.{field_high}
use shb.Qpack.{read_int, read_string, indexed_field, named_line, spelled_field, field}
use shb.Qpack.Lines.{name_mask, full_mask, post_mask}

abbrev entry_mask : Bool → ℕ
entry_mask static_table = if static_table then 0xc0 else 0x80

pub entry_byte :
    (static_table : Bool) (v : ℕ) (rest : List ℕ)
    → v < 2 ^ 6
    → field (bit_or (entry_mask static_table) v) rest
      ≡ (read_int 6 (bit_or (entry_mask static_table) v ∷ rest) >>= indexed_field static_table)
unfolding field
entry_byte true v rest h =
    let top : bit_and (bit_or 0xc0 v) 0x80 ≡ 0x80 = field_high 6 3 v 2 h in
    let second : bit_and (bit_or 0xc0 v) 0x40 ≡ 0x40 = field_high 6 3 v 1 h in rw (top, second) refl
entry_byte false v rest h =
    let top : bit_and (bit_or 0x80 v) 0x80 ≡ 0x80 = field_high 6 2 v 2 h in
    let second : bit_and (bit_or 0x80 v) 0x40 ≡ 0 = field_high 6 2 v 1 h in rw (top, second) refl

-- A literal line with a name of a table.
named_first :
    (static_table : Bool) (byte : ℕ) (rest : List ℕ)
    → bit_and byte 0x80 ≡ 0
    → bit_and byte 0x40 ≡ 0x40
    → bit_and byte 0x10 ≡ (if static_table then 0x10 else 0)
    → field byte rest ≡ (read_int 4 (byte ∷ rest) >>= named_line static_table)
unfolding field
named_first true byte rest a b c = rw (a, b, c) refl
named_first false byte rest a b c = rw (a, b, c) refl

pub name_byte :
    (static_table never : Bool) (v : ℕ) (rest : List ℕ)
    → v < 2 ^ 4
    → field (bit_or (name_mask static_table never) v) rest
      ≡ (read_int 4 (bit_or (name_mask static_table never) v ∷ rest) >>= named_line static_table)
name_byte true false v rest h =
    named_first true (bit_or 0x50 v) rest (field_high 4 5 v 8 h) (field_high 4 5 v 4 h)
      (field_high 4 5 v 1 h)
name_byte true true v rest h =
    named_first true (bit_or 0x70 v) rest (field_high 4 7 v 8 h) (field_high 4 7 v 4 h)
      (field_high 4 7 v 1 h)
name_byte false false v rest h =
    named_first false (bit_or 0x40 v) rest (field_high 4 4 v 8 h) (field_high 4 4 v 4 h)
      (field_high 4 4 v 1 h)
name_byte false true v rest h =
    named_first false (bit_or 0x60 v) rest (field_high 4 6 v 8 h) (field_high 4 6 v 4 h)
      (field_high 4 6 v 1 h)

spelled_first :
    (byte : ℕ) (rest : List ℕ)
    → bit_and byte 0x80 ≡ 0
    → bit_and byte 0x40 ≡ 0
    → bit_and byte 0x20 ≡ 0x20
    → field byte rest ≡ (read_string 3 (byte ∷ rest) >>= spelled_field)
unfolding field
spelled_first byte rest a b c = rw (a, b, c) refl

pub full_byte :
    (never huffman : Bool) (v : ℕ) (rest : List ℕ)
    → v < 2 ^ 3
    → field (bit_or (full_mask never huffman) v) rest
      ≡ (read_string 3 (bit_or (full_mask never huffman) v ∷ rest) >>= spelled_field)
full_byte false false v rest h =
    spelled_first (bit_or 0x20 v) rest (field_high 3 4 v 16 h) (field_high 3 4 v 8 h)
      (field_high 3 4 v 4 h)
full_byte false true v rest h =
    spelled_first (bit_or 0x28 v) rest (field_high 3 5 v 16 h) (field_high 3 5 v 8 h)
      (field_high 3 5 v 4 h)
full_byte true false v rest h =
    spelled_first (bit_or 0x30 v) rest (field_high 3 6 v 16 h) (field_high 3 6 v 8 h)
      (field_high 3 6 v 4 h)
full_byte true true v rest h =
    spelled_first (bit_or 0x38 v) rest (field_high 3 7 v 16 h) (field_high 3 7 v 8 h)
      (field_high 3 7 v 4 h)

post_first :
    (byte : ℕ) (rest : List ℕ)
    → bit_and byte 0x80 ≡ 0
    → bit_and byte 0x40 ≡ 0
    → bit_and byte 0x20 ≡ 0
    → field byte rest ≡ err dynamic_reference
unfolding field
post_first byte rest a b c = rw (a, b, c) refl

pub post_entry_byte :
    (v : ℕ) (rest : List ℕ) → v < 2 ^ 4 → field (bit_or 0x10 v) rest ≡ err dynamic_reference
post_entry_byte v rest h =
    post_first (bit_or 0x10 v) rest (field_high 4 1 v 8 h) (field_high 4 1 v 4 h)
      (field_high 4 1 v 2 h)

pub post_name_byte :
    (never : Bool) (v : ℕ) (rest : List ℕ)
    → v < 2 ^ 3
    → field (bit_or (post_mask never) v) rest ≡ err dynamic_reference
post_name_byte false v rest h =
    post_first (bit_or 0x00 v) rest (field_high 3 0 v 16 h) (field_high 3 0 v 8 h)
      (field_high 3 0 v 4 h)
post_name_byte true v rest h =
    post_first (bit_or 0x08 v) rest (field_high 3 1 v 16 h) (field_high 3 1 v 8 h)
      (field_high 3 1 v 4 h)
