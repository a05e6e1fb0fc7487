-- ===== src/Qpack/Shortens.antt =====
-- Each turn of `find_status` reads a byte at least, so its loop ends.
use shb.Common.{
  ℕ, ◌≡◌, Bool, true, false, not, List, ◌∷◌, Option, none, some, arith, ◌==◌, if_elim, bit_and,
  u64_mod,
}
use shb.Status.{status_value}
use shb.Prefix.{ok, walk, on_step, as_status, names_status}
use shb.Prefix.Walk.{Shortens, walk-step}
use shb.Prefix.Shortens.{decode_int-Leaves, read_str-Leaves, read_str-Leaves_rest, then-Shortens}
use shb.Qpack.{
  status_for_index, is_status_index, status_or_next, indexed_field, value_read, value_field,
  spelled_field, named_line, read_int, read_string, field,
}

as_status-Shortens : (rest : List ℕ) (o : Option ℕ) → Shortens rest (as_status o)
as_status-Shortens rest none = tt
as_status-Shortens rest (some v) = tt

status_or_next-Shortens :
    (rest : List ℕ) (o : Option ℕ) → Shortens rest (ok (status_or_next o rest))
status_or_next-Shortens rest none = omega arith
status_or_next-Shortens rest (some v) = tt

indexed_field-Shortens :
    (static_table : Bool) (index : ℕ) (rest : List ℕ)
    → Shortens rest (indexed_field static_table (index, rest))
indexed_field-Shortens true index rest = status_or_next-Shortens rest (status_for_index index)
indexed_field-Shortens false index rest = tt

value_field-Shortens : (named : Bool) (rest : List ℕ) → Shortens rest (value_field named rest)
value_field-Shortens named rest =
    then-Shortens rest (read_string 7 rest) (value_read named) (read_str-Leaves u64_mod 56 7 rest)
      (λ (value, huffman) left.
        if_elim (Shortens left) named (λ h. as_status-Shortens left (status_value value huffman))
          (λ h. omega arith))

named_line-Shortens :
    (static_table : Bool) (index : ℕ) (rest : List ℕ)
    → Shortens rest (named_line static_table (index, rest))
named_line-Shortens true index rest = value_field-Shortens (is_status_index index) rest
named_line-Shortens false index rest = tt

pub field-Shortens : (first : ℕ) (rest : List ℕ) → Shortens rest (field first rest)
unfolding field
field-Shortens first rest =
    if_elim (Shortens rest) (not (bit_and first 0x80 == 0))
      (λ h.
        then-Shortens rest (read_int 6 (first ∷ rest))
          (indexed_field (not (bit_and first 0x40 == 0)))
          (decode_int-Leaves u64_mod 56 6 first rest)
          (indexed_field-Shortens (not (bit_and first 0x40 == 0))))
      (λ h.
        if_elim (Shortens rest) (not (bit_and first 0x40 == 0))
          (λ h.
            then-Shortens rest (read_int 4 (first ∷ rest))
              (named_line (not (bit_and first 0x10 == 0)))
              (decode_int-Leaves u64_mod 56 4 first rest)
              (named_line-Shortens (not (bit_and first 0x10 == 0))))
          (λ h.
            if_elim (Shortens rest) (not (bit_and first 0x20 == 0))
              (λ h.
                then-Shortens rest (read_string 3 (first ∷ rest)) spelled_field
                  (read_str-Leaves_rest u64_mod 56 3 first rest)
                  (λ (name, huffman) left. value_field-Shortens (names_status name huffman) left))
              (λ h. tt)))

-- A field of the section, and on with what it leaves.
pub find_status-field :
    (first : ℕ) (rest : List ℕ)
    → walk field (first ∷ rest) ≡ on_step (walk field) (field first rest)
find_status-field = walk-step field field-Shortens
