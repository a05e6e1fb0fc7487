-- ===== src/Hpack/Shortens.antt =====
-- Each turn of `find_status` reads a byte at least, so its loop ends.
use shb.Common.{
  ℕ, ◌-◌, ◌≡◌, Bool, not, List, ◌∷◌, Option, none, some, arith, get_elem?, ltb, ◌==◌, if_elim,
  bit_and,
}
use shb.Status.{status_value}
use shb.Prefix.{walk, on_step, as_status, names_status}
use shb.Prefix.Walk.{Shortens, Ends, walk-step, walk-Ends}
use shb.Prefix.Shortens.{decode_int-Leaves, read_str-Leaves, then-Shortens}
use shb.Hpack.{
  u32_mod, is_status_index, status_by_index, status_index_lo, indexed_field, value_read,
  value_field, spelled_field, literal_field, passed_update, read_int, read_string, field,
  find_status,
}

as_status-Shortens : (rest : List ℕ) (o : Option ℕ) → Shortens rest (as_status o)
as_status-Shortens rest none = tt
as_status-Shortens rest (some v) = tt

indexed_field-Shortens : (index : ℕ) (rest : List ℕ) → Shortens rest (indexed_field (index, rest))
indexed_field-Shortens index rest =
    if_elim (Shortens rest) (is_status_index index)
      (λ h. as_status-Shortens rest (get_elem? status_by_index (index - status_index_lo)))
      (λ h.
        if_elim (Shortens rest) (index == 0) (λ z. tt)
          (λ z. if_elim (Shortens rest) (ltb 61 index) (λ d. tt) (λ d. omega arith)))

value_field-Shortens : (named : Bool) (rest : List ℕ) → Shortens rest (value_field named rest)
value_field-Shortens named rest =
    then-Shortens rest (read_string rest) (value_read named) (read_str-Leaves u32_mod 21 7 rest)
      (λ (value, huffman) left.
        if_elim (Shortens left) named (λ h. as_status-Shortens left (status_value value huffman))
          (λ h. omega arith))

literal_field-Shortens : (index : ℕ) (rest : List ℕ) → Shortens rest (literal_field (index, rest))
literal_field-Shortens index rest =
    if_elim (Shortens rest) (index == 0)
      (λ z.
        then-Shortens rest (read_string rest) spelled_field (read_str-Leaves u32_mod 21 7 rest)
          (λ (name, huffman) left. value_field-Shortens (names_status name huffman) left))
      (λ z.
        if_elim (Shortens rest) (ltb 61 index) (λ d. tt)
          (λ d. value_field-Shortens (is_status_index index) rest))

pub field-Shortens : (first : ℕ) (rest : List ℕ) → Shortens rest (field first rest)
unfolding field
field-Shortens first rest =
    if_elim (Shortens rest) (not (bit_and first 0x80 == 0))
      (λ h.
        then-Shortens rest (read_int 7 (first ∷ rest)) indexed_field
          (decode_int-Leaves u32_mod 21 7 first rest) indexed_field-Shortens)
      (λ h.
        if_elim (Shortens rest) (not (bit_and first 0x40 == 0))
          (λ h.
            then-Shortens rest (read_int 6 (first ∷ rest)) literal_field
              (decode_int-Leaves u32_mod 21 6 first rest) literal_field-Shortens)
          (λ h.
            if_elim (Shortens rest) (not (bit_and first 0x20 == 0))
              (λ h.
                then-Shortens rest (read_int 5 (first ∷ rest)) passed_update
                  (decode_int-Leaves u32_mod 21 5 first rest) (λ size left. omega arith))
              (λ h.
                then-Shortens rest (read_int 4 (first ∷ rest)) literal_field
                  (decode_int-Leaves u32_mod 21 4 first rest) literal_field-Shortens)))

-- A field of the block, and on with what it leaves.
pub find_status-field :
    (first : ℕ) (rest : List ℕ)
    → walk field (first ∷ rest) ≡ on_step (walk field) (field first rest)
find_status-field = walk-step field field-Shortens

-- On any bytes `find_status` ends after finitely many fields, with a status, without one, or with an
-- error, and it is what its walk over the fields ends with.
pub find_status-Ends : (block : List ℕ) → Ends field block (find_status block)
unfolding find_status
find_status-Ends block = walk-Ends field field-Shortens block
