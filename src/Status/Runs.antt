-- ===== src/Status/Runs.antt =====
-- Concrete runs, and the theorem at a concrete input.
use shb.Common.{◌≡◌, refl, true, false, [], ◌∷◌, none, some, arith}
use shb.Status.{status_value}
use shb.Status.Table.{ascii, huffman, status_value-digits}

two_hundred : status_value (0x10 ∷ 0x01 ∷ []) true ≡ some 200
unfolding status_value
two_hundred = refl

bad_padding : status_value (0x10 ∷ 0x00 ∷ []) true ≡ none
unfolding status_value
bad_padding = refl

status_value-digits_example :
    (status_value (ascii 404) false ≡ some 404) × (status_value (huffman 404) true ≡ some 404)
status_value-digits_example = status_value-digits 404 (omega arith)
