-- ===== src/Prefix/Names.antt =====
-- Texts as a peer can send them, and the name ':status' among them.
use shb.Common.{
  bytes_of, bytes_eq, ℕ, zero, suc, ◌+◌, ◌*◌, ◌/◌, ◌%◌, ◌^◌, ◌≡◌, refl, Bool, true, false, List, [],
  ◌∷◌, ◌++◌,
}
use shb.Prefix.{names_status}

-- The bytes on the wire, and whether they are in the Huffman code.
abbrev pub Text : Type 0
Text = List ℕ × Bool

abbrev pub verbatim : List ℕ → Text
verbatim s = (s, false)

-- A code and its number of bits, as in RFC 7541, appendix B.
abbrev Code : Type 0
Code = ℕ × ℕ

-- ':', 's', 't', 'a', 't', 'u', 's', and two bits of padding.
abbrev status_codes : List Code
status_codes =
    (0b1011100, 7)
    ∷ (0b01000, 5)
    ∷ (0b01001, 5)
    ∷ (0b00011, 5)
    ∷ (0b01001, 5)
    ∷ (0b101101, 6)
    ∷ (0b01000, 5)
    ∷ (0b11, 2)
    ∷ []

-- The codes one behind the other, as one number.
abbrev packed : List Code → ℕ → ℕ
packed [] bits = bits
packed ((code, width) ∷ codes) bits = packed codes (bits * 2 ^ width + code)

abbrev big_endian : ℕ → ℕ → List ℕ
big_endian zero n = []
big_endian (suc k) n = big_endian k (n / 256) ++ ((n % 256) ∷ [])

-- Whether a text is the name ':status'.
abbrev pub says_status : Text → Bool
says_status (bytes, true) = bytes_eq bytes (big_endian 5 (packed status_codes 0))
says_status (bytes, false) = bytes_eq bytes (bytes_of ":status")

pub names_status-says : (t : Text) → names_status t.0 t.1 ≡ says_status t
names_status-says (bytes, true) = refl
names_status-says (bytes, false) = refl
