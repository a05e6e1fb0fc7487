-- ===== src/Quic/Ranges.antt =====
-- Descending lists of inclusive packet number ranges, which src/quic/received.rs and src/quic/ack.rs
-- both keep.
use shb.Common.{
  ℕ, ◌+◌, ◌<◌, ◌≤◌, ◌≡◌, refl, ◌&&◌, Bool, true, false, List, [], ◌∷◌, leb, if◌then◌else◌, arith,
}

-- An inclusive range.
abbrev pub Range : Type 0
Range = ℕ × ℕ

-- Whether a range holds the number.
abbrev pub covers : List Range → ℕ → Bool
covers [] q = false
covers ((lo, hi) ∷ rs) q = if leb lo q && leb q hi then true else covers rs q

-- Descending below `top`, with a gap between neighbours.
abbrev pub Descends : ℕ → List Range → Type 0
Descends top [] = Unit {0}
Descends top ((lo, hi) ∷ rs) = (lo ≤ hi) × (hi + 1 < top) × Descends lo rs

pub covers-above :
    (top q : ℕ) (rs : List Range) → Descends top rs → top ≤ q + 1 → covers rs q ≡ false
covers-above top q [] d h = refl
covers-above top q ((lo, hi) ∷ rs) d h = ground (arith, covers-above lo q rs d.2)

pub Descends-mono :
    (top top' : ℕ) (rs : List Range) → top ≤ top' → Descends top rs → Descends top' rs
Descends-mono top top' [] h d = tt
Descends-mono top top' ((lo, hi) ∷ rs) h d = (d.0, omega arith, d.2)
