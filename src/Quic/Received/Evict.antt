-- ===== src/Quic/Received/Evict.antt =====
-- Dropping the oldest range behind an insertion.
use shb.Common.{
  ℕ, suc, zero, ◌+◌, ◌<◌, ◌≤◌, ◌≡◌, refl, ap, Bool, true, false, List, [], ◌∷◌, ltb, if◌then◌else◌,
  length, set, insert_at, remove_at, partition_point, u64_mod, arith,
}
use shb.Quic.Ranges.{Range, covers, Descends}
use shb.Quic.Received.{ReceivedPackets, last, drop_last, max_ranges}

-- `trim m rs pn`: the history with the ranges `rs`, one of which holds `pn`, after the eviction.
abbrev pub trim : ℕ → List Range → ℕ → ReceivedPackets × Bool
trim m rs pn =
    if ltb max_ranges (length rs)
    then (record { ranges = drop_last rs; minimum = (last rs).1 + 1 }, ltb (last rs).1 pn)
    else (record { ranges = rs; minimum = m }, true)

pub length-insert_at :
    (i : ℕ) (x : Range) (rs : List Range) → length (insert_at i x rs) ≡ suc (length rs)
length-insert_at zero x rs = refl
length-insert_at (suc i) x [] = refl
length-insert_at (suc i) x (r ∷ rs) = ap suc (length-insert_at i x rs)

pub length-set : (rs : List Range) (i : ℕ) (x : Range) → length (set rs i x) ≡ length rs
length-set [] i x = refl
length-set (r ∷ rs) zero x = refl
length-set (r ∷ rs) (suc i) x = ap suc (length-set rs i x)

pub length-remove_at-le : (i : ℕ) (rs : List Range) → length (remove_at i rs) ≤ length rs
length-remove_at-le i [] = omega arith
length-remove_at-le zero (r ∷ rs) = omega arith
length-remove_at-le (suc i) (r ∷ rs) = omega (arith, length-remove_at-le i rs)

pub evict_inner :
    (i : ℕ) (x : Range) (rs : List Range)
    → i < length rs
    → (drop_last (insert_at i x rs) ≡ insert_at i x (drop_last rs))
      × (last (insert_at i x rs) ≡ last rs)
evict_inner i x [] h = absurd (omega arith)
evict_inner zero x (r ∷ rs) h = (refl, refl)
evict_inner (suc i) x (r ∷ []) h = absurd (omega arith)
evict_inner (suc zero) x (r ∷ t ∷ rs) h = (refl, refl)
evict_inner (suc (suc i)) x (r ∷ t ∷ rs) h =
    let (d, l) = evict_inner (suc i) x (t ∷ rs) (omega arith) in (ap (λ z. r ∷ z) d, l)

pub evict_new :
    (x : Range) (rs : List Range)
    → (drop_last (insert_at (length rs) x rs) ≡ rs) × (last (insert_at (length rs) x rs) ≡ x)
evict_new x [] = (refl, refl)
evict_new x (r ∷ []) = (refl, refl)
evict_new x (r ∷ t ∷ rs) = let (d, l) = evict_new x (t ∷ rs) in (ap (λ z. r ∷ z) d, l)

pub point-le : (rs : List Range) (pn : ℕ) → partition_point (λ r. ltb pn r.0) rs ≤ length rs
point-le [] pn = omega arith
point-le (r ∷ rs) pn = ground (arith, point-le rs pn)

pub last-le :
    (top : ℕ) (rs : List Range) (x : Range) → Descends top (x ∷ rs) → (last (x ∷ rs)).1 ≤ x.1
last-le top [] x d = omega arith
last-le top (y ∷ rs) x d = omega (arith, last-le x.0 rs y d.2)

-- Where the point is not at the end, the oldest range lies under the number.
pub last-lt :
    (top : ℕ) (rs : List Range) (pn : ℕ)
    → Descends top rs
    → covers rs pn ≡ false
    → partition_point (λ r. ltb pn r.0) rs < length rs
    → (last rs).1 < pn
last-lt top [] pn d c h = absurd (omega arith)
last-lt top (x ∷ []) pn d c h = ground arith
last-lt top (x ∷ y ∷ rs) pn d c h =
    ground (arith, last-lt x.0 (y ∷ rs) pn d.2, last-le top (y ∷ rs) x d)

-- Where it is at the end of some ranges, the number is not the largest.
pub end_bound :
    (rs : List Range) (pn : ℕ)
    → Descends (suc u64_mod) rs
    → 0 < length rs
    → partition_point (λ r. ltb pn r.0) rs ≡ length rs
    → pn + 1 < u64_mod
end_bound [] pn d p h = absurd (omega arith)
end_bound (x ∷ rs) pn d p h = ground arith
