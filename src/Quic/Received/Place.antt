-- ===== src/Quic/Received/Place.antt =====
-- The history as a set of numbers: `place` adds one to a list of ranges of any length.
use shb.Common.{
  ℕ, suc, ◌+◌, ◌<◌, ◌≤◌, ◌≡◌, refl, true, List, [], ◌∷◌, ltb, leb, ◌==◌, if◌then◌else◌, length,
  get_elem?, partition_point, arith,
}
use shb.Quic.Ranges.{Range, covers, Descends, covers-above}
use shb.Quic.Received.{is_some_and}

-- `pn` touches the range `(lo, hi)` from below, and perhaps the next one from above.
abbrev pub join_below : ℕ → ℕ → List Range → ℕ → List Range
join_below lo hi [] pn = (pn, hi) ∷ []
join_below lo hi ((lo', hi') ∷ rs) pn =
    if hi' + 1 == pn then (lo', hi) ∷ rs else (pn, hi) ∷ (lo', hi') ∷ rs

unfoldable pub place : List Range → ℕ → List Range
place [] pn = (pn, pn) ∷ []
place ((lo, hi) ∷ rs) pn =
    let rest = (lo, hi) ∷ place rs pn in
    if ltb pn lo
    then (if pn + 1 == lo then join_below lo hi rs pn else rest)
    else if leb pn hi
    then (lo, hi) ∷ rs
    else if hi + 1 == pn
    then (lo, pn) ∷ rs
    else (pn, pn) ∷ (lo, hi) ∷ rs

covers-join_below :
    (lo hi : ℕ) (rs : List Range) (pn q : ℕ)
    → pn + 1 ≡ lo
    → lo ≤ hi
    → Descends lo rs
    → covers (join_below lo hi rs pn) q ≡ (if q == pn then true else covers ((lo, hi) ∷ rs) q)
covers-join_below lo hi [] pn q e h d = ground arith
covers-join_below lo hi ((lo', hi') ∷ rs) pn q e h d = ground arith

-- Exactly the number itself is new.
pub covers-place :
    (top : ℕ) (rs : List Range) (pn q : ℕ)
    → Descends top rs
    → covers (place rs pn) q ≡ (if q == pn then true else covers rs q)
unfolding place
covers-place top [] pn q d = ground arith
covers-place top ((lo, hi) ∷ rs) pn q d =
    ground (arith, covers-join_below lo hi rs pn q, covers-place lo rs pn q d.2)

join_below-Descends :
    (top lo hi : ℕ) (rs : List Range) (pn : ℕ)
    → pn + 1 ≡ lo
    → lo ≤ hi
    → hi + 1 < top
    → Descends lo rs
    → Descends top (join_below lo hi rs pn)
join_below-Descends top lo hi [] pn e h k d = ground arith
join_below-Descends top lo hi ((lo', hi') ∷ rs) pn e h k d = ground arith

pub place-Descends :
    (top : ℕ) (rs : List Range) (pn : ℕ)
    → pn + 1 < top
    → Descends top rs
    → Descends top (place rs pn)
unfolding place
place-Descends top [] pn h d = omega arith
place-Descends top ((lo, hi) ∷ rs) pn h d =
    ground (arith, join_below-Descends top lo hi rs pn, place-Descends lo rs pn)

pub length-join_below-le :
    (lo hi : ℕ) (rs : List Range) (pn : ℕ) → length (join_below lo hi rs pn) ≤ suc (length rs)
length-join_below-le lo hi [] pn = omega arith
length-join_below-le lo hi ((lo', hi') ∷ rs) pn = ground arith

pub length-place-le : (rs : List Range) (pn : ℕ) → length (place rs pn) ≤ suc (length rs)
unfolding place
length-place-le [] pn = omega arith
length-place-le ((lo, hi) ∷ rs) pn =
    ground (arith, length-join_below-le lo hi rs pn, length-place-le rs pn)

-- The test of the code at the point that it computes finds the number exactly if a range holds it.
pub found-covers :
    (top : ℕ) (rs : List Range) (pn : ℕ)
    → Descends top rs
    → is_some_and (get_elem? rs (partition_point (λ r. ltb pn r.0) rs)) (λ r. leb pn r.1)
      ≡ covers rs pn
found-covers top [] pn d = refl
found-covers top ((lo, hi) ∷ rs) pn d =
    ground (arith, covers-above lo pn rs d.2, found-covers lo rs pn d.2)
