-- ===== src/Quic/Ack/Insert.antt =====
-- `insert` adds one number to the ranges and keeps the newest 32 of them. The bounded history of
-- received packets has the same specification, `place`.
use shb.Common.{
  ℕ, ◌+◌, ◌-◌, ◌^◌, ◌&&◌, ◌<◌, ◌≤◌, ◌≡◌, refl, false, List, [], ◌∷◌, ltb, leb, ◌==◌, if◌then◌else◌,
  length, add_u64, Bool-cases, inl, inr, arith,
}
use shb.Quic.Ranges.{Range, Descends}
use shb.Quic.Received.Place.{join_below, place, length-join_below-le}
use shb.Quic.Ack.{rejoin, extend_up, extend_down, pop, insert_loop, insert, max_ranges}

-- Packet numbers stay below 2 ^ 62, so no test of the loop wraps.
abbrev pub number_bound : ℕ
number_bound = 2 ^ 62

-- `place`, less the oldest range if that makes one too many.
abbrev pub fit : ℕ → List Range → ℕ → List Range
fit total rs pn =
    if ltb (length rs) (length (place rs pn)) && (total == max_ranges)
    then pop (place rs pn)
    else place rs pn

-- The loop passes a range only if the number does not touch it.
abbrev Apart : List Range → ℕ → Type 0
Apart [] pn = Unit {0}
Apart ((lo, hi) ∷ done) pn = (pn + 1 < lo) × (lo ≤ number_bound)

extend_up-Apart :
    (done : List Range) (smallest : ℕ) (rest : List Range) (pn : ℕ)
    → Apart done pn
    → extend_up done smallest rest pn ≡ rejoin done ((smallest, pn) ∷ rest)
extend_up-Apart [] smallest rest pn h = refl
extend_up-Apart ((lo, hi) ∷ done) smallest rest pn h =
    let e : (lo == add_u64 pn 1) ≡ false = ground arith in rw e

extend_down-join_below :
    (done : List Range) (smallest largest : ℕ) (rest : List Range) (pn : ℕ)
    → Descends smallest rest
    → smallest ≤ number_bound
    → extend_down done largest rest pn ≡ rejoin done (join_below smallest largest rest pn)
extend_down-join_below done smallest largest [] pn d h = refl
extend_down-join_below done smallest largest ((lo, hi) ∷ rest) pn d h =
    let e : add_u64 hi 1 ≡ hi + 1 = omega arith in rw e (ground arith)

pop-cons-place :
    (x : Range) (rs : List Range) (pn : ℕ) → pop (x ∷ place rs pn) ≡ x ∷ pop (place rs pn)
unfolding place
pop-cons-place x [] pn = refl
pop-cons-place x ((lo, hi) ∷ []) pn = ground arith
pop-cons-place x ((lo, hi) ∷ (lo', hi') ∷ rs) pn = ground arith

-- `place` passes a range that the number does not touch.
place-pass :
    (lo hi : ℕ) (rs : List Range) (pn : ℕ)
    → pn + 1 < lo
    → place ((lo, hi) ∷ rs) pn ≡ (lo, hi) ∷ place rs pn
unfolding place
place-pass lo hi rs pn h = ground arith

fit-pass :
    (total lo hi : ℕ) (rs : List Range) (pn : ℕ)
    → pn + 1 < lo
    → fit total ((lo, hi) ∷ rs) pn ≡ (lo, hi) ∷ fit total rs pn
fit-pass total lo hi rs pn h =
    rw (place-pass lo hi rs pn h) (ground (arith, pop-cons-place (lo, hi) rs pn))

fit_same :
    (total : ℕ) (rs : List Range) (pn : ℕ)
    → length (place rs pn) ≤ length rs
    → fit total rs pn ≡ place rs pn
fit_same total rs pn h = ground arith

module _ (total pn : ℕ) (room : total ≤ max_ranges) (number : pn < number_bound) where
  insert_loop-fit :
      (top : ℕ) (done rest : List Range)
      → Apart done pn
      → top ≤ number_bound + 1
      → Descends top rest
      → insert_loop total done rest pn ≡ rejoin done (fit total rest pn)
  unfolding insert_loop
  insert_loop-fit top done [] h k d = unfold place in ground arith
  insert_loop-fit top done ((s, l) ∷ rest) h k d = elim (Bool-cases (leb s pn && leb pn l)) [
    | inl inside ↦ rw inside (unfold place in ground arith)
    | inr outside ↦ rw outside (
        let up : add_u64 l 1 ≡ l + 1 = omega arith in
        rw up (elim (Bool-cases (pn == l + 1)) [
          | inl next ↦ rw (next, extend_up-Apart done s rest pn h) (unfold place in ground arith)
          | inr not_next ↦ rw not_next (elim (Bool-cases (ltb 0 s && (pn == s - 1))) [
            | inl before ↦
                rw (before, extend_down-join_below done s l rest pn d.2 (omega arith))
                  (let same : place ((s, l) ∷ rest) pn ≡ join_below s l rest pn =
                      unfold place in ground arith in
                    rw (
                      fit_same total ((s, l) ∷ rest) pn
                          (rw same (length-join_below-le s l rest pn)),
                      same,
                    ))
            | inr not_before ↦ rw not_before (elim (Bool-cases (ltb l pn)) [
              | inl above ↦ rw above (unfold place in ground arith)
              | inr under ↦
                  rw (under, fit-pass total s l rest pn (ground arith))
                    (insert_loop-fit s ((s, l) ∷ done) rest (ground arith) (omega arith) d.2)
            ])
          ])
        ]))
  ]

-- `insert` on at most 32 ranges is `place`, and drops the oldest range where that makes 33.
pub insert-fit :
    (rs : List Range) (pn : ℕ)
    → Descends (number_bound + 1) rs
    → length rs ≤ max_ranges
    → pn < number_bound
    → insert rs pn ≡ fit (length rs) rs pn
unfolding insert
insert-fit rs pn d h n = insert_loop-fit (length rs) pn h n _ [] rs tt (omega arith) d
