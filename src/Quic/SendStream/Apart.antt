-- ===== src/Quic/SendStream/Apart.antt =====
-- Acknowledged runs in order, and apart from the runs to send again.
use shb.Common.{
  ℕ, ◌+◌, ◌<◌, ◌≤◌, ◌⊎◌, List, [], ◌∷◌, ltb, min, max, All, Bool-cases, inl, inr, arith,
}
use shb.Quic.SendStream.{Run, absorb, join, merge}

-- Ascending beyond `base`, with gaps, up to `top`.
abbrev pub Ascends : ℕ → ℕ → List Run → Type 0
Ascends base top [] = Unit {0}
Ascends base top ((lo, hi) ∷ rs) = (base < lo) × (lo < hi) × (hi ≤ top) × Ascends hi top rs

-- The acknowledged run `a` and the run `r`, which is relative to `base`, have no byte in common.
abbrev pub Apart : ℕ → Run → Run → Type 0
Apart base a r = (base + r.1 ≤ a.0) ⊎ (a.1 ≤ base + r.0)

pub Ascends-mono :
    (base top top' : ℕ) (rs : List Run) → top ≤ top' → Ascends base top rs → Ascends base top' rs
Ascends-mono base top top' [] h a = tt
Ascends-mono base top top' ((lo, hi) ∷ rs) h (x, y, z, w) =
    (x, y, omega arith, Ascends-mono hi top top' rs h w)

Ascends-down :
    (base' base top : ℕ) (rs : List Run) → base' ≤ base → Ascends base top rs → Ascends base' top rs
Ascends-down base' base top [] h a = tt
Ascends-down base' base top ((lo, hi) ∷ rs) h (x, y, z, w) = (omega arith, y, z, w)

pub absorb-Ascends :
    (base top end : ℕ) (rs : List Run)
    → end ≤ top
    → Ascends base top rs
    → (end ≤ (absorb end rs).0)
      × ((absorb end rs).0 ≤ top)
      × Ascends (absorb end rs).0 top (absorb end rs).1
unfolding absorb
absorb-Ascends base top end [] h a = (omega arith, h, tt)
absorb-Ascends base top end ((lo, hi) ∷ rs) h (x, y, z, w) = elim (Bool-cases (ltb end lo)) [
  | inl gap ↦ rw gap (omega arith, h, (ground arith, y, z, w))
  | inr touch ↦
      rw touch (
        let (p, q, r) = absorb-Ascends hi top (max end hi) rs (omega arith) w in
        (omega arith, q, r))
]

-- `absorb` only drops runs.
pub absorb-All {ℓ} :
    (P : Run → Type ℓ) (end : ℕ) (rs : List Run) → All P rs → All P (absorb end rs).1
unfolding absorb
absorb-All P end [] a = tt
absorb-All P end ((lo, hi) ∷ rs) a = elim (Bool-cases (ltb end lo)) [
  | inl gap ↦ rw gap a
  | inr touch ↦ rw touch (absorb-All P (max end hi) rs a.1)
]

-- What the joined run spans.
pub record Spans (base top start end : ℕ) (run : Run) : Type 0 where
  pub beyond : base < run.0
  pub from : run.0 ≤ start
  pub to : end ≤ run.1
  pub within : run.1 ≤ top

join-Ascends :
    (base top start end : ℕ) (rs : List Run)
    → base < start
    → start < end
    → end ≤ top
    → Ascends base top rs
    → Spans base top start end (join start end rs).0
      × Ascends (join start end rs).0.1 top (join start end rs).1
unfolding join
join-Ascends base top start end [] hs he ht a = (omega arith, tt)
join-Ascends base top start end ((lo, hi) ∷ rs) hs he ht (x, y, z, w) =
    elim (Bool-cases (ltb end lo)) [
      | inl gap ↦ rw gap (omega arith, (ground arith, y, z, w))
      | inr touch ↦ rw touch (
          let (s, r) =
            join-Ascends base top (min start lo) (max end hi) rs (omega arith) (omega arith)
              (omega arith) (Ascends-down base hi top rs (omega arith) w) in
          (
            record {
              beyond = s.beyond;
              from = omega (arith, s.from);
              to = omega (arith, s.to);
              within = s.within;
            },
            r,
          ))
    ]

pub merge-Ascends :
    (base top start end : ℕ) (rs : List Run)
    → base < start
    → start < end
    → end ≤ top
    → Ascends base top rs
    → Spans base top start end (merge start end rs).1 × Ascends base top (merge start end rs).0
unfolding merge
merge-Ascends base top start end [] hs he ht a = (omega arith, (hs, he, ht, tt))
merge-Ascends base top start end ((lo, hi) ∷ rs) hs he ht (x, y, z, w) =
    elim (Bool-cases (ltb hi start)) [
      | inl before ↦ rw before (
          let (s, r) = merge-Ascends hi top start end rs (ground arith) he ht w in
          (
            record {
              beyond = omega (arith, s.beyond);
              from = s.from;
              to = s.to;
              within = s.within;
            },
            (x, y, z, r),
          ))
      | inr touch ↦ rw touch (
          let (s, r) = join-Ascends base top start end ((lo, hi) ∷ rs) hs he ht (x, y, z, w) in
          (s, (s.beyond, omega (arith, s.from, s.to), s.within, r)))
    ]

join-All {ℓ} :
    (P : Run → Type ℓ) (start end : ℕ) (rs : List Run) → All P rs → All P (join start end rs).1
unfolding join
join-All P start end [] a = tt
join-All P start end ((lo, hi) ∷ rs) a = elim (Bool-cases (ltb end lo)) [
  | inl gap ↦ rw gap a
  | inr touch ↦ rw touch (join-All P (min start lo) (max end hi) rs a.1)
]

pub merge-All {ℓ} :
    (P : Run → Type ℓ) (start end : ℕ) (rs : List Run)
    → All P rs
    → P (merge start end rs).1
    → All P (merge start end rs).0
unfolding merge
merge-All P start end [] a h = (h, tt)
merge-All P start end ((lo, hi) ∷ rs) a h = elim (Bool-cases (ltb hi start)) [
  | inl before ↦ rw before (a.0, merge-All P start end rs a.1 (rw before at h))
  | inr touch ↦ rw touch (rw touch at h, join-All P start end ((lo, hi) ∷ rs) a)
]
