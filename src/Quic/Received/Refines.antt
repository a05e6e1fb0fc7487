-- ===== src/Quic/Received/Refines.antt =====
-- `insert` by indices is `place` followed by the eviction of the oldest range.
use shb.Common.{
  ℕ, suc, ◌+◌, ◌-◌, ◌<◌, ◌≤◌, ◌≡◌, refl, ap, ◌∙◌, Bool, true, false, List, [], ◌∷◌, ltb, ◌==◌,
  if◌then◌else◌, length, set, insert_at, remove_at, partition_point, Bool-cases, inl, inr, u64_mod,
  IsU64, All, arith,
}
use shb.Quic.Ranges.{Range, covers, Descends}
use shb.Quic.Received.{
  ReceivedPackets, index, last, touches_above, touches_below, insert_joined, insert_at_point,
  insert, max_ranges,
}
use shb.Quic.Received.Evict.{
  trim, length-insert_at, length-set, length-remove_at-le, evict_inner, evict_new, point-le,
  last-lt, end_bound,
}
use shb.Quic.Received.Place.{found-covers, place}

-- The ranges that each arm leaves where nothing is evicted.
joined : List Range → ℕ → ℕ → Bool → Bool → List Range
joined rs at pn true true = remove_at at (set rs (at - 1) ((index rs at).0, (index rs (at - 1)).1))
joined rs at pn true false = set rs (at - 1) (pn, (index rs (at - 1)).1)
joined rs at pn false true = set rs at ((index rs at).0, pn)
joined rs at pn false false = insert_at at (pn, pn) rs

pred_suc : (k : ℕ) → suc k - 1 ≡ k
pred_suc k = omega arith

joined-cons :
    (x : Range) (rs : List Range) (k pn : ℕ) (a b : Bool)
    → joined (x ∷ rs) (suc (suc k)) pn a b ≡ x ∷ joined rs (suc k) pn a b
unfolding joined
joined-cons x rs k pn true true = rw (pred_suc k, pred_suc (suc k))
joined-cons x rs k pn true false = rw (pred_suc k, pred_suc (suc k))
joined-cons x rs k pn false true = refl
joined-cons x rs k pn false false = refl

touches_above-cons :
    (x : Range) (rs : List Range) (k pn : ℕ)
    → touches_above (x ∷ rs) (suc (suc k)) pn ≡ touches_above rs (suc k) pn
touches_above-cons x rs k pn =
    let outer : ltb 0 (suc (suc k)) ≡ true = ground arith in
    let inner : ltb 0 (suc k) ≡ true = ground arith in
    rw (pred_suc k, pred_suc (suc k), outer, inner)

abbrev point : List Range → ℕ → ℕ
point rs pn = partition_point (λ r. ltb pn r.0) rs

abbrev joined_at_point : List Range → ℕ → List Range
joined_at_point rs pn =
    joined rs (point rs pn) pn (touches_above rs (point rs pn) pn)
      (touches_below rs (point rs pn) pn)

-- The point lies behind the first range.
joined_at_point-cons :
    (x y : Range) (rs : List Range) (pn : ℕ)
    → pn < x.0
    → pn < y.0
    → joined_at_point (x ∷ y ∷ rs) pn ≡ x ∷ joined_at_point (y ∷ rs) pn
joined_at_point-cons x y rs pn hx hy =
    let ex : ltb pn x.0 ≡ true = ground arith in
    let ey : ltb pn y.0 ≡ true = ground arith in
    rw (ex, ey, touches_above-cons x (y ∷ rs) (point rs pn) pn)
      (joined-cons x (y ∷ rs) (point rs pn) pn _ _)

touches_above-first :
    (lo hi : ℕ) (rs : List Range) (pn : ℕ) → touches_above ((lo, hi) ∷ rs) 1 pn ≡ (pn + 1 == lo)
touches_above-first lo hi rs pn = ground arith

touches_below-second :
    (x : Range) (lo hi : ℕ) (rs : List Range) (pn : ℕ)
    → pn < u64_mod
    → touches_below (x ∷ (lo, hi) ∷ rs) 1 pn ≡ (hi + 1 == pn)
touches_below-second x lo hi rs pn h = ground arith

-- The point lies between the first range and the second.
joined-second :
    (lo hi lo' hi' : ℕ) (rs : List Range) (pn : ℕ)
    → pn < lo
    → hi' < pn
    → lo' ≤ pn
    → joined ((lo, hi) ∷ (lo', hi') ∷ rs) 1 pn (pn + 1 == lo) (hi' + 1 == pn)
      ≡ place ((lo, hi) ∷ (lo', hi') ∷ rs) pn
unfolding joined place
joined-second lo hi lo' hi' rs pn h h' k = elim (Bool-cases (pn + 1 == lo)) [
  | inl above ↦ elim (Bool-cases (hi' + 1 == pn)) [
    | inl below ↦ rw (above, below) (ground arith)
    | inr apart ↦ rw (above, apart) (ground arith)
  ]
  | inr far ↦ elim (Bool-cases (hi' + 1 == pn)) [
    | inl below ↦ rw (far, below) (ground arith)
    | inr apart ↦ rw (far, apart) (ground arith)
  ]
]

module _ (pn : ℕ) (is_u64 : pn < u64_mod) where
  joined-eq-place :
      (top : ℕ) (rs : List Range)
      → Descends top rs
      → covers rs pn ≡ false
      → joined_at_point rs pn ≡ place rs pn
  joined-eq-place top [] d c = unfold place joined in refl
  joined-eq-place top ((lo, hi) ∷ []) d c = unfold place joined in ground arith
  joined-eq-place top ((lo, hi) ∷ (lo', hi') ∷ rs) d c = elim (Bool-cases (ltb pn lo)) [
    | inl under ↦ elim (Bool-cases (ltb pn lo')) [
      | inl inner ↦
          joined_at_point-cons (lo, hi) (lo', hi') rs pn (ground arith) (ground arith)
          ∙ ap (λ t. (lo, hi) ∷ t) (joined-eq-place lo ((lo', hi') ∷ rs) d.2 (ground arith))
          ∙ unfold place in ground arith
      | inr here ↦
          rw
            (
              under,
              here,
              touches_above-first lo hi ((lo', hi') ∷ rs) pn,
              touches_below-second (lo, hi) lo' hi' rs pn is_u64,
            )
            (joined-second lo hi lo' hi' rs pn (ground arith) (ground arith) (ground arith))
    ]
    | inr over ↦ rw over (unfold place joined in ground arith)
  ]

insert_joined-trim :
    (s : ReceivedPackets) (at pn : ℕ) (a b : Bool)
    → length s.ranges ≤ max_ranges
    → at ≤ length s.ranges
    → pn < u64_mod
    → (at < length s.ranges → (last s.ranges).1 < pn)
    → (at ≡ length s.ranges → length s.ranges ≡ max_ranges → pn + 1 < u64_mod)
    → insert_joined s at pn a b ≡ trim s.minimum (joined s.ranges at pn a b) pn
unfolding insert_joined joined
insert_joined-trim s at pn true true hl ha hu h e = ground (
  arith,
  length-remove_at-le at
      (set s.ranges (at - 1) ((index s.ranges at).0, (index s.ranges (at - 1)).1)),
  length-set s.ranges (at - 1) ((index s.ranges at).0, (index s.ranges (at - 1)).1),
)
insert_joined-trim s at pn true false hl ha hu h e =
    ground (arith, length-set s.ranges (at - 1) (pn, (index s.ranges (at - 1)).1))
insert_joined-trim s at pn false true hl ha hu h e =
    ground (arith, length-set s.ranges at ((index s.ranges at).0, pn))
insert_joined-trim s at pn false false hl ha hu h e = elim (Bool-cases (ltb at (length s.ranges))) [
  | inl inner ↦
      ground (arith, length-insert_at at (pn, pn) s.ranges, evict_inner at (pn, pn) s.ranges)
  | inr outer ↦
      let end : at ≡ length s.ranges = ground arith in
      rw end (
        ground (
          arith,
          end,
          length-insert_at (length s.ranges) (pn, pn) s.ranges,
          evict_new (pn, pn) s.ranges,
        ))
]

-- Forgotten, or in a range that is kept.
abbrev pub seen : ReceivedPackets → ℕ → Bool
seen s q = if ltb q s.minimum then true else covers s.ranges q

pub record IsValid (s : ReceivedPackets) : Type 0 where
  pub descends : Descends (suc u64_mod) s.ranges
  pub bounded : length s.ranges ≤ max_ranges
  pub floor : All (λ r. s.minimum ≤ r.0) s.ranges

-- Where the ranges are in order, within the limit and above the floor: a number that was seen changes nothing and is refused. Any other is placed among the ranges; if
-- that makes one range too many, the oldest is dropped and everything up to its end is forgotten.
pub insert-trim :
    (s : ReceivedPackets) (pn : ℕ)
    → IsValid s
    → IsU64 pn
    → insert s pn ≡ (if seen s pn then (s, false) else trim s.minimum (place s.ranges pn) pn)
unfolding insert insert_at_point
insert-trim s pn v h = elim (Bool-cases (ltb pn s.minimum)) [
  | inl old ↦ rw old
  | inr recent ↦ rw recent (
      rw (found-covers _ s.ranges pn v.descends) (elim (Bool-cases (covers s.ranges pn)) [
        | inl dup ↦ rw dup
        | inr new ↦
            rw (new, ← joined-eq-place pn h _ s.ranges v.descends new)
              (insert_joined-trim s (point s.ranges pn) pn
                (touches_above s.ranges (point s.ranges pn) pn)
                (touches_below s.ranges (point s.ranges pn) pn) v.bounded (point-le s.ranges pn) h
                (last-lt _ s.ranges pn v.descends new)
                (λ e full. end_bound s.ranges pn v.descends (omega arith) e))
      ]))
]
