-- ===== src/Quic/Received/Once.antt =====
-- Every number is new at most once, over any history.
use shb.Common.{
  ℕ, zero, suc, ◌+◌, ◌<◌, ◌≤◌, ◌≡◌, refl, true, false, List, [], ◌∷◌, ltb, ◌==◌, if◌then◌else◌,
  length, All, IsU64, Bool-cases, inl, inr, arith,
}
use shb.Quic.Ranges.{Range, covers, Descends}
use shb.Quic.Received.{ReceivedPackets, default, insert, last, drop_last, max_ranges}
use shb.Quic.Received.Place.{place, covers-place, place-Descends, length-place-le}
use shb.Quic.Received.Evict.{last-le}
use shb.Quic.Received.Refines.{seen, IsValid, insert-trim}

drop_last-Descends : (top : ℕ) (rs : List Range) → Descends top rs → Descends top (drop_last rs)
drop_last-Descends top [] d = tt
drop_last-Descends top (x ∷ []) d = tt
drop_last-Descends top (x ∷ y ∷ rs) d = (d.0, d.1, drop_last-Descends x.0 (y ∷ rs) d.2)

drop_last-floor :
    (top : ℕ) (rs : List Range) → Descends top rs → All (λ r. (last rs).1 + 1 ≤ r.0) (drop_last rs)
drop_last-floor top [] d = tt
drop_last-floor top (x ∷ []) d = tt
drop_last-floor top (x ∷ y ∷ rs) d =
    (omega (arith, last-le x.0 rs y d.2), drop_last-floor x.0 (y ∷ rs) d.2)

length-drop_last-le : (rs : List Range) (k : ℕ) → length rs ≤ suc k → length (drop_last rs) ≤ k
length-drop_last-le [] k h = omega arith
length-drop_last-le (x ∷ []) k h = omega arith
length-drop_last-le (x ∷ y ∷ rs) zero h = absurd (omega arith)
length-drop_last-le (x ∷ y ∷ rs) (suc k) h =
    omega (arith, length-drop_last-le (y ∷ rs) k (omega arith))

covers-drop_last :
    (top : ℕ) (rs : List Range) (q : ℕ)
    → Descends top rs
    → (last rs).1 < q
    → covers (drop_last rs) q ≡ covers rs q
covers-drop_last top [] q d h = refl
covers-drop_last top (x ∷ []) q d h = ground arith
covers-drop_last top (x ∷ y ∷ rs) q d h = ground (arith, covers-drop_last x.0 (y ∷ rs) q d.2)

place-floor :
    (rs : List Range) (pn m : ℕ) → m ≤ pn → All (λ r. m ≤ r.0) rs → All (λ r. m ≤ r.0) (place rs pn)
unfolding place
place-floor [] pn m h a = omega arith
place-floor ((lo, hi) ∷ []) pn m h a = ground arith
place-floor ((lo, hi) ∷ (lo', hi') ∷ rs) pn m h a =
    ground (arith, place-floor ((lo', hi') ∷ rs) pn m)

last-floor :
    (top m : ℕ) (rs : List Range)
    → 0 < length rs
    → Descends top rs
    → All (λ r. m ≤ r.0) rs
    → m ≤ (last rs).1
last-floor top m [] p d a = absurd (omega arith)
last-floor top m (x ∷ []) p d a = omega arith
last-floor top m (x ∷ y ∷ rs) p d a = last-floor x.0 m (y ∷ rs) (omega arith) d.2 a.1

-- `insert` keeps the ranges in order with gaps between them, at most 256, and at or above the
-- floor.
pub insert-IsValid : (s : ReceivedPackets) (pn : ℕ) → IsValid s → IsU64 pn → IsValid (insert s pn).0
insert-IsValid s pn v h = rw (insert-trim s pn v h) (elim (Bool-cases (seen s pn)) [
  | inl old ↦ rw old v
  | inr new ↦ rw new (elim (Bool-cases (ltb max_ranges (length (place s.ranges pn)))) [
    | inl over ↦ rw over (record {
      descends = drop_last-Descends _ _ (place-Descends _ s.ranges pn (omega arith) v.descends);
      bounded =
          length-drop_last-le (place s.ranges pn) max_ranges
            (omega (arith, length-place-le s.ranges pn, v.bounded));
      floor = drop_last-floor _ _ (place-Descends _ s.ranges pn (omega arith) v.descends);
    })
    | inr fits ↦ rw fits (record {
      descends = place-Descends _ s.ranges pn (omega arith) v.descends;
      bounded = ground arith;
      floor = place-floor s.ranges pn s.minimum (ground arith) v.floor;
    })
  ])
])

-- Nothing that was seen is forgotten, and the number itself is seen from now on.
pub seen-insert :
    (s : ReceivedPackets) (pn q : ℕ)
    → IsValid s
    → IsU64 pn
    → (if q == pn then true else seen s q) ≡ true
    → seen (insert s pn).0 q ≡ true
seen-insert s pn q v h e = rw (insert-trim s pn v h) (elim (Bool-cases (seen s pn)) [
  | inl old ↦ rw old (ground arith)
  | inr new ↦ rw new (elim (Bool-cases (ltb max_ranges (length (place s.ranges pn)))) [
    | inl over ↦ rw over (
        ground (
          arith,
          covers-place _ s.ranges pn q v.descends,
          covers-drop_last _ (place s.ranges pn) q
              (place-Descends _ s.ranges pn (omega arith) v.descends),
          last-floor _ s.minimum (place s.ranges pn) (ground arith)
              (place-Descends _ s.ranges pn (omega arith) v.descends)
              (place-floor s.ranges pn s.minimum (ground arith) v.floor),
        ))
    | inr fits ↦ rw fits (ground (arith, covers-place _ s.ranges pn q v.descends))
  ])
])

abbrev pub insert_all : ReceivedPackets → List ℕ → ReceivedPackets
insert_all s [] = s
insert_all s (pn ∷ pns) = insert_all (insert s pn).0 pns

seen-insert_all :
    (s : ReceivedPackets) (pns : List ℕ) (q : ℕ)
    → IsValid s
    → All IsU64 pns
    → seen s q ≡ true
    → IsValid (insert_all s pns) × (seen (insert_all s pns) q ≡ true)
seen-insert_all s [] q v h e = (v, e)
seen-insert_all s (pn ∷ pns) q v h e =
    seen-insert_all (insert s pn).0 pns q (insert-IsValid s pn v h.0) h.1
      (seen-insert s pn q v h.0 (ground arith))

pub default-IsValid : IsValid default
unfolding default
default-IsValid = record { descends = tt; bounded = omega arith; floor = tt }

pub insert_all-IsValid :
    (s : ReceivedPackets) (pns : List ℕ) → IsValid s → All IsU64 pns → IsValid (insert_all s pns)
insert_all-IsValid s [] v h = v
insert_all-IsValid s (pn ∷ pns) v h =
    insert_all-IsValid (insert s pn).0 pns (insert-IsValid s pn v h.0) h.1

-- Whatever numbers were inserted before and whatever come between, a number that was inserted once
-- is refused from then on.
pub insert_once :
    (before between : List ℕ) (pn : ℕ)
    → All IsU64 before
    → All IsU64 between
    → IsU64 pn
    → (insert (insert_all (insert (insert_all default before) pn).0 between) pn).1 ≡ false
insert_once before between pn hb hw h =
    let v = insert_all-IsValid default before default-IsValid hb in
    let at = insert_all default before in
    let (v', e) =
      seen-insert_all (insert at pn).0 between pn (insert-IsValid at pn v h) hw
        (seen-insert at pn pn v h (ground arith)) in
    rw (insert-trim _ pn v' h, e)
