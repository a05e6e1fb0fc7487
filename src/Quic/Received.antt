-- ===== src/Quic/Received.antt =====
-- src/quic/received.rs: which packet numbers have been seen, in bounded space.
pub mod Place
pub mod Evict
pub mod Refines
pub mod Once
mod Runs
use shb.Common.{
  ℕ, suc, ◌+◌, ◌-◌, ◌<◌, ◌&&◌, Bool, true, false, List, [], ◌∷◌, Option, none, some, ltb, leb, ◌==◌,
  if◌then◌else◌, length, get_elem?, set, remove_at, insert_at, partition_point, add_u64,
  checked_add, checked_sub,
}
use shb.Quic.Ranges.{Range}

pub record ReceivedPackets : Type 0 where
  pub ranges : List Range
  pub minimum : ℕ

abbrev pub max_ranges : ℕ
max_ranges = 256

-- `ReceivedPackets::default()`.
unfoldable pub default : ReceivedPackets
default = record { ranges = []; minimum = 0 }

-- `opt == Some(n)`.
abbrev pub is_some_of : Option ℕ → ℕ → Bool
is_some_of none n = false
is_some_of (some m) n = m == n

-- `self.ranges.get(at)` satisfies a test.
abbrev pub is_some_and : Option Range → (Range → Bool) → Bool
is_some_and none p = false
is_some_and (some r) p = p r

-- `self.ranges[i]`, which the code reads in bounds only.
abbrev pub index : List Range → ℕ → Range
index rs i = elim (get_elem? rs i) [ none ↦ (0, 0) | some r ↦ r ]

-- The last range, and the list without it: `Vec::pop`.
abbrev pub last : List Range → Range
last [] = (0, 0)
last (r ∷ []) = r
last (r ∷ s ∷ rs) = last (s ∷ rs)

abbrev pub drop_last : List Range → List Range
drop_last [] = []
drop_last (r ∷ []) = []
drop_last (r ∷ s ∷ rs) = r ∷ drop_last (s ∷ rs)

-- The arm `(false, false)`: a range of its own, after an eviction where the history is full.
unfoldable pub insert_alone : ReceivedPackets → ℕ → ℕ → ReceivedPackets × Bool
insert_alone s at pn =
    if length s.ranges == max_ranges
    then (if at == max_ranges then (record s { minimum = add_u64 pn 1 }, false) else (
      record s {
        minimum = add_u64 ((last s.ranges).1) 1;
        ranges = insert_at at (pn, pn) (drop_last s.ranges);
      },
      true,
    ))
    else (record s { ranges = insert_at at (pn, pn) s.ranges }, true)

-- The `match (above, below)`.
unfoldable pub insert_joined : ReceivedPackets → ℕ → ℕ → Bool → Bool → ReceivedPackets × Bool
unfolding insert_alone
insert_joined s at pn true true = (
  record s {
    ranges =
        remove_at at (set s.ranges (at - 1) ((index s.ranges at).0, (index s.ranges (at - 1)).1));
  },
  true,
)
insert_joined s at pn true false =
    (record s { ranges = set s.ranges (at - 1) (pn, (index s.ranges (at - 1)).1) }, true)
insert_joined s at pn false true =
    (record s { ranges = set s.ranges at ((index s.ranges at).0, pn) }, true)
insert_joined s at pn false false = insert_alone s at pn

-- Whether the number touches the range before the point, and the one at it.
abbrev pub touches_above : List Range → ℕ → ℕ → Bool
touches_above rs at pn = ltb 0 at && is_some_of (checked_sub ((index rs (at - 1)).0) 1) pn

abbrev pub touches_below : List Range → ℕ → ℕ → Bool
touches_below rs at pn = is_some_and (get_elem? rs at) (λ r. is_some_of (checked_add r.1 1) pn)

unfoldable pub insert_at_point : ReceivedPackets → ℕ → ℕ → ReceivedPackets × Bool
unfolding insert_joined
insert_at_point s at pn =
    if is_some_and (get_elem? s.ranges at) (λ r. leb pn r.1)
    then (s, false)
    else insert_joined s at pn (touches_above s.ranges at pn) (touches_below s.ranges at pn)

-- The new history, and whether the number is new.
unfoldable pub insert : ReceivedPackets → ℕ → ReceivedPackets × Bool
unfolding insert_at_point
insert s pn =
    if ltb pn s.minimum
    then (s, false)
    else insert_at_point s (partition_point (λ r. ltb pn r.0) s.ranges) pn
