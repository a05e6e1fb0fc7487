-- ===== src/Quic/Frame/AckRanges.antt =====
-- src/quic/frame.rs: walking the ranges of an ACK frame.
use shb.Common.{
  ℕ, zero, suc, Bool, true, false, List, [], ◌∷◌, Option, none, some, if◌then◌else◌, length, drop,
  add_u64, checked_sub,
}
use shb.Quic.Ranges.{Range}
use shb.Quic.Varint.{get_varint}

-- `ranges` with `pos` is the list of the bytes from `pos` on.
pub record AckRanges : Type 0 where
  pub largest : ℕ
  pub first_range : ℕ
  pub ranges : List ℕ
  pub done_first : Bool
  pub next_largest : ℕ

abbrev pub new : ℕ → ℕ → List ℕ → AckRanges
new largest first_range ranges = record {
  largest = largest;
  first_range = first_range;
  ranges = ranges;
  done_first = false;
  next_largest = largest;
}

infixl 5 ◌>>=◌
abbrev ◌>>=◌ {ℓ κ} : {A : Type ℓ} {B : Type κ} → Option A → (A → Option B) → Option B
none >>= f = none
some a >>= f = f a

-- `Iterator::next`: `none` ends the walk, so the state that it leaves is not kept.
unfoldable pub next_first : AckRanges → Option (Range × AckRanges)
next_first a = do
  smallest ← checked_sub a.largest a.first_range
  some ((smallest, a.largest), record a { done_first = true; next_largest = smallest })

unfoldable pub next_pair : AckRanges → Option (Range × AckRanges)
next_pair a = do
  (gap, n) ← get_varint a.ranges
  let behind = drop n a.ranges
  (len, m) ← get_varint behind
  largest ← checked_sub a.next_largest (add_u64 gap 2)
  smallest ← checked_sub largest len
  some ((smallest, largest), record a { ranges = drop m behind; next_largest = smallest })

unfoldable pub next : AckRanges → Option (Range × AckRanges)
unfolding next_first next_pair
next a = if a.done_first then next_pair a else next_first a

-- The ranges that a `for` loop sees; each but the first takes at least two bytes.
unfoldable pub collect_fuel : ℕ → AckRanges → List Range
collect_fuel zero a = []
collect_fuel (suc fuel) a = elim (next a) [ none ↦ [] | some (r, a') ↦ r ∷ collect_fuel fuel a' ]

unfoldable pub collect : AckRanges → List Range
unfolding collect_fuel
collect a = collect_fuel (suc (suc (length a.ranges))) a
