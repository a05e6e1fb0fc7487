-- ===== src/Quic/Ack.antt =====
-- src/quic/ack.rs: what to acknowledge, and when. An instant is a number of nanoseconds.
pub mod Insert
pub mod Record
mod Runs
use shb.Common.{
  ℕ, zero, suc, ◌+◌, ◌-◌, ◌*◌, ◌/◌, ◌%◌, ◌^◌, ◌&&◌, Bool, true, false, List, [], ◌∷◌, ◌++◌, Option,
  none, some, ltb, leb, ◌==◌, if◌then◌else◌, length, keep, add_u64, u64_mod,
}
use shb.Quic.Ranges.{Range}

pub record AckState : Type 0 where
  pub ranges : List Range
  pub ack_eliciting_pending : Bool
  pub largest_received_at : Option ℕ

abbrev pub max_ranges : ℕ
max_ranges = 32

-- `AckState::default()`.
abbrev pub default : AckState
default = record { ranges = []; ack_eliciting_pending = false; largest_received_at = none }

-- The ranges before the loop's index, last first, in front of those from the index on.
abbrev pub rejoin : List Range → List Range → List Range
rejoin [] rs = rs
rejoin (r ∷ done) rs = rejoin done (r ∷ rs)

-- `self.ranges[i].1 = pn`, and the range above if it now touches.
abbrev pub extend_up : List Range → ℕ → List Range → ℕ → List Range
extend_up [] smallest rest pn = (smallest, pn) ∷ rest
extend_up ((lo, hi) ∷ done) smallest rest pn =
    if lo == add_u64 pn 1
    then rejoin done ((smallest, hi) ∷ rest)
    else rejoin done ((lo, hi) ∷ (smallest, pn) ∷ rest)

-- `self.ranges[i].0 = pn`, and the range below if it now touches.
abbrev pub extend_down : List Range → ℕ → List Range → ℕ → List Range
extend_down done largest [] pn = rejoin done ((pn, largest) ∷ [])
extend_down done largest ((lo, hi) ∷ rest) pn =
    if add_u64 hi 1 == pn
    then rejoin done ((lo, largest) ∷ rest)
    else rejoin done ((pn, largest) ∷ (lo, hi) ∷ rest)

-- `Vec::pop`.
abbrev pub pop : List Range → List Range
pop [] = []
pop (r ∷ []) = []
pop (r ∷ s ∷ rs) = r ∷ pop (s ∷ rs)

-- The loop of `insert`: `done` holds the ranges that it has passed, last first. `total` is the
-- number of ranges.
unfoldable pub insert_loop : ℕ → List Range → List Range → ℕ → List Range
insert_loop total done [] pn =
    if ltb total max_ranges then rejoin done ((pn, pn) ∷ []) else rejoin done []
insert_loop total done ((smallest, largest) ∷ rest) pn =
    let on = insert_loop total ((smallest, largest) ∷ done) rest pn in
    if leb smallest pn && leb pn largest
    then rejoin done ((smallest, largest) ∷ rest)
    else if pn == add_u64 largest 1
    then extend_up done smallest rest pn
    else if ltb 0 smallest && pn == smallest - 1
    then extend_down done largest rest pn
    else if ltb largest pn
    then rejoin done (
        (pn, pn)
        ∷ (if total == max_ranges
            then pop ((smallest, largest) ∷ rest)
            else (smallest, largest) ∷ rest))
    else on

unfoldable pub insert : List Range → ℕ → List Range
unfolding insert_loop
insert ranges pn = insert_loop (length ranges) [] ranges pn

-- `self.ranges.first().is_none_or(|&(_, largest)| pn > largest)`.
abbrev pub is_largest : List Range → ℕ → Bool
is_largest [] pn = true
is_largest ((lo, hi) ∷ rs) pn = ltb hi pn

unfoldable pub record_packet : AckState → ℕ → Bool → ℕ → AckState
unfolding insert
record_packet s pn ack_eliciting now = record {
  ranges = insert s.ranges pn;
  ack_eliciting_pending = if ack_eliciting then true else s.ack_eliciting_pending;
  largest_received_at = if is_largest s.ranges pn then some now else s.largest_received_at;
}

-- `(now - at).as_micros() >> exponent`, with the subtraction saturating.
unfoldable pub delay : AckState → ℕ → ℕ → ℕ
delay s now exponent = elim s.largest_received_at [
  | none ↦ 0
  | some at ↦ (now - at) / 1000 % u64_mod / 2 ^ exponent
]

unfoldable pub trim_below : AckState → ℕ → AckState
trim_below s largest_acked_by_peer = record s {
  ranges = keep (λ r. ltb largest_acked_by_peer r.1) s.ranges;
}

unfoldable pub take_pending : AckState → AckState × Bool
take_pending s = (record s { ack_eliciting_pending = false }, s.ack_eliciting_pending)
