-- ===== src/Quic/Recovery/RttBounds.antt =====
-- The estimates stay between the samples.
use shb.Common.{ℕ, ◌+◌, ◌*◌, ◌/◌, ◌≤◌, List, [], ◌∷◌, Option, none, some, All, arith}
use shb.Quic.Recovery.Rtt.{
  Rtt, update, lowest, smooth, pto, loss_delay, persistent_congestion_duration, timer_granularity,
  initial_rtt, smoothed_or_initial,
}

-- Before the first sample there is no estimate; after it the estimate lies from the minimum to
-- `top`.
abbrev pub Between : ℕ → ℕ → Option ℕ → Option ℕ → Type 0
Between top variation none none = variation ≤ top
Between top variation none (some low) = ⊥
Between top variation (some s) none = ⊥
Between top variation (some s) (some low) = (low ≤ s) × (s ≤ top) × (variation ≤ top)

abbrev pub IsBetween : ℕ → Rtt → Type 0
IsBetween top r = Between top r.variation r.smoothed r.minimum

-- A sample, the delay that the peer reports, and the most it may report.
abbrev pub Sample : Type 0
Sample = ℕ × ℕ × ℕ

abbrev pub run : Rtt → List Sample → Rtt
run r [] = r
run r ((sample, ack_delay, max_ack_delay) ∷ es) = run (update r sample ack_delay max_ack_delay) es

smooth-Between :
    (top : ℕ) (r : Rtt) (s low : Option ℕ) (sample ack_delay max_ack_delay : ℕ)
    → Between top r.variation s low
    → sample ≤ top
    → IsBetween top (smooth r s (lowest low sample) sample ack_delay max_ack_delay)
smooth-Between top r none none sample ack_delay max_ack_delay v h = omega arith
smooth-Between top r none (some low) sample ack_delay max_ack_delay v h = absurd v
smooth-Between top r (some s) none sample ack_delay max_ack_delay v h = absurd v
smooth-Between top r (some s) (some low) sample ack_delay max_ack_delay v h =
    (ground arith, ground arith, ground arith)

pub update-IsBetween :
    (top : ℕ) (r : Rtt) (sample ack_delay max_ack_delay : ℕ)
    → IsBetween top r
    → sample ≤ top
    → IsBetween top (update r sample ack_delay max_ack_delay)
unfolding update
update-IsBetween top r sample ack_delay max_ack_delay v h =
    smooth-Between top r r.smoothed r.minimum sample ack_delay max_ack_delay v h

-- Over any samples up to `top`, whatever delays the peer reports: the smoothed time is from the
-- minimum to `top`, and the variation is at most `top`.
pub run-IsBetween :
    (top : ℕ) (r : Rtt) (es : List Sample)
    → IsBetween top r
    → All (λ e. e.0 ≤ top) es
    → IsBetween top (run r es)
run-IsBetween top r [] v h = v
run-IsBetween top r ((sample, ack_delay, max_ack_delay) ∷ es) v h =
    run-IsBetween top (update r sample ack_delay max_ack_delay) es
      (update-IsBetween top r sample ack_delay max_ack_delay v h.0) h.1

-- Where the estimates lie up to `top`, at least the initial time and the granularity: a packet is
-- given up at most nine eighths of `top` after it was sent, and a probe goes out within five times
-- `top` and the peer's delay.
pub timers_within :
    (top : ℕ) (r : Rtt) (max_ack_delay : ℕ)
    → IsBetween top r
    → r.latest ≤ top
    → initial_rtt ≤ top
    → (timer_granularity ≤ loss_delay r)
      × (loss_delay r ≤ top * 9 / 8)
      × (pto r max_ack_delay ≤ 5 * top + max_ack_delay)
      × (persistent_congestion_duration r max_ack_delay ≤ 15 * top + 3 * max_ack_delay)
unfolding loss_delay pto persistent_congestion_duration
timers_within top r max_ack_delay v l i =
    let est : smoothed_or_initial r ≤ top = ground arith in
    let var : r.variation ≤ top = ground arith in
    (omega arith, omega arith, omega arith, omega arith)
