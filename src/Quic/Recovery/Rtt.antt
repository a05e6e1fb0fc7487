-- ===== src/Quic/Recovery/Rtt.antt =====
-- src/quic/recovery.rs: `Rtt`.
use shb.Common.{ℕ, ◌+◌, ◌-◌, ◌*◌, ◌/◌, Option, none, some, ltb, if◌then◌else◌, min, max}

abbrev pub time_threshold_num : ℕ
time_threshold_num = 9

abbrev pub time_threshold_den : ℕ
time_threshold_den = 8

-- One millisecond.
abbrev pub timer_granularity : ℕ
timer_granularity = 1_000_000

abbrev pub persistent_congestion_threshold : ℕ
persistent_congestion_threshold = 3

-- 333 milliseconds.
abbrev pub initial_rtt : ℕ
initial_rtt = 333_000_000

pub record Rtt : Type 0 where
  pub latest : ℕ
  pub smoothed : Option ℕ
  pub variation : ℕ
  pub minimum : Option ℕ

-- `Rtt::default()`.
abbrev pub default : Rtt
default = record { latest = 0; smoothed = none; variation = 0; minimum = none }

abbrev pub lowest : Option ℕ → ℕ → ℕ
lowest none sample = sample
lowest (some low) sample = min low sample

-- The sample less the peer's delay, where that leaves it above the minimum.
abbrev pub adjust : ℕ → ℕ → ℕ → ℕ → ℕ
adjust low sample ack_delay max_ack_delay =
    max (if ltb low sample then sample - min ack_delay max_ack_delay else sample) low

-- `Duration::abs_diff`.
abbrev pub abs_diff : ℕ → ℕ → ℕ
abs_diff a b = (a - b) + (b - a)

-- The first sample has nothing to be smoothed against.
abbrev pub smooth : Rtt → Option ℕ → ℕ → ℕ → ℕ → ℕ → Rtt
smooth r none low sample ack_delay max_ack_delay = record {
  latest = sample;
  smoothed = some sample;
  variation = sample / 2;
  minimum = some low;
}
smooth r (some s) low sample ack_delay max_ack_delay = record {
  latest = sample;
  smoothed = some ((s * 7 + adjust low sample ack_delay max_ack_delay) / 8);
  variation = (r.variation * 3 + abs_diff s (adjust low sample ack_delay max_ack_delay)) / 4;
  minimum = some low;
}

unfoldable pub update : Rtt → ℕ → ℕ → ℕ → Rtt
update r sample ack_delay max_ack_delay =
    smooth r r.smoothed (lowest r.minimum sample) sample ack_delay max_ack_delay

abbrev pub smoothed_or_initial : Rtt → ℕ
smoothed_or_initial r = elim r.smoothed [ none ↦ initial_rtt | some s ↦ s ]

unfoldable pub pto : Rtt → ℕ → ℕ
pto r max_ack_delay =
    smoothed_or_initial r + max (r.variation * 4) timer_granularity + max_ack_delay

unfoldable pub persistent_congestion_duration : Rtt → ℕ → ℕ
unfolding pto
persistent_congestion_duration r max_ack_delay =
    pto r max_ack_delay * persistent_congestion_threshold

unfoldable pub loss_delay : Rtt → ℕ
loss_delay r =
    max (max r.latest (smoothed_or_initial r) * time_threshold_num / time_threshold_den)
      timer_granularity
