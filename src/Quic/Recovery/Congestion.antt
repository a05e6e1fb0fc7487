-- ===== src/Quic/Recovery/Congestion.antt =====
-- src/quic/recovery.rs: `Congestion`.
use shb.Common.{
  ℕ, ◌-◌, ◌*◌, ◌/◌, Bool, false, Option, none, some, ltb, leb, if◌then◌else◌, max, add_u64, u64_mod,
}

abbrev pub initial_window : ℕ
initial_window = 4 * 1024 * 1024

abbrev pub min_window : ℕ
min_window = 2 * 1200

pub record Congestion : Type 0 where
  pub window : ℕ
  pub ssthresh : ℕ
  pub recovery_start : Option ℕ
  pub acked_since_increase : ℕ

-- `Congestion::default()`.
abbrev pub default : Congestion
default = record {
  window = initial_window;
  ssthresh = u64_mod - 1;
  recovery_start = none;
  acked_since_increase = 0;
}

-- `self.recovery_start.is_some_and(|t| sent <= t)`.
abbrev pub in_recovery : Option ℕ → ℕ → Bool
in_recovery none sent = false
in_recovery (some t) sent = leb sent t

abbrev pub avoid : Congestion → ℕ → Congestion
avoid s acked =
    if leb s.window acked
    then record s { acked_since_increase = acked - s.window; window = add_u64 s.window 1200 }
    else record s { acked_since_increase = acked }

unfoldable pub on_ack : Congestion → ℕ → ℕ → Congestion
on_ack s bytes sent =
    if in_recovery s.recovery_start sent
    then s
    else if ltb s.window s.ssthresh
    then record s { window = add_u64 s.window bytes }
    else avoid s (add_u64 s.acked_since_increase bytes)

unfoldable pub on_loss : Congestion → ℕ → ℕ → Congestion
on_loss s sent now = if in_recovery s.recovery_start sent then s else record {
  window = max (s.window / 2) min_window;
  ssthresh = max (s.window / 2) min_window;
  recovery_start = some now;
  acked_since_increase = 0;
}

unfoldable pub on_persistent_congestion : Congestion → Congestion
on_persistent_congestion s = record {
  window = min_window;
  ssthresh = u64_mod - 1;
  recovery_start = none;
  acked_since_increase = 0;
}

unfoldable pub can_send : Congestion → ℕ → Bool
can_send s in_flight = ltb in_flight s.window
