-- ===== src/Quic/Recovery/Runs.antt =====
-- Concrete runs, and the theorems at concrete inputs.
use shb.Common.{
  ℕ, ◌+◌, ◌*◌, ◌/◌, ◌<◌, ◌≤◌, ◌≡◌, refl, true, false, List, [], ◌∷◌, ◌++◌, none, some, length, All,
  max, arith,
}
use shb.Quic.Recovery.Rtt.{
  Rtt, update, pto, loss_delay, persistent_congestion_duration, timer_granularity,
}
use shb.Quic.Recovery.RttBounds.{IsBetween, run-IsBetween, timers_within}
use shb.Quic.Recovery.Sent.{SentPacket, SentPackets, ping, drain_acked, detect_lost}
use shb.Quic.Recovery.Conserved.{Splits, Answers, drain_acked-Splits}
use shb.Quic.Recovery.Judged.{IsJudged, detect_lost-IsJudged, detect_lost_due}
use shb.Quic.Recovery.Congestion.{Congestion, on_ack, on_loss, can_send, min_window}
use shb.Quic.Recovery.Windows.{acks, loses, collapses, can_send-run, one_halving}
use shb.Quic.Recovery.Pto.{data_space, probe_at, pto_deadline}
use shb.Quic.Recovery.Rtt
use shb.Quic.Recovery.RttBounds
use shb.Quic.Recovery.Windows
use shb.Quic.Recovery.Congestion

abbrev one_sample : Rtt
one_sample = record {
  latest = 400_000_000;
  smoothed = some 400_000_000;
  variation = 200_000_000;
  minimum = some 400_000_000;
}

first_sample : update Rtt.default 400_000_000 0 0 ≡ one_sample
unfolding update
first_sample = refl

run-IsBetween_example : IsBetween 500 (RttBounds.run Rtt.default ((400, 0, 0) ∷ (500, 60, 50) ∷ []))
run-IsBetween_example =
    run-IsBetween 500 Rtt.default ((400, 0, 0) ∷ (500, 60, 50) ∷ []) (omega arith) (omega arith)

timers_within_example :
    (timer_granularity ≤ loss_delay one_sample)
    × (loss_delay one_sample ≤ 400_000_000 * 9 / 8)
    × (pto one_sample 25 ≤ 5 * 400_000_000 + 25)
    × (persistent_congestion_duration one_sample 25 ≤ 15 * 400_000_000 + 3 * 25)
timers_within_example =
    timers_within 400_000_000 one_sample 25 (omega arith) (omega arith) (omega arith)

-- Packet `n`, sent at the time `at`.
abbrev packet : ℕ → ℕ → SentPacket
packet n at = record {
  ack_largest = none;
  number = n;
  time_sent = at;
  size = 1200;
  ack_eliciting = true;
  frames = ping ∷ [];
}

abbrev flight : SentPackets
flight = record {
  packets = packet 1 10 ∷ packet 5 50 ∷ packet 6 60 ∷ packet 9 90 ∷ [];
  largest_acked = some 7;
  last_ack_eliciting = some 90;
}

acks_named : (drain_acked flight ((5, 6) ∷ []) []).1 ≡ packet 5 50 ∷ packet 6 60 ∷ []
unfolding drain_acked
acks_named = refl

loses_behind : detect_lost flight 65 20 ≡ (
  record flight { packets = packet 5 50 ∷ packet 6 60 ∷ packet 9 90 ∷ [] },
  packet 1 10 ∷ [],
  some 70,
)
unfolding detect_lost
loses_behind = refl

drain_acked-Splits_example :
    (out : List SentPacket) × ((drain_acked flight ((5, 6) ∷ []) (packet 0 1 ∷ [])).1
      ≡ (packet 0 1 ∷ []) ++ out)
    × All (Answers ((5, 6) ∷ []) true) out
    × All
        (Answers ((5, 6) ∷ []) false)
        (drain_acked flight ((5, 6) ∷ []) (packet 0 1 ∷ [])).0.packets
    × Splits flight.packets (drain_acked flight ((5, 6) ∷ []) (packet 0 1 ∷ [])).0.packets out
drain_acked-Splits_example = drain_acked-Splits flight ((5, 6) ∷ []) (packet 0 1 ∷ [])

detect_lost-IsJudged_example :
    IsJudged 7 65 20
      (detect_lost flight 65 20).0.packets
      (detect_lost flight 65 20).1
      (detect_lost flight 65 20).2
detect_lost-IsJudged_example = detect_lost-IsJudged flight 7 65 20 refl

next_deadline_seventy : (detect_lost flight 65 20).2 ≡ some 70
unfolding detect_lost
next_deadline_seventy = refl

detect_lost_due_example : 0 < length (detect_lost (detect_lost flight 65 20).0 71 20).1
detect_lost_due_example =
    detect_lost_due flight 7 65 71 20 70 refl next_deadline_seventy (omega arith)

one_halving_example :
    ((Windows.run (on_loss Congestion.default 3 9) (loses 9 12 ∷ acks 1200 5 ∷ [])).window
      ≡ max (Congestion.default.window / 2) min_window)
    × (Windows.run (on_loss Congestion.default 3 9) (loses 9 12 ∷ acks 1200 5 ∷ [])
        ≡ on_loss Congestion.default 3 9)
one_halving_example =
    one_halving Congestion.default 3 9 (loses 9 12 ∷ acks 1200 5 ∷ []) refl (omega arith)

abbrev idle : SentPackets
idle = record { packets = []; largest_acked = none; last_ack_eliciting = some 20 }

data_probe : pto_deadline idle idle flight one_sample 25 0 none ≡ some (data_space, 1_200_000_115)
unfolding pto_deadline
data_probe = refl

data_probe_alone : probe_at data_space flight one_sample 25 0 ≡ some 1_200_000_115
unfolding probe_at
data_probe_alone = refl
