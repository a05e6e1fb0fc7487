-- ===== src/Quic/Ack/Runs.antt =====
-- Concrete runs, and the theorems at concrete inputs.
use shb.Common.{ℕ, ◌-◌, ◌≡◌, refl, true, false, List, [], ◌∷◌, ◌++◌, some, any, arith}
use shb.Quic.Ranges.{covers}
use shb.Quic.Ack.{default, record_packet, trim_below}
use shb.Quic.Ack.Record.{
  IsValid, Event, received, acked, run, is_received, covers-run, run-IsValid, put_ack-run,
}
use shb.Quic.Frame.{next_frame, ok, ack}
use shb.Quic.Frame.Encode.{put_ack}
use shb.Quic.Frame.AckRanges.{new, collect}

abbrev history : List Event
history =
    received 5 true 10
    ∷ received 3 true 20
    ∷ received 4 false 30
    ∷ received 9 true 40
    ∷ acked 2
    ∷ []

history_ranges : (run default history).ranges ≡ (9, 9) ∷ (3, 5) ∷ []
unfolding record_packet trim_below
history_ranges = refl

covers-history : covers (run default history).ranges 4 ≡ true
unfolding record_packet trim_below
covers-history = refl

covers-run_example : any (is_received 4) history ≡ true
covers-run_example = covers-run history 4 (omega arith) covers-history

run-IsValid_example : IsValid (run default history)
run-IsValid_example = run-IsValid default history (omega arith) (omega arith)

put_ack-run_example :
    (written raw : List ℕ) × (put_ack [] (run default history).ranges 25 ≡ some written)
    × (next_frame (written ++ []) ≡ ok (ack 9 25 (9 - 9) raw 1, []))
    × (collect (new 9 (9 - 9) raw) ≡ (run default history).ranges)
put_ack-run_example =
    put_ack-run history 25 9 9 ((3, 5) ∷ []) [] (omega arith) (omega arith) history_ranges
