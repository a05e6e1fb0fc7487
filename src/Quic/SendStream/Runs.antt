-- ===== src/Quic/SendStream/Runs.antt =====
-- Concrete runs, and the theorems at concrete inputs.
use shb.Common.{ℕ, ◌≤◌, ◌≡◌, refl, ◌&&◌, false, List, [], ◌∷◌, some, inl, inr, arith}
use shb.Quic.SendStream.{SendStream, new, write, next_send, on_sent, on_acked, on_lost}
use shb.Quic.SendStream.Next.{IsChunk, on_sent_charge}
use shb.Quic.SendStream.Covers.{in_run}
use shb.Quic.SendStream.Acked.{IsSound}
use shb.Quic.SendStream.Resend.{
  Reach, here, next, writes, sends, acks, loses, acknowledged, Reach-IsSound, new-IsSound,
  next_send-Reach,
}

-- Ten bytes written; 0 to 8 sent; 3 to 5 acknowledged; 1 to 3 and 6 to 8 lost.
abbrev ragged : SendStream
ragged = record (new 20) {
  buf = 0 ∷ 1 ∷ 2 ∷ 3 ∷ 4 ∷ 5 ∷ 6 ∷ 7 ∷ 8 ∷ 9 ∷ [];
  sent = 8;
  lost = (1, 3) ∷ (6, 8) ∷ [];
  acked = (3, 5) ∷ [];
}

abbrev ten : List ℕ
ten = 0 ∷ 1 ∷ 2 ∷ 3 ∷ 4 ∷ 5 ∷ 6 ∷ 7 ∷ 8 ∷ 9 ∷ []

ragged-IsSound : IsSound ten ragged
ragged-IsSound = record {
  laid = record {
    start_fits = omega arith;
    ends = refl;
    bytes = refl;
    sent_fits = omega arith;
    lost_sent = omega arith;
  };
  acked_ascends = omega arith;
  lost_apart = ((inl (omega arith), (inr (omega arith), tt)), tt);
}

resends_lost : next_send ragged 1 0 ≡ some (1, 1 ∷ [], false)
unfolding next_send
resends_lost = refl

acks_queued : (on_acked ragged 5 2 false).lost ≡ (1, 3) ∷ (7, 8) ∷ []
unfolding on_acked
acks_queued = refl

loses_around_acked : (on_lost (record ragged { lost = [] }) 2 5 false).lost ≡ (2, 3) ∷ (5, 7) ∷ []
unfolding on_lost
loses_around_acked = refl

on_sent_charge_example : ((on_sent ragged 1 1 false).1 ≤ 0) × ((on_sent ragged 1 1 false).1 ≡ 0)
on_sent_charge_example =
    on_sent_charge ten ragged 1 0 (1, 1 ∷ [], false) ragged-IsSound.laid resends_lost

-- Five bytes are written and sent, two in the middle acknowledged, and all of them said to be lost.
abbrev five : List ℕ
five = 7 ∷ 8 ∷ 9 ∷ 4 ∷ 5 ∷ []

abbrev sent_stream : SendStream
sent_stream = record (new 20) { buf = five; sent = 5 }

abbrev acked_stream : SendStream
acked_stream = record sent_stream { acked = (2, 4) ∷ [] }

abbrev lost_stream : SendStream
lost_stream = record acked_stream { lost = (0, 2) ∷ (4, 5) ∷ [] }

lost_reached : Reach ([], [], new 20) (five, (2, 4) ∷ [], lost_stream)
unfolding write next_send on_sent on_acked on_lost
lost_reached =
    next
      (next
        (next (next here (writes [] [] (new 20) five))
          (sends five [] (record (new 20) { buf = five }) 10 10 (0, five, false) refl))
        (acks five [] sent_stream 2 2 false (omega arith)))
      (loses five ((2, 4) ∷ []) acked_stream 0 5 false)

lost_again : next_send lost_stream 9 0 ≡ some (0, 7 ∷ 8 ∷ [], false)
unfolding next_send
lost_again = refl

next_send-Reach_example :
    IsChunk five lost_stream 9 (0, 7 ∷ 8 ∷ [], false)
    × ((in_run 2 (0, 2) && acknowledged ((2, 4) ∷ []) 2) ≡ false)
next_send-Reach_example =
    next_send-Reach 20 five ((2, 4) ∷ []) lost_stream 9 0 (0, 7 ∷ 8 ∷ [], false) 2 lost_reached
      lost_again

Reach-IsSound_example : IsSound five lost_stream
Reach-IsSound_example = Reach-IsSound (new-IsSound 20) lost_reached refl
