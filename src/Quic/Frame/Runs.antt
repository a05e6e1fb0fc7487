-- ===== src/Quic/Frame/Runs.antt =====
-- Concrete runs, and the theorems at concrete inputs.
use shb.Common.{ℕ, ◌≡◌, refl, true, List, [], ◌∷◌, ◌++◌, some, arith}
use shb.Quic.Frame.{ok, err, past_end, next, next_frame, varint, take_bytes, stream, ack, padding}
use shb.Quic.Frame.Encode.{put_stream, put_ack}
use shb.Quic.Frame.AckRanges.{new, collect}
use shb.Quic.Frame.RoundTrip.{next_frame-put_stream}
use shb.Quic.Frame.AckRoundTrip.{next_frame-put_ack}

pads : next (0 ∷ 0 ∷ 0 ∷ 1 ∷ []) ≡ some (ok padding, 1 ∷ [])
unfolding next varint
pads = refl

stream_past_end : next (0x0a ∷ 0x04 ∷ 0x05 ∷ 1 ∷ []) ≡ some (err past_end, [])
unfolding next varint take_bytes
stream_past_end = refl

next_frame-put_stream_example :
    next_frame (put_stream [] 4 70 true (1 ∷ 2 ∷ []) ++ (1 ∷ []))
    ≡ ok (stream 4 70 true (1 ∷ 2 ∷ []), 1 ∷ [])
next_frame-put_stream_example =
    next_frame-put_stream (1 ∷ 2 ∷ []) (omega arith) (1 ∷ []) 4 70 true (omega arith) (omega arith)

abbrev token : List ℕ
token = 1 ∷ 2 ∷ 3 ∷ 4 ∷ 5 ∷ 6 ∷ 7 ∷ 8 ∷ []

next_frame-put_ack_example :
    (written raw : List ℕ) × (put_ack [] ((90, 100) ∷ (3, 7) ∷ []) 25 ≡ some written)
    × (next_frame (written ++ (1 ∷ [])) ≡ ok (ack 100 25 10 raw 1, 1 ∷ []))
    × (collect (new 100 10 raw) ≡ (90, 100) ∷ (3, 7) ∷ [])
next_frame-put_ack_example =
    next_frame-put_ack 90 100 ((3, 7) ∷ []) 25 (1 ∷ []) (omega arith) (omega arith) (omega arith)
      (omega arith) (omega arith)
