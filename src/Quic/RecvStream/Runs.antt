-- ===== src/Quic/RecvStream/Runs.antt =====
-- Concrete runs, and the theorems at concrete inputs.
use shb.Common.{ℕ, ◌+◌, ◌≡◌, refl, true, false, any, List, [], ◌∷◌, none, some, arith}
use shb.Quic.RecvStream.{
  RecvStream, Segment, ok, err, flow_control, final_size, new, store, end_of, check_end,
  push_with_credit, reset,
}
use shb.Quic.RecvStream.Content.{IsContent}
use shb.Quic.RecvStream.Delivery.{run, arrive, take, IsShown, run-IsShown}
use shb.Quic.RecvStream.Received.{in_segment}
use shb.Quic.RecvStream.Missing.{Reach, here, next, arrives, head_first_missing}
use shb.Quic.RecvStream.Bounds.{IsBounded}

-- The byte at an offset of the peer's stream.
abbrev counting : ℕ → ℕ
counting o = o + 100

-- Two bytes came early, behind a gap of one.
abbrev gapped : RecvStream
gapped = record {
  ready = 100 ∷ 101 ∷ [];
  read_offset = 0;
  pending = (3, 103 ∷ 104 ∷ []) ∷ [];
  size = none;
  received = 5;
  max_data = 10;
}

abbrev filled : RecvStream
filled = record {
  ready = 100 ∷ 101 ∷ 102 ∷ 103 ∷ 104 ∷ [];
  read_offset = 0;
  pending = [];
  size = none;
  received = 5;
  max_data = 10;
}

gap_filled : push_with_credit gapped 1 (101 ∷ 102 ∷ []) false 7 ≡ ok (filled, 0)
unfolding push_with_credit end_of check_end store
gap_filled = refl

over_limit : push_with_credit gapped 9 (1 ∷ 2 ∷ []) false 7 ≡ err flow_control
unfolding push_with_credit end_of check_end
over_limit = refl

past_end : push_with_credit (record gapped { size = some 5 }) 5 (1 ∷ []) false 7 ≡ err final_size
unfolding push_with_credit end_of check_end
past_end = refl

gapped-IsContent : IsContent counting gapped
gapped-IsContent = record { ready_agrees = refl; pending_agrees = (refl, tt) }

gapped-IsBounded : IsBounded gapped
gapped-IsBounded = omega arith

run-IsShown_example : IsShown counting (
    run counting
      (new 10, [])
      (arrive 3 2 false 9 ∷ take (λ b. true) ∷ arrive 0 4 false 9 ∷ take (λ b. true) ∷ []))
run-IsShown_example =
    run-IsShown counting 10
      (arrive 3 2 false 9 ∷ take (λ b. true) ∷ arrive 0 4 false 9 ∷ take (λ b. true) ∷ [])

-- Early bytes, the first two, and those that close the gap.
abbrev three_frames : List Segment
three_frames = (1, 101 ∷ 102 ∷ []) ∷ (0, 100 ∷ 101 ∷ []) ∷ (3, 103 ∷ 104 ∷ []) ∷ []

abbrev early : RecvStream
early = record (new 10) { pending = (3, 103 ∷ 104 ∷ []) ∷ []; received = 5 }

filled_reached : Reach ([], new 10) (three_frames, filled)
unfolding push_with_credit end_of check_end store
filled_reached =
    next
      (next (next here (arrives [] (new 10) early 3 5 (103 ∷ 104 ∷ []) false 9 refl))
        (arrives ((3, 103 ∷ 104 ∷ []) ∷ []) early gapped 0 0 (100 ∷ 101 ∷ []) false 9 refl))
      (arrives ((0, 100 ∷ 101 ∷ []) ∷ (3, 103 ∷ 104 ∷ []) ∷ []) gapped filled 1 0 (101 ∷ 102 ∷ [])
        false 9 refl)

head_first_missing_example :
    (any (in_segment 5) three_frames ≡ false) × (any (in_segment 4) three_frames ≡ true)
head_first_missing_example =
    head_first_missing 10 three_frames filled 4 filled_reached (omega arith)

sized_filled :
    push_with_credit (record gapped { size = some 8 }) 1 (101 ∷ 102 ∷ []) false 7
    ≡ ok (record filled { size = some 8 }, 0)
unfolding push_with_credit end_of check_end store
sized_filled = refl

reset_run : reset gapped 8 7 ≡ ok (record gapped { size = some 8; received = 8 }, 3)
unfolding reset
reset_run = refl
