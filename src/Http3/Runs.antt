-- ===== src/Http3/Runs.antt =====
-- Response streams on the bytes of src/http3/proto.rs.
use shb.Common.{ℕ, ◌≡◌, refl, List, [], ◌∷◌, some, arith}
use shb.Quic.Varint.{get_varint, put_varint, fold_be}
use shb.Qpack.{find_status, status_for_index}
use shb.Incremental.{loop, loop_fuel}
use shb.Http3.{
  fed, feed_failed, new_reader, frame_header, on_frame, read_turn, feed_reader, feed_pieces,
  request_bytes, control_stream_prelude, oversized_goaway,
}
use shb.Http3.Pieces.{feed_pieces-joined}
use shb.Http3.Answers.{feed_reader-request_bytes}
use shb.Http3.Uni.{UniReader, new_uni, control_turn, feed_uni, uni_fed, uni_failed, goaway_raised}
use shb.Http3.Goaway.{Falls, feed_uni-Falls}

abbrev ok_section : List ℕ
ok_section = 0 ∷ 0 ∷ 0xd9 ∷ []

abbrev answer : List ℕ
answer = 1 ∷ 3 ∷ 0 ∷ 0 ∷ 0xd9 ∷ 0 ∷ 2 ∷ 9 ∷ 9 ∷ []

prelude : control_stream_prelude ≡ 0 ∷ 4 ∷ 9 ∷ 1 ∷ 0 ∷ 7 ∷ 0 ∷ 6 ∷ 0x80 ∷ 0x10 ∷ 0 ∷ 0 ∷ []
unfolding put_varint
prelude = refl

too_large : feed_reader new_reader (7 ∷ 0x80 ∷ 0x10 ∷ 0 ∷ 1 ∷ []) ≡ feed_failed oversized_goaway
unfolding loop loop_fuel read_turn frame_header on_frame get_varint fold_be
too_large = refl

feed_pieces-joined_example :
    feed_pieces new_reader ((1 ∷ 3 ∷ 0 ∷ []) ∷ (0 ∷ 0xd9 ∷ 0 ∷ 2 ∷ 9 ∷ []) ∷ (9 ∷ []) ∷ [])
    ≡ feed_reader new_reader answer
feed_pieces-joined_example =
    feed_pieces-joined new_reader (1 ∷ 3 ∷ 0 ∷ []) ((0 ∷ 0xd9 ∷ 0 ∷ 2 ∷ 9 ∷ []) ∷ (9 ∷ []) ∷ [])

feed_reader-request_bytes_example :
    feed_reader new_reader (request_bytes ok_section (9 ∷ 9 ∷ []))
    ≡ fed (record { pending = []; reading = record { skip = 0; status = 200 } })
unfolding find_status status_for_index
feed_reader-request_bytes_example =
    feed_reader-request_bytes ok_section (9 ∷ 9 ∷ []) 200 (omega arith) (omega arith) refl refl

abbrev told : UniReader
told = record { kind = some 0; pending = []; control = record { skip = 0; goaway = some 8 } }

tells : feed_uni new_uni (0 ∷ 7 ∷ 1 ∷ 8 ∷ []) ≡ uni_fed told
unfolding feed_uni loop loop_fuel control_turn frame_header get_varint fold_be
tells = refl

raised : feed_uni told (7 ∷ 1 ∷ 12 ∷ []) ≡ uni_failed goaway_raised
unfolding feed_uni loop loop_fuel control_turn frame_header get_varint fold_be
raised = refl

abbrev told_lower : UniReader
told_lower = record { kind = some 0; pending = []; control = record { skip = 0; goaway = some 4 } }

lowers : feed_uni told (7 ∷ 1 ∷ 4 ∷ []) ≡ uni_fed told_lower
unfolding feed_uni loop loop_fuel control_turn frame_header get_varint fold_be
lowers = refl

feed_uni-Falls_example : Falls (some 8) (some 4)
feed_uni-Falls_example = feed_uni-Falls told told_lower (7 ∷ 1 ∷ 4 ∷ []) lowers
