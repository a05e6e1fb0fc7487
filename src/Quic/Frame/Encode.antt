-- ===== src/Quic/Frame/Encode.antt =====
-- src/quic/frame.rs: the frames that the client writes.
use shb.Common.{
  ℕ, bit_or, Bool, not, List, [], ◌∷◌, ◌++◌, Option, none, some, ◌==◌, if◌then◌else◌, length,
  sub_u64,
}
use shb.Quic.Ranges.{Range}
use shb.Quic.Varint.{put_varint}

unfoldable pub put_ping : List ℕ → List ℕ
put_ping out = out ++ (0x01 ∷ [])

unfoldable pub put_crypto : List ℕ → ℕ → List ℕ → List ℕ
put_crypto out offset bytes =
    put_varint (put_varint (put_varint out 0x06) offset) (length bytes) ++ bytes

-- `STREAM_BASE | STREAM_LEN`, with `STREAM_OFF` and `STREAM_FIN` where they apply.
abbrev pub stream_kind : ℕ → Bool → ℕ
stream_kind offset fin =
    let kind : ℕ = bit_or 0x08 0x02 in
    let kind1 : ℕ = if not (offset == 0) then bit_or kind 0x04 else kind in
    if fin then bit_or kind1 0x01 else kind1

abbrev pub put_offset : List ℕ → ℕ → List ℕ
put_offset out offset = if not (offset == 0) then put_varint out offset else out

unfoldable pub put_stream : List ℕ → ℕ → ℕ → Bool → List ℕ → List ℕ
put_stream out id offset fin bytes =
    put_varint (put_offset (put_varint (put_varint out (stream_kind offset fin)) id) offset)
      (length bytes)
    ++ bytes

unfoldable pub put_max_data : List ℕ → ℕ → List ℕ
put_max_data out limit = put_varint (put_varint out 0x10) limit

unfoldable pub put_max_stream_data : List ℕ → ℕ → ℕ → List ℕ
put_max_stream_data out id limit = put_varint (put_varint (put_varint out 0x11) id) limit

unfoldable pub put_reset_stream : List ℕ → ℕ → ℕ → ℕ → List ℕ
put_reset_stream out id error final_size =
    put_varint (put_varint (put_varint (put_varint out 0x04) id) error) final_size

unfoldable pub put_retire_connection_id : List ℕ → ℕ → List ℕ
put_retire_connection_id out seq = put_varint (put_varint out 0x19) seq

unfoldable pub put_path_response : List ℕ → List ℕ → List ℕ
put_path_response out bytes = put_varint out 0x1b ++ bytes

unfoldable pub put_close : List ℕ → ℕ → List ℕ → List ℕ
put_close out error reason =
    put_varint (put_varint (put_varint out 0x1d) error) (length reason) ++ reason

unfoldable pub put_transport_close : List ℕ → ℕ → List ℕ
put_transport_close out error =
    put_varint (put_varint (put_varint (put_varint out 0x1c) error) 0x00) 0

-- The loop of `put_ack` over the ranges behind the first.
unfoldable pub put_ranges : List ℕ → ℕ → List Range → List ℕ
put_ranges out prev_smallest [] = out
put_ranges out prev_smallest ((smallest, largest) ∷ ranges) =
    put_ranges
      (put_varint (put_varint out (sub_u64 (sub_u64 prev_smallest largest) 2))
        (sub_u64 largest smallest))
      smallest ranges

-- `none` where the code panics: `ranges[0]` on no range.
unfoldable pub put_ack : List ℕ → List Range → ℕ → Option (List ℕ)
unfolding put_ranges
put_ack out [] delay = none
put_ack out ((smallest, largest) ∷ ranges) delay = some (
    put_ranges
      (put_varint
        (put_varint (put_varint (put_varint (put_varint out 0x02) largest) delay) (length ranges))
        (sub_u64 largest smallest))
      smallest ranges)
