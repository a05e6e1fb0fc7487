-- ===== src/Quic/Frame/RoundTrip.antt =====
-- Decoding what the encoders wrote, whatever bytes follow.
use shb.Common.{
  ℕ, zero, suc, ◌^◌, ◌<◌, ◌≡◌, refl, ◌∙◌, Bool, true, false, List, [], ◌++◌, ◌==◌, length,
  append_assoc, arith,
}
use shb.Quic.Frame.{
  ok, varint, frame_body, next_frame, stream_data, stream, crypto, ping, max_data, max_stream_data,
  reset_stream, retire_connection_id, path_response, close,
}
use shb.Quic.Frame.Encode.{
  put_ping, put_crypto, put_stream, put_max_data, put_max_stream_data, put_reset_stream,
  put_retire_connection_id, put_path_response, put_close, put_transport_close,
}
use shb.Quic.Frame.Cursor.{bytes, put_varint-bytes, varint-bytes, take_bytes-append}

-- A frame begins with its type.
pub next_frame-kind :
    (kind : ℕ) (rest : List ℕ)
    → kind < 2 ^ 62
    → next_frame (bytes kind ++ rest) ≡ frame_body kind rest
unfolding next_frame
next_frame-kind kind rest h = rw (varint-bytes kind h rest)

module _ (len_bytes : List ℕ) (len_ok : length len_bytes < 2 ^ 62) (rest : List ℕ) where
  -- Every CRYPTO frame with an offset and a length below 2 ^ 62 reads back.
  pub next_frame-put_crypto :
      (offset : ℕ)
      → offset < 2 ^ 62
      → next_frame (put_crypto [] offset len_bytes ++ rest) ≡ ok (crypto offset len_bytes, rest)
  unfolding put_crypto
  next_frame-put_crypto offset h =
      simp (put_varint-bytes, append_assoc)
        (next_frame-kind 0x06 _ (omega arith)
          ∙ unfold frame_body in
            rw (
              varint-bytes offset h (bytes (length len_bytes) ++ (len_bytes ++ rest)),
              varint-bytes (length len_bytes) len_ok (len_bytes ++ rest),
              take_bytes-append len_bytes rest,
            ))

  -- An application close with a code and a length below 2 ^ 62 reads back.
  pub next_frame-put_close :
      (error : ℕ)
      → error < 2 ^ 62
      → next_frame (put_close [] error len_bytes ++ rest) ≡ ok (close true error len_bytes, rest)
  unfolding put_close
  next_frame-put_close error h =
      simp (put_varint-bytes, append_assoc)
        (next_frame-kind 0x1d _ (omega arith)
          ∙ unfold frame_body in
            rw (
              varint-bytes error h (bytes (length len_bytes) ++ (len_bytes ++ rest)),
              varint-bytes (length len_bytes) len_ok (len_bytes ++ rest),
              take_bytes-append len_bytes rest,
            ))

  stream_data-bytes :
      stream_data true (bytes (length len_bytes) ++ (len_bytes ++ rest)) ≡ ok (len_bytes, rest)
  unfolding stream_data
  stream_data-bytes =
      rw (
        varint-bytes (length len_bytes) len_ok (len_bytes ++ rest),
        take_bytes-append len_bytes rest,
      )

  -- Every STREAM frame with a number, an offset and a length below 2 ^ 62 reads back, with or
  -- without an offset and a FIN.
  pub next_frame-put_stream :
      (id offset : ℕ) (fin : Bool)
      → id < 2 ^ 62
      → offset < 2 ^ 62
      → next_frame (put_stream [] id offset fin len_bytes ++ rest)
        ≡ ok (stream id offset fin len_bytes, rest)
  unfolding put_stream
  next_frame-put_stream id zero true hi ho =
      simp (put_varint-bytes, append_assoc)
        (next_frame-kind 0x0b _ (omega arith)
          ∙ unfold frame_body in
            rw (
              varint-bytes id hi (bytes (length len_bytes) ++ (len_bytes ++ rest)),
              stream_data-bytes,
            ))
  next_frame-put_stream id zero false hi ho =
      simp (put_varint-bytes, append_assoc)
        (next_frame-kind 0x0a _ (omega arith)
          ∙ unfold frame_body in
            rw (
              varint-bytes id hi (bytes (length len_bytes) ++ (len_bytes ++ rest)),
              stream_data-bytes,
            ))
  next_frame-put_stream id (suc offset) true hi ho =
      let e : (suc offset == 0) ≡ false = ground arith in
      rw e (
        simp (put_varint-bytes, append_assoc)
          (next_frame-kind 0x0f _ (omega arith)
            ∙ unfold frame_body in
              rw (
                varint-bytes id hi
                    (bytes (suc offset) ++ (bytes (length len_bytes) ++ (len_bytes ++ rest))),
                varint-bytes (suc offset) ho (bytes (length len_bytes) ++ (len_bytes ++ rest)),
                stream_data-bytes,
              )))
  next_frame-put_stream id (suc offset) false hi ho =
      let e : (suc offset == 0) ≡ false = ground arith in
      rw e (
        simp (put_varint-bytes, append_assoc)
          (next_frame-kind 0x0e _ (omega arith)
            ∙ unfold frame_body in
              rw (
                varint-bytes id hi
                    (bytes (suc offset) ++ (bytes (length len_bytes) ++ (len_bytes ++ rest))),
                varint-bytes (suc offset) ho (bytes (length len_bytes) ++ (len_bytes ++ rest)),
                stream_data-bytes,
              )))

-- The frames without bytes of any length: PING, MAX_DATA, MAX_STREAM_DATA, RESET_STREAM,
-- RETIRE_CONNECTION_ID, PATH_RESPONSE of eight bytes and a transport close, with fields below
-- 2 ^ 62, all read back.
pub next_frame-put_control :
    (a b c : ℕ) (token rest : List ℕ)
    → a < 2 ^ 62
    → b < 2 ^ 62
    → c < 2 ^ 62
    → length token ≡ 8
    → (next_frame (put_ping [] ++ rest) ≡ ok (ping, rest))
      × (next_frame (put_max_data [] a ++ rest) ≡ ok (max_data a, rest))
      × (next_frame (put_max_stream_data [] a b ++ rest) ≡ ok (max_stream_data a b, rest))
      × (next_frame (put_reset_stream [] a b c ++ rest) ≡ ok (reset_stream a b c, rest))
      × (next_frame (put_retire_connection_id [] a ++ rest) ≡ ok (retire_connection_id a, rest))
      × (next_frame (put_path_response [] token ++ rest) ≡ ok (path_response token, rest))
      × (next_frame (put_transport_close [] a ++ rest) ≡ ok (close false a [], rest))
unfolding put_ping put_max_data put_max_stream_data put_reset_stream put_retire_connection_id
    put_path_response put_transport_close
next_frame-put_control a b c token rest ha hb hc ht = (
  unfold next_frame frame_body varint in refl,
  simp (put_varint-bytes, append_assoc)
      (next_frame-kind 0x10 _ (omega arith) ∙ unfold frame_body in rw (varint-bytes a ha rest)),
  simp (put_varint-bytes, append_assoc)
      (next_frame-kind 0x11 _ (omega arith)
        ∙ unfold frame_body in rw (varint-bytes a ha (bytes b ++ rest), varint-bytes b hb rest)),
  simp (put_varint-bytes, append_assoc)
      (next_frame-kind 0x04 _ (omega arith)
        ∙ unfold frame_body in
          rw (
            varint-bytes a ha (bytes b ++ (bytes c ++ rest)),
            varint-bytes b hb (bytes c ++ rest),
            varint-bytes c hc rest,
          )),
  simp (put_varint-bytes, append_assoc)
      (next_frame-kind 0x19 _ (omega arith) ∙ unfold frame_body in rw (varint-bytes a ha rest)),
  simp (put_varint-bytes, append_assoc)
      (next_frame-kind 0x1b _ (omega arith)
        ∙ unfold frame_body in rw (← ht, take_bytes-append token rest)),
  simp (put_varint-bytes, append_assoc)
      (next_frame-kind 0x1c _ (omega arith)
        ∙ unfold frame_body in
          rw (
            varint-bytes a ha (bytes 0 ++ (bytes 0 ++ rest)),
            varint-bytes 0 (omega arith) (bytes 0 ++ rest),
            varint-bytes 0 (omega arith) rest,
            take_bytes-append [] rest,
          )),
)
