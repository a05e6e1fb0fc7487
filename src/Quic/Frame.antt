-- ===== src/Quic/Frame.antt =====
-- src/quic/frame.rs: decoding frames. The cursor of `Iter`, `buf` with `pos`, is the list of the
-- bytes from `pos` on.
pub mod Encode
pub mod AckRanges
pub mod Cursor
pub mod RoundTrip
pub mod AckRoundTrip
mod Runs
use shb.Common.{
  ℕ, zero, suc, ◌+◌, ◌-◌, ◌&&◌, bit_and, Bool, true, false, not, List, [], ◌∷◌, Option, none, some,
  ltb, leb, ◌==◌, if◌then◌else◌, length, take, drop,
}
use shb.Quic.Varint.{get_varint}

pub data FrameError : Type 0 where
  truncated_varint past_end oversized_cid : FrameError
  unknown_type : ℕ → FrameError

pub data Result {ℓ} (A : Type ℓ) : Type ℓ where
  ok : A → Result A
  err : FrameError → Result A

infixl 5 ◌>>=◌
abbrev pub ◌>>=◌ {ℓ κ} : {A : Type ℓ} {B : Type κ} → Result A → (A → Result B) → Result B
ok a >>= f = f a
err e >>= f = err e

pub data Frame : Type 0 where
  padding ping new_token handshake_done : Frame
  -- largest, delay, first range, the gap and length pairs as written, their count
  ack : ℕ → ℕ → ℕ → List ℕ → ℕ → Frame
  -- id, error, final size
  reset_stream : ℕ → ℕ → ℕ → Frame
  stop_sending : ℕ → ℕ → Frame
  crypto : ℕ → List ℕ → Frame
  -- id, offset, fin, the bytes
  stream : ℕ → ℕ → Bool → List ℕ → Frame
  max_data : ℕ → Frame
  max_stream_data : ℕ → ℕ → Frame
  max_streams : Bool → ℕ → Frame
  data_blocked : ℕ → Frame
  stream_data_blocked : ℕ → ℕ → Frame
  streams_blocked : Bool → ℕ → Frame
  -- sequence number, retire prior to, connection id, reset token
  new_connection_id : ℕ → ℕ → List ℕ → List ℕ → Frame
  retire_connection_id : ℕ → Frame
  path_challenge path_response : List ℕ → Frame
  -- whether the application closes, error, reason
  close : Bool → ℕ → List ℕ → Frame

abbrev pub ack_eliciting : Frame → Bool
ack_eliciting padding = false
ack_eliciting (ack _ _ _ _ _) = false
ack_eliciting (close _ _ _) = false
ack_eliciting _ = true

-- `Iter::varint`, with its short way for one byte.
unfoldable pub varint : List ℕ → Result (ℕ × List ℕ)
varint [] = err truncated_varint
varint (b ∷ rest) = if ltb b 0x40 then ok (b, rest) else elim (get_varint (b ∷ rest)) [
  | none ↦ err truncated_varint
  | some (v, n) ↦ ok (v, drop n (b ∷ rest))
]

-- `Iter::take`.
unfoldable pub take_bytes : ℕ → List ℕ → Result (List ℕ × List ℕ)
take_bytes n buf = if ltb (length buf) n then err past_end else ok (take n buf, drop n buf)

-- The rest of a run of zero bytes.
unfoldable pub skip_padding : List ℕ → List ℕ
skip_padding [] = []
skip_padding (b ∷ rest) = if b == 0 then skip_padding rest else b ∷ rest

-- `for _ in 0..range_count`: a gap and a length each.
unfoldable pub skip_pairs : ℕ → List ℕ → Result (List ℕ)
skip_pairs zero buf = ok buf
skip_pairs (suc count) buf = do
  (_, buf1) ← varint buf
  (_, buf2) ← varint buf1
  skip_pairs count buf2

-- The ECN counts that follow an ACK of the type ACK_ECN.
unfoldable pub skip_ecn : Bool → List ℕ → Result (List ℕ)
skip_ecn false buf = ok buf
skip_ecn true buf = do
  (_, buf1) ← varint buf
  (_, buf2) ← varint buf1
  (_, buf3) ← varint buf2
  ok buf3

unfoldable pub ack_frame : Bool → List ℕ → Result (Frame × List ℕ)
ack_frame ecn buf = do
  (largest, buf1) ← varint buf
  (delay, buf2) ← varint buf1
  (range_count, buf3) ← varint buf2
  (first_range, start) ← varint buf3
  end ← skip_pairs range_count start
  rest ← skip_ecn ecn end
  ok (ack largest delay first_range (take (length start - length end) start) range_count, rest)

-- A bit of the STREAM type.
abbrev pub has_bit : ℕ → ℕ → Bool
has_bit kind bit = not (bit_and kind bit == 0)

unfoldable pub stream_offset : Bool → List ℕ → Result (ℕ × List ℕ)
stream_offset true buf = varint buf
stream_offset false buf = ok (0, buf)

unfoldable pub stream_data : Bool → List ℕ → Result (List ℕ × List ℕ)
stream_data true buf = do (len, buf1) ← varint buf; take_bytes len buf1
stream_data false buf = take_bytes (length buf) buf

unfoldable pub stream_frame : ℕ → List ℕ → Result (Frame × List ℕ)
stream_frame kind buf = do
  (id, buf1) ← varint buf
  (offset, buf2) ← stream_offset (has_bit kind 0x04) buf1
  (bytes, rest) ← stream_data (has_bit kind 0x02) buf2
  ok (stream id offset (has_bit kind 0x01) bytes, rest)

-- Frames that hold one, two or three varints, or a length and bytes.
abbrev pub one_field : (ℕ → Frame) → List ℕ → Result (Frame × List ℕ)
one_field f buf = do (a, rest) ← varint buf; ok (f a, rest)

abbrev pub two_fields : (ℕ → ℕ → Frame) → List ℕ → Result (Frame × List ℕ)
two_fields f buf = do (a, buf1) ← varint buf; (b, rest) ← varint buf1; ok (f a b, rest)

abbrev pub three_fields : (ℕ → ℕ → ℕ → Frame) → List ℕ → Result (Frame × List ℕ)
three_fields f buf = do
  (a, buf1) ← varint buf
  (b, buf2) ← varint buf1
  (c, rest) ← varint buf2
  ok (f a b c, rest)

abbrev pub sized : (List ℕ → Frame) → List ℕ → Result (Frame × List ℕ)
sized f buf = do (len, buf1) ← varint buf; (bytes, rest) ← take_bytes len buf1; ok (f bytes, rest)

unfoldable pub crypto_frame : List ℕ → Result (Frame × List ℕ)
crypto_frame buf = do (offset, buf1) ← varint buf; sized (crypto offset) buf1

-- `*self.take(1)?.first().unwrap()`: the one byte is there.
abbrev pub first_byte : List ℕ → ℕ
first_byte [] = 0
first_byte (b ∷ bs) = b

abbrev pub max_cid_len : ℕ
max_cid_len = 20

unfoldable pub new_connection_id_frame : List ℕ → Result (Frame × List ℕ)
new_connection_id_frame buf = do
  (seq, buf1) ← varint buf
  (retire_prior_to, buf2) ← varint buf1
  (lens, buf3) ← take_bytes 1 buf2
  if ltb max_cid_len (first_byte lens) then err oversized_cid else do
    (cid, buf4) ← take_bytes (first_byte lens) buf3
    (reset_token, rest) ← take_bytes 16 buf4
    ok (new_connection_id seq retire_prior_to cid reset_token, rest)

abbrev pub fixed_bytes : ℕ → (List ℕ → Frame) → List ℕ → Result (Frame × List ℕ)
fixed_bytes n f buf = do (bytes, rest) ← take_bytes n buf; ok (f bytes, rest)

-- A transport close also names the frame type that caused it.
unfoldable pub close_frame : Bool → List ℕ → Result (Frame × List ℕ)
close_frame true buf = do (error, buf1) ← varint buf; sized (close true error) buf1
close_frame false buf = do
  (error, buf1) ← varint buf
  (_, buf2) ← varint buf1
  sized (close false error) buf2

unfoldable pub rare_frame : ℕ → List ℕ → Result (Frame × List ℕ)
unfolding crypto_frame new_connection_id_frame close_frame
rare_frame kind buf =
    if kind == 0x04
    then three_fields reset_stream buf
    else if kind == 0x05
    then two_fields stop_sending buf
    else if kind == 0x06
    then crypto_frame buf
    else if kind == 0x07
    then sized (λ _. new_token) buf
    else if kind == 0x11
    then two_fields max_stream_data buf
    else if kind == 0x14
    then one_field data_blocked buf
    else if kind == 0x15
    then two_fields stream_data_blocked buf
    else if kind == 0x16
    then one_field (streams_blocked false) buf
    else if kind == 0x17
    then one_field (streams_blocked true) buf
    else if kind == 0x18
    then new_connection_id_frame buf
    else if kind == 0x19
    then one_field retire_connection_id buf
    else if kind == 0x1a
    then fixed_bytes 8 path_challenge buf
    else if kind == 0x1b
    then fixed_bytes 8 path_response buf
    else if kind == 0x1c
    then close_frame false buf
    else if kind == 0x1d
    then close_frame true buf
    else if kind == 0x1e
    then ok (handshake_done, buf)
    else err (unknown_type kind)

unfoldable pub frame_body : ℕ → List ℕ → Result (Frame × List ℕ)
unfolding skip_padding ack_frame skip_ecn stream_frame stream_offset stream_data rare_frame
frame_body kind buf =
    if kind == 0x00
    then ok (padding, skip_padding buf)
    else if kind == 0x01
    then ok (ping, buf)
    else if kind == 0x02
    then ack_frame false buf
    else if kind == 0x03
    then ack_frame true buf
    else if leb 0x08 kind && leb kind 0x0f
    then stream_frame kind buf
    else if kind == 0x10
    then one_field max_data buf
    else if kind == 0x12
    then one_field (max_streams false) buf
    else if kind == 0x13
    then one_field (max_streams true) buf
    else rare_frame kind buf

unfoldable pub next_frame : List ℕ → Result (Frame × List ℕ)
unfolding frame_body
next_frame buf = do (kind, rest) ← varint buf; frame_body kind rest

-- `Iterator::next`: nothing at the end, and nothing after an error.
unfoldable pub next : List ℕ → Option (Result Frame × List ℕ)
unfolding next_frame
next [] = none
next (b ∷ bs) = elim (next_frame (b ∷ bs)) [
  | ok (f, rest) ↦ some (ok f, rest)
  | err e ↦ some (err e, [])
]
