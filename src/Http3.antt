-- ===== src/Http3.antt =====
-- src/http3/proto.rs: what the client sends, and the reader of a response stream.
pub mod Frames
pub mod Pieces
pub mod Answers
pub mod Uni
pub mod Goaway
mod Runs
use shb.Common.{
  ℕ, zero, suc, ◌+◌, ◌-◌, ◌^◌, ◌&&◌, Bool, true, false, not, List, [], ◌∷◌, ◌++◌, Option, none,
  some, ltb, ◌==◌, if◌then◌else◌, length, take, drop, min,
}
use shb.Quic.Varint.{put_varint, get_varint}
use shb.Http1.Scan.{is_informational}
use shb.Prefix.{FieldError}
use shb.Qpack.{find_status}
use shb.Prefix
use shb.Incremental.{Moved, moves, fails, waits, Ran, left, failed, loop}

abbrev pub frame_data : ℕ
frame_data = 0x00

abbrev pub frame_headers : ℕ
frame_headers = 0x01

abbrev pub frame_settings : ℕ
frame_settings = 0x04

abbrev pub frame_goaway : ℕ
frame_goaway = 0x07

abbrev pub stream_control : ℕ
stream_control = 0x00

abbrev pub qpack_max_table_capacity : ℕ
qpack_max_table_capacity = 0x01

abbrev pub max_field_section_size : ℕ
max_field_section_size = 0x06

abbrev pub qpack_blocked_streams : ℕ
qpack_blocked_streams = 0x07

abbrev pub put_settings : List ℕ → List (ℕ × ℕ) → List ℕ
put_settings out [] = out
put_settings out ((id, value) ∷ settings) =
    put_settings (put_varint (put_varint out id) value) settings

abbrev pub own_settings : List ℕ
own_settings = put_settings [] (
    (qpack_max_table_capacity, 0)
    ∷ (qpack_blocked_streams, 0)
    ∷ (max_field_section_size, 2 ^ 20)
    ∷ [])

abbrev pub control_stream_prelude : List ℕ
control_stream_prelude =
    put_varint (put_varint (put_varint [] stream_control) frame_settings) (length own_settings)
    ++ own_settings

abbrev pub put_data : List ℕ → List ℕ → List ℕ
put_data out [] = out
put_data out (b ∷ body) = put_varint (put_varint out frame_data) (length (b ∷ body)) ++ (b ∷ body)

unfoldable pub request_bytes : List ℕ → List ℕ → List ℕ
request_bytes field_section body =
    put_data (put_varint (put_varint [] frame_headers) (length field_section) ++ field_section) body

pub data ReadError : Type 0 where
  bad_section : FieldError → ReadError
  oversized_goaway : ReadError
  -- Of the model alone: a loop that was cut off.
  out_of_turns : ReadError

-- The state of the loop: `ResponseReader` without what is pending.
pub record Reading : Type 0 where
  pub skip : ℕ
  pub status : ℕ

pub record ResponseReader : Type 0 where
  pub pending : List ℕ
  pub reading : Reading

-- `ResponseReader::default`.
abbrev pub new_reader : ResponseReader
new_reader = record { pending = []; reading = record { skip = 0; status = 0 } }

-- The kind and the length at the front of a buffer, and what follows them.
abbrev pub second_varint : ℕ → List ℕ → Option (ℕ × ℕ) → Option (ℕ × ℕ × List ℕ)
second_varint kind buf none = none
second_varint kind buf (some (len, n)) = some (kind, len, drop n buf)

abbrev pub after_kind : List ℕ → Option (ℕ × ℕ) → Option (ℕ × ℕ × List ℕ)
after_kind buf none = none
after_kind buf (some (kind, n)) = second_varint kind (drop n buf) (get_varint (drop n buf))

unfoldable pub frame_header : List ℕ → Option (ℕ × ℕ × List ℕ)
frame_header buf = after_kind buf (get_varint buf)

-- The status of a section, if it is one that answers the request.
abbrev pub note_status : Reading → Option ℕ → Reading
note_status s none = s
note_status s (some status) =
    if not (is_informational status) then record s { status = status } else s

abbrev pub on_section : Reading → List ℕ → Prefix.Result (Option ℕ) → Moved Reading ReadError
on_section s rest (Prefix.ok found) = moves (note_status s found) rest
on_section s rest (Prefix.err e) = fails (bad_section e)

-- A frame whose header stands at the front of `buf`, `rest` being what follows the header.
unfoldable pub on_frame : Reading → List ℕ → ℕ × ℕ × List ℕ → Moved Reading ReadError
on_frame s buf (kind, len, rest) =
    if kind == frame_headers
    then (if ltb (length rest) len
        then waits s buf
        else on_section s (drop len rest) (find_status (take len rest)))
    else if kind == frame_goaway && ltb (2 ^ 20) len
    then fails oversized_goaway
    else moves (record s { skip = len }) rest

abbrev pub frame_turn : Reading → List ℕ → Option (ℕ × ℕ × List ℕ) → Moved Reading ReadError
frame_turn s buf none = waits s buf
frame_turn s buf (some frame) = on_frame s buf frame

-- One turn of the loop: what is to be skipped, and then a frame.
unfoldable pub read_turn : Reading → List ℕ → Moved Reading ReadError
read_turn s buf =
    let taken = min s.skip (length buf) in
    if ltb 0 (s.skip - taken)
    then waits (record s { skip = s.skip - taken }) (drop taken buf)
    else frame_turn (record s { skip = s.skip - taken }) (drop taken buf)
        (frame_header (drop taken buf))

-- `ResponseReader::run`.
abbrev pub run_reader : Reading → List ℕ → Ran Reading ReadError
run_reader s buf = loop read_turn out_of_turns s buf

pub data Fed : Type 0 where
  fed : ResponseReader → Fed
  feed_failed : ReadError → Fed

abbrev pub keep_left : Ran Reading ReadError → Fed
keep_left (left s rest) = fed (record { pending = rest; reading = s })
keep_left (failed e) = feed_failed e

-- `ResponseReader::feed`: in place where nothing is pending, else over both.
abbrev pub feed_reader : ResponseReader → List ℕ → Fed
feed_reader r bytes = keep_left (run_reader r.reading (r.pending ++ bytes))

-- The pieces of a stream, one after the other.
abbrev pub then_fed : Fed → (ResponseReader → Fed) → Fed
then_fed (fed r) f = f r
then_fed (feed_failed e) f = feed_failed e

abbrev pub feed_pieces : ResponseReader → List (List ℕ) → Fed
feed_pieces r [] = fed r
feed_pieces r (x ∷ xs) = then_fed (feed_reader r x) (λ q. feed_pieces q xs)
