-- ===== src/Http3/Uni.antt =====
-- src/http3/proto.rs: the reader of a stream that the peer opened, where a GOAWAY stands.
use shb.Common.{
  ℕ, ◌-◌, Bool, false, not, List, [], ◌++◌, Option, none, some, ltb, ◌==◌, if◌then◌else◌, length,
  take, drop, min,
}
use shb.Quic.Varint.{get_varint}
use shb.Incremental.{Moved, moves, fails, waits, Ran, left, failed, loop}
use shb.Http3.{frame_header, frame_goaway, stream_control}

pub data UniError : Type 0 where
  goaway_too_long no_stream_id trailing_bytes goaway_raised : UniError
  -- Of the model alone: a loop that was cut off.
  out_of_turns : UniError

-- What the loop changes: `UniReader` without its kind and what is pending.
pub record Control : Type 0 where
  pub skip : ℕ
  pub goaway : Option ℕ

pub record UniReader : Type 0 where
  pub kind : Option ℕ
  pub pending : List ℕ
  pub control : Control

-- `UniReader::default`.
abbrev pub new_uni : UniReader
new_uni = record { kind = none; pending = []; control = record { skip = 0; goaway = none } }

-- `is_some_and(|prev| id > prev)`.
abbrev pub raises : Option ℕ → ℕ → Bool
raises none id = false
raises (some prev) id = ltb prev id

-- The payload of a GOAWAY, and what follows it.
abbrev pub goaway_id : Control → List ℕ → List ℕ → Option (ℕ × ℕ) → Moved Control UniError
goaway_id s payload rest none = fails no_stream_id
goaway_id s payload rest (some (id, n)) =
    if not (n == length payload)
    then fails trailing_bytes
    else if raises s.goaway id
    then fails goaway_raised
    else moves (record s { goaway = some id }) rest

abbrev pub control_frame : Control → List ℕ → Option (ℕ × ℕ × List ℕ) → Moved Control UniError
control_frame s buf none = waits s buf
control_frame s buf (some (kind, len, rest)) =
    if kind == frame_goaway
    then (if ltb 8 len
        then fails goaway_too_long
        else if ltb (length rest) len
        then waits s buf
        else goaway_id s (take len rest) (drop len rest) (get_varint (take len rest)))
    else moves (record s { skip = len }) rest

unfoldable pub control_turn : Control → List ℕ → Moved Control UniError
control_turn s buf =
    let taken = min s.skip (length buf) in
    if ltb 0 (s.skip - taken)
    then waits (record s { skip = s.skip - taken }) (drop taken buf)
    else control_frame (record s { skip = s.skip - taken }) (drop taken buf)
        (frame_header (drop taken buf))

pub data UniFed : Type 0 where
  uni_fed : UniReader → UniFed
  uni_failed : UniError → UniFed

abbrev pub keep_pending : ℕ → Ran Control UniError → UniFed
keep_pending kind (left s rest) = uni_fed (record { kind = some kind; pending = rest; control = s })
keep_pending kind (failed e) = uni_failed e

-- The stream's kind is known: what a stream without frames of ours carries is dropped.
abbrev pub feed_kind : ℕ → Control → List ℕ → UniFed
feed_kind kind s buf =
    if kind == stream_control
    then keep_pending kind (loop control_turn out_of_turns s buf)
    else uni_fed (record { kind = some kind; pending = []; control = s })

abbrev pub find_kind : UniReader → List ℕ → Option (ℕ × ℕ) → UniFed
find_kind r buf none = uni_fed (record r { pending = buf })
find_kind r buf (some (kind, n)) = feed_kind kind r.control (drop n buf)

abbrev pub feed_known : UniReader → List ℕ → Option ℕ → UniFed
feed_known r buf none = find_kind r buf (get_varint buf)
feed_known r buf (some kind) = feed_kind kind r.control buf

-- `UniReader::feed`.
unfoldable pub feed_uni : UniReader → List ℕ → UniFed
feed_uni r bytes = feed_known r (r.pending ++ bytes) r.kind
