-- ===== src/Quic/Recovery/Sent.antt =====
-- src/quic/recovery.rs: `SentPacket`, `SentFrame` and `SentPackets`.
use shb.Common.{
  ℕ, ◌+◌, ◌&&◌, ◌||◌, Bool, true, false, List, [], ◌∷◌, ◌++◌, Option, none, some, ltb, leb,
  if◌then◌else◌, min, max, any, add_u64,
}
use shb.Quic.Ranges.{Range}

abbrev pub reorder_threshold : ℕ
reorder_threshold = 3

pub data SentFrame : Type 0 where
  crypto : (offset len : ℕ) → SentFrame
  stream : (id offset len : ℕ) → Bool → SentFrame
  ping : SentFrame
  retire_connection_id : ℕ → SentFrame
  reset_stream : (id error final_size : ℕ) → SentFrame
  max_data : ℕ → SentFrame
  max_stream_data : (id limit : ℕ) → SentFrame

pub record SentPacket : Type 0 where
  pub ack_largest : Option ℕ
  pub number : ℕ
  pub time_sent : ℕ
  pub size : ℕ
  pub ack_eliciting : Bool
  pub frames : List SentFrame

pub record SentPackets : Type 0 where
  pub packets : List SentPacket
  pub largest_acked : Option ℕ
  pub last_ack_eliciting : Option ℕ

-- `SentPackets::default()`.
abbrev pub default : SentPackets
default = record { packets = []; largest_acked = none; last_ack_eliciting = none }

unfoldable pub push : SentPackets → SentPacket → SentPackets
push s packet = record s {
  packets = s.packets ++ (packet ∷ []);
  last_ack_eliciting = if packet.ack_eliciting then some packet.time_sent else s.last_ack_eliciting;
}

unfoldable pub any_ack_eliciting : SentPackets → Bool
any_ack_eliciting s = any (λ p. p.ack_eliciting) s.packets

-- `ranges.iter().any(|&(lo, hi)| n >= lo && n <= hi)`.
abbrev pub named : List Range → ℕ → Bool
named ranges n = any (λ r. leb r.0 n && leb n r.1) ranges

-- A packet goes to the front of one of the two lists.
abbrev pub sort_out :
    Bool → SentPacket → List SentPacket × List SentPacket → List SentPacket × List SentPacket
sort_out true p rest = (rest.0, p ∷ rest.1)
sort_out false p rest = (p ∷ rest.0, rest.1)

-- The loop of `drain_acked`: what stays in flight, and what is acknowledged.
unfoldable pub drain : List Range → List SentPacket → List SentPacket × List SentPacket
drain ranges [] = ([], [])
drain ranges (p ∷ packets) = sort_out (named ranges p.number) p (drain ranges packets)

-- `acked.iter().map(|p| p.number).max()`.
abbrev pub max_number : List SentPacket → Option ℕ
max_number [] = none
max_number (p ∷ ps) = elim (max_number ps) [ none ↦ some p.number | some n ↦ some (max p.number n) ]

abbrev pub raise : Option ℕ → Option ℕ → Option ℕ
raise largest none = largest
raise none (some n) = some n
raise (some prev) (some n) = some (max prev n)

-- With `acked` as it was handed in, and as it is left.
unfoldable pub drain_acked :
    SentPackets → List Range → List SentPacket → SentPackets × List SentPacket
unfolding drain
drain_acked s ranges acked =
    let parts = drain ranges s.packets in
    (
      record s {
        packets = parts.0;
        largest_acked = raise s.largest_acked (max_number (acked ++ parts.1));
      },
      acked ++ parts.1,
    )

-- The sooner of a deadline and one that may be there.
abbrev pub sooner : Option ℕ → ℕ → Option ℕ
sooner none deadline = some deadline
sooner (some d) deadline = some (min d deadline)

-- Past the largest acknowledged; lost; or still to wait for.
abbrev pub judge :
    ℕ
    → ℕ
    → ℕ
    → SentPacket
    → List SentPacket
    → List SentPacket
    → Option ℕ
    → List SentPacket × List SentPacket × Option ℕ
judge largest now loss_delay p kept lost next_deadline =
    if ltb largest p.number
    then (p ∷ kept, lost, next_deadline)
    else if leb (p.number + reorder_threshold) largest || leb (p.time_sent + loss_delay) now
    then (kept, p ∷ lost, next_deadline)
    else (p ∷ kept, lost, sooner next_deadline (p.time_sent + loss_delay))

-- The loop of `detect_lost`: what stays in flight, what is lost, and the next deadline. The minimum
-- is taken from the back, where the source takes it from the front.
unfoldable pub scan : ℕ → ℕ → ℕ → List SentPacket → List SentPacket × List SentPacket × Option ℕ
scan largest now loss_delay [] = ([], [], none)
scan largest now loss_delay (p ∷ packets) =
    let (kept, lost, next_deadline) = scan largest now loss_delay packets in
    judge largest now loss_delay p kept lost next_deadline

abbrev pub detect_with : SentPackets → Option ℕ → ℕ → ℕ → SentPackets × List SentPacket × Option ℕ
detect_with s none now loss_delay = (s, [], none)
detect_with s (some largest) now loss_delay =
    let (kept, lost, next_deadline) = scan largest now loss_delay s.packets in
    (record s { packets = kept }, lost, next_deadline)

unfoldable pub detect_lost : SentPackets → ℕ → ℕ → SentPackets × List SentPacket × Option ℕ
unfolding scan
detect_lost s now loss_delay = detect_with s s.largest_acked now loss_delay

-- `sum` of the sizes of the packets that are ack-eliciting.
abbrev pub sum_sizes : List SentPacket → ℕ
sum_sizes [] = 0
sum_sizes (p ∷ ps) = if p.ack_eliciting then add_u64 p.size (sum_sizes ps) else sum_sizes ps

unfoldable pub bytes_in_flight : SentPackets → ℕ
bytes_in_flight s = sum_sizes s.packets
