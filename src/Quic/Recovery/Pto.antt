-- ===== src/Quic/Recovery/Pto.antt =====
-- src/quic/recovery.rs: `pto_deadline`, and the packet number spaces of src/quic/packet.rs.
use shb.Common.{ℕ, ◌+◌, ◌-◌, ◌*◌, ◌^◌, Option, none, some, ltb, if◌then◌else◌, min, max}
use shb.Quic.Recovery.Rtt.{Rtt, pto}
use shb.Quic.Recovery.Sent.{SentPackets, any_ack_eliciting}

pub data Space : Type 0 where
  initial handshake data_space : Space

-- The three elements of `spaces`, by `Space::ALL`.
abbrev pub of_space : {A : Type 0} → Space → A → A → A → A
of_space initial a b c = a
of_space handshake a b c = b
of_space data_space a b c = c

-- `2u32.saturating_pow(pto_count)`.
abbrev pub backoff : ℕ → ℕ
backoff pto_count = min (2 ^ pto_count) (2 ^ 32 - 1)

-- Only the peer's data packets wait for its delay.
abbrev pub delay_of : Space → ℕ → ℕ
delay_of initial max_ack_delay = 0
delay_of handshake max_ack_delay = 0
delay_of data_space max_ack_delay = max_ack_delay

-- When the space's probe is due, if it has a packet in flight that asks for an answer.
unfoldable pub probe_at : Space → SentPackets → Rtt → ℕ → ℕ → Option ℕ
unfolding pto any_ack_eliciting
probe_at space sent rtt max_ack_delay pto_count =
    if any_ack_eliciting sent
    then elim sent.last_ack_eliciting [
      | none ↦ none
      | some at ↦ some (at + pto rtt (delay_of space max_ack_delay) * backoff pto_count)
    ]
    else none

-- One turn of the loop: `best.is_none_or(|(_, t)| at < t)`.
abbrev pub consider : Option (Space × ℕ) → Space → Option ℕ → Option (Space × ℕ)
consider best space none = best
consider none space (some at) = some (space, at)
consider (some best) space (some at) = if ltb at best.1 then some (space, at) else some best

-- `filter_map(..).max()` over the three spaces.
abbrev pub later : Option ℕ → Option ℕ → Option ℕ
later none b = b
later (some a) none = some a
later (some a) (some b) = some (max a b)

abbrev pub fallback : Option Space → Option ℕ → ℕ → Option (Space × ℕ)
fallback none last timeout = none
fallback (some space) none timeout = none
fallback (some space) (some at) timeout = some (space, at + timeout)

abbrev pub or_else : Option (Space × ℕ) → Option (Space × ℕ) → Option (Space × ℕ)
or_else none other = other
or_else (some best) other = some best

unfoldable pub pto_deadline :
    SentPackets → SentPackets → SentPackets → Rtt → ℕ → ℕ → Option Space → Option (Space × ℕ)
unfolding pto probe_at
pto_deadline a b c rtt max_ack_delay pto_count unacked_handshake =
    or_else
      (consider
        (consider (consider none initial (probe_at initial a rtt max_ack_delay pto_count)) handshake
          (probe_at handshake b rtt max_ack_delay pto_count))
        data_space (probe_at data_space c rtt max_ack_delay pto_count))
      (fallback unacked_handshake
        (later a.last_ack_eliciting (later b.last_ack_eliciting c.last_ack_eliciting))
        (pto rtt 0 * backoff pto_count))
