-- ===== src/Quic/Recovery/Soonest.antt =====
-- The probe timer is armed for the soonest of the three spaces.
use shb.Common.{ℕ, ◌*◌, ◌≤◌, ◌≡◌, refl, true, Option, none, some, is_some, arith}
use shb.Quic.Recovery.Rtt.{Rtt, pto}
use shb.Quic.Recovery.Sent.{SentPackets}
use shb.Quic.Recovery.Pto.{
  Space, initial, handshake, data_space, of_space, probe_at, consider, later, fallback, or_else,
  backoff, pto_deadline,
}

-- The soonest of three probes, in the order of the spaces.
abbrev three : Option ℕ → Option ℕ → Option ℕ → Option (Space × ℕ)
three a b c = consider (consider (consider none initial a) handshake b) data_space c

three_soonest :
    (a b c : Option ℕ) (space other : Space) (at due : ℕ) (rest : Option (Space × ℕ))
    → or_else (three a b c) rest ≡ some (space, at)
    → of_space other a b c ≡ some due
    → (of_space space a b c ≡ some at) × (at ≤ due)
three_soonest a b c initial initial at due rest e h = ground arith
three_soonest a b c initial handshake at due rest e h = ground arith
three_soonest a b c initial data_space at due rest e h = ground arith
three_soonest a b c handshake initial at due rest e h = ground arith
three_soonest a b c handshake handshake at due rest e h = ground arith
three_soonest a b c handshake data_space at due rest e h = ground arith
three_soonest a b c data_space initial at due rest e h = ground arith
three_soonest a b c data_space handshake at due rest e h = ground arith
three_soonest a b c data_space data_space at due rest e h = ground arith

-- Where a space has a probe due, the deadline is the probe of the space that it names, and no
-- space's probe is due before it.
pub pto_deadline_soonest :
    (a b c : SentPackets) (rtt : Rtt) (max_ack_delay pto_count : ℕ) (unacked : Option Space)
    (space other : Space) (at due : ℕ)
    → pto_deadline a b c rtt max_ack_delay pto_count unacked ≡ some (space, at)
    → probe_at other (of_space other a b c) rtt max_ack_delay pto_count ≡ some due
    → (probe_at space (of_space space a b c) rtt max_ack_delay pto_count ≡ some at) × (at ≤ due)
unfolding pto_deadline
pto_deadline_soonest a b c rtt max_ack_delay pto_count unacked space other at due e h =
    let (p, q) =
      three_soonest (probe_at initial a rtt max_ack_delay pto_count)
        (probe_at handshake b rtt max_ack_delay pto_count)
        (probe_at data_space c rtt max_ack_delay pto_count) space other at due _ e (pick other h) in
    (back space p, q)
  where
    pick :
        (s : Space)
        → probe_at s (of_space s a b c) rtt max_ack_delay pto_count ≡ some due
        → of_space s
            (probe_at initial a rtt max_ack_delay pto_count)
            (probe_at handshake b rtt max_ack_delay pto_count)
            (probe_at data_space c rtt max_ack_delay pto_count)
          ≡ some due
    pick initial h = h
    pick handshake h = h
    pick data_space h = h

    back :
        (s : Space)
        → of_space s
            (probe_at initial a rtt max_ack_delay pto_count)
            (probe_at handshake b rtt max_ack_delay pto_count)
            (probe_at data_space c rtt max_ack_delay pto_count)
          ≡ some at
        → probe_at s (of_space s a b c) rtt max_ack_delay pto_count ≡ some at
    back initial h = h
    back handshake h = h
    back data_space h = h

-- A client that has not had a Handshake packet acknowledged keeps a timer armed as soon as it has
-- sent anything in any space that asks for an answer.
pub pto_deadline_armed :
    (a b c : SentPackets) (rtt : Rtt) (max_ack_delay pto_count sent : ℕ) (space other : Space)
    → (of_space other a b c).last_ack_eliciting ≡ some sent
    → is_some (pto_deadline a b c rtt max_ack_delay pto_count (some space)) ≡ true
unfolding pto_deadline
pto_deadline_armed a b c rtt max_ack_delay pto_count sent space other h =
    rest
      (three (probe_at initial a rtt max_ack_delay pto_count)
        (probe_at handshake b rtt max_ack_delay pto_count)
        (probe_at data_space c rtt max_ack_delay pto_count))
      other h
  where
    rest :
        (best : Option (Space × ℕ)) (s : Space)
        → (of_space s a b c).last_ack_eliciting ≡ some sent
        → is_some (
            or_else best (
              fallback
                (some space)
                (later a.last_ack_eliciting (later b.last_ack_eliciting c.last_ack_eliciting))
                (pto rtt 0 * backoff pto_count)))
          ≡ true
    rest (some p) s h = refl
    rest none initial h = ground arith
    rest none handshake h = ground arith
    rest none data_space h = ground arith
