-- ===== src/Quic/Ack/Record.antt =====
-- An ACK names only numbers that were received, and can always be written.
use shb.Common.{
  ℕ, zero, suc, ◌+◌, ◌-◌, ◌&&◌, ◌<◌, ◌≤◌, ◌≡◌, Bool, true, false, List, [], ◌∷◌, ◌++◌, some, ltb,
  ◌==◌, if◌then◌else◌, length, any, keep, All, Bool-cases, inl, inr, arith,
}
use shb.Quic.Ranges.{Range, covers, Descends, Descends-mono}
use shb.Quic.Received.Place.{place, covers-place, place-Descends, length-place-le}
use shb.Quic.Ack.{AckState, default, max_ranges, pop, record_packet, trim_below}
use shb.Quic.Ack.Insert.{number_bound, insert-fit}
use shb.Quic.Frame.{next_frame, ok, ack}
use shb.Quic.Frame.Encode.{put_ack}
use shb.Quic.Frame.AckRanges.{new, collect}
use shb.Quic.Frame.AckRoundTrip.{next_frame-put_ack}

pub record IsValid (s : AckState) : Type 0 where
  pub descends : Descends (number_bound + 1) s.ranges
  pub bounded : length s.ranges ≤ max_ranges

pop-Descends : (top : ℕ) (rs : List Range) → Descends top rs → Descends top (pop rs)
pop-Descends top [] d = tt
pop-Descends top (x ∷ []) d = tt
pop-Descends top (x ∷ y ∷ rs) d = (d.0, d.1, pop-Descends x.0 (y ∷ rs) d.2)

length-pop-le : (rs : List Range) (k : ℕ) → length rs ≤ suc k → length (pop rs) ≤ k
length-pop-le [] k h = omega arith
length-pop-le (x ∷ []) k h = omega arith
length-pop-le (x ∷ y ∷ rs) zero h = absurd (omega arith)
length-pop-le (x ∷ y ∷ rs) (suc k) h = omega (arith, length-pop-le (y ∷ rs) k (omega arith))

covers-pop : (rs : List Range) (q : ℕ) → covers (pop rs) q ≡ true → covers rs q ≡ true
covers-pop [] q e = e
covers-pop (x ∷ []) q e = absurd (cc)
covers-pop (x ∷ y ∷ rs) q e = ground (arith, covers-pop (y ∷ rs) q)

-- Recording a number below 2 ^ 62 keeps the ranges in order, with gaps, and at most 32.
pub record_packet-IsValid :
    (s : AckState) (pn : ℕ) (ack_eliciting : Bool) (now : ℕ)
    → IsValid s
    → pn < number_bound
    → IsValid (record_packet s pn ack_eliciting now)
unfolding record_packet
record_packet-IsValid s pn ack_eliciting now v h =
    rw (insert-fit s.ranges pn v.descends v.bounded h)
      (elim (Bool-cases
        (ltb (length s.ranges) (length (place s.ranges pn)) && (length s.ranges == max_ranges))) [
          | inl over ↦ rw over (record {
            descends = pop-Descends _ _ (place-Descends _ s.ranges pn (omega arith) v.descends);
            bounded = length-pop-le _ _ (omega (arith, length-place-le s.ranges pn, v.bounded));
          })
          | inr fits ↦ rw fits (record {
            descends = place-Descends _ s.ranges pn (omega arith) v.descends;
            bounded = ground (arith, length-place-le s.ranges pn, v.bounded);
          })
        ])

-- While there are fewer than 32 ranges, recording adds exactly the number.
pub covers-record_packet :
    (s : AckState) (pn q : ℕ) (ack_eliciting : Bool) (now : ℕ)
    → IsValid s
    → pn < number_bound
    → length s.ranges < max_ranges
    → covers (record_packet s pn ack_eliciting now).ranges q
      ≡ (if q == pn then true else covers s.ranges q)
unfolding record_packet
covers-record_packet s pn q ack_eliciting now v h room =
    rw (insert-fit s.ranges pn v.descends v.bounded h)
      (ground (arith, covers-place _ s.ranges pn q v.descends))

record_packet_sound :
    (s : AckState) (pn q : ℕ) (ack_eliciting : Bool) (now : ℕ)
    → IsValid s
    → pn < number_bound
    → covers (record_packet s pn ack_eliciting now).ranges q ≡ true
    → (if q == pn then true else covers s.ranges q) ≡ true
unfolding record_packet
record_packet_sound s pn q ack_eliciting now v h e =
    let e' = rw (insert-fit s.ranges pn v.descends v.bounded h) at e in
    rw (← covers-place _ s.ranges pn q v.descends)
      (ground (arith, e', covers-pop (place s.ranges pn) q))

-- What the peer may do between two packets: acknowledge one of our ACKs.
pub data Event : Type 0 where
  received : ℕ → Bool → ℕ → Event
  acked : ℕ → Event

abbrev pub step : AckState → Event → AckState
step s (received pn ack_eliciting now) = record_packet s pn ack_eliciting now
step s (acked largest) = trim_below s largest

abbrev pub run : AckState → List Event → AckState
run s [] = s
run s (e ∷ es) = run (step s e) es

abbrev pub is_received : ℕ → Event → Bool
is_received q (received pn ack_eliciting now) = q == pn
is_received q (acked largest) = false

abbrev pub Below : Event → Type 0
Below (received pn ack_eliciting now) = pn < number_bound
Below (acked largest) = Unit {0}

keep-Descends :
    (top n : ℕ) (rs : List Range) → Descends top rs → Descends top (keep (λ r. ltb n r.1) rs)
keep-Descends top n [] d = tt
keep-Descends top n ((lo, hi) ∷ rs) d = ground (
  arith,
  keep-Descends lo n rs d.2,
  keep-Descends top n rs (Descends-mono lo top rs (omega arith) d.2),
)

length-keep-le : (n : ℕ) (rs : List Range) → length (keep (λ r. ltb n r.1) rs) ≤ length rs
length-keep-le n [] = omega arith
length-keep-le n (r ∷ rs) = ground (arith, length-keep-le n rs)

covers-keep :
    (n q : ℕ) (rs : List Range) → covers (keep (λ r. ltb n r.1) rs) q ≡ true → covers rs q ≡ true
covers-keep n q [] e = e
covers-keep n q (r ∷ rs) e = ground (arith, covers-keep n q rs)

pub step-IsValid : (s : AckState) (e : Event) → IsValid s → Below e → IsValid (step s e)
unfolding trim_below
step-IsValid s (received pn ack_eliciting now) v h =
    record_packet-IsValid s pn ack_eliciting now v h
step-IsValid s (acked largest) v h = record {
  descends = keep-Descends _ largest s.ranges v.descends;
  bounded = omega (arith, length-keep-le largest s.ranges, v.bounded);
}

run_sound :
    (s : AckState) (es : List Event) (q : ℕ)
    → IsValid s
    → All Below es
    → covers (run s es).ranges q ≡ true
    → (if any (is_received q) es then true else covers s.ranges q) ≡ true
unfolding trim_below
run_sound s [] q v h e = e
run_sound s (received pn ack_eliciting now ∷ es) q v h e = ground (
  arith,
  run_sound (record_packet s pn ack_eliciting now) es q
      (record_packet-IsValid s pn ack_eliciting now v h.0) h.1 e,
  record_packet_sound s pn q ack_eliciting now v h.0,
)
run_sound s (acked largest ∷ es) q v h e = ground (
  arith,
  run_sound (trim_below s largest) es q (step-IsValid s (acked largest) v tt) h.1 e,
  covers-keep largest q s.ranges,
)

-- Over any history of a new state, of numbers below 2 ^ 62, a number within the ranges was received.
pub covers-run :
    (es : List Event) (q : ℕ)
    → All Below es
    → covers (run default es).ranges q ≡ true
    → any (is_received q) es ≡ true
covers-run es q h e = ground (arith, run_sound default es q (omega arith) h e)

pub run-IsValid : (s : AckState) (es : List Event) → IsValid s → All Below es → IsValid (run s es)
run-IsValid s [] v h = v
run-IsValid s (e ∷ es) v h = run-IsValid (step s e) es (step-IsValid s e v h.0) h.1

-- After any history of a new state in which every number that is inserted is below 2^62: with a delay
-- below 2^62, what is kept is written without a panic, unless there is no range, and the peer that
-- decodes the frame walks over exactly the ranges kept.
pub put_ack-run :
    (es : List Event) (delay lo hi : ℕ) (rs : List Range) (rest : List ℕ)
    → All Below es
    → delay < number_bound
    → (run default es).ranges ≡ (lo, hi) ∷ rs
    → (written raw : List ℕ) × (put_ack [] (run default es).ranges delay ≡ some written)
      × (next_frame (written ++ rest) ≡ ok (ack hi delay (hi - lo) raw (length rs), rest))
      × (collect (new hi (hi - lo) raw) ≡ (run default es).ranges)
put_ack-run es delay lo hi rs rest h hd e =
    let v = run-IsValid default es (omega arith) h in
    let d = rw e at v.descends in
    let n = rw e at v.bounded in
    rw e (next_frame-put_ack lo hi rs delay rest (omega arith) hd (omega arith) d.0 d.2)
