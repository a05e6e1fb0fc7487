-- ===== src/Quic/Recovery/Windows.antt =====
-- The congestion window over any history.
use shb.Common.{
  ℕ, ◌+◌, ◌/◌, ◌%◌, ◌≤◌, ◌<◌, ◌≡◌, refl, ap, true, false, List, [], ◌∷◌, some, ltb, leb, if_elim,
  max, All, u64_mod, arith,
}
use shb.Quic.Recovery.Congestion.{
  Congestion, default, initial_window, min_window, in_recovery, on_ack, on_loss,
  on_persistent_congestion, can_send,
}

pub data Event : Type 0 where
  acks : (bytes sent : ℕ) → Event
  loses : (sent now : ℕ) → Event
  collapses : Event

abbrev pub step : Congestion → Event → Congestion
step s (acks bytes sent) = on_ack s bytes sent
step s (loses sent now) = on_loss s sent now
step s collapses = on_persistent_congestion s

abbrev pub run : Congestion → List Event → Congestion
run s [] = s
run s (e ∷ es) = run (step s e) es

-- What an event adds to the window at most.
abbrev pub growth : Event → ℕ
growth (acks bytes sent) = bytes + 1200
growth (loses sent now) = 0
growth collapses = 0

abbrev pub growth_all : List Event → ℕ
growth_all [] = 0
growth_all (e ∷ es) = growth e + growth_all es

-- The window is on or above the floor and neither it nor the carried bytes pass `top`.
abbrev pub IsWithin : ℕ → Congestion → Type 0
IsWithin top s = (min_window ≤ s.window) × (s.window ≤ top) × (s.acked_since_increase ≤ top)

step-IsWithin :
    (top : ℕ) (s : Congestion) (e : Event)
    → min_window ≤ top
    → IsWithin top s
    → top + growth e < u64_mod
    → IsWithin (top + growth e) (step s e)
unfolding on_ack on_loss on_persistent_congestion
step-IsWithin top s (acks bytes sent) m v h =
    if_elim (IsWithin (top + (bytes + 1200))) (in_recovery s.recovery_start sent) (λ _. omega arith)
      (λ _.
        if_elim (IsWithin (top + (bytes + 1200))) (ltb s.window s.ssthresh) (λ _. omega arith)
          (λ _.
            if_elim (IsWithin (top + (bytes + 1200)))
              (leb s.window ((s.acked_since_increase + bytes) % u64_mod)) (λ _. omega arith)
              (λ _. omega arith)))
step-IsWithin top s (loses sent now) m v h =
    if_elim (IsWithin (top + 0)) (in_recovery s.recovery_start sent) (λ _. omega arith)
      (λ _. omega arith)
step-IsWithin top s collapses m v h = omega arith

pub run-IsWithin :
    (top : ℕ) (s : Congestion) (es : List Event)
    → min_window ≤ top
    → IsWithin top s
    → top + growth_all es < u64_mod
    → IsWithin (top + growth_all es) (run s es)
run-IsWithin top s [] m v h = omega arith
run-IsWithin top s (e ∷ es) m v h =
    let assoc : top + (growth e + growth_all es) ≡ top + growth e + growth_all es = omega arith in
    rw assoc (
      run-IsWithin (top + growth e) (step s e) es (omega arith)
        (step-IsWithin top s e m v (omega arith)) (omega arith))

-- Over any history of a new connection whose acknowledged bytes, and 1200 for each acknowledgement,
-- stay below 2 ^ 64 together with the initial window: the window is never below two packets, so
-- with nothing in flight there is always leave to send.
pub can_send-run :
    (es : List Event)
    → initial_window + growth_all es < u64_mod
    → (min_window ≤ (run default es).window) × (can_send (run default es) 0 ≡ true)
unfolding can_send
can_send-run es h =
    let v = run-IsWithin initial_window default es (omega arith) (omega arith) h in
    (v.0, ground (arith, v.0))

-- The event is about a packet that was sent at or before `start`.
abbrev pub Before : ℕ → Event → Type 0
Before start (acks bytes sent) = sent ≤ start
Before start (loses sent now) = sent ≤ start
Before start collapses = ⊥

step_still :
    (s : Congestion) (start : ℕ) (e : Event)
    → s.recovery_start ≡ some start
    → Before start e
    → step s e ≡ s
unfolding on_ack on_loss
step_still s start (acks bytes sent) r b =
    let on : in_recovery s.recovery_start sent ≡ true = rw r (ground arith) in rw on
step_still s start (loses sent now) r b =
    let on : in_recovery s.recovery_start sent ≡ true = rw r (ground arith) in rw on
step_still s start collapses r b = absurd b

pub run_still :
    (s : Congestion) (start : ℕ) (es : List Event)
    → s.recovery_start ≡ some start
    → All (Before start) es
    → run s es ≡ s
run_still s start [] r b = refl
run_still s start (e ∷ es) r b = rw (step_still s start e r b.0) (run_still s start es r b.1)

-- One halving for a round trip: once a loss at `now` has halved the window, no acknowledgement and
-- no loss of packets sent up to `now`, however many, changes it again.
pub one_halving :
    (s : Congestion) (sent now : ℕ) (es : List Event)
    → in_recovery s.recovery_start sent ≡ false
    → All (Before now) es
    → ((run (on_loss s sent now) es).window ≡ max (s.window / 2) min_window)
      × (run (on_loss s sent now) es ≡ on_loss s sent now)
unfolding on_loss
one_halving s sent now es fresh b = rw fresh (
    let e =
      run_still
        (record {
          window = max (s.window / 2) min_window;
          ssthresh = max (s.window / 2) min_window;
          recovery_start = some now;
          acked_since_increase = 0;
        })
        now es refl b in
    (ap (λ (c : Congestion). c.window) e, e))
