-- ===== src/Quic/RecvStream/Delivery.antt =====
-- What the application is shown over a whole history of frames and reads.
use shb.Common.{
  ℕ, ◌+◌, ◌≡◌, refl, sym, ap, ◌∙◌, Bool, List, [], ◌∷◌, ◌++◌, Option, none, some, length, arith,
}
use shb.Quic.RecvStream.{RecvStream, Result, ok, err, store, accept, push_with_credit, consume, new}
use shb.Quic.RecvStream.Content.{
  slice, slice-append, length-slice, IsContent, push_inv, push-IsContent,
}

-- What happens to a stream: frames of the peer's stream arrive, and the application takes what is
-- ready, whose bytes it sees in turn.
pub data Event : Type 0 where
  -- offset, length, fin, credit
  arrive : ℕ → ℕ → Bool → ℕ → Event
  take : (List ℕ → Bool) → Event

-- A frame that is refused, and a callback that fails, leave the stream as it was.
abbrev pub after_push : RecvStream → Result (RecvStream × ℕ) → RecvStream
after_push r (ok (r', n)) = r'
after_push r (err e) = r

abbrev pub after_take : RecvStream → List ℕ → Option (RecvStream × ℕ) → RecvStream × List ℕ
after_take r shown none = (r, shown)
after_take r shown (some (r', n)) = (r', shown ++ r.ready)

abbrev pub step : (ℕ → ℕ) → RecvStream × List ℕ → Event → RecvStream × List ℕ
step s (r, shown) (arrive offset len fin credit) =
    (after_push r (push_with_credit r offset (slice s offset len) fin credit), shown)
step s (r, shown) (take accepts) = after_take r shown (consume r accepts)

abbrev pub run : (ℕ → ℕ) → RecvStream × List ℕ → List Event → RecvStream × List ℕ
run s st [] = st
run s st (e ∷ es) = run s (step s st e) es

-- Shown so far is the front of the stream, up to where the application stands.
abbrev pub IsShown : (ℕ → ℕ) → RecvStream × List ℕ → Type 0
IsShown s st = IsContent s st.0 × (st.1 ≡ slice s 0 st.0.read_offset)

shown-append :
    (s : ℕ → ℕ) (r : RecvStream) (shown : List ℕ)
    → IsContent s r
    → shown ≡ slice s 0 r.read_offset
    → shown ++ r.ready ≡ slice s 0 (r.read_offset + length r.ready)
shown-append s r shown c h =
    let e : 0 + r.read_offset ≡ r.read_offset = omega arith in
    ap (λ t. t ++ r.ready) h
    ∙ ap (λ t. slice s 0 r.read_offset ++ t) c.ready_agrees
    ∙ rw e at (slice-append s 0 r.read_offset (length r.ready))

read_offset-store :
    (r : RecvStream) (offset : ℕ) (bytes : List ℕ)
    → (store r offset bytes).read_offset ≡ r.read_offset
unfolding store
read_offset-store r offset bytes = ground arith

push-IsShown :
    (s : ℕ → ℕ) (r : RecvStream) (shown : List ℕ) (offset len : ℕ) (fin : Bool) (credit : ℕ)
    → IsShown s (r, shown)
    → (m : Result (RecvStream × ℕ)) → push_with_credit r offset (slice s offset len) fin credit ≡ m
    → IsShown s (after_push r m, shown)
push-IsShown s r shown offset len fin credit h (err x) e = h
push-IsShown s r shown offset len fin credit (c, h) (ok (r', n)) e =
    let (end, he, hn, hr) = push_inv r r' offset n (slice s offset len) fin credit e in
    (
      push-IsContent s r r' offset n (slice s offset len) fin credit c
          (ap (slice s offset) (sym (length-slice s offset len))) e,
      rw (hr, read_offset-store (accept r end fin) offset (slice s offset len)) h,
    )

take-IsShown :
    (s : ℕ → ℕ) (r : RecvStream) (shown : List ℕ) (accepts : List ℕ → Bool)
    → IsShown s (r, shown)
    → IsShown s (after_take r shown (consume r accepts))
unfolding consume
take-IsShown s r shown accepts (c, h) = ground (arith, shown-append s r shown c h)

step-IsShown :
    (s : ℕ → ℕ) (st : RecvStream × List ℕ) (e : Event) → IsShown s st → IsShown s (step s st e)
step-IsShown s (r, shown) (arrive offset len fin credit) h =
    push-IsShown s r shown offset len fin credit h _ refl
step-IsShown s (r, shown) (take accepts) h = take-IsShown s r shown accepts h

-- From a new stream on, over any history of frames that carry the peer's stream, in any order and
-- with any overlaps, the application is shown exactly the front of that stream, in order.
pub run-IsShown : (s : ℕ → ℕ) (window : ℕ) (es : List Event) → IsShown s (run s (new window, []) es)
run-IsShown s window es =
    go es (new window, []) (record { ready_agrees = refl; pending_agrees = tt }, refl)
  where
    go : (es : List Event) (st : RecvStream × List ℕ) → IsShown s st → IsShown s (run s st es)
    go [] st h = h
    go (e ∷ es) st h = go es (step s st e) (step-IsShown s st e h)
