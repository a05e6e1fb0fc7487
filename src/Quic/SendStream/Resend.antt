-- ===== src/Quic/SendStream/Resend.antt =====
-- Over any history of a stream: what is sent is what was written, and no acknowledged byte is sent
-- again.
use shb.Common.{
  ℕ, ◌+◌, ◌&&◌, ◌≤◌, ◌≡◌, refl, Bool, true, false, List, [], ◌∷◌, ◌++◌, none, some, length, take,
  max, any, Bool-cases, inl, inr, arith,
}
use shb.Quic.SendStream.{
  SendStream, Run, Chunk, on_reset_acked, new, write, writable, finish, set_limit, next_send,
  on_sent, on_acked, on_lost, reset, has_pending,
}
use shb.Quic.SendStream.Layout.{new-IsLaid}
use shb.Quic.SendStream.Next.{IsChunk, next_send-IsChunk}
use shb.Quic.SendStream.Acked.{IsSound, on_acked-IsSound}
use shb.Quic.SendStream.Covers.{
  in_run, is_known, on_acked-covers, write-Keeps, on_sent-Keeps, on_lost-Keeps, on_acked-keeps,
}
use shb.Quic.SendStream.Lost.{on_lost-IsSound}
use shb.Quic.SendStream.Sent.{on_sent-IsSound, write-IsSound}
use shb.Quic.SendStream.Misses.{Misses-any, next_send-Misses}

-- What the application has written, the runs that the peer has acknowledged, and the stream.
abbrev pub State : Type 0
State = List ℕ × List Run × SendStream

-- The application, the packets and the peer, which acknowledges only what was sent.
pub data Step : State → State → Type 0 where
  writes :
      (w : List ℕ) (h : List Run) (s : SendStream) (bytes : List ℕ)
      → Step (w, h, s) (w ++ take (write s bytes).1 bytes, h, (write s bytes).0)
  finishes : (w : List ℕ) (h : List Run) (s : SendStream) → Step (w, h, s) (w, h, finish s)
  limits :
      (w : List ℕ) (h : List Run) (s : SendStream) (limit : ℕ)
      → Step (w, h, s) (w, h, set_limit s limit)
  sends :
      (w : List ℕ) (h : List Run) (s : SendStream) (limit credit : ℕ) (c : Chunk)
      → next_send s limit credit ≡ some c
      → Step (w, h, s) (w, h, (on_sent s c.0 (length c.1) c.2).0)
  acks :
      (w : List ℕ) (h : List Run) (s : SendStream) (offset len : ℕ) (fin : Bool)
      → offset + len ≤ s.base_offset + s.sent
      → Step (w, h, s) (w, (offset, offset + len) ∷ h, on_acked s offset len fin)
  loses :
      (w : List ℕ) (h : List Run) (s : SendStream) (offset len : ℕ) (fin : Bool)
      → Step (w, h, s) (w, h, on_lost s offset len fin)
  resets : (w : List ℕ) (h : List Run) (s : SendStream) → Step (w, h, s) (w, h, (reset s).0)
  reset_acks :
      (w : List ℕ) (h : List Run) (s : SendStream) → Step (w, h, s) (w, h, on_reset_acked s)

pub data Reach (p : State) : State → Type 0 where
  here : Reach p p
  next : {q r : State} → Reach p q → Step q r → Reach p r

reset_going : (s : SendStream) → (reset s).0.is_reset ≡ false → ⊥
unfolding reset
reset_going s e = cc

-- A stream that goes on was not reset before.
Step-going : {p q : State} → Step p q → q.2.is_reset ≡ false → p.2.is_reset ≡ false
Step-going (writes w h s bytes) e = rw (write-Keeps s bytes).0 at e
Step-going (finishes w h s) e = e
Step-going (limits w h s limit) e = e
Step-going (sends w h s limit credit c k) e = rw (on_sent-Keeps s c.0 (length c.1) c.2).0 at e
Step-going (acks w h s offset len fin k) e = rw (on_acked-keeps s offset len fin) at e
Step-going (loses w h s offset len fin) e = rw (on_lost-Keeps s offset len fin).0 at e
Step-going (resets w h s) e = absurd (reset_going s e)
Step-going (reset_acks w h s) e = e

-- Other fields than those of the layout may differ.
flags-IsSound :
    (w : List ℕ) (s : SendStream) (fin stopped : Bool) (limit : ℕ)
    → IsSound w s
    → IsSound w (record s { fin = fin; reset_acked = stopped; limit = limit })
flags-IsSound w s fin stopped limit v = record {
  laid = record {
    start_fits = v.laid.start_fits;
    ends = v.laid.ends;
    bytes = v.laid.bytes;
    sent_fits = v.laid.sent_fits;
    lost_sent = v.laid.lost_sent;
  };
  acked_ascends = v.acked_ascends;
  lost_apart = v.lost_apart;
}

Step-IsSound : {p q : State} → Step p q → q.2.is_reset ≡ false → IsSound p.0 p.2 → IsSound q.0 q.2
Step-IsSound (writes w h s bytes) e v = write-IsSound w s bytes v
Step-IsSound (finishes w h s) e v = flags-IsSound w s true s.reset_acked s.limit v
Step-IsSound (limits w h s limit) e v = flags-IsSound w s s.fin s.reset_acked (max s.limit limit) v
Step-IsSound (sends w h s limit credit c k) e v = on_sent-IsSound w s limit credit c v k
Step-IsSound (acks w h s offset len fin k) e v = on_acked-IsSound w s offset len fin v k
Step-IsSound (loses w h s offset len fin) e v = on_lost-IsSound w s offset len fin v
Step-IsSound (resets w h s) e v = absurd (reset_going s e)
Step-IsSound (reset_acks w h s) e v = flags-IsSound w s s.fin true s.limit v

-- Over any history in which the peer acknowledges only bytes that were sent, and STOP_SENDING may
-- come: where the layout of the buffer, the order of the acknowledged runs and that no lost run
-- touches one of them held before it, they hold after it, unless the stream was reset.
pub Reach-IsSound :
    {p q : State} → IsSound p.0 p.2 → Reach p q → q.2.is_reset ≡ false → IsSound q.0 q.2
Reach-IsSound v here e = v
Reach-IsSound v (next r st) e = Step-IsSound st e (Reach-IsSound v r (Step-going st e))

pub new-IsSound : (limit : ℕ) → IsSound [] (new limit)
new-IsSound limit = record { laid = new-IsLaid limit; acked_ascends = tt; lost_apart = tt }

-- Whether a byte lies in one of the runs that the peer has acknowledged.
abbrev pub acknowledged : List Run → ℕ → Bool
acknowledged h x = any (in_run x) h

Step-known :
    {p q : State} (x : ℕ)
    → Step p q
    → q.2.is_reset ≡ false
    → IsSound p.0 p.2
    → (acknowledged p.1 x ≡ true → is_known p.2 x ≡ true)
    → acknowledged q.1 x ≡ true
    → is_known q.2 x ≡ true
Step-known x (writes w h s bytes) e v known a =
    let (stop, base, acked) = write-Keeps s bytes in rw (base, acked) (known a)
Step-known x (finishes w h s) e v known a = known a
Step-known x (limits w h s limit) e v known a = known a
Step-known x (sends w h s limit credit c k) e v known a =
    let (stop, base, acked) = on_sent-Keeps s c.0 (length c.1) c.2 in rw (base, acked) (known a)
Step-known x (acks w h s offset len fin k) e v known a =
    on_acked-covers x w s offset len fin v k (Step-going (acks w h s offset len fin k) e)
      (elim (Bool-cases (in_run x (offset, offset + len))) [
        | inl now ↦ rw now refl
        | inr before ↦ rw before (known (rw before at a))
      ])
Step-known x (loses w h s offset len fin) e v known a =
    let (stop, base, acked) = on_lost-Keeps s offset len fin in rw (base, acked) (known a)
Step-known x (resets w h s) e v known a = absurd (reset_going s e)
Step-known x (reset_acks w h s) e v known a = known a

-- A stream that was not reset knows every byte that was ever acknowledged.
Reach-known :
    {p q : State} (x : ℕ)
    → IsSound p.0 p.2
    → p.1 ≡ []
    → Reach p q
    → q.2.is_reset ≡ false
    → acknowledged q.1 x ≡ true
    → is_known q.2 x ≡ true
Reach-known x v start here e a = absurd (ground (arith, rw start at a))
Reach-known x v start (next r st) e a =
    let going = Step-going st e in
    Step-known x st e (Reach-IsSound v r going) (Reach-known x v start r going) a

next_send-going :
    (s : SendStream) (limit credit : ℕ) (c : Chunk)
    → next_send s limit credit ≡ some c
    → s.is_reset ≡ false
unfolding next_send
next_send-going s limit credit c e = ground arith

-- After any history of a new stream, STOP_SENDING included, in which the peer acknowledges only bytes
-- that were sent: what `next_send` gives are the bytes that the application wrote at that offset,
-- within the packet's room and behind everything released, and no byte of it lies in any run that
-- was acknowledged in that history, in whatever order.
pub next_send-Reach :
    (max_data : ℕ) (w : List ℕ) (h : List Run) (s : SendStream) (limit credit : ℕ) (c : Chunk)
    (x : ℕ)
    → Reach ([], [], new max_data) (w, h, s)
    → next_send s limit credit ≡ some c
    → IsChunk w s limit c × ((in_run x (c.0, c.0 + length c.1) && acknowledged h x) ≡ false)
next_send-Reach max_data w h s limit credit c x r e =
    let going = next_send-going s limit credit c e in
    let v = Reach-IsSound (new-IsSound max_data) r going in
    let k = next_send-IsChunk w s limit credit c v.laid e in
    let apart = next_send-Misses w s limit credit c v e in
    (
      k,
      elim (Bool-cases (in_run x (c.0, c.0 + length c.1))) [
        | inr outside ↦ rw outside refl
        | inl inside ↦ rw inside (elim (Bool-cases (acknowledged h x)) [
          | inr new_byte ↦ new_byte
          | inl old ↦
              let known = Reach-known x (new-IsSound max_data) refl r going old in
              absurd (
                ground
                  (arith, k.from_base, Misses-any c x s.acked (ground arith) (ground arith) apart))
        ])
      ],
    )

-- After STOP_SENDING nothing more of the stream goes out, and RESET_STREAM names the highest offset
-- that was ever sent.
pub reset_silent :
    (s : SendStream) (limit credit offset len : ℕ) (fin : Bool)
    → (next_send (reset s).0 limit credit ≡ none)
      × (has_pending (reset s).0 ≡ false)
      × (writable (reset s).0 ≡ 0)
      × (on_acked (reset s).0 offset len fin ≡ (reset s).0)
      × (on_lost (reset s).0 offset len fin ≡ (reset s).0)
      × ((reset s).1 ≡ s.base_offset + s.sent)
unfolding reset next_send has_pending writable on_acked on_lost
reset_silent s limit credit offset len fin = (refl, refl, refl, refl, refl, refl)
