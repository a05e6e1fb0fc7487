-- ===== src/Quic/SendStream/Next.antt =====
-- What is put into packets is what the application wrote.
use shb.Common.{
  ℕ, ◌+◌, ◌-◌, ◌&&◌, ◌<◌, ◌≤◌, ◌≡◌, refl, ap, ◌∙◌, Bool, true, false, List, [], ◌∷◌, Option, none,
  some, ltb, is_some, if◌then◌else◌, ◌==◌, length, take, drop, min, max, All, Bool-cases,
  Option-cases, inl, inr, length-drop, length-take, drop-drop, arith,
}
use shb.Quic.SendStream.{
  SendStream, Run, Chunk, live_len, live, slice, next_new, next_lost, next_of, next_send, resend,
  sent_of, mark_fin, on_sent, has_pending, is_empty,
}
use shb.Quic.SendStream.Layout.{IsLaid, WasSent, WasSent-mono}

-- `bytes` are those written at `offset`.
pub record IsWritten (written : List ℕ) (offset : ℕ) (bytes : List ℕ) : Type 0 where
  pub in_bounds : offset + length bytes ≤ length written
  pub same : bytes ≡ take (length bytes) (drop offset written)

pub record IsChunk (written : List ℕ) (s : SendStream) (limit : ℕ) (c : Chunk) : Type 0 where
  pub bytes_written : IsWritten written c.0 c.1
  pub in_packet : length c.1 ≤ limit
  pub from_base : s.base_offset ≤ c.0
  pub fin_at_end : c.2 ≡ true → (s.fin ≡ true) × (c.0 + length c.1 ≡ length written)

pub slice-live :
    (written : List ℕ) (s : SendStream) (start end : ℕ)
    → IsLaid written s
    → start ≤ end
    → end ≤ live_len s
    → (length (slice (live s) start end) ≡ end - start)
      × IsWritten written (s.base_offset + start) (slice (live s) start end)
slice-live written s start end v h k =
    let len : length (slice (live s) start end) ≡ end - start = omega (
      arith,
      length-take (end - start) (drop start (live s)),
      length-drop start (live s),
      length-drop s.buf_start s.buf,
    ) in
    (
      len,
      record {
        in_bounds = omega (arith, len, v.ends);
        same = rw len (
            ap (λ t. take (end - start) (drop start t)) v.bytes
            ∙ ap (take (end - start)) (drop-drop start s.base_offset written));
      },
    )

next_lost-IsChunk :
    (written : List ℕ) (s : SendStream) (r : Run) (limit : ℕ) (c : Chunk)
    → IsLaid written s
    → WasSent s.sent r
    → next_lost s r limit ≡ some c
    → IsChunk written s limit c
next_lost-IsChunk written s (start, end) limit c v w e =
    let last : ℕ = start + min (end - start) limit in
    let (len, same) =
      slice-live written s start (start + min (end - start) limit) v (omega arith)
        (omega (arith, v.sent_fits)) in
    let found : c
        ≡ (s.base_offset + start, slice (live s) start (start + min (end - start) limit), false) =
      ground arith in
    rw found (record {
      bytes_written = same;
      in_packet = omega (arith, len);
      from_base = omega arith;
      fin_at_end = λ h. absurd (cc);
    })

next_new-IsChunk :
    (written : List ℕ) (s : SendStream) (limit credit : ℕ) (c : Chunk)
    → IsLaid written s
    → next_new s limit credit ≡ some c
    → IsChunk written s limit c
unfolding next_new
next_new-IsChunk written s limit credit c v e =
    let end : ℕ = s.sent + min (live_len s - s.sent) (min limit credit) in
    let (len, same) =
      slice-live written s s.sent (s.sent + min (live_len s - s.sent) (min limit credit)) v
        (omega arith) (omega (arith, v.sent_fits)) in
    elim (Bool-cases (ltb s.sent (s.sent + min (live_len s - s.sent) (min limit credit)))) [
      | inl more ↦
          let found = rw more at e in
          let c' : c ≡ (
            s.base_offset + s.sent,
            slice (live s) s.sent (s.sent + min (live_len s - s.sent) (min limit credit)),
            s.fin && (s.sent + min (live_len s - s.sent) (min limit credit) == live_len s),
          ) =
            ground arith in
          rw c' (record {
            bytes_written = same;
            in_packet = omega (arith, len);
            from_base = omega arith;
            fin_at_end = λ h. ground (arith, len, v.ends);
          })
      | inr done ↦
          let found = rw done at e in
          let c' : c ≡ (s.base_offset + live_len s, [], true) = ground arith in
          rw c' (record {
            bytes_written = record { in_bounds = omega (arith, v.ends); same = refl };
            in_packet = omega arith;
            from_base = omega arith;
            fin_at_end = λ h. ground (arith, v.ends);
          })
    ]

next_of-IsChunk :
    (written : List ℕ) (s : SendStream) (lost : List Run) (limit credit : ℕ) (c : Chunk)
    → IsLaid written s
    → All (WasSent s.sent) lost
    → next_of s lost limit credit ≡ some c
    → IsChunk written s limit c
next_of-IsChunk written s [] limit credit c v a e = next_new-IsChunk written s limit credit c v e
next_of-IsChunk written s (r ∷ rs) limit credit c v a e =
    next_lost-IsChunk written s r limit c v a.0 e

-- Whatever goes into a packet are the bytes that the application wrote at that offset, no longer
-- than the room, behind the acknowledged base; and the FIN stands only at the end of all.
pub next_send-IsChunk :
    (written : List ℕ) (s : SendStream) (limit credit : ℕ) (c : Chunk)
    → IsLaid written s
    → next_send s limit credit ≡ some c
    → IsChunk written s limit c
unfolding next_send
next_send-IsChunk written s limit credit c v e = elim (Bool-cases s.is_reset) [
  | inl stopped ↦ absurd (ground (arith, rw stopped at e))
  | inr going ↦ next_of-IsChunk written s s.lost limit credit c v v.lost_sent (rw going at e)
]

resend-WasSent :
    (n : ℕ) (lost lost' : List Run) (start len : ℕ)
    → All (WasSent n) lost
    → resend lost start len ≡ some lost'
    → All (WasSent n) lost'
resend-WasSent n [] lost' start len a e = absurd (cc)
resend-WasSent n ((lo, hi) ∷ rs) lost' start len a e =
    elim (Bool-cases (lo == start && ltb start hi)) [
      | inl hit ↦ ground arith
      | inr miss ↦ elim (Option-cases (resend rs start len)) [
        | inl h ↦ absurd (ground arith)
        | inr (ts, h) ↦
            let l : lost' ≡ (lo, hi) ∷ ts = ground arith in
            rw l (a.0, resend-WasSent n rs ts start len a.1 h)
      ]
    ]

sent_of-IsLaid :
    (written : List ℕ) (s : SendStream) (start len : ℕ) (fin : Bool)
    → IsLaid written s
    → start + len ≤ live_len s
    → (m : Option (List Run)) → resend s.lost start len ≡ m
    → IsLaid written (mark_fin (sent_of s start len m).0 fin)
sent_of-IsLaid written s start len fin v h none e = elim (Bool-cases (ltb 0 len)) [
  | inl more ↦ rw more (record {
    start_fits = v.start_fits;
    ends = v.ends;
    bytes = v.bytes;
    sent_fits = omega (arith, v.sent_fits);
    lost_sent = WasSent-mono s.sent (max s.sent (start + len)) s.lost (omega arith) v.lost_sent;
  })
  | inr empty ↦ rw empty (record {
    start_fits = v.start_fits;
    ends = v.ends;
    bytes = v.bytes;
    sent_fits = v.sent_fits;
    lost_sent = v.lost_sent;
  })
]
sent_of-IsLaid written s start len fin v h (some lost) e = record {
  start_fits = v.start_fits;
  ends = v.ends;
  bytes = v.bytes;
  sent_fits = v.sent_fits;
  lost_sent = resend-WasSent s.sent s.lost lost start len v.lost_sent e;
}

-- Recording a chunk that was put into a packet keeps the layout.
pub on_sent-IsLaid :
    (written : List ℕ) (s : SendStream) (limit credit : ℕ) (c : Chunk)
    → IsLaid written s
    → next_send s limit credit ≡ some c
    → IsLaid written (on_sent s c.0 (length c.1) c.2).0
unfolding on_sent
on_sent-IsLaid written s limit credit c v e =
    let k = next_send-IsChunk written s limit credit c v e in
    sent_of-IsLaid written s (c.0 - s.base_offset) (length c.1) c.2 v
      (omega (arith, v.ends, k.bytes_written.in_bounds, k.from_base)) _ refl

charge_new :
    (written : List ℕ) (s : SendStream) (limit credit : ℕ) (c : Chunk)
    → IsLaid written s
    → next_new s limit credit ≡ some c
    → ((sent_of s (c.0 - s.base_offset) (length c.1) none).1 ≤ credit)
      × ((sent_of s (c.0 - s.base_offset) (length c.1) none).1 ≡ length c.1)
unfolding next_new
charge_new written s limit credit c v e =
    let (len, same) =
      slice-live written s s.sent (s.sent + min (live_len s - s.sent) (min limit credit)) v
        (omega arith) (omega (arith, v.sent_fits)) in
    elim (Bool-cases (ltb s.sent (s.sent + min (live_len s - s.sent) (min limit credit)))) [
      | inl more ↦
          let found = rw more at e in
          let at : c.0 ≡ s.base_offset + s.sent = ground arith in
          let bs : c.1
              ≡ slice (live s) s.sent (s.sent + min (live_len s - s.sent) (min limit credit)) =
            ground arith in
          rw (at, bs, len) (ground arith, ground arith)
      | inr done ↦
          let found = rw done at e in let bs : c.1 ≡ [] = ground arith in rw bs (omega arith, refl)
    ]

charge_of :
    (written : List ℕ) (s : SendStream) (lost : List Run) (limit credit : ℕ) (c : Chunk)
    → IsLaid written s
    → All (WasSent s.sent) lost
    → next_of s lost limit credit ≡ some c
    → let start : ℕ = c.0 - s.base_offset in
      let charge : ℕ = (sent_of s start (length c.1) (resend lost start (length c.1))).1 in
      (charge ≤ credit) × (charge ≡ (if is_empty lost then length c.1 else 0))
charge_of written s [] limit credit c v a e = charge_new written s limit credit c v e
charge_of written s ((start, end) ∷ rs) limit credit c v a e =
    let at : c.0 - s.base_offset ≡ start = ground arith in
    let hit : (start == start && ltb start end) ≡ true = ground (arith, a.0) in
    rw (at, hit) (omega arith, refl)

-- Where the buffer is laid out as `IsLaid` says, what a chunk of `next_send` is charged to the
-- connection is within the credit that `next_send` was given: all its bytes if no lost run was
-- queued, since then they are sent for the first time, and nothing if one was, since then the chunk
-- is a retransmission.
pub on_sent_charge :
    (written : List ℕ) (s : SendStream) (limit credit : ℕ) (c : Chunk)
    → IsLaid written s
    → next_send s limit credit ≡ some c
    → ((on_sent s c.0 (length c.1) c.2).1 ≤ credit)
      × ((on_sent s c.0 (length c.1) c.2).1 ≡ (if is_empty s.lost then length c.1 else 0))
unfolding on_sent next_send
on_sent_charge written s limit credit c v e = elim (Bool-cases s.is_reset) [
  | inl stopped ↦ absurd (ground (arith, rw stopped at e))
  | inr going ↦ charge_of written s s.lost limit credit c v v.lost_sent (rw going at e)
]

-- Where there is room and credit, `has_pending` says whether `next_send` gives anything.
pub has_pending_lem :
    (s : SendStream) (limit credit : ℕ)
    → 0 < limit
    → 0 < credit
    → has_pending s ≡ is_some (next_send s limit credit)
unfolding has_pending next_send next_new
has_pending_lem s limit credit hl hc = ground arith
