-- ===== src/Quic/SendStream/Covers.antt =====
-- What the stream knows to be acknowledged only grows: `on_acked` byte by byte.
use shb.Common.{
  ℕ, ◌+◌, ◌-◌, ◌&&◌, ◌||◌, ◌<◌, ◌≤◌, ◌≡◌, refl, Bool, true, false, List, [], ◌∷◌, Option, none,
  some, ltb, leb, ◌==◌, min, max, any, Bool-cases, if_elim, inl, inr, arith,
}
use shb.Quic.SendStream.{
  SendStream, Run, live_len, absorb, release, ack_front, join, merge, ack_sparse, ack_fin, ack_run,
  sent_of, resend, on_sent, on_acked, on_lost, write,
}
use shb.Quic.SendStream.Apart.{absorb-Ascends}
use shb.Quic.SendStream.Acked.{IsSound}

-- Whether a byte lies in a run.
abbrev pub in_run : ℕ → Run → Bool
in_run x r = leb r.0 x && ltb x r.1

-- Whether the stream knows a byte to be acknowledged.
abbrev pub is_known : SendStream → ℕ → Bool
is_known s x = ltb x s.base_offset || any (in_run x) s.acked

module _ (x : ℕ) where
  absorb_covers :
      (end : ℕ) (rs : List Run)
      → (ltb x end || any (in_run x) rs) ≡ true
      → (ltb x (absorb end rs).0 || any (in_run x) (absorb end rs).1) ≡ true
  unfolding absorb
  absorb_covers end [] h = h
  absorb_covers end ((lo, hi) ∷ rs) h = elim (Bool-cases (ltb end lo)) [
    | inl gap ↦ rw gap h
    | inr touch ↦ rw touch (absorb_covers (max end hi) rs (ground arith))
  ]

  join_covers :
      (start end : ℕ) (rs : List Run)
      → (in_run x (start, end) || any (in_run x) rs) ≡ true
      → (in_run x (join start end rs).0 || any (in_run x) (join start end rs).1) ≡ true
  unfolding join
  join_covers start end [] h = h
  join_covers start end ((lo, hi) ∷ rs) h = elim (Bool-cases (ltb end lo)) [
    | inl gap ↦ rw gap h
    | inr touch ↦ rw touch (join_covers (min start lo) (max end hi) rs (ground arith))
  ]

  merge_covers :
      (start end : ℕ) (rs : List Run)
      → (in_run x (start, end) || any (in_run x) rs) ≡ true
      → any (in_run x) (merge start end rs).0 ≡ true
  unfolding merge
  merge_covers start end [] h = ground arith
  merge_covers start end ((lo, hi) ∷ rs) h = elim (Bool-cases (ltb hi start)) [
    | inl before ↦ rw before (elim (Bool-cases (in_run x (lo, hi))) [
      | inl here ↦ ground arith
      | inr there ↦ ground (arith, merge_covers start end rs)
    ])
    | inr touch ↦ rw touch (ground (arith, join_covers start end ((lo, hi) ∷ rs) h))
  ]

  ack_front-covers :
      (w : List ℕ) (s : SendStream) (end : ℕ)
      → IsSound w s
      → s.base_offset < end
      → end ≤ s.base_offset + s.sent
      → (ltb x end || is_known s x) ≡ true
      → is_known (ack_front s end) x ≡ true
  unfolding ack_front release
  ack_front-covers w s end v h k e =
      let (grows, bound, asc) =
        absorb-Ascends s.base_offset (s.base_offset + s.sent) end s.acked k v.acked_ascends in
      let c = absorb_covers end s.acked (ground arith) in
      let whole : s.base_offset + min ((absorb end s.acked).0 - s.base_offset) (live_len s)
          ≡ (absorb end s.acked).0 =
        omega (arith, v.laid.sent_fits) in
      rw whole c

  ack_sparse-covers :
      (s : SendStream) (offset end : ℕ)
      → (in_run x (offset, end) || is_known s x) ≡ true
      → is_known (ack_sparse s offset end) x ≡ true
  unfolding ack_sparse
  ack_sparse-covers s offset end e = elim (Bool-cases (ltb x s.base_offset)) [
    | inl below ↦ rw below refl
    | inr above ↦ rw above (merge_covers offset end s.acked (ground arith))
  ]

  ack_run-covers :
      (w : List ℕ) (s : SendStream) (offset len : ℕ)
      → IsSound w s
      → offset + len ≤ s.base_offset + s.sent
      → (in_run x (offset, offset + len) || is_known s x) ≡ true
      → is_known (ack_run s offset len) x ≡ true
  ack_run-covers w s offset len v h e =
      elim (Bool-cases (len == 0 || leb (offset + len) s.base_offset)) [
        | inl nothing ↦ rw nothing (ground arith)
        | inr new ↦ rw new (elim (Bool-cases (leb offset s.base_offset)) [
          | inl front ↦
              rw front (ack_front-covers w s (offset + len) v (ground arith) h (ground arith))
          | inr sparse ↦ rw sparse (ack_sparse-covers s offset (offset + len) e)
        ])
      ]

  -- A stream that is not reset knows the bytes of an acknowledgement, and forgets none.
  pub on_acked-covers :
      (w : List ℕ) (s : SendStream) (offset len : ℕ) (fin : Bool)
      → IsSound w s
      → offset + len ≤ s.base_offset + s.sent
      → s.is_reset ≡ false
      → (in_run x (offset, offset + len) || is_known s x) ≡ true
      → is_known (on_acked s offset len fin) x ≡ true
  unfolding on_acked
  on_acked-covers w s offset len fin v h going e =
      if_elim (λ t. is_known t x ≡ true) s.is_reset (λ stopped. absurd (cc))
        (λ _.
          ack_run-covers w (ack_fin s fin) offset len
            (record {
              laid = record {
                start_fits = v.laid.start_fits;
                ends = v.laid.ends;
                bytes = v.laid.bytes;
                sent_fits = v.laid.sent_fits;
                lost_sent = v.laid.lost_sent;
              };
              acked_ascends = v.acked_ascends;
              lost_apart = v.lost_apart;
            })
            h e)

-- What the other operations leave as it is.
abbrev pub Keeps : SendStream → SendStream → Type 0
Keeps s t = (t.is_reset ≡ s.is_reset) × (t.base_offset ≡ s.base_offset) × (t.acked ≡ s.acked)

pub write-Keeps : (s : SendStream) (bytes : List ℕ) → Keeps s (write s bytes).0
unfolding write
write-Keeps s bytes = ground arith

sent_of-Keeps :
    (s : SendStream) (start len : ℕ) (m : Option (List Run)) → Keeps s (sent_of s start len m).0
sent_of-Keeps s start len none = ground arith
sent_of-Keeps s start len (some lost) = (refl, refl, refl)

pub on_sent-Keeps :
    (s : SendStream) (offset len : ℕ) (fin : Bool) → Keeps s (on_sent s offset len fin).0
unfolding on_sent
on_sent-Keeps s offset len fin =
    sent_of-Keeps s (offset - s.base_offset) len (resend s.lost (offset - s.base_offset) len)

pub on_lost-Keeps :
    (s : SendStream) (offset len : ℕ) (fin : Bool) → Keeps s (on_lost s offset len fin)
unfolding on_lost
on_lost-Keeps s offset len fin = ground arith

pub on_acked-keeps :
    (s : SendStream) (offset len : ℕ) (fin : Bool)
    → (on_acked s offset len fin).is_reset ≡ s.is_reset
unfolding on_acked ack_front ack_sparse release
on_acked-keeps s offset len fin = ground arith
