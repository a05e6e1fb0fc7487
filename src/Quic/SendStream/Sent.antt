-- ===== src/Quic/SendStream/Sent.antt =====
-- `on_sent` and `write` keep what `on_acked` and `on_lost` rely on.
use shb.Common.{
  ℕ, ◌+◌, ◌-◌, ◌&&◌, ◌≤◌, ◌≡◌, refl, Bool, List, [], ◌∷◌, ◌++◌, Option, none, some, ltb, leb, ◌==◌,
  length, take, max, All, Bool-cases, Option-cases, if_elim, inl, inr, arith,
}
use shb.Quic.SendStream.{
  SendStream, Run, Chunk, write, next_send, resend, sent_of, mark_fin, on_sent,
}
use shb.Quic.SendStream.Layout.{write-IsLaid}
use shb.Quic.SendStream.Apart.{Ascends, Apart, Ascends-mono}
use shb.Quic.SendStream.Next.{on_sent-IsLaid}
use shb.Quic.SendStream.Acked.{IsSound}

-- A property of runs that keeps holding when bytes are taken off the front holds for what is left.
resend-All {ℓ} :
    (P : Run → Type ℓ)
    → ((lo lo' hi : ℕ) → lo ≤ lo' → P (lo, hi) → P (lo', hi))
    → (rs ts : List Run) (start len : ℕ) → All P rs
    → resend rs start len ≡ some ts
    → All P ts
resend-All P shrink [] ts start len a e = absurd (cc)
resend-All P shrink ((lo, hi) ∷ rs) ts start len a e =
    elim (Bool-cases (lo == start && ltb start hi)) [
      | inl hit ↦ elim (Bool-cases (leb hi (lo + len))) [
        | inl whole ↦ let l : ts ≡ rs = ground arith in rw l a.1
        | inr part ↦
            let l : ts ≡ (lo + len, hi) ∷ rs = ground arith in
            rw l (shrink lo (lo + len) hi (omega arith) a.0, a.1)
      ]
      | inr miss ↦ elim (Option-cases (resend rs start len)) [
        | inl h ↦ absurd (ground arith)
        | inr (us, h) ↦
            let l : ts ≡ (lo, hi) ∷ us = ground arith in
            rw l (a.0, resend-All P shrink rs us start len a.1 h)
      ]
    ]

Apart-shrink :
    (base lo lo' hi : ℕ) (a : Run) → lo ≤ lo' → Apart base a (lo, hi) → Apart base a (lo', hi)
Apart-shrink base lo lo' hi a h (inl x) = inl x
Apart-shrink base lo lo' hi a h (inr x) = inr (omega arith)

resend-Apart-All :
    (base : ℕ) (rs ts xs : List Run) (start len : ℕ)
    → All (λ a. All (Apart base a) rs) xs
    → resend rs start len ≡ some ts
    → All (λ a. All (Apart base a) ts) xs
resend-Apart-All base rs ts [] start len h e = tt
resend-Apart-All base rs ts (a ∷ xs) start len h e = (
  resend-All (Apart base a) (λ lo lo' hi. Apart-shrink base lo lo' hi a) rs ts start len h.0 e,
  resend-Apart-All base rs ts xs start len h.1 e,
)

-- The order and the separation carry over to a state with more sent and some lost runs resent.
sent_of-Apart :
    (s : SendStream) (start len : ℕ) (fin : Bool) (m : Option (List Run))
    → resend s.lost start len ≡ m
    → Ascends s.base_offset (s.base_offset + s.sent) s.acked
    → All (λ a. All (Apart s.base_offset a) s.lost) s.acked
    → let t = mark_fin (sent_of s start len m).0 fin in
      Ascends t.base_offset (t.base_offset + t.sent) t.acked
      × All (λ a. All (Apart t.base_offset a) t.lost) t.acked
sent_of-Apart s start len fin none e asc apart =
    if_elim
      (λ (p : SendStream × ℕ).
        let t = mark_fin p.0 fin in
        Ascends t.base_offset (t.base_offset + t.sent) t.acked
        × All (λ a. All (Apart t.base_offset a) t.lost) t.acked)
      (ltb 0 len)
      (λ more. (
        Ascends-mono s.base_offset (s.base_offset + s.sent)
            (s.base_offset + max s.sent (start + len)) s.acked (omega arith) asc,
        apart,
      ))
      (λ empty. (asc, apart))
sent_of-Apart s start len fin (some ts) e asc apart =
    (asc, resend-Apart-All s.base_offset s.lost ts s.acked start len apart e)

pub on_sent-IsSound :
    (written : List ℕ) (s : SendStream) (limit credit : ℕ) (c : Chunk)
    → IsSound written s
    → next_send s limit credit ≡ some c
    → IsSound written (on_sent s c.0 (length c.1) c.2).0
on_sent-IsSound written s limit credit c v e =
    let (asc, apart) =
      sent_of-Apart s (c.0 - s.base_offset) (length c.1) c.2 _ refl v.acked_ascends v.lost_apart in
    record {
      laid = on_sent-IsLaid written s limit credit c v.laid e;
      acked_ascends = unfold on_sent in asc;
      lost_apart = unfold on_sent in apart;
    }

write_keeps :
    (s : SendStream) (bytes : List ℕ)
    → ((write s bytes).0.base_offset ≡ s.base_offset)
      × ((write s bytes).0.sent ≡ s.sent)
      × ((write s bytes).0.lost ≡ s.lost)
      × ((write s bytes).0.acked ≡ s.acked)
unfolding write
write_keeps s bytes = ground arith

pub write-IsSound :
    (written : List ℕ) (s : SendStream) (bytes : List ℕ)
    → IsSound written s
    → IsSound (written ++ take (write s bytes).1 bytes) (write s bytes).0
write-IsSound written s bytes v =
    let (b, t, l, a) = write_keeps s bytes in
    record {
      laid = write-IsLaid written s bytes v.laid;
      acked_ascends = rw (b, t, a) v.acked_ascends;
      lost_apart = rw (b, l, a) v.lost_apart;
    }
