-- ===== src/Quic/SendStream/Misses.antt =====
-- `next_send` and the runs that the stream knows to be acknowledged.
use shb.Common.{
  ℕ, ◌+◌, ◌-◌, ◌<◌, ◌≤◌, ◌≡◌, ◌⊎◌, refl, false, List, [], ◌∷◌, some, length, min, any, All,
  Bool-cases, inl, inr, arith,
}
use shb.Quic.SendStream.{SendStream, Run, Chunk, next_new, next_of, next_send, slice, live}
use shb.Quic.SendStream.Layout.{IsLaid, WasSent}
use shb.Quic.SendStream.Apart.{Ascends, Apart}
use shb.Quic.SendStream.Next.{slice-live}
use shb.Quic.SendStream.Acked.{IsSound}
use shb.Quic.SendStream.Covers.{in_run}

-- The chunk and a run have no byte in common.
abbrev pub Misses : Chunk → Run → Type 0
Misses c a = (c.0 + length c.1 ≤ a.0) ⊎ (a.1 ≤ c.0)

Misses-above :
    (c : Chunk) (base top : ℕ) (xs : List Run) → top ≤ c.0 → Ascends base top xs → All (Misses c) xs
Misses-above c base top [] h k = tt
Misses-above c base top (a ∷ xs) h k = (inr (omega arith), Misses-above c a.1 top xs h k.3)

Misses-run :
    (c : Chunk) (base start end : ℕ) (xs rs : List Run)
    → c.0 ≡ base + start
    → c.0 + length c.1 ≤ base + end
    → All (λ a. All (Apart base a) ((start, end) ∷ rs)) xs
    → All (Misses c) xs
Misses-run c base start end [] rs h k x = tt
Misses-run c base start end (a ∷ xs) rs h k x =
    (ground (arith, x.0.0), Misses-run c base start end xs rs h k x.1)

next_new-above :
    (w : List ℕ) (s : SendStream) (limit credit : ℕ) (c : Chunk)
    → IsLaid w s
    → next_new s limit credit ≡ some c
    → s.base_offset + s.sent ≤ c.0
unfolding next_new
next_new-above w s limit credit c v e = ground (arith, v.sent_fits)

next_of-Misses :
    (w : List ℕ) (s : SendStream) (lost : List Run) (limit credit : ℕ) (c : Chunk)
    → IsLaid w s
    → Ascends s.base_offset (s.base_offset + s.sent) s.acked
    → All (λ a. All (Apart s.base_offset a) lost) s.acked
    → All (WasSent s.sent) lost
    → next_of s lost limit credit ≡ some c
    → All (Misses c) s.acked
next_of-Misses w s [] limit credit c v asc apart sent e =
    Misses-above c s.base_offset (s.base_offset + s.sent) s.acked
      (next_new-above w s limit credit c v e) asc
next_of-Misses w s ((start, end) ∷ rs) limit credit c v asc apart sent e =
    let at : c.0 ≡ s.base_offset + start = ground arith in
    let (len, same) =
      slice-live w s start (start + min (end - start) limit) v (omega arith)
        (omega (arith, v.sent_fits, sent.0)) in
    let bs : c.1 ≡ slice (live s) start (start + min (end - start) limit) = ground arith in
    Misses-run c s.base_offset start end s.acked rs at (rw (at, bs, len) (omega (arith, sent.0)))
      apart

pub next_send-Misses :
    (w : List ℕ) (s : SendStream) (limit credit : ℕ) (c : Chunk)
    → IsSound w s
    → next_send s limit credit ≡ some c
    → All (Misses c) s.acked
unfolding next_send
next_send-Misses w s limit credit c v e = elim (Bool-cases s.is_reset) [
  | inl stopped ↦ absurd (ground (arith, rw stopped at e))
  | inr going ↦
      next_of-Misses w s s.lost limit credit c v.laid v.acked_ascends v.lost_apart v.laid.lost_sent
        (rw going at e)
]

pub Misses-any :
    (c : Chunk) (x : ℕ) (xs : List Run)
    → c.0 ≤ x
    → x < c.0 + length c.1
    → All (Misses c) xs
    → any (in_run x) xs ≡ false
Misses-any c x [] h k a = refl
Misses-any c x (r ∷ rs) h k a = ground (arith, a.0, Misses-any c x rs h k a.1)
