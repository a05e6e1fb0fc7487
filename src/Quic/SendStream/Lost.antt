-- ===== src/Quic/SendStream/Lost.antt =====
-- `on_lost`: what is queued again was sent, and was not acknowledged.
use shb.Common.{
  ℕ, ◌+◌, ◌-◌, ◌&&◌, ◌≤◌, Bool, false, List, [], ◌∷◌, ◌++◌, ltb, leb, not, if◌then◌else◌, min, max,
  All, if_elim, inl, arith,
}
use shb.Quic.SendStream.{SendStream, Run, live_len, sort_runs, uncovered, lose_run, on_lost}
use shb.Quic.SendStream.Layout.{WasSent, sort_runs-All}
use shb.Quic.SendStream.Apart.{Ascends, Apart}
use shb.Quic.SendStream.Acked.{IsSound}

All-append {ℓ} : (P : Run → Type ℓ) (xs ys : List Run) → All P xs → All P ys → All P (xs ++ ys)
All-append P [] ys a b = b
All-append P (x ∷ xs) ys a b = (a.0, All-append P xs ys a.1 b)

uncovered-WasSent :
    (base start end n : ℕ) (xs : List Run)
    → base ≤ start
    → end ≤ base + n
    → All (WasSent n) (uncovered base start end xs)
unfolding uncovered
uncovered-WasSent base start end n [] h k = ground arith
uncovered-WasSent base start end n ((lo, hi) ∷ xs) h k =
    ground
      (arith, uncovered-WasSent base start end n xs, uncovered-WasSent base (max start hi) end n xs)

-- Behind the start there is nothing of a run that ends before it.
uncovered-Apart_below :
    (base start end : ℕ) (a : Run) (xs : List Run)
    → base ≤ start
    → a.1 ≤ start
    → All (Apart base a) (uncovered base start end xs)
unfolding uncovered
uncovered-Apart_below base start end a [] h k = ground arith
uncovered-Apart_below base start end a ((lo, hi) ∷ xs) h k = ground (
  arith,
  uncovered-Apart_below base start end a xs,
  uncovered-Apart_below base (max start hi) end a xs,
)

-- A run that ends where the acknowledged ones begin has nothing of them.
Apart-above :
    (base end bottom top : ℕ) (r : Run) (xs : List Run)
    → base + r.1 ≤ bottom
    → Ascends bottom top xs
    → All (λ a. Apart base a r) xs
Apart-above base end bottom top r [] h k = tt
Apart-above base end bottom top r (a ∷ xs) h k =
    (inl (omega arith), Apart-above base end a.1 top r xs (omega arith) k.3)

zip-Apart :
    (base : ℕ) (r : Run) (rs xs : List Run)
    → All (λ a. Apart base a r) xs
    → All (λ a. All (Apart base a) rs) xs
    → All (λ a. All (Apart base a) (r ∷ rs)) xs
zip-Apart base r rs [] h k = tt
zip-Apart base r rs (a ∷ xs) h k = ((h.0, k.0), zip-Apart base r rs xs h.1 k.1)

nothing-Apart : (base : ℕ) (xs : List Run) → All (λ a. All (Apart base a) []) xs
nothing-Apart base [] = tt
nothing-Apart base (a ∷ xs) = (tt, nothing-Apart base xs)

-- Nothing that is queued is acknowledged.
uncovered-Apart-All :
    (base start end bottom top : ℕ) (xs : List Run)
    → base ≤ start
    → Ascends bottom top xs
    → All (λ a. All (Apart base a) (uncovered base start end xs)) xs
unfolding uncovered
uncovered-Apart-All base start end bottom top [] h k = tt
uncovered-Apart-All base start end bottom top ((lo, hi) ∷ xs) h k =
    if_elim (λ rs. All (λ a. All (Apart base a) rs) ((lo, hi) ∷ xs)) (leb end lo)
      (λ before.
        if_elim (λ rs. All (λ a. All (Apart base a) rs) ((lo, hi) ∷ xs)) (ltb start end)
          (λ some_bytes.
            zip-Apart base (start - base, end - base) [] ((lo, hi) ∷ xs)
              (
                inl (ground arith),
                Apart-above base end hi top (start - base, end - base) xs (ground arith) k.3,
              )
              (nothing-Apart base ((lo, hi) ∷ xs)))
          (λ _. nothing-Apart base ((lo, hi) ∷ xs)))
      (λ meets.
        if_elim (λ rs. All (λ a. All (Apart base a) rs) ((lo, hi) ∷ xs)) (leb hi start)
          (λ behind. (
            uncovered-Apart_below base start end (lo, hi) xs h (ground arith),
            uncovered-Apart-All base start end hi top xs h k.3,
          ))
          (λ crosses.
            if_elim (λ rs. All (λ a. All (Apart base a) rs) ((lo, hi) ∷ xs)) (ltb start lo)
              (λ gap.
                zip-Apart base (start - base, lo - base) (uncovered base (max start hi) end xs)
                  ((lo, hi) ∷ xs)
                  (
                    inl (ground arith),
                    Apart-above base end hi top (start - base, lo - base) xs (ground arith) k.3,
                  )
                  (
                    uncovered-Apart_below base (max start hi) end (lo, hi) xs (omega arith)
                        (omega arith),
                    uncovered-Apart-All base (max start hi) end hi top xs (omega arith) k.3,
                  ))
              (λ covered. (
                uncovered-Apart_below base (max start hi) end (lo, hi) xs (omega arith)
                    (omega arith),
                uncovered-Apart-All base (max start hi) end hi top xs (omega arith) k.3,
              ))))

append-Apart-All :
    (base : ℕ) (rs ts xs : List Run)
    → All (λ a. All (Apart base a) rs) xs
    → All (λ a. All (Apart base a) ts) xs
    → All (λ a. All (Apart base a) (sort_runs (rs ++ ts))) xs
append-Apart-All base rs ts [] h k = tt
append-Apart-All base rs ts (a ∷ xs) h k = (
  sort_runs-All (Apart base a) (rs ++ ts) (All-append (Apart base a) rs ts h.0 k.0),
  append-Apart-All base rs ts xs h.1 k.1,
)

lose_run-IsSound :
    (written : List ℕ) (s : SendStream) (offset len : ℕ)
    → IsSound written s
    → IsSound written (lose_run s offset len)
lose_run-IsSound written s offset len v =
    if_elim (IsSound written) (leb (offset + len) s.base_offset) (λ _. v)
      (λ fresh.
        let end : ℕ = min (offset + len) (s.base_offset + min s.sent (live_len s)) in
        let start : ℕ = max offset s.base_offset in
        record {
          laid = record {
            start_fits = v.laid.start_fits;
            ends = v.laid.ends;
            bytes = v.laid.bytes;
            sent_fits = v.laid.sent_fits;
            lost_sent =
                sort_runs-All (WasSent s.sent) (s.lost ++ uncovered s.base_offset start end s.acked)
                  (All-append (WasSent s.sent) s.lost (uncovered s.base_offset start end s.acked)
                    v.laid.lost_sent
                    (uncovered-WasSent s.base_offset start end s.sent s.acked (omega arith)
                      (omega arith)));
          };
          acked_ascends = v.acked_ascends;
          lost_apart =
              append-Apart-All s.base_offset s.lost (uncovered s.base_offset start end s.acked)
                s.acked v.lost_apart
                (uncovered-Apart-All s.base_offset start end s.base_offset (s.base_offset + s.sent)
                  s.acked (omega arith) v.acked_ascends);
        })

-- A loss queues only bytes that were sent and not acknowledged, whatever run the packet carried.
pub on_lost-IsSound :
    (written : List ℕ) (s : SendStream) (offset len : ℕ) (fin : Bool)
    → IsSound written s
    → IsSound written (on_lost s offset len fin)
unfolding on_lost
on_lost-IsSound written s offset len fin v =
    if_elim (IsSound written) s.is_reset (λ _. v)
      (λ _.
        lose_run-IsSound written
          (record s { fin_sent = if fin && not s.fin_acked then false else s.fin_sent }) offset len
          (record {
            laid = record {
              start_fits = v.laid.start_fits;
              ends = v.laid.ends;
              bytes = v.laid.bytes;
              sent_fits = v.laid.sent_fits;
              lost_sent = v.laid.lost_sent;
            };
            acked_ascends = v.acked_ascends;
            lost_apart = v.lost_apart;
          }))
