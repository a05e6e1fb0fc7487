-- ===== src/Quic/Recovery/Judged.antt =====
-- Which packets count as lost, and when the next one does.
use shb.Common.{
  ℕ, ◌+◌, ◌<◌, ◌≤◌, ◌≡◌, refl, Bool, true, List, [], ◌∷◌, Option, none, some, ltb, leb, ◌&&◌, ◌||◌,
  ◌==◌, if_elim, Bool-cases, inl, inr, ◌⊎◌, All, any, length, arith,
}
use shb.Quic.Recovery.Sent.{
  SentPacket, SentPackets, judge, sooner, scan, detect_lost, detect_with, reorder_threshold,
}

-- Lost by reordering or by time.
abbrev pub IsLost : ℕ → ℕ → ℕ → SentPacket → Type 0
IsLost largest now loss_delay p =
    (p.number ≤ largest) × ((p.number + 3 ≤ largest) ⊎ (p.time_sent + loss_delay ≤ now))

-- The deadline comes no later than `at`.
abbrev pub ComesBy : ℕ → Option ℕ → Type 0
ComesBy at none = ⊥
ComesBy at (some d) = d ≤ at

-- Newer than everything acknowledged, or with a deadline ahead that the timer heeds.
abbrev pub Waits : ℕ → ℕ → ℕ → Option ℕ → SentPacket → Type 0
Waits largest now loss_delay deadline p =
    (largest < p.number)
    ⊎ ((largest < p.number + 3)
        × (now < p.time_sent + loss_delay)
        × ComesBy (p.time_sent + loss_delay) deadline)

-- The packet becomes lost at `d`.
abbrev pub falls_due : ℕ → ℕ → ℕ → SentPacket → Bool
falls_due largest loss_delay d p = leb p.number largest && (p.time_sent + loss_delay == d)

abbrev pub IsDue : ℕ → ℕ → ℕ → List SentPacket → Option ℕ → Type 0
IsDue largest now loss_delay kept none = Unit
IsDue largest now loss_delay kept (some d) =
    (now < d) × (any (falls_due largest loss_delay d) kept ≡ true)

pub record IsJudged (largest now loss_delay : ℕ) (kept lost : List SentPacket) (deadline : Option ℕ)
    : Type 0 where
  pub lost_for_cause : All (IsLost largest now loss_delay) lost
  pub kept_waits : All (Waits largest now loss_delay deadline) kept
  pub due : IsDue largest now loss_delay kept deadline

sooner-Waits :
    (largest now loss_delay at : ℕ) (deadline : Option ℕ) (kept : List SentPacket)
    → All (Waits largest now loss_delay deadline) kept
    → All (Waits largest now loss_delay (sooner deadline at)) kept
sooner-Waits largest now loss_delay at deadline [] w = tt
sooner-Waits largest now loss_delay at none (p ∷ kept) w =
    (ground (arith, w.0), sooner-Waits largest now loss_delay at none kept w.1)
sooner-Waits largest now loss_delay at (some d) (p ∷ kept) w =
    (ground (arith, w.0), sooner-Waits largest now loss_delay at (some d) kept w.1)

ComesBy-sooner : (at : ℕ) (deadline : Option ℕ) → ComesBy at (sooner deadline at)
ComesBy-sooner at none = omega arith
ComesBy-sooner at (some d) = omega arith

skip-IsDue :
    (largest now loss_delay : ℕ) (p : SentPacket) (kept : List SentPacket) (deadline : Option ℕ)
    → IsDue largest now loss_delay kept deadline
    → IsDue largest now loss_delay (p ∷ kept) deadline
skip-IsDue largest now loss_delay p kept none v = tt
skip-IsDue largest now loss_delay p kept (some d) v = (v.0, ground (arith, v.1))

same-IsDue :
    (largest now loss_delay : ℕ) (kept : List SentPacket) (a b : ℕ)
    → b ≡ a
    → IsDue largest now loss_delay kept (some a)
    → IsDue largest now loss_delay kept (some b)
same-IsDue largest now loss_delay kept a b e v = rw e v

add-IsDue :
    (largest now loss_delay : ℕ) (p : SentPacket) (kept : List SentPacket) (deadline : Option ℕ)
    → p.number ≤ largest
    → now < p.time_sent + loss_delay
    → IsDue largest now loss_delay kept deadline
    → IsDue largest now loss_delay (p ∷ kept) (sooner deadline (p.time_sent + loss_delay))
add-IsDue largest now loss_delay p kept none n h v = (h, ground arith)
add-IsDue largest now loss_delay p kept (some d) n h v =
    elim (Bool-cases (ltb d (p.time_sent + loss_delay))) [
      | inl before ↦
          same-IsDue largest now loss_delay (p ∷ kept) d _ (ground arith)
            (skip-IsDue largest now loss_delay p kept (some d) v)
      | inr after ↦
          same-IsDue largest now loss_delay (p ∷ kept) (p.time_sent + loss_delay) _ (ground arith)
            (h, ground arith)
    ]

judge-IsJudged :
    (largest now loss_delay : ℕ) (p : SentPacket) (kept lost : List SentPacket)
    (deadline : Option ℕ)
    → IsJudged largest now loss_delay kept lost deadline
    → IsJudged largest now loss_delay
        (judge largest now loss_delay p kept lost deadline).0
        (judge largest now loss_delay p kept lost deadline).1
        (judge largest now loss_delay p kept lost deadline).2
judge-IsJudged largest now loss_delay p kept lost deadline v =
    if_elim goal (ltb largest p.number)
      (λ newer. record {
        lost_for_cause = v.lost_for_cause;
        kept_waits = (inl (ground arith), v.kept_waits);
        due = skip-IsDue largest now loss_delay p kept deadline v.due;
      })
      (λ older.
        if_elim goal
          (leb (p.number + reorder_threshold) largest || leb (p.time_sent + loss_delay) now)
          (λ gone. record {
            lost_for_cause = ((ground arith, ground arith), v.lost_for_cause);
            kept_waits = v.kept_waits;
            due = v.due;
          })
          (λ there. record {
            lost_for_cause = v.lost_for_cause;
            kept_waits = (
              inr (ground arith, ground arith, ComesBy-sooner (p.time_sent + loss_delay) deadline),
              sooner-Waits largest now loss_delay (p.time_sent + loss_delay) deadline kept
                  v.kept_waits,
            );
            due =
                add-IsDue largest now loss_delay p kept deadline (ground arith) (ground arith)
                  v.due;
          }))
  where
    goal : List SentPacket × List SentPacket × Option ℕ → Type 0
    goal x = IsJudged largest now loss_delay x.0 x.1 x.2

scan-IsJudged :
    (largest now loss_delay : ℕ) (packets : List SentPacket)
    → IsJudged largest now loss_delay
        (scan largest now loss_delay packets).0
        (scan largest now loss_delay packets).1
        (scan largest now loss_delay packets).2
unfolding scan
scan-IsJudged largest now loss_delay [] = record { lost_for_cause = tt; kept_waits = tt; due = tt }
scan-IsJudged largest now loss_delay (p ∷ packets) =
    judge-IsJudged largest now loss_delay p _ _ _ (scan-IsJudged largest now loss_delay packets)

-- Where something was acknowledged, `detect_lost` gives back only packets that are three or more
-- behind the largest acknowledged or past their time; what stays in flight is newer than that or
-- has its time ahead, with the next deadline no later; and a deadline is the time of one of them.
pub detect_lost-IsJudged :
    (s : SentPackets) (largest now loss_delay : ℕ)
    → s.largest_acked ≡ some largest
    → IsJudged largest now loss_delay
        (detect_lost s now loss_delay).0.packets
        (detect_lost s now loss_delay).1
        (detect_lost s now loss_delay).2
unfolding detect_lost
detect_lost-IsJudged s largest now loss_delay e =
    rw e (scan-IsJudged largest now loss_delay s.packets)

judge_due :
    (largest now loss_delay d : ℕ) (p : SentPacket) (kept lost : List SentPacket) (next : Option ℕ)
    → falls_due largest loss_delay d p ≡ true
    → d ≤ now
    → 0 < length (judge largest now loss_delay p kept lost next).1
judge_due largest now loss_delay d p kept lost next e h = ground arith

judge_longer :
    (largest now loss_delay : ℕ) (p : SentPacket) (kept lost : List SentPacket) (next : Option ℕ)
    → 0 < length lost
    → 0 < length (judge largest now loss_delay p kept lost next).1
judge_longer largest now loss_delay p kept lost next h = ground arith

scan_due :
    (largest now loss_delay d : ℕ) (packets : List SentPacket)
    → any (falls_due largest loss_delay d) packets ≡ true
    → d ≤ now
    → 0 < length (scan largest now loss_delay packets).1
unfolding scan
scan_due largest now loss_delay d [] e h = absurd (cc)
scan_due largest now loss_delay d (p ∷ packets) e h =
    elim (Bool-cases (falls_due largest loss_delay d p)) [
      | inl due ↦ judge_due largest now loss_delay d p _ _ _ due h
      | inr not_due ↦
          judge_longer largest now loss_delay p _ _ _
            (scan_due largest now loss_delay d packets (rw not_due at e) h)
    ]

-- The deadline that `detect_lost` gives is worth waiting for: at that time or later, with the same
-- loss delay, it finds a packet lost.
pub detect_lost_due :
    (s : SentPackets) (largest now later loss_delay d : ℕ)
    → s.largest_acked ≡ some largest
    → (detect_lost s now loss_delay).2 ≡ some d
    → d ≤ later
    → 0 < length (detect_lost (detect_lost s now loss_delay).0 later loss_delay).1
unfolding detect_lost
detect_lost_due s largest now later loss_delay d l e h = rw l (go (some largest) refl (rw l at e))
  where
    due :
        (kept : List SentPacket) (next : Option ℕ)
        → IsDue largest now loss_delay kept next
        → next ≡ some d
        → any (falls_due largest loss_delay d) kept ≡ true
    due kept none v e = absurd (cc)
    due kept (some n) v e = let same : n ≡ d = cc in rw same at v.1

    go :
        (acked : Option ℕ)
        → acked ≡ some largest
        → (detect_with s acked now loss_delay).2 ≡ some d
        → 0
          < length (scan largest later loss_delay (detect_with s acked now loss_delay).0.packets).1
    go none a e = absurd (cc)
    go (some n) a e =
        let same : n ≡ largest = cc in
        scan_due largest later loss_delay d _
          (due _ _ (rw same (scan-IsJudged largest now loss_delay s.packets).due) e) h
