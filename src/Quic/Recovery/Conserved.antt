-- ===== src/Quic/Recovery/Conserved.antt =====
-- No packet is lost track of or counted twice when acknowledgements and losses take packets out of
-- flight.
use shb.Common.{
  ℕ, suc, ◌+◌, ◌<◌, ◌≡◌, refl, Bool, true, false, List, [], ◌∷◌, ◌++◌, Option, none, some, ltb, leb,
  ◌||◌, if◌then◌else◌, if_elim, All, add_u64, u64_mod, arith,
}
use shb.Quic.Ranges.{Range}
use shb.Quic.Recovery.Sent.{
  SentPacket, SentPackets, named, sort_out, drain, drain_acked, judge, scan, detect_lost, sum_sizes,
  reorder_threshold, detect_with,
}

-- How many packets pass a test.
abbrev pub count : (SentPacket → Bool) → List SentPacket → ℕ
count t [] = 0
count t (p ∷ ps) = if t p then suc (count t ps) else count t ps

-- The packets of a list are those of the two others together, counted by every test and in bytes.
pub record Splits (all kept out : List SentPacket) : Type 0 where
  pub counted : (t : SentPacket → Bool) → count t all ≡ count t kept + count t out
  pub bytes : sum_sizes all ≡ add_u64 (sum_sizes kept) (sum_sizes out)

pub stays :
    (p : SentPacket) (all kept out : List SentPacket)
    → Splits all kept out
    → Splits (p ∷ all) (p ∷ kept) out
stays p all kept out v = record {
  counted = λ t. ground (arith, v.counted t);
  bytes = ground (arith, v.bytes);
}

pub leaves :
    (p : SentPacket) (all kept out : List SentPacket)
    → Splits all kept out
    → Splits (p ∷ all) kept (p ∷ out)
leaves p all kept out v = record {
  counted = λ t. ground (arith, v.counted t);
  bytes = ground (arith, v.bytes);
}

sort_out-Splits :
    (b : Bool) (p : SentPacket) (all : List SentPacket) (rest : List SentPacket × List SentPacket)
    → Splits all rest.0 rest.1
    → Splits (p ∷ all) (sort_out b p rest).0 (sort_out b p rest).1
sort_out-Splits true p all rest v = leaves p all rest.0 rest.1 v
sort_out-Splits false p all rest v = stays p all rest.0 rest.1 v

drain-Splits :
    (ranges : List Range) (packets : List SentPacket)
    → Splits packets (drain ranges packets).0 (drain ranges packets).1
unfolding drain
drain-Splits ranges [] = record { counted = λ t. omega arith; bytes = omega arith }
drain-Splits ranges (p ∷ packets) =
    sort_out-Splits (named ranges p.number) p packets (drain ranges packets)
      (drain-Splits ranges packets)

abbrev pub Answers : List Range → Bool → SentPacket → Type 0
Answers ranges b p = named ranges p.number ≡ b

sort_out-Answers :
    (ranges : List Range) (b : Bool) (p : SentPacket) (rest : List SentPacket × List SentPacket)
    → Answers ranges b p
    → All (Answers ranges false) rest.0 × All (Answers ranges true) rest.1
    → All (Answers ranges false) (sort_out b p rest).0
      × All (Answers ranges true) (sort_out b p rest).1
sort_out-Answers ranges true p rest e v = (v.0, (e, v.1))
sort_out-Answers ranges false p rest e v = ((e, v.0), v.1)

drain-Answers :
    (ranges : List Range) (packets : List SentPacket)
    → All (Answers ranges false) (drain ranges packets).0
      × All (Answers ranges true) (drain ranges packets).1
unfolding drain
drain-Answers ranges [] = (tt, tt)
drain-Answers ranges (p ∷ packets) =
    sort_out-Answers ranges (named ranges p.number) p (drain ranges packets) refl
      (drain-Answers ranges packets)

-- An ACK takes out of flight exactly the packets that its ranges name, and hands them over behind
-- what `acked` held; every packet, and every byte in flight, is then in one of the two places.
pub drain_acked-Splits :
    (s : SentPackets) (ranges : List Range) (acked : List SentPacket)
    → (out : List SentPacket) × ((drain_acked s ranges acked).1 ≡ acked ++ out)
      × All (Answers ranges true) out
      × All (Answers ranges false) (drain_acked s ranges acked).0.packets
      × Splits s.packets (drain_acked s ranges acked).0.packets out
unfolding drain_acked
drain_acked-Splits s ranges acked =
    let v = drain-Answers ranges s.packets in
    ((drain ranges s.packets).1, refl, v.1, v.0, drain-Splits ranges s.packets)

judge-Splits :
    (largest now loss_delay : ℕ) (p : SentPacket) (all kept lost : List SentPacket) (d : Option ℕ)
    → Splits all kept lost
    → Splits
        (p ∷ all)
        (judge largest now loss_delay p kept lost d).0
        (judge largest now loss_delay p kept lost d).1
judge-Splits largest now loss_delay p all kept lost d v =
    if_elim (λ (x : List SentPacket × List SentPacket × Option ℕ). Splits (p ∷ all) x.0 x.1)
      (ltb largest p.number) (λ _. stays p all kept lost v)
      (λ _.
        if_elim (λ (x : List SentPacket × List SentPacket × Option ℕ). Splits (p ∷ all) x.0 x.1)
          (leb (p.number + reorder_threshold) largest || leb (p.time_sent + loss_delay) now)
          (λ _. leaves p all kept lost v) (λ _. stays p all kept lost v))

pub scan-Splits :
    (largest now loss_delay : ℕ) (packets : List SentPacket)
    → Splits packets (scan largest now loss_delay packets).0 (scan largest now loss_delay packets).1
unfolding scan
scan-Splits largest now loss_delay [] = record { counted = λ t. omega arith; bytes = omega arith }
scan-Splits largest now loss_delay (p ∷ packets) =
    judge-Splits largest now loss_delay p packets _ _ _ (scan-Splits largest now loss_delay packets)

-- `detect_lost` splits what was in flight into what stays and what it gives back, in bytes too.
pub detect_lost-Splits :
    (s : SentPackets) (now loss_delay : ℕ)
    → Splits s.packets (detect_lost s now loss_delay).0.packets (detect_lost s now loss_delay).1
unfolding detect_lost
detect_lost-Splits s now loss_delay = go s.largest_acked
  where
    none_out :
        (all : List SentPacket)
        → (sum_sizes all < u64_mod) × (sum_sizes all ≡ add_u64 (sum_sizes all) 0)
    none_out [] = (omega arith, omega arith)
    none_out (p ∷ all) = ground (arith, none_out all)

    go :
        (largest : Option ℕ)
        → Splits s.packets
            (detect_with s largest now loss_delay).0.packets
            (detect_with s largest now loss_delay).1
    go none = record { counted = λ t. omega arith; bytes = (none_out s.packets).1 }
    go (some largest) = scan-Splits largest now loss_delay s.packets
