-- ===== src/Quic/SendStream/Acked.antt =====
-- `on_acked`: releasing what is acknowledged, and never queueing it again.
use shb.Common.{
  ℕ, ◌+◌, ◌-◌, ◌||◌, ◌<◌, ◌≤◌, ◌≡◌, sym, ap, ◌∙◌, Bool, List, [], ◌∷◌, ltb, leb, ◌==◌, length, drop,
  min, All, Bool-cases, if_elim, inl, inr, drop-drop, drop_all, arith,
}
use shb.Quic.SendStream.{
  SendStream, Run, live_len, absorb, shift_lost, release, ack_front, merge, cut, sort_runs,
  ack_sparse, ack_fin, ack_run, on_acked,
}
use shb.Quic.SendStream.Layout.{IsLaid, WasSent, sort_runs-All}
use shb.Quic.SendStream.Apart.{Ascends, Apart, absorb-Ascends, absorb-All, merge-Ascends, merge-All}

pub record IsSound (written : List ℕ) (s : SendStream) : Type 0 where
  pub laid : IsLaid written s
  -- Only bytes that were sent have been acknowledged.
  pub acked_ascends : Ascends s.base_offset (s.base_offset + s.sent) s.acked
  -- No acknowledged byte is queued to be sent again.
  pub lost_apart : All (λ a. All (Apart s.base_offset a) s.lost) s.acked

shift-WasSent :
    (m n : ℕ) (rs : List Run) → All (WasSent m) rs → All (WasSent (m - n)) (shift_lost n rs)
shift-WasSent m n [] a = tt
shift-WasSent m n (r ∷ rs) a = elim (Bool-cases (ltb (r.0 - n) (r.1 - n))) [
  | inl stays ↦ rw stays ((ground arith, omega arith), shift-WasSent m n rs a.1)
  | inr gone ↦ rw gone (shift-WasSent m n rs a.1)
]

shift-Apart :
    (base n : ℕ) (a : Run) (rs : List Run)
    → base + n ≤ a.0
    → a.0 < a.1
    → All (Apart base a) rs
    → All (Apart (base + n) a) (shift_lost n rs)
shift-Apart base n a [] h k x = tt
shift-Apart base n a (r ∷ rs) h k x = elim (Bool-cases (ltb (r.0 - n) (r.1 - n))) [
  | inl stays ↦ rw stays (ground (arith, x.0), shift-Apart base n a rs h k x.1)
  | inr gone ↦ rw gone (shift-Apart base n a rs h k x.1)
]

shift-Apart-All :
    (base n bottom top : ℕ) (xs rs : List Run)
    → base + n ≤ bottom
    → Ascends bottom top xs
    → All (λ a. All (Apart base a) rs) xs
    → All (λ a. All (Apart (base + n) a) (shift_lost n rs)) xs
shift-Apart-All base n bottom top [] rs h k x = tt
shift-Apart-All base n bottom top (a ∷ xs) rs h k x = (
  shift-Apart base n a rs (omega arith) k.1 x.0,
  shift-Apart-All base n a.1 top xs rs (omega arith) k.3 x.1,
)

release-IsLaid :
    (written : List ℕ) (s : SendStream) (n : ℕ)
    → IsLaid written s
    → n ≤ live_len s
    → IsLaid written (release s n)
unfolding release
release-IsLaid written s n v h =
    let moved : drop (s.buf_start + n) s.buf ≡ drop (s.base_offset + n) written =
      sym (drop-drop n s.buf_start s.buf)
      ∙ ap (drop n) v.bytes
      ∙ drop-drop n s.base_offset written in
    elim (Bool-cases (s.buf_start + n == length s.buf)) [
      | inl all ↦ rw all (record {
        start_fits = omega arith;
        ends = ground (arith, v.ends, v.start_fits);
        bytes = sym (drop_all (s.base_offset + n) written (ground (arith, v.ends, v.start_fits)));
        sent_fits = ground (arith, v.sent_fits, v.start_fits);
        lost_sent = shift-WasSent s.sent n s.lost v.lost_sent;
      })
      | inr some_left ↦ rw some_left (record {
        start_fits = omega (arith, v.start_fits);
        ends = omega (arith, v.ends, v.start_fits);
        bytes = moved;
        sent_fits = omega (arith, v.sent_fits);
        lost_sent = shift-WasSent s.sent n s.lost v.lost_sent;
      })
    ]

ack_front-IsSound :
    (written : List ℕ) (s : SendStream) (end : ℕ)
    → IsSound written s
    → s.base_offset < end
    → end ≤ s.base_offset + s.sent
    → IsSound written (ack_front s end)
unfolding ack_front release
ack_front-IsSound written s end v h k =
    let (a, b, c) =
      absorb-Ascends s.base_offset (s.base_offset + s.sent) end s.acked k v.acked_ascends in
    let end' : ℕ = (absorb end s.acked).0 in
    let n : ℕ = min ((absorb end s.acked).0 - s.base_offset) (live_len s) in
    let base' : s.base_offset + n ≡ (absorb end s.acked).0 = omega (arith, v.laid.sent_fits) in
    let top' : s.base_offset + n + (s.sent - n) ≡ s.base_offset + s.sent =
      omega (arith, v.laid.sent_fits) in
    record {
      laid =
          release-IsLaid written (record s { acked = (absorb end s.acked).1 }) n
            (record {
              start_fits = v.laid.start_fits;
              ends = v.laid.ends;
              bytes = v.laid.bytes;
              sent_fits = v.laid.sent_fits;
              lost_sent = v.laid.lost_sent;
            })
            (omega arith);
      acked_ascends = rw (top', base') c;
      lost_apart =
          shift-Apart-All s.base_offset n (absorb end s.acked).0 (s.base_offset + s.sent)
            (absorb end s.acked).1 s.lost (omega arith) c
            (absorb-All (λ a. All (Apart s.base_offset a) s.lost) end s.acked v.lost_apart);
    }

cut-WasSent :
    (n start end : ℕ) (rs : List Run) → All (WasSent n) rs → All (WasSent n) (cut start end rs)
unfolding cut
cut-WasSent n start end [] a = tt
cut-WasSent n start end (r ∷ rs) a = ground (arith, cut-WasSent n start end rs)

-- What is cut was there before, and has nothing of the run that was cut out.
cut-Apart :
    (base start end : ℕ) (a : Run) (rs : List Run)
    → All (Apart base a) rs
    → All (Apart base a) (cut start end rs)
unfolding cut
cut-Apart base start end a [] x = tt
cut-Apart base start end a (r ∷ rs) x = ground (arith, cut-Apart base start end a rs)

cut-Apart_self :
    (base : ℕ) (a : Run) (rs : List Run)
    → base ≤ a.0
    → a.0 < a.1
    → All (Apart base a) (cut (a.0 - base) (a.1 - base) rs)
unfolding cut
cut-Apart_self base a [] h k = tt
cut-Apart_self base a (r ∷ rs) h k = ground (arith, cut-Apart_self base a rs)

cut-Apart-All :
    (base start end : ℕ) (xs rs : List Run)
    → All (λ a. All (Apart base a) rs) xs
    → All (λ a. All (Apart base a) (sort_runs (cut start end rs))) xs
cut-Apart-All base start end [] rs x = tt
cut-Apart-All base start end (a ∷ xs) rs x = (
  sort_runs-All (Apart base a) (cut start end rs) (cut-Apart base start end a rs x.0),
  cut-Apart-All base start end xs rs x.1,
)

ack_sparse-IsSound :
    (written : List ℕ) (s : SendStream) (offset end : ℕ)
    → IsSound written s
    → s.base_offset < offset
    → offset < end
    → end ≤ s.base_offset + s.sent
    → IsSound written (ack_sparse s offset end)
unfolding ack_sparse
ack_sparse-IsSound written s offset end v h l k =
    let (span, asc) =
      merge-Ascends s.base_offset (s.base_offset + s.sent) offset end s.acked h l k
        v.acked_ascends in
    let run : Run = (merge offset end s.acked).1 in
    let lost : List Run = cut (run.0 - s.base_offset) (run.1 - s.base_offset) s.lost in
    record {
      laid = record {
        start_fits = v.laid.start_fits;
        ends = v.laid.ends;
        bytes = v.laid.bytes;
        sent_fits = v.laid.sent_fits;
        lost_sent = sort_runs-All (WasSent s.sent) lost (
            cut-WasSent s.sent (run.0 - s.base_offset) (run.1 - s.base_offset) s.lost
              v.laid.lost_sent);
      };
      acked_ascends = asc;
      lost_apart =
          merge-All (λ a. All (Apart s.base_offset a) (sort_runs lost)) offset end s.acked
            (cut-Apart-All s.base_offset (run.0 - s.base_offset) (run.1 - s.base_offset) s.acked
              s.lost v.lost_apart)
            (sort_runs-All (Apart s.base_offset run) lost (
              cut-Apart_self s.base_offset run s.lost (omega (arith, span.beyond))
                (omega (arith, span.from, span.to))));
    }

-- An acknowledgement of bytes that were sent keeps the layout, the order of the acknowledged runs,
-- and that none of their bytes is queued to be sent again.
pub on_acked-IsSound :
    (written : List ℕ) (s : SendStream) (offset len : ℕ) (fin : Bool)
    → IsSound written s
    → offset + len ≤ s.base_offset + s.sent
    → IsSound written (on_acked s offset len fin)
unfolding on_acked
on_acked-IsSound written s offset len fin v h =
    if_elim (IsSound written) s.is_reset (λ _. v)
      (λ _.
        run (ack_fin s fin)
          (record {
            laid = record {
              start_fits = v.laid.start_fits;
              ends = v.laid.ends;
              bytes = v.laid.bytes;
              sent_fits = v.laid.sent_fits;
              lost_sent = v.laid.lost_sent;
            };
            acked_ascends = v.acked_ascends;
            lost_apart = v.lost_apart;
          })
          h)
  where
    run :
        (t : SendStream)
        → IsSound written t
        → offset + len ≤ t.base_offset + t.sent
        → IsSound written (ack_run t offset len)
    run t w k = elim (Bool-cases (len == 0 || leb (offset + len) t.base_offset)) [
      | inl nothing ↦ rw nothing w
      | inr new ↦ rw new (elim (Bool-cases (leb offset t.base_offset)) [
        | inl front ↦ rw front (ack_front-IsSound written t (offset + len) w (ground arith) k)
        | inr sparse ↦
            rw sparse
              (ack_sparse-IsSound written t offset (offset + len) w (ground arith) (ground arith) k)
      ])
    ]
