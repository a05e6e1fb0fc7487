-- ===== src/Quic/SendStream/Layout.antt =====
-- Where the bytes of a stream are: the buffer holds what the application wrote from the base on.
use shb.Common.{
  ℕ, ◌+◌, ◌&&◌, ◌||◌, ◌<◌, ◌≤◌, ◌≡◌, refl, sym, ap, ◌∙◌, not, List, [], ◌∷◌, ◌++◌, ltb, leb, ◌==◌,
  length, take, drop, min, All, Bool-cases, inl, inr, length-append, length-drop, drop-append_le,
  arith,
}
use shb.Quic.SendStream.{
  SendStream, Run, new, live_len, live, write, writable, compact, insert_run, sort_runs,
}

-- A run to send again: not empty, and sent before.
abbrev pub WasSent : ℕ → Run → Type 0
WasSent sent r = (r.0 < r.1) × (r.1 ≤ sent)

-- `written` is all that the application has written.
pub record IsLaid (written : List ℕ) (s : SendStream) : Type 0 where
  pub start_fits : s.buf_start ≤ length s.buf
  pub ends : s.base_offset + live_len s ≡ length written
  pub bytes : live s ≡ drop s.base_offset written
  pub sent_fits : s.sent ≤ live_len s
  pub lost_sent : All (WasSent s.sent) s.lost

pub new-IsLaid : (limit : ℕ) → IsLaid [] (new limit)
new-IsLaid limit = record {
  start_fits = omega arith;
  ends = refl;
  bytes = refl;
  sent_fits = omega arith;
  lost_sent = tt;
}

compact-IsLaid :
    (written : List ℕ) (s : SendStream) (room : ℕ)
    → IsLaid written s
    → IsLaid written (compact s room)
unfolding compact
compact-IsLaid written s room v =
    elim (Bool-cases
      (not (room == 0) && (not (s.buf_start == 0) && leb (live_len s) s.buf_start))) [
        | inl moves ↦ rw moves (record {
          start_fits = omega arith;
          ends = omega (arith, length-drop s.buf_start s.buf, v.ends);
          bytes = v.bytes;
          sent_fits = omega (arith, length-drop s.buf_start s.buf, v.sent_fits);
          lost_sent = v.lost_sent;
        })
        | inr stays ↦ rw stays v
      ]

-- A write appends a prefix of the bytes, all of them unless flow control stops it, and never
-- beyond the limit; nothing else moves.
pub write-IsLaid :
    (written : List ℕ) (s : SendStream) (bytes : List ℕ)
    → IsLaid written s
    → IsLaid (written ++ take (write s bytes).1 bytes) (write s bytes).0
unfolding write
write-IsLaid written s bytes v =
    let room : ℕ = min (writable s) (length bytes) in
    let c = compact-IsLaid written s room v in go (compact s room) c (take room bytes)
  where
    go :
        (c : SendStream)
        → IsLaid written c
        → (more : List ℕ) → IsLaid (written ++ more) (record c { buf = c.buf ++ more })
    go c w more = record {
      start_fits = omega (arith, length-append c.buf more, w.start_fits);
      ends =
          omega (arith, length-append c.buf more, length-append written more, w.ends, w.start_fits);
      bytes =
          drop-append_le c.buf_start c.buf more w.start_fits
          ∙ ap (λ t. t ++ more) w.bytes
          ∙ sym (drop-append_le c.base_offset written more (omega (arith, w.ends)));
      sent_fits = omega (arith, length-append c.buf more, w.sent_fits);
      lost_sent = w.lost_sent;
    }

pub WasSent-mono : (m n : ℕ) (rs : List Run) → m ≤ n → All (WasSent m) rs → All (WasSent n) rs
WasSent-mono m n [] h a = tt
WasSent-mono m n (r ∷ rs) h a = ((a.0.0, omega arith), WasSent-mono m n rs h a.1)

pub sort_runs-All {ℓ} : (P : Run → Type ℓ) (rs : List Run) → All P rs → All P (sort_runs rs)
sort_runs-All P [] a = tt
sort_runs-All P (r ∷ rs) a = insert r (sort_runs rs) a.0 (sort_runs-All P rs a.1)
  where
    insert : (r : Run) (qs : List Run) → P r → All P qs → All P (insert_run r qs)
    insert r [] h b = (h, tt)
    insert r (q ∷ qs) h b = elim (Bool-cases (ltb r.0 q.0 || r.0 == q.0 && leb r.1 q.1)) [
      | inl before ↦ rw before (h, b)
      | inr after ↦ rw after (b.0, insert r qs h b.1)
    ]
