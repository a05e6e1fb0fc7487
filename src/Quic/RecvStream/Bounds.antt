-- ===== src/Quic/RecvStream/Bounds.antt =====
-- Flow control and the final size.
use shb.Common.{
  ℕ, ◌+◌, ◌-◌, ◌^◌, max, ◌<◌, ◌≤◌, ◌≡◌, ◌∙◌, Bool, true, List, [], ◌∷◌, ◌++◌, Option, none, some,
  ltb, leb, if◌then◌else◌, length, All, Bool-cases, inl, inr, length-append, length-drop, arith,
}
use shb.Quic.RecvStream.{
  RecvStream, Segment, ok, head, fresh, drain, store, accept, check_end, end_of, push_with_credit,
  reset, bind_ok,
}
use shb.Quic.RecvStream.Content.{push_inv, All-sort_segments}

-- A final size that is known bounds what has been received.
abbrev pub SizeBounds : Option ℕ → ℕ → Type 0
SizeBounds none received = Unit {0}
SizeBounds (some n) received = received ≤ n

pub record IsBounded (r : RecvStream) : Type 0 where
  pub contiguous : head r ≤ r.received
  pub waiting : All (λ p. p.0 + length p.1 ≤ r.received) r.pending
  pub within_limit : r.received ≤ r.max_data
  pub in_range : r.received < 2 ^ 62
  pub within_size : SizeBounds r.size r.received

end_of-ok :
    (offset len end : ℕ) → end_of offset len ≡ ok end → (end ≡ offset + len) × (end < 2 ^ 62)
unfolding end_of
end_of-ok offset len end e = ground arith

drain-le :
    (o n : ℕ) (ready : List ℕ) (pending : List Segment)
    → o + length ready ≤ n
    → All (λ p. p.0 + length p.1 ≤ n) pending
    → (o + length (drain o ready pending).0 ≤ n)
      × All (λ p. p.0 + length p.1 ≤ n) (drain o ready pending).1
unfolding drain
drain-le o n ready [] h a = (h, tt)
drain-le o n ready (p ∷ pending) h a = elim (Bool-cases (ltb (o + length ready) p.0)) [
  | inl waits ↦ rw waits (h, a)
  | inr next ↦ rw next (
      drain-le o n (ready ++ fresh (o + length ready) p) pending
        (rw (length-append ready (fresh (o + length ready) p))
          (ground (arith, length-drop (o + length ready - p.0) p.1)))
        a.1)
]

All-snoc-le :
    (n : ℕ) (ps : List Segment) (p : Segment)
    → All (λ q. q.0 + length q.1 ≤ n) ps
    → p.0 + length p.1 ≤ n
    → All (λ q. q.0 + length q.1 ≤ n) (ps ++ (p ∷ []))
All-snoc-le n [] p a h = (h, tt)
All-snoc-le n (q ∷ qs) p a h = (a.0, All-snoc-le n qs p a.1 h)

All-weaken-le :
    (m n : ℕ) (ps : List Segment)
    → m ≤ n
    → All (λ q. q.0 + length q.1 ≤ m) ps
    → All (λ q. q.0 + length q.1 ≤ n) ps
All-weaken-le m n [] h a = tt
All-weaken-le m n (p ∷ ps) h a = (omega arith, All-weaken-le m n ps h a.1)

-- `store` moves bytes around, up to the end that was accepted.
store-le :
    (r : RecvStream) (offset n : ℕ) (bytes : List ℕ)
    → offset + length bytes ≤ n
    → head r ≤ n
    → All (λ p. p.0 + length p.1 ≤ n) r.pending
    → (head (store r offset bytes) ≤ n)
      × All (λ p. p.0 + length p.1 ≤ n) (store r offset bytes).pending
unfolding store
store-le r offset n bytes he hr a = elim (Bool-cases (leb offset (head r))) [
  | inl joins ↦ rw joins (
      drain-le r.read_offset n (r.ready ++ fresh (head r) (offset, bytes)) r.pending
        (rw (length-append r.ready (fresh (head r) (offset, bytes)))
          (ground (arith, length-drop (head r - offset) bytes)))
        a)
  | inr early ↦ rw early (elim (Bool-cases (ltb 0 (length bytes))) [
    | inl some_bytes ↦ rw some_bytes (
      hr,
      All-sort_segments (λ p. p.0 + length p.1 ≤ n) (r.pending ++ ((offset, bytes) ∷ []))
          (All-snoc-le n r.pending (offset, bytes) a he),
    )
    | inr empty ↦ rw empty (hr, a)
  ])
]

store_keeps :
    (r : RecvStream) (offset : ℕ) (bytes : List ℕ)
    → ((store r offset bytes).received ≡ r.received)
      × ((store r offset bytes).max_data ≡ r.max_data)
      × ((store r offset bytes).size ≡ r.size)
unfolding store
store_keeps r offset bytes = ground arith

check_end-ok :
    (r : RecvStream) (end : ℕ) (fin : Bool) (credit n : ℕ)
    → IsBounded r
    → check_end r end fin credit ≡ ok n
    → (max r.received end ≡ r.received + n)
      × (n ≤ credit)
      × (max r.received end ≤ r.max_data)
      × SizeBounds (if fin then some end else r.size) (max r.received end)
unfolding check_end
check_end-ok r end fin credit n v e = ground (arith, v.within_size)

-- Where the bounds hold, what an accepted frame is charged is the growth of the highest offset, within the connection's
-- credit; that offset never passes the stream's limit.
pub push_credit :
    (r r' : RecvStream) (offset n : ℕ) (bytes : List ℕ) (fin : Bool) (credit : ℕ)
    → IsBounded r
    → push_with_credit r offset bytes fin credit ≡ ok (r', n)
    → (r'.received ≡ r.received + n) × (n ≤ credit) × (r'.received ≤ r.max_data)
push_credit r r' offset n bytes fin credit v e =
    let (end, he, hn, h) = push_inv r r' offset n bytes fin credit e in
    let (a, b, c, d) = check_end-ok r end fin credit n v hn in
    let (k, l, m) = store_keeps (accept r end fin) offset bytes in rw (h, k) (a, b, c)

-- The bounds hold after every accepted frame; so no sum of offsets reaches 2 ^ 62.
pub push-IsBounded :
    (r r' : RecvStream) (offset n : ℕ) (bytes : List ℕ) (fin : Bool) (credit : ℕ)
    → IsBounded r
    → push_with_credit r offset bytes fin credit ≡ ok (r', n)
    → IsBounded r'
push-IsBounded r r' offset n bytes fin credit v e =
    let (end, he, hn, h) = push_inv r r' offset n bytes fin credit e in
    let (a, b, c, d) = check_end-ok r end fin credit n v hn in
    let (k, l, m) = store_keeps (accept r end fin) offset bytes in
    let (ee, el) = end_of-ok offset (length bytes) end he in
    let (hh, pp) =
      store-le (accept r end fin) offset (max r.received end) bytes (omega arith)
        (omega (arith, v.contiguous))
        (All-weaken-le r.received (max r.received end) r.pending (omega arith) v.waiting) in
    rw h (record {
      contiguous = rw k hh;
      waiting = rw k pp;
      within_limit = rw (k, l) c;
      in_range = rw k (omega (arith, v.in_range));
      within_size = rw (m, k) d;
    })

-- A final size, once known, stays what it is, whatever is accepted.
pub push_final_size :
    (r r' : RecvStream) (offset n size : ℕ) (bytes : List ℕ) (fin : Bool) (credit : ℕ)
    → r.size ≡ some size
    → push_with_credit r offset bytes fin credit ≡ ok (r', n)
    → (r'.size ≡ some size) × (offset + length bytes ≤ size)
push_final_size r r' offset n size bytes fin credit s e =
    let (end, he, hn, h) = push_inv r r' offset n bytes fin credit e in
    let (k, l, m) = store_keeps (accept r end fin) offset bytes in
    let (ee, el) = end_of-ok offset (length bytes) end he in
    rw (h, m) (unfold check_end in ground arith)

check_end-fin :
    (r : RecvStream) (end credit n : ℕ) → check_end r end true credit ≡ ok n → r.received ≤ end
unfolding check_end
check_end-fin r end credit n e = ground arith

reset_inv :
    (r r' : RecvStream) (size n credit : ℕ)
    → reset r size credit ≡ ok (r', n)
    → (check_end r size true credit ≡ ok n) × (r' ≡ record r { size = some size; received = size })
unfolding reset
reset_inv r r' size n credit e =
    let (m, hm, h) =
      bind_ok (check_end r size true credit)
        (λ m. ok (record r { size = some size; received = size }, m)) e in
    (hm ∙ ground arith, ground arith)

-- A RESET_STREAM is charged the growth up to its final size, under the same limits, and the bounds
-- hold after it.
pub reset-IsBounded :
    (r r' : RecvStream) (size n credit : ℕ)
    → IsBounded r
    → size < 2 ^ 62
    → reset r size credit ≡ ok (r', n)
    → IsBounded r' × (r'.received ≡ r.received + n) × (n ≤ credit)
reset-IsBounded r r' size n credit v h e =
    let (hn, hr) = reset_inv r r' size n credit e in
    let (a, b, c, d) = check_end-ok r size true credit n v hn in
    let le = check_end-fin r size credit n hn in
    rw hr (
      record {
        contiguous = omega (arith, v.contiguous);
        waiting = All-weaken-le r.received size r.pending le v.waiting;
        within_limit = omega arith;
        in_range = h;
        within_size = omega arith;
      },
      omega arith,
      b,
    )
