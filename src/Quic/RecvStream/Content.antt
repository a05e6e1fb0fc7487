-- ===== src/Quic/RecvStream/Content.antt =====
-- Reassembly is right: whatever the order, the overlaps and the duplicates, what the application is
-- shown is the stream that the peer wrote.
use shb.Common.{
  ℕ, zero, suc, ◌+◌, ◌-◌, ◌≤◌, ◌≡◌, refl, ap, ◌∙◌, Bool, List, [], ◌∷◌, ◌++◌, some, ltb, leb,
  length, drop, All, Bool-cases, inl, inr, length-append, length-drop, append-nil, arith,
}
use shb.Quic.RecvStream.{
  RecvStream, Segment, ok, head, insert_segment, sort_segments, fresh, drain, store, accept,
  push_with_credit, end_of, check_end, consume, ◌>>=◌, bind_ok,
}

-- The `n` bytes of the stream `s` from the offset `o` on.
abbrev pub slice : (ℕ → ℕ) → ℕ → ℕ → List ℕ
slice s o zero = []
slice s o (suc n) = s o ∷ slice s (suc o) n

pub length-slice : (s : ℕ → ℕ) (o n : ℕ) → length (slice s o n) ≡ n
length-slice s o zero = refl
length-slice s o (suc n) = ap suc (length-slice s (suc o) n)

pub slice-append : (s : ℕ → ℕ) (o m n : ℕ) → slice s o m ++ slice s (o + m) n ≡ slice s o (m + n)
slice-append s o zero n =
    let e : o + 0 ≡ o = omega arith in let e' : 0 + n ≡ n = omega arith in rw (e, e')
slice-append s o (suc m) n =
    let e : o + suc m ≡ suc o + m = omega arith in
    let e' : suc m + n ≡ suc (m + n) = omega arith in
    rw (e, e') (ap (λ t. s o ∷ t) (slice-append s (suc o) m n))

drop-slice : (s : ℕ → ℕ) (k o n : ℕ) → drop k (slice s o n) ≡ slice s (o + k) (n - k)
drop-slice s zero o n =
    let e : o + 0 ≡ o = omega arith in let e' : n - 0 ≡ n = omega arith in rw (e, e')
drop-slice s (suc k) o zero = let e : 0 - suc k ≡ 0 = omega arith in rw e
drop-slice s (suc k) o (suc n) =
    let e : o + suc k ≡ suc o + k = omega arith in
    let e' : suc n - suc k ≡ n - k = omega arith in rw (e, e') (drop-slice s k (suc o) n)

-- The bytes of a segment are the stream's.
abbrev pub Agrees : (ℕ → ℕ) → Segment → Type 0
Agrees s p = p.1 ≡ slice s p.0 (length p.1)

pub record IsContent (s : ℕ → ℕ) (r : RecvStream) : Type 0 where
  pub ready_agrees : r.ready ≡ slice s r.read_offset (length r.ready)
  pub pending_agrees : All (Agrees s) r.pending

-- What a segment adds behind the contiguous bytes continues them.
extend :
    (s : ℕ → ℕ) (o : ℕ) (ready : List ℕ) (p : Segment)
    → ready ≡ slice s o (length ready)
    → p.0 ≤ o + length ready
    → Agrees s p
    → ready ++ fresh (o + length ready) p ≡ slice s o (length (ready ++ fresh (o + length ready) p))
extend s o ready p h le a = elim (Bool-cases (ltb (o + length ready - p.0) (length p.1))) [
  | inl more ↦
      let k : ℕ = o + length ready - p.0 in
      let at : p.0 + k ≡ o + length ready = omega arith in
      let tail : drop k p.1 ≡ slice s (o + length ready) (length p.1 - k) =
        ap (drop k) a
        ∙ drop-slice s k p.0 (length p.1)
        ∙ ap (λ (t : ℕ). slice s t (length p.1 - k)) at in
      rw (more, length-append ready (drop k p.1), length-drop k p.1, tail)
        (ap (λ t. t ++ slice s (o + length ready) (length p.1 - k)) h
          ∙ slice-append s o (length ready) (length p.1 - k))
  | inr none_left ↦ rw (none_left, append-nil) h
]

drain-Agrees :
    (s : ℕ → ℕ) (o : ℕ) (ready : List ℕ) (pending : List Segment)
    → ready ≡ slice s o (length ready)
    → All (Agrees s) pending
    → ((drain o ready pending).0 ≡ slice s o (length (drain o ready pending).0))
      × All (Agrees s) (drain o ready pending).1
unfolding drain
drain-Agrees s o ready [] h a = (h, tt)
drain-Agrees s o ready (p ∷ pending) h a = elim (Bool-cases (ltb (o + length ready) p.0)) [
  | inl waits ↦ rw waits (h, a)
  | inr next ↦ rw next (
      drain-Agrees s o (ready ++ fresh (o + length ready) p) pending
        (extend s o ready p h (ground arith) a.0) a.1)
]

All-insert_segment {ℓ} :
    (P : Segment → Type ℓ) (p : Segment) (ps : List Segment)
    → P p
    → All P ps
    → All P (insert_segment p ps)
All-insert_segment P p [] h a = (h, tt)
All-insert_segment P p (q ∷ qs) h a = elim (Bool-cases (leb p.0 q.0)) [
  | inl before ↦ rw before (h, a)
  | inr after ↦ rw after (a.0, All-insert_segment P p qs h a.1)
]

pub All-sort_segments {ℓ} :
    (P : Segment → Type ℓ) (ps : List Segment) → All P ps → All P (sort_segments ps)
All-sort_segments P [] a = tt
All-sort_segments P (p ∷ ps) a =
    All-insert_segment P p (sort_segments ps) a.0 (All-sort_segments P ps a.1)

All-snoc {ℓ} :
    (P : Segment → Type ℓ) (ps : List Segment) (p : Segment)
    → All P ps
    → P p
    → All P (ps ++ (p ∷ []))
All-snoc P [] p a h = (h, tt)
All-snoc P (q ∷ qs) p a h = (a.0, All-snoc P qs p a.1 h)

store-IsContent :
    (s : ℕ → ℕ) (r : RecvStream) (offset : ℕ) (bytes : List ℕ)
    → IsContent s r
    → Agrees s (offset, bytes)
    → IsContent s (store r offset bytes)
unfolding store
store-IsContent s r offset bytes c a = elim (Bool-cases (leb offset (head r))) [
  | inl joins ↦ rw joins (
      let (h, p) =
        drain-Agrees s r.read_offset (r.ready ++ fresh (head r) (offset, bytes)) r.pending
          (extend s r.read_offset r.ready (offset, bytes) c.ready_agrees (ground arith) a)
          c.pending_agrees in
      record { ready_agrees = h; pending_agrees = p })
  | inr early ↦ rw early (elim (Bool-cases (ltb 0 (length bytes))) [
    | inl some_bytes ↦ rw some_bytes (record {
      ready_agrees = c.ready_agrees;
      pending_agrees =
          All-sort_segments (Agrees s) (r.pending ++ ((offset, bytes) ∷ []))
            (All-snoc (Agrees s) r.pending (offset, bytes) c.pending_agrees a);
    })
    | inr empty ↦ rw empty c
  ])
]

-- What an accepted `push` did.
pub push_inv :
    (r r' : RecvStream) (offset new : ℕ) (bytes : List ℕ) (fin : Bool) (credit : ℕ)
    → push_with_credit r offset bytes fin credit ≡ ok (r', new)
    → (end : ℕ) × (end_of offset (length bytes) ≡ ok end)
      × (check_end r end fin credit ≡ ok new)
      × (r' ≡ store (accept r end fin) offset bytes)
unfolding push_with_credit
push_inv r r' offset new bytes fin credit e =
    let (end, he, h) =
      bind_ok (end_of offset (length bytes))
        (λ end. check_end r end fin credit >>= λ n. ok (store (accept r end fin) offset bytes, n))
        e in
    let (n, hn, h') =
      bind_ok (check_end r end fin credit) (λ n. ok (store (accept r end fin) offset bytes, n)) h in
    (end, he, ground arith, ground arith)

-- The bytes ready for the application, and those that wait, are the peer's, at their offsets.
pub push-IsContent :
    (s : ℕ → ℕ) (r r' : RecvStream) (offset new : ℕ) (bytes : List ℕ) (fin : Bool) (credit : ℕ)
    → IsContent s r
    → bytes ≡ slice s offset (length bytes)
    → push_with_credit r offset bytes fin credit ≡ ok (r', new)
    → IsContent s r'
push-IsContent s r r' offset new bytes fin credit c a e =
    let (end, he, hn, h) = push_inv r r' offset new bytes fin credit e in
    rw h (
      store-IsContent s (accept r end fin) offset bytes
        (record { ready_agrees = c.ready_agrees; pending_agrees = c.pending_agrees }) a)

pub consume-IsContent :
    (s : ℕ → ℕ) (r r' : RecvStream) (accepts : List ℕ → Bool) (n : ℕ)
    → IsContent s r
    → consume r accepts ≡ some (r', n)
    → IsContent s r'
unfolding consume
consume-IsContent s r r' accepts n c e = ground (arith, c.ready_agrees, c.pending_agrees)
