-- ===== src/Quic/RecvStream/Received.antt =====
-- `push_with_credit` byte by byte: what has arrived, and the order of what waits.
use shb.Common.{
  ℕ, suc, ◌+◌, ◌-◌, ◌&&◌, ◌<◌, ◌≤◌, ◌≡◌, ◌⊎◌, refl, ap, ◌∙◌, Bool, true, false, List, [], ◌∷◌, ◌++◌,
  ltb, leb, if◌then◌else◌, length, any, All, Bool-cases, inl, inr, length-append, length-drop,
  arith,
}
use shb.Quic.RecvStream.{
  RecvStream, Segment, ok, head, insert_segment, sort_segments, fresh, drain, store, accept,
  push_with_credit,
}
use shb.Quic.RecvStream.Content.{push_inv, All-sort_segments}

abbrev pub in_segment : ℕ → Segment → Bool
in_segment q p = leb p.0 q && ltb q (p.0 + length p.1)

-- Whether the byte at an offset has arrived, read or not.
abbrev pub arrived : RecvStream → ℕ → Bool
arrived r q = if ltb q (head r) then true else any (in_segment q) r.pending

-- What waits is sorted, and lies beyond a gap.
abbrev pub Ascends : List Segment → Type 0
Ascends [] = Unit {0}
Ascends (p ∷ ps) = All (λ q. p.0 ≤ q.0) ps × Ascends ps

pub record IsOrdered (r : RecvStream) : Type 0 where
  pub ascends : Ascends r.pending
  pub beyond : All (λ p. head r < p.0) r.pending

All-weaken : (a b : ℕ) (ps : List Segment) → a ≤ b → All (λ p. b ≤ p.0) ps → All (λ p. a ≤ p.0) ps
All-weaken a b [] h x = tt
All-weaken a b (p ∷ ps) h x = (omega arith, All-weaken a b ps h x.1)

All-insert-le :
    (a : ℕ) (p : Segment) (ps : List Segment)
    → a ≤ p.0
    → All (λ q. a ≤ q.0) ps
    → All (λ q. a ≤ q.0) (insert_segment p ps)
All-insert-le a p [] h x = (h, tt)
All-insert-le a p (q ∷ qs) h x = ground (arith, All-insert-le a p qs h x.1)

insert_segment-Ascends :
    (p : Segment) (ps : List Segment) → Ascends ps → Ascends (insert_segment p ps)
insert_segment-Ascends p [] a = (tt, tt)
insert_segment-Ascends p (q ∷ qs) a = elim (Bool-cases (leb p.0 q.0)) [
  | inl before ↦ rw before ((ground arith, All-weaken p.0 q.0 qs (ground arith) a.0), a)
  | inr after ↦
      rw after (All-insert-le q.0 p qs (ground arith) a.0, insert_segment-Ascends p qs a.1)
]

sort_segments-Ascends : (ps : List Segment) → Ascends (sort_segments ps)
sort_segments-Ascends [] = tt
sort_segments-Ascends (p ∷ ps) =
    insert_segment-Ascends p (sort_segments ps) (sort_segments-Ascends ps)

any-insert_segment :
    (f : Segment → Bool) (p : Segment) (ps : List Segment)
    → any f (insert_segment p ps) ≡ (if f p then true else any f ps)
any-insert_segment f p [] = refl
any-insert_segment f p (q ∷ qs) = ground (arith, any-insert_segment f p qs)

any-sort_segments : (f : Segment → Bool) (ps : List Segment) → any f (sort_segments ps) ≡ any f ps
any-sort_segments f [] = refl
any-sort_segments f (p ∷ ps) =
    any-insert_segment f p (sort_segments ps)
    ∙ ap (λ t. if f p then true else t) (any-sort_segments f ps)

any-snoc :
    (f : Segment → Bool) (ps : List Segment) (p : Segment)
    → any f (ps ++ (p ∷ [])) ≡ (if f p then true else any f ps)
any-snoc f [] p = refl
any-snoc f (q ∷ qs) p = ground (arith, any-snoc f qs p)

All-snoc-lt :
    (n : ℕ) (ps : List Segment) (p : Segment)
    → All (λ q. n < q.0) ps
    → n < p.0
    → All (λ q. n < q.0) (ps ++ (p ∷ []))
All-snoc-lt n [] p a h = (h, tt)
All-snoc-lt n (q ∷ qs) p a h = (a.0, All-snoc-lt n qs p a.1 h)

-- Where the contiguous part ends once a segment that touches it has joined.
length-fresh :
    (at : ℕ) (p : Segment)
    → p.0 ≤ at
    → (at ≤ at + length (fresh at p))
      × (p.0 + length p.1 ≤ at + length (fresh at p))
      × ((at + length (fresh at p) ≡ at) ⊎ (at + length (fresh at p) ≡ p.0 + length p.1))
length-fresh at p h = ground (arith, length-drop (at - p.0) p.1)

module _ (o q : ℕ) where
  drain_arrived :
      (ready : List ℕ) (pending : List Segment)
      → (if ltb q (o + length (drain o ready pending).0)
          then true
          else any (in_segment q) (drain o ready pending).1)
        ≡ (if ltb q (o + length ready) then true else any (in_segment q) pending)
  unfolding drain
  drain_arrived ready [] = refl
  drain_arrived ready (p ∷ pending) = elim (Bool-cases (ltb (o + length ready) p.0)) [
    | inl waits ↦ rw waits
    | inr next ↦ rw next (
        drain_arrived (ready ++ fresh (o + length ready) p) pending
        ∙ ground (
          arith,
          length-append ready (fresh (o + length ready) p),
          length-fresh (o + length ready) p,
        ))
  ]

drain-IsOrdered :
    (o : ℕ) (ready : List ℕ) (pending : List Segment)
    → Ascends pending
    → Ascends (drain o ready pending).1
      × All (λ p. o + length (drain o ready pending).0 < p.0) (drain o ready pending).1
unfolding drain
drain-IsOrdered o ready [] a = (tt, tt)
drain-IsOrdered o ready (p ∷ pending) a = elim (Bool-cases (ltb (o + length ready) p.0)) [
  | inl waits ↦
      rw waits
        (a, (ground arith, All-weaken (suc (o + length ready)) p.0 pending (ground arith) a.0))
  | inr next ↦ rw next (drain-IsOrdered o (ready ++ fresh (o + length ready) p) pending a.1)
]

arrived-store :
    (r : RecvStream) (offset : ℕ) (bytes : List ℕ) (q : ℕ)
    → arrived (store r offset bytes) q
      ≡ (if in_segment q (offset, bytes) then true else arrived r q)
unfolding store
arrived-store r offset bytes q = elim (Bool-cases (leb offset (head r))) [
  | inl joins ↦ rw joins (
      drain_arrived r.read_offset q (r.ready ++ fresh (head r) (offset, bytes)) r.pending
      ∙ ground (
        arith,
        length-append r.ready (fresh (head r) (offset, bytes)),
        length-fresh (head r) (offset, bytes),
      ))
  | inr early ↦ rw early (elim (Bool-cases (ltb 0 (length bytes))) [
    | inl some_bytes ↦ rw some_bytes (
        ground (
          arith,
          any-sort_segments (in_segment q) (r.pending ++ ((offset, bytes) ∷ [])),
          any-snoc (in_segment q) r.pending (offset, bytes),
        ))
    | inr empty ↦ rw empty (ground arith)
  ])
]

store-IsOrdered :
    (r : RecvStream) (offset : ℕ) (bytes : List ℕ) → IsOrdered r → IsOrdered (store r offset bytes)
unfolding store
store-IsOrdered r offset bytes v = elim (Bool-cases (leb offset (head r))) [
  | inl joins ↦ rw joins (
      let (a, b) =
        drain-IsOrdered r.read_offset (r.ready ++ fresh (head r) (offset, bytes)) r.pending
          v.ascends in
      record { ascends = a; beyond = b })
  | inr early ↦ rw early (elim (Bool-cases (ltb 0 (length bytes))) [
    | inl some_bytes ↦ rw some_bytes (record {
      ascends = sort_segments-Ascends (r.pending ++ ((offset, bytes) ∷ []));
      beyond =
          All-sort_segments (λ p. head r < p.0) (r.pending ++ ((offset, bytes) ∷ []))
            (All-snoc-lt (head r) r.pending (offset, bytes) v.beyond (ground arith));
    })
    | inr empty ↦ rw empty v
  ])
]

-- An accepted frame adds exactly its own bytes.
pub push_arrived :
    (r r' : RecvStream) (offset new : ℕ) (bytes : List ℕ) (fin : Bool) (credit q : ℕ)
    → push_with_credit r offset bytes fin credit ≡ ok (r', new)
    → arrived r' q ≡ (if in_segment q (offset, bytes) then true else arrived r q)
push_arrived r r' offset new bytes fin credit q e =
    let (end, he, hn, h) = push_inv r r' offset new bytes fin credit e in
    rw h (arrived-store (accept r end fin) offset bytes q)

pub push-IsOrdered :
    (r r' : RecvStream) (offset new : ℕ) (bytes : List ℕ) (fin : Bool) (credit : ℕ)
    → IsOrdered r
    → push_with_credit r offset bytes fin credit ≡ ok (r', new)
    → IsOrdered r'
push-IsOrdered r r' offset new bytes fin credit v e =
    let (end, he, hn, h) = push_inv r r' offset new bytes fin credit e in
    rw h (
      store-IsOrdered (accept r end fin) offset bytes
        (record { ascends = v.ascends; beyond = v.beyond }))

pub not_in_any : (h : ℕ) (ps : List Segment) → All (λ p. h < p.0) ps → any (in_segment h) ps ≡ false
not_in_any h [] a = refl
not_in_any h (p ∷ ps) a = ground (arith, not_in_any h ps a.1)
