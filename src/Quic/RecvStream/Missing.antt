-- ===== src/Quic/RecvStream/Missing.antt =====
-- No byte is lost: over any history of frames and reads, the contiguous part ends exactly at the
-- first byte that no accepted frame carried.
use shb.Common.{ℕ, ◌<◌, ◌≡◌, refl, sym, ◌∙◌, Bool, true, false, List, [], ◌∷◌, some, any, arith}
use shb.Quic.RecvStream.{
  RecvStream, Segment, ok, new, head, push_with_credit, consume, grant, reset, check_end,
}
use shb.Quic.RecvStream.Received.{
  in_segment, arrived, IsOrdered, push_arrived, push-IsOrdered, not_in_any,
}

-- The frames that were accepted so far, and the stream.
abbrev pub State : Type 0
State = List Segment × RecvStream

-- What happens to a stream that changes it: a frame is accepted, the application takes what is
-- ready, credit is granted, RESET_STREAM is accepted.
pub data Step : State → State → Type 0 where
  arrives :
      (fs : List Segment) (r r' : RecvStream) (offset new : ℕ) (bytes : List ℕ) (fin : Bool)
      (credit : ℕ)
      → push_with_credit r offset bytes fin credit ≡ ok (r', new)
      → Step (fs, r) ((offset, bytes) ∷ fs, r')
  takes :
      (fs : List Segment) (r r' : RecvStream) (accepts : List ℕ → Bool) (n : ℕ)
      → consume r accepts ≡ some (r', n)
      → Step (fs, r) (fs, r')
  grants : (fs : List Segment) (r : RecvStream) (window : ℕ) → Step (fs, r) (fs, grant r window)
  closes :
      (fs : List Segment) (r r' : RecvStream) (size credit n : ℕ)
      → reset r size credit ≡ ok (r', n)
      → Step (fs, r) (fs, r')

pub data Reach (p : State) : State → Type 0 where
  here : Reach p p
  next : {q r : State} → Reach p q → Step q r → Reach p r

-- The bytes that have arrived are those of the accepted frames.
record IsFaithful (p : State) : Type 0 where
  ordered : IsOrdered p.1
  from_frames : (x : ℕ) → arrived p.1 x ≡ any (in_segment x) p.0

-- The head and what waits stay.
abbrev Same : RecvStream → RecvStream → Type 0
Same r r' = (head r' ≡ head r) × (r'.pending ≡ r.pending)

Same-IsFaithful :
    (fs : List Segment) (r r' : RecvStream) → Same r r' → IsFaithful (fs, r) → IsFaithful (fs, r')
Same-IsFaithful fs r r' (h, p) v = record {
  ordered = record { ascends = rw p v.ordered.ascends; beyond = rw (h, p) v.ordered.beyond };
  from_frames = λ x. rw (h, p) (v.from_frames x);
}

consume-Same :
    (r r' : RecvStream) (accepts : List ℕ → Bool) (n : ℕ)
    → consume r accepts ≡ some (r', n)
    → Same r r'
unfolding consume
consume-Same r r' accepts n e = ground arith

reset-Same : (r r' : RecvStream) (size credit n : ℕ) → reset r size credit ≡ ok (r', n) → Same r r'
unfolding reset check_end
reset-Same r r' size credit n e = ground arith

grant-Same : (r : RecvStream) (window : ℕ) → Same r (grant r window)
unfolding grant
grant-Same r window = (refl, refl)

Step-IsFaithful : {p q : State} → Step p q → IsFaithful p → IsFaithful q
Step-IsFaithful (arrives fs r r' offset n bytes fin credit e) v = record {
  ordered = push-IsOrdered r r' offset n bytes fin credit v.ordered e;
  from_frames = λ x. rw (push_arrived r r' offset n bytes fin credit x e, v.from_frames x) refl;
}
Step-IsFaithful (takes fs r r' accepts n e) v =
    Same-IsFaithful fs r r' (consume-Same r r' accepts n e) v
Step-IsFaithful (grants fs r window) v =
    Same-IsFaithful fs r (grant r window) (grant-Same r window) v
Step-IsFaithful (closes fs r r' size credit n e) v =
    Same-IsFaithful fs r r' (reset-Same r r' size credit n e) v

Reach-IsFaithful : {p q : State} → IsFaithful p → Reach p q → IsFaithful q
Reach-IsFaithful v here = v
Reach-IsFaithful v (next r st) = Step-IsFaithful st (Reach-IsFaithful v r)

new-IsFaithful : (window : ℕ) → IsFaithful ([], new window)
new-IsFaithful window = record {
  ordered = record { ascends = tt; beyond = tt };
  from_frames = λ x. ground arith;
}

-- After any history of a new stream, of frames in any order and with any overlaps, of reads, credit
-- and RESET_STREAM: every byte before the end of what was shown or is ready was in some frame that
-- was accepted, and the byte at that end was in none of them.
pub head_first_missing :
    (window : ℕ) (fs : List Segment) (r : RecvStream) (q : ℕ)
    → Reach ([], new window) (fs, r)
    → q < head r
    → (any (in_segment (head r)) fs ≡ false) × (any (in_segment q) fs ≡ true)
head_first_missing window fs r q h k =
    let v = Reach-IsFaithful (new-IsFaithful window) h in
    (
      sym (v.from_frames (head r)) ∙ ground (arith, not_in_any (head r) r.pending v.ordered.beyond),
      sym (v.from_frames q) ∙ ground arith,
    )
