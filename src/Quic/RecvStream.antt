-- ===== src/Quic/RecvStream.antt =====
-- src/quic/stream.rs: the end of a stream that is read. A byte buffer is a list of numbers. Sums of
-- offsets are written without a wrap: `push` refuses an end from 2 ^ 62 on, and Bounds shows that
-- they stay below it.
pub mod Content
pub mod Delivery
pub mod Bounds
pub mod Received
pub mod Missing
mod Runs
use shb.Common.{
  ℕ, zero, suc, ◌+◌, ◌-◌, ◌/◌, ◌^◌, ◌&&◌, ◌||◌, Bool, true, false, not, List, [], ◌∷◌, ◌++◌, Option,
  none, some, ltb, leb, ◌==◌, ◌≡◌, refl, if◌then◌else◌, length, drop, max, add_u64, checked_add,
  u64_mod,
}

pub data RecvError : Type 0 where
  flow_control stream_limit final_size frame_encoding : RecvError

-- `RecvError::code`.
abbrev pub code : RecvError → ℕ
code flow_control = 0x03
code stream_limit = 0x04
code final_size = 0x06
code frame_encoding = 0x07

pub data Result {ℓ} (A : Type ℓ) : Type ℓ where
  ok : A → Result A
  err : RecvError → Result A

infixl 5 ◌>>=◌
abbrev pub ◌>>=◌ {ℓ κ} : {A : Type ℓ} {B : Type κ} → Result A → (A → Result B) → Result B
ok a >>= f = f a
err e >>= f = err e

-- What a chain that succeeds went through.
pub bind_ok {ℓ κ} :
    {A : Type ℓ} {B : Type κ} (first : Result A) (next : A → Result B) {out : B}
    → (first >>= next) ≡ ok out
    → (mid : A) × (first ≡ ok mid) × (next mid ≡ ok out)
bind_ok (err e) next h = cc
bind_ok (ok mid) next h = (mid, refl, h)

-- An offset and the bytes from there on.
abbrev pub Segment : Type 0
Segment = ℕ × List ℕ

pub record RecvStream : Type 0 where
  pub ready : List ℕ
  pub read_offset : ℕ
  pub pending : List Segment
  pub size : Option ℕ
  pub received : ℕ
  pub max_data : ℕ

-- `RecvStream::new`, and `with_buf` but for the capacity that it reuses.
abbrev pub new : ℕ → RecvStream
new window = record {
  ready = [];
  read_offset = 0;
  pending = [];
  size = none;
  received = 0;
  max_data = window;
}

abbrev pub size_known : RecvStream → Bool
size_known s = elim s.size [ none ↦ false | some n ↦ true ]

unfoldable pub wants_credit : RecvStream → ℕ → Bool
wants_credit s window = not (size_known s) && leb s.max_data (add_u64 s.read_offset (window / 2))

-- The limit that it returns is the new `max_data`.
unfoldable pub grant : RecvStream → ℕ → RecvStream
grant s window = record s { max_data = max s.max_data (add_u64 s.read_offset window) }

-- The offset behind everything contiguous.
abbrev pub head : RecvStream → ℕ
head s = s.read_offset + length s.ready

unfoldable pub is_finished : RecvStream → Bool
is_finished s = elim s.size [ none ↦ false | some n ↦ leb n (head s) ]

unfoldable pub has_data : RecvStream → Bool
has_data s = ltb 0 (length s.ready)

-- The end contradicts the final size that is known.
abbrev pub contradicts : Option ℕ → ℕ → Bool → Bool
contradicts none end fin = false
contradicts (some size) end fin = ltb size end || fin && not (end == size)

unfoldable pub check_end : RecvStream → ℕ → Bool → ℕ → Result ℕ
check_end s end fin connection_credit =
    if contradicts s.size end fin || fin && ltb end s.received
    then err final_size
    else if ltb s.max_data end || ltb connection_credit (end - s.received)
    then err flow_control
    else ok (end - s.received)

-- `sort_unstable_by_key` by offset, as an insertion sort.
abbrev pub insert_segment : Segment → List Segment → List Segment
insert_segment p [] = p ∷ []
insert_segment p (q ∷ qs) = if leb p.0 q.0 then p ∷ q ∷ qs else q ∷ insert_segment p qs

abbrev pub sort_segments : List Segment → List Segment
sort_segments [] = []
sort_segments (p ∷ ps) = insert_segment p (sort_segments ps)

-- The bytes of a segment that lie behind `at`.
abbrev pub fresh : ℕ → Segment → List ℕ
fresh at p = if ltb (at - p.0) (length p.1) then drop (at - p.0) p.1 else []

-- The loop of `drain_pending`: the contiguous bytes, and what still waits.
unfoldable pub drain : ℕ → List ℕ → List Segment → List ℕ × List Segment
drain read_offset ready [] = (ready, [])
drain read_offset ready (p ∷ pending) =
    let at = read_offset + length ready in
    let rest = drain read_offset (ready ++ fresh at p) pending in
    if ltb at p.0 then (ready, p ∷ pending) else rest

unfoldable pub drain_pending : RecvStream → RecvStream
unfolding drain
drain_pending s =
    let (ready, pending) = drain s.read_offset s.ready s.pending in
    record s { ready = ready; pending = pending }

-- What `push_with_credit` does with the bytes, once the limits are checked.
unfoldable pub store : RecvStream → ℕ → List ℕ → RecvStream
unfolding drain_pending
store s offset bytes =
    if leb offset (head s)
    then drain_pending (record s { ready = s.ready ++ fresh (head s) (offset, bytes) })
    else if ltb 0 (length bytes)
    then record s { pending = sort_segments (s.pending ++ ((offset, bytes) ∷ [])) }
    else s

-- The limits and the final size, before the bytes are stored.
abbrev pub accept : RecvStream → ℕ → Bool → RecvStream
accept s end fin = record s {
  size = if fin then some end else s.size;
  received = max s.received end;
}

-- `offset.checked_add(len).filter(|end| *end < (1 << 62))`.
unfoldable pub end_of : ℕ → ℕ → Result ℕ
end_of offset len = elim (checked_add offset len) [
  | none ↦ err frame_encoding
  | some end ↦ if ltb end (2 ^ 62) then ok end else err frame_encoding
]

-- The new state, and how many new bytes of the stream this covers.
unfoldable pub push_with_credit : RecvStream → ℕ → List ℕ → Bool → ℕ → Result (RecvStream × ℕ)
push_with_credit s offset bytes fin connection_credit = do
  end ← end_of offset (length bytes)
  new ← check_end s end fin connection_credit
  ok (store (accept s end fin) offset bytes, new)

unfoldable pub push : RecvStream → ℕ → List ℕ → Bool → Result (RecvStream × ℕ)
unfolding push_with_credit
push s offset bytes fin = push_with_credit s offset bytes fin (u64_mod - 1)

-- `consume`, for a callback that accepts the bytes or fails on them: `none` is its error.
unfoldable pub consume : RecvStream → (List ℕ → Bool) → Option (RecvStream × ℕ)
consume s accepts =
    if length s.ready == 0
    then some (s, 0)
    else if accepts s.ready
    then some
        (record s { ready = []; read_offset = s.read_offset + length s.ready }, length s.ready)
    else none

unfoldable pub reset : RecvStream → ℕ → ℕ → Result (RecvStream × ℕ)
unfolding check_end
reset s size connection_credit = do
  new ← check_end s size true connection_credit
  ok (record s { size = some size; received = size }, new)
