-- ===== src/Quic/SendStream.antt =====
-- src/quic/stream.rs: the end of a stream that is written. Offsets are stream offsets below 2 ^ 62,
-- so their sums are written without a wrap; where the code subtracts, `-` stands for differences
-- that Layout shows not to be negative, or for `saturating_sub`.
pub mod Layout
pub mod Next
pub mod Apart
pub mod Acked
pub mod Covers
pub mod Lost
pub mod Sent
pub mod Misses
pub mod Resend
mod Runs
use shb.Common.{
  ℕ, zero, suc, ◌+◌, ◌-◌, ◌&&◌, ◌||◌, Bool, true, false, not, List, [], ◌∷◌, ◌++◌, Option, none,
  some, ltb, leb, ◌==◌, if◌then◌else◌, length, take, drop, min, max, keep, map,
}

-- A start and an end.
abbrev pub Run : Type 0
Run = ℕ × ℕ

pub record SendStream : Type 0 where
  pub buf : List ℕ
  pub buf_start : ℕ
  pub base_offset : ℕ
  pub sent : ℕ
  pub lost : List Run
  pub acked : List Run
  pub limit : ℕ
  pub fin : Bool
  pub fin_sent : Bool
  pub fin_acked : Bool
  pub is_reset : Bool
  pub reset_acked : Bool

-- `SendStream::new`, and `with_buf` but for the capacity that it reuses.
abbrev pub new : ℕ → SendStream
new limit = record {
  buf = [];
  buf_start = 0;
  base_offset = 0;
  sent = 0;
  lost = [];
  acked = [];
  limit = limit;
  fin = false;
  fin_sent = false;
  fin_acked = false;
  is_reset = false;
  reset_acked = false;
}

-- `self.buf.len() - self.buf_start`.
abbrev pub live_len : SendStream → ℕ
live_len s = length s.buf - s.buf_start

-- `&self.buf[self.buf_start..]`.
abbrev pub live : SendStream → List ℕ
live s = drop s.buf_start s.buf

unfoldable pub writable : SendStream → ℕ
writable s = if s.is_reset then 0 else s.limit - (s.base_offset + live_len s)

-- Reclaims the acknowledged prefix where it is at least as long as what follows it.
unfoldable pub compact : SendStream → ℕ → SendStream
compact s room =
    if not (room == 0) && (not (s.buf_start == 0) && leb (live_len s) s.buf_start)
    then record s { buf = live s; buf_start = 0 }
    else s

-- The new state, and how many bytes were taken.
unfoldable pub write : SendStream → List ℕ → SendStream × ℕ
unfolding writable compact
write s bytes =
    let room = min (writable s) (length bytes) in
    let c = compact s room in (record c { buf = c.buf ++ take room bytes }, room)

abbrev pub finish : SendStream → SendStream
finish s = record s { fin = true }

abbrev pub set_limit : SendStream → ℕ → SendStream
set_limit s limit = record s { limit = max s.limit limit }

abbrev pub is_empty : List Run → Bool
is_empty [] = true
is_empty (r ∷ rs) = false

unfoldable pub has_pending : SendStream → Bool
has_pending s =
    not s.is_reset
    && (not (is_empty s.lost) || (ltb s.sent (live_len s) || s.fin && not s.fin_sent))

-- An offset, the bytes there, and whether the stream ends behind them.
abbrev pub Chunk : Type 0
Chunk = ℕ × List ℕ × Bool

-- `&buf[start..end]`.
abbrev pub slice : List ℕ → ℕ → ℕ → List ℕ
slice buf start end = take (end - start) (drop start buf)

-- Bytes that were never sent, and the FIN.
unfoldable pub next_new : SendStream → ℕ → ℕ → Option Chunk
next_new s limit credit =
    let room = min limit credit in
    let end = s.sent + min (live_len s - s.sent) room in
    if ltb s.sent end
    then some (s.base_offset + s.sent, slice (live s) s.sent end, s.fin && end == live_len s)
    else if s.fin && not s.fin_sent && leb (live_len s) s.sent
    then some (s.base_offset + live_len s, [], true)
    else none

-- The first lost run, as far as it fits.
abbrev pub next_lost : SendStream → Run → ℕ → Option Chunk
next_lost s (start, end) limit =
    if limit == 0
    then none
    else some (s.base_offset + start, slice (live s) start (start + min (end - start) limit), false)

abbrev pub next_of : SendStream → List Run → ℕ → ℕ → Option Chunk
next_of s [] limit credit = next_new s limit credit
next_of s (r ∷ rs) limit credit = next_lost s r limit

-- `limit` is the room in the packet, the code's `max`.
unfoldable pub next_send : SendStream → ℕ → ℕ → Option Chunk
unfolding next_new
next_send s limit credit = if s.is_reset then none else next_of s s.lost limit credit

-- `position(|&(s, e)| s == start && e > start)`, and what becomes of that run: `none` if there is
-- no such run.
abbrev pub resend : List Run → ℕ → ℕ → Option (List Run)
resend [] start len = none
resend ((s, e) ∷ rs) start len =
    let rest = resend rs start len in
    if s == start && ltb start e
    then some (if leb e (s + len) then rs else (s + len, e) ∷ rs)
    else elim rest [ none ↦ none | some ts ↦ some ((s, e) ∷ ts) ]

abbrev pub mark_fin : SendStream → Bool → SendStream
mark_fin s fin = record s { fin_sent = if fin then true else s.fin_sent }

abbrev pub sent_new : SendStream → ℕ → ℕ → SendStream × ℕ
sent_new s start len =
    if ltb 0 len
    then (record s { sent = max s.sent (start + len) }, start + len - s.sent)
    else (s, 0)

abbrev pub sent_of : SendStream → ℕ → ℕ → Option (List Run) → SendStream × ℕ
sent_of s start len none = sent_new s start len
sent_of s start len (some lost) = (record s { lost = lost }, 0)

-- The new state, and how many bytes were sent for the first time.
unfoldable pub on_sent : SendStream → ℕ → ℕ → Bool → SendStream × ℕ
on_sent s offset len fin =
    let start = offset - s.base_offset in
    let (s', new) = sent_of s start len (resend s.lost start len) in (mark_fin s' fin, new)

unfoldable pub fully_sent : SendStream → Bool
fully_sent s = s.fin && (s.fin_sent && leb (live_len s) s.sent)

unfoldable pub is_settled : SendStream → Bool
is_settled s =
    if s.is_reset then s.reset_acked else s.fin && (s.fin_acked && s.buf_start == length s.buf)

abbrev pub on_reset_acked : SendStream → SendStream
on_reset_acked s = record s { reset_acked = true }

-- The loop over `acked` where the run reaches the base: the end with what it touches, and the rest.
unfoldable pub absorb : ℕ → List Run → ℕ × List Run
absorb end [] = (end, [])
absorb end ((start, stop) ∷ rs) =
    let rest = absorb (max end stop) rs in if ltb end start then (end, (start, stop) ∷ rs) else rest

-- Moves lost runs down with the base, and drops those that are gone.
abbrev pub shift_lost : ℕ → List Run → List Run
shift_lost n rs = keep (λ r. ltb r.0 r.1) (map (λ r. (r.0 - n, r.1 - n)) rs)

-- Releases `n` bytes at the front.
unfoldable pub release : SendStream → ℕ → SendStream
release s n =
    let all = s.buf_start + n == length s.buf in
    record s {
      buf = if all then [] else s.buf;
      buf_start = if all then 0 else s.buf_start + n;
      base_offset = s.base_offset + n;
      sent = s.sent - n;
      lost = shift_lost n s.lost;
    }

unfoldable pub ack_front : SendStream → ℕ → SendStream
unfolding absorb release
ack_front s end =
    let (end', acked) = absorb end s.acked in
    release (record s { acked = acked }) (min (end' - s.base_offset) (live_len s))

-- The `while let` loop of `on_acked`: what the run becomes with all that it touches, and the rest.
unfoldable pub join : ℕ → ℕ → List Run → Run × List Run
join start end [] = ((start, end), [])
join start end ((lo, hi) ∷ rs) =
    let joined = join (min start lo) (max end hi) rs in
    if ltb end lo then ((start, end), (lo, hi) ∷ rs) else joined

-- The runs that end before `offset` stay in front. Also the run that the others joined.
unfoldable pub merge : ℕ → ℕ → List Run → List Run × Run
unfolding join
merge offset end [] = ((offset, end) ∷ [], (offset, end))
merge offset end ((lo, hi) ∷ rs) =
    let (runs, run) = merge offset end rs in
    let (run', rest) = join offset end ((lo, hi) ∷ rs) in
    if ltb hi offset then ((lo, hi) ∷ runs, run) else (run' ∷ rest, run')

-- `sort_unstable` on pairs, as an insertion sort.
abbrev pub insert_run : Run → List Run → List Run
insert_run r [] = r ∷ []
insert_run r (q ∷ qs) =
    if ltb r.0 q.0 || r.0 == q.0 && leb r.1 q.1 then r ∷ q ∷ qs else q ∷ insert_run r qs

abbrev pub sort_runs : List Run → List Run
sort_runs [] = []
sort_runs (r ∷ rs) = insert_run r (sort_runs rs)

-- The loop of `acknowledge_lost`: what stays of the queued runs outside `start`, `end`.
unfoldable pub cut : ℕ → ℕ → List Run → List Run
cut start end [] = []
cut start end ((lo, hi) ∷ rs) =
    let rest = cut start end rs in
    if leb hi start || leb end lo
    then (lo, hi) ∷ rest
    else if ltb lo start
    then (lo, start) ∷ (if ltb end hi then (end, hi) ∷ rest else rest)
    else if ltb end hi
    then (end, hi) ∷ rest
    else rest

unfoldable pub ack_sparse : SendStream → ℕ → ℕ → SendStream
unfolding merge cut
ack_sparse s offset end =
    let (acked, (lo, hi)) = merge offset end s.acked in
    record s {
      acked = acked;
      lost = sort_runs (cut (lo - s.base_offset) (hi - s.base_offset) s.lost);
    }

abbrev pub ack_fin : SendStream → Bool → SendStream
ack_fin s fin = record s {
  fin_acked = if fin then true else s.fin_acked;
  fin_sent = if fin then true else s.fin_sent;
}

abbrev pub ack_run : SendStream → ℕ → ℕ → SendStream
ack_run s offset len =
    if len == 0 || leb (offset + len) s.base_offset
    then s
    else if leb offset s.base_offset
    then ack_front s (offset + len)
    else ack_sparse s offset (offset + len)

unfoldable pub on_acked : SendStream → ℕ → ℕ → Bool → SendStream
unfolding ack_front ack_sparse
on_acked s offset len fin = if s.is_reset then s else ack_run (ack_fin s fin) offset len

-- What of `start`, `end` no acknowledged run covers, relative to the base.
abbrev pub tail_run : ℕ → ℕ → ℕ → List Run
tail_run base start end = if ltb start end then (start - base, end - base) ∷ [] else []

unfoldable pub uncovered : ℕ → ℕ → ℕ → List Run → List Run
uncovered base start end [] = tail_run base start end
uncovered base start end ((lo, hi) ∷ rs) =
    let skipped = uncovered base start end rs in
    let behind = uncovered base (max start hi) end rs in
    if leb end lo
    then tail_run base start end
    else if leb hi start
    then skipped
    else if ltb start lo
    then (start - base, lo - base) ∷ behind
    else behind

abbrev pub lose_run : SendStream → ℕ → ℕ → SendStream
lose_run s offset len = if leb (offset + len) s.base_offset then s else record s {
  lost = sort_runs (
      s.lost
      ++ uncovered s.base_offset (max offset s.base_offset)
          (min (offset + len) (s.base_offset + min s.sent (live_len s))) s.acked);
}

unfoldable pub on_lost : SendStream → ℕ → ℕ → Bool → SendStream
unfolding uncovered
on_lost s offset len fin =
    if s.is_reset
    then s
    else lose_run (record s { fin_sent = if fin && not s.fin_acked then false else s.fin_sent })
        offset len

-- The state, and the final size for RESET_STREAM.
unfoldable pub reset : SendStream → SendStream × ℕ
reset s = (
  record s { is_reset = true; buf = []; buf_start = 0; lost = []; acked = [] },
  s.base_offset + s.sent,
)
