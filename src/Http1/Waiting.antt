-- ===== src/Http1/Waiting.antt =====
-- The parsers that a connection can hold: each waits for more.
use shb.Common.{
  ℕ, ◌-◌, ◌≡◌, refl, sym, ap, ◌∙◌, Bool, true, false, List, [], arith, inl, inr, ltb, ◌==◌, take,
  drop, take_all, drop_all, Bool-cases,
}
use shb.Http1.Bytes.{Result, ok, err, next_line}
use shb.Http1.Head.{exact, chunk_size, chunk, trailers, eof}
use shb.Http1.Scan.{
  State, head, in_body, turn_in, Scanner, Turn, more, stop, turn, chunk_turn, exact_turn,
  terminator_ok,
}
use shb.Http1.Feed.{Parser, new, new_scanner, reset, set_head_request, feed, mark_eof, end_state}
use shb.Http1.Progress.{Rests, reads_lines}
use shb.Http1.Turns.{IsIdle}
use shb.Http1.Split.{IsWaiting, reads_lines-stays}
use shb.Http1.Pieces.{feed-IsWaiting}

-- The states that have something to do without a byte.
abbrev has_turn : State → Bool
has_turn head = false
has_turn (in_body (exact n)) = n == 0
has_turn (in_body chunk_size) = false
has_turn (in_body (chunk n)) = n == 0
has_turn (in_body trailers) = false
has_turn (in_body eof) = false

Moves : Result Turn → Type 0
Moves (err e) = Unit
Moves (ok (more s rest n)) = Unit
Moves (ok (stop s rest)) = ⊥

same_state : (s : Scanner) (st : State) → s.state ≡ st → record s { state = st } ≡ s
same_state s st e = ap (λ (t : State). record s { state = t }) (sym e)

nothing-ok : (left : ℕ) → terminator_ok [] left ≡ true
unfolding terminator_ok
nothing-ok left = ground arith

take_nil : (n : ℕ) → take {A = ℕ} n [] ≡ []
take_nil n = take_all n [] (omega arith)

drop_nil : (n : ℕ) → drop {A = ℕ} n [] ≡ []
drop_nil n = drop_all n [] (omega arith)

turn_in-nil :
    (st : State) (s : Scanner)
    → s.state ≡ st
    → has_turn st ≡ false
    → turn_in st s [] ≡ ok (stop s [])
unfolding turn_in next_line exact_turn chunk_turn
turn_in-nil head s e h = refl
turn_in-nil (in_body (exact n)) s e h =
    let some_left : ltb 0 n ≡ true = ground arith in
    let all : n - 0 ≡ n = omega arith in
    rw (h, take_nil n, drop_nil n, some_left, all)
      (ap (λ (t : Scanner). ok (stop t [])) (same_state s (in_body (exact n)) e))
turn_in-nil (in_body chunk_size) s e h = refl
turn_in-nil (in_body (chunk n)) s e h =
    let some_left : ltb 0 n ≡ true = ground arith in
    let all : n - 0 ≡ n = omega arith in
    rw (take_nil n, drop_nil n, all, nothing-ok n, some_left)
      (ap (λ (t : Scanner). ok (stop t [])) (same_state s (in_body (chunk n)) e))
turn_in-nil (in_body trailers) s e h = refl
turn_in-nil (in_body eof) s e h = refl

turn_in-Moves : (st : State) (s : Scanner) → has_turn st ≡ true → Moves (turn_in st s [])
unfolding turn_in next_line exact_turn chunk_turn Moves
turn_in-Moves head s h = absurd (cc)
turn_in-Moves (in_body (exact n)) s h = rw h tt
turn_in-Moves (in_body chunk_size) s h = absurd (cc)
turn_in-Moves (in_body (chunk n)) s h =
    let none_left : ltb 0 n ≡ false = ground arith in
    rw (take_nil n, drop_nil n, nothing-ok (n - 0), none_left) tt
turn_in-Moves (in_body trailers) s h = absurd (cc)
turn_in-Moves (in_body eof) s h = absurd (cc)

stays-has_turn : (s : Scanner) → turn s [] ≡ ok (stop s []) → has_turn s.state ≡ false
unfolding Moves
stays-has_turn s h = elim (Bool-cases (has_turn s.state)) [
  | inl moves ↦ absurd (rw h at (turn_in-Moves s.state s moves))
  | inr still ↦ still
]

set_head_request-IsWaiting :
    (p : Parser) (on : Bool) → IsWaiting p → IsWaiting (set_head_request p on)
set_head_request-IsWaiting p on w = go w.rests
  where
    go : Rests p.scanner p.pending → IsWaiting (set_head_request p on)
    go (inl nothing) =
        let still = stays-has_turn p.scanner (rw nothing at w.stays) in
        let stays : turn (record p.scanner { head_request = on }) []
            ≡ ok (stop (record p.scanner { head_request = on }) []) =
          turn_in-nil p.scanner.state (record p.scanner { head_request = on }) refl still in
        record { stays = rw nothing stays; rests = inl nothing }
    go (inr (reads, h)) = record {
      stays = reads_lines-stays (record p.scanner { head_request = on }) p.pending reads h;
      rests = inr (reads, h);
    }

mark_eof-IsWaiting : (p : Parser) → IsWaiting p → IsWaiting (mark_eof p).0
unfolding mark_eof turn_in next_line
mark_eof-IsWaiting p w = go p.scanner.state refl w.rests
  where
    go :
        (st : State)
        → p.scanner.state ≡ st
        → Rests p.scanner p.pending
        → IsIdle (end_state p.scanner st).0 p.pending
    go head e r = w
    go (in_body (exact n)) e r = w
    go (in_body chunk_size) e r = w
    go (in_body (chunk n)) e r = w
    go (in_body trailers) e r = w
    go (in_body eof) e (inl nothing) = rw nothing (record { stays = refl; rests = inl refl })
    go (in_body eof) e (inr (reads, h)) =
        let never : false ≡ true = sym (ap reads_lines e) ∙ reads in absurd (cc)

-- The parsers that a connection can hold, from the new one by the methods that change it.
pub data Reachable : Parser → Type 0 where
  created : Reachable new
  renewed : {p : Parser} → Reachable p → Reachable (reset p)
  asked : {p : Parser} (on : Bool) → Reachable p → Reachable (set_head_request p on)
  fed : {p q : Parser} (x : List ℕ) (n : ℕ) → Reachable p → feed p x ≡ ok (q, n) → Reachable q
  closed : {p : Parser} → Reachable p → Reachable (mark_eof p).0

new_scanner-IsWaiting : (on : Bool) → IsWaiting (record { pending = []; scanner = new_scanner on })
unfolding turn_in next_line
new_scanner-IsWaiting on = record { stays = refl; rests = inl refl }

-- Whatever a connection does with its parser, the parser waits for more.
pub Reachable-IsWaiting : {p : Parser} → Reachable p → IsWaiting p
Reachable-IsWaiting created = new_scanner-IsWaiting false
Reachable-IsWaiting (renewed {p} r) = new_scanner-IsWaiting p.scanner.head_request
Reachable-IsWaiting (asked {p} on r) = set_head_request-IsWaiting p on (Reachable-IsWaiting r)
Reachable-IsWaiting (fed {p} {q} x n r h) = feed-IsWaiting p q x n (Reachable-IsWaiting r) h
Reachable-IsWaiting (closed {p} r) = mark_eof-IsWaiting p (Reachable-IsWaiting r)
