-- ===== src/Http1/Split.antt =====
-- However the bytes are cut into receives, the responses are the same.
use shb.Common.{
  ℕ, zero, suc, ◌+◌, ◌<◌, ◌≡◌, refl, sym, ap, ◌∙◌, true, List, [], ◌∷◌, ◌++◌, Option, none, some,
  arith, inl, inr, append_assoc, ◌==◌, Bool-cases, Option-cases,
}
use shb.Http1.Bytes.{Result, ok, err, next_line}
use shb.Http1.Head.{exact, chunk_size, chunk, trailers, eof}
use shb.Http1.Scan.{
  State, head, in_body, turn_in, Scanner, Turn, more, stop, turn, Outcome, add_done, continue, run,
}
use shb.Http1.Feed.{Parser, feed_pending, after_line, keep_rest, plus}
use shb.Http1.Extend.{grow, turn-append, next_line-append}
use shb.Http1.Progress.{measure, reads_lines, ends_line, Rests, Good, turn-Good, next_line-shape}
use shb.Http1.Turns.{run-turn, IsIdle, Leaves, run-Leaves}

-- What a run on some bytes comes to with more bytes behind them.
abbrev pub then_run : List ℕ → Outcome → Outcome
then_run y (err e) = err e
then_run y (ok (s, rest, done)) = add_done done (run s (rest ++ y))

pub add_done-zero : (r : Outcome) → add_done 0 r ≡ r
add_done-zero (err e) = refl
add_done-zero (ok (s, rest, done)) = let e : 0 + done ≡ done = omega arith in rw e

add_done-add : (a b : ℕ) (r : Outcome) → add_done a (add_done b r) ≡ add_done (a + b) r
add_done-add a b (err e) = refl
add_done-add a b (ok (s, rest, done)) = let e : a + (b + done) ≡ a + b + done = omega arith in rw e

then_run-add_done :
    (y : List ℕ) (n : ℕ) (r : Outcome) → add_done n (then_run y r) ≡ then_run y (add_done n r)
then_run-add_done y n (err e) = refl
then_run-add_done y n (ok (s, rest, done)) = add_done-add n done (run s (rest ++ y))

run-append_within :
    (k : ℕ) (s : Scanner) (x y : List ℕ) → measure s x < k → run s (x ++ y) ≡ then_run y (run s x)
run-append_within zero s x y h = absurd (omega arith)
run-append_within (suc k) s x y h =
    run-turn s (x ++ y)
    ∙ (ap (continue run) (turn-append s x y)
        ∙ (go (run-append_within k) (turn s x) (turn-Good s x)
            ∙ ap (then_run y) (sym (run-turn s x))))
  where
    go :
        ((s' : Scanner) (x y : List ℕ) → measure s' x < k → run s' (x ++ y) ≡ then_run y (run s' x))
        → (t : Result Turn) → Good s x t
        → continue run (grow y t) ≡ then_run y (continue run t)
    go ih (err e) v = refl
    go ih (ok (stop s' rest)) v =
        sym (run-turn s' (rest ++ y)) ∙ sym (add_done-zero (run s' (rest ++ y)))
    go ih (ok (more s' rest n)) v =
        ap (add_done n) (ih s' rest y (omega (arith, v.0))) ∙ then_run-add_done y n (run s' rest)

-- A run on two pieces is a run on the first, and then one on what that left and the second.
pub run-append : (s : Scanner) (x y : List ℕ) → run s (x ++ y) ≡ then_run y (run s x)
run-append s x y = run-append_within (suc (measure s x)) s x y (omega arith)

-- All the bytes at once.
abbrev pub whole : Parser → List ℕ → Result (Parser × ℕ)
whole p received = keep_rest (run p.scanner (p.pending ++ received))

-- The parser waits for more: what is pending is at most a part of a line.
abbrev pub IsWaiting : Parser → Type 0
IsWaiting p = IsIdle p.scanner p.pending

pub keep_rest-add_done : (n : ℕ) (r : Outcome) → keep_rest (add_done n r) ≡ plus n (keep_rest r)
keep_rest-add_done n (err e) = refl
keep_rest-add_done n (ok (s, rest, done)) = refl

-- Bytes that end in a newline leave nothing.
nothing_left : (rest : List ℕ) → next_line rest ≡ none → ends_line rest ≡ true → rest ≡ []
unfolding next_line
nothing_left [] h e = refl
nothing_left (c ∷ []) h e = absurd (ground arith)
nothing_left (c ∷ d ∷ cs) h e = elim (Bool-cases (c == b'\n')) [
  | inl here ↦ absurd (ground (arith, rw here at h))
  | inr on ↦ elim (Option-cases (next_line (d ∷ cs))) [
    | inl nothing ↦ absurd (cc (nothing_left (d ∷ cs) nothing e))
    | inr ((line', rest'), found) ↦ absurd (ground (arith, rw (on, found) at h))
  ]
]

Rests-nil : (s : Scanner) (rest : List ℕ) → Rests s rest → ends_line rest ≡ true → rest ≡ []
Rests-nil s rest (inl e) h = e
Rests-nil s rest (inr (r, n)) h = nothing_left rest n h

pub reads_lines-stays :
    (s : Scanner) (x : List ℕ)
    → reads_lines s.state ≡ true
    → next_line x ≡ none
    → turn s x ≡ ok (stop s x)
unfolding turn_in
reads_lines-stays s x = go s.state
  where
    go : (st : State) → reads_lines st ≡ true → next_line x ≡ none → turn_in st s x ≡ ok (stop s x)
    go head r h = rw h refl
    go (in_body (exact n)) r h = absurd (cc)
    go (in_body chunk_size) r h = rw h refl
    go (in_body (chunk n)) r h = absurd (cc)
    go (in_body trailers) r h = rw h refl
    go (in_body eof) r h = absurd (cc)

ends_line-newline : (x : List ℕ) → ends_line (x ++ (b'\n' ∷ [])) ≡ true
ends_line-newline [] = refl
ends_line-newline (c ∷ []) = refl
ends_line-newline (c ∷ d ∷ x) = ends_line-newline (d ∷ x)

-- A run on bytes that end in a newline leaves nothing, so that what `after_line` drops is nothing.
after_line-run :
    (s : Scanner) (x rest : List ℕ)
    → ends_line x ≡ true
    → after_line (run s x) rest ≡ keep_rest (run s (x ++ rest))
after_line-run s x rest h = go (run s x) (run-Leaves s x) ∙ ap keep_rest (sym (run-append s x rest))
  where
    go : (r : Outcome) → Leaves x r → after_line r rest ≡ keep_rest (then_run rest r)
    go (err e) v = refl
    go (ok (s', left, done)) v =
        let idle : IsIdle s' left = v.0 in
        let nothing = Rests-nil s' left idle.rests (v.1 h) in
        rw nothing (sym (keep_rest-add_done done (run s' rest)))

pub feed_pending-whole :
    (p : Parser) (received : List ℕ)
    → next_line p.pending ≡ none
    → reads_lines p.scanner.state ≡ true
    → feed_pending p received (next_line received) ≡ whole p received
feed_pending-whole p received h reads = go (next_line received) refl
  where
    go :
        (found : Option (List ℕ × List ℕ))
        → next_line received ≡ found
        → feed_pending p received found ≡ whole p received
    go none q =
        let none_yet : next_line (p.pending ++ received) ≡ none =
          next_line-append p.pending received ∙ rw (h, q) refl in
        let stays = reads_lines-stays p.scanner (p.pending ++ received) reads none_yet in
        rw (run-turn p.scanner (p.pending ++ received), stays) refl
    go (some (line, rest)) q =
        let shape = next_line-shape received line rest q in
        let all : (p.pending ++ (line ++ (b'\n' ∷ []))) ++ rest ≡ p.pending ++ received =
          append_assoc p.pending (line ++ (b'\n' ∷ [])) rest
          ∙ ap (λ (x : List ℕ). p.pending ++ x) (append_assoc line (b'\n' ∷ []) rest ∙ sym shape) in
        let at_end : p.pending ++ (line ++ (b'\n' ∷ [])) ≡ (p.pending ++ line) ++ (b'\n' ∷ []) =
          sym (append_assoc p.pending line (b'\n' ∷ [])) in
        let ends : ends_line (p.pending ++ (line ++ (b'\n' ∷ []))) ≡ true =
          rw at_end (ends_line-newline (p.pending ++ line)) in
        after_line-run p.scanner (p.pending ++ (line ++ (b'\n' ∷ []))) rest ends
        ∙ ap (λ (x : List ℕ). keep_rest (run p.scanner x)) all
