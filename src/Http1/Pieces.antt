-- ===== src/Http1/Pieces.antt =====
-- src/http1/parse.rs: `Parser::feed` on the receives that a response arrives in.
use shb.Common.{
  ℕ, ◌+◌, ◌≡◌, refl, sym, ap, ◌∙◌, List, [], ◌∷◌, ◌++◌, arith, inl, inr, append-nil, append_assoc,
}
use shb.Http1.Bytes.{Result, ok, err, ◌>>=◌}
use shb.Http1.Scan.{Outcome, run, continue}
use shb.Http1.Feed.{Parser, feed, feed_by, keep_rest, plus}
use shb.Http1.Progress.{Rests}
use shb.Http1.Turns.{Leaves, run-Leaves, run-turn}
use shb.Http1.Split.{then_run, run-append, whole, IsWaiting, keep_rest-add_done, feed_pending-whole}

-- The pieces one after the other: the parser behind the last, and the responses completed.
abbrev pub feed_all : Parser → List (List ℕ) → Result (Parser × ℕ)
feed_all p [] = ok (p, 0)
feed_all p (x ∷ xs) = feed p x >>= λ (q, n). plus n (feed_all q xs)

abbrev pub joined : List (List ℕ) → List ℕ
joined [] = []
joined (x ∷ xs) = x ++ joined xs

-- For a parser that waits for more, the fast path in place and the path through the pending bytes
-- both come to one run over what was pending and what was received.
pub feed-whole : (p : Parser) (received : List ℕ) → IsWaiting p → feed p received ≡ whole p received
unfolding feed
feed-whole p received w = go p.pending refl w.rests
  where
    go :
        (pending : List ℕ)
        → p.pending ≡ pending
        → Rests p.scanner p.pending
        → feed_by p pending received ≡ whole p received
    go [] e r = ap (λ (x : List ℕ). keep_rest (run p.scanner (x ++ received))) (sym e)
    go (c ∷ cs) e (inl nothing) = absurd (cc)
    go (c ∷ cs) e (inr (reads, h)) = feed_pending-whole p received h reads

Waits : Result (Parser × ℕ) → Type 0
Waits (err e) = Unit
Waits (ok (q, n)) = IsWaiting q

whole-Waits : (p : Parser) (x : List ℕ) → Waits (whole p x)
unfolding Waits
whole-Waits p x = go (run p.scanner (p.pending ++ x)) (run-Leaves p.scanner (p.pending ++ x))
  where
    go : (r : Outcome) → Leaves (p.pending ++ x) r → Waits (keep_rest r)
    go (err e) v = tt
    go (ok (s', rest, done)) v = v.0

-- A parser that waits still does behind any receive.
pub feed-IsWaiting :
    (p q : Parser) (x : List ℕ) (n : ℕ) → IsWaiting p → feed p x ≡ ok (q, n) → IsWaiting q
unfolding Waits
feed-IsWaiting p q x n w h =
    let e : whole p x ≡ ok (q, n) = sym (feed-whole p x w) ∙ h in rw e at (whole-Waits p x)

whole-append :
    (p : Parser) (x y : List ℕ) → whole p (x ++ y) ≡ (whole p x >>= λ (q, n). plus n (whole q y))
whole-append p x y =
    ap (λ (z : List ℕ). keep_rest (run p.scanner z)) (sym (append_assoc p.pending x y))
    ∙ (ap keep_rest (run-append p.scanner (p.pending ++ x) y) ∙ go (run p.scanner (p.pending ++ x)))
  where
    go : (r : Outcome) → keep_rest (then_run y r) ≡ (keep_rest r >>= λ (q, n). plus n (whole q y))
    go (err e) = refl
    go (ok (s', rest, done)) = keep_rest-add_done done (run s' (rest ++ y))

-- One receive of `x ++ y` is a receive of `x` and then one of `y`: the same parser in the end, the
-- same number of responses completed, and the same error.
pub feed-append :
    (p : Parser) (x y : List ℕ)
    → IsWaiting p
    → feed p (x ++ y) ≡ (feed p x >>= λ (q, n). plus n (feed q y))
unfolding Waits
feed-append p x y w =
    feed-whole p (x ++ y) w
    ∙ (whole-append p x y
        ∙ (go (whole p x) (whole-Waits p x)
            ∙ ap (λ (r : Result (Parser × ℕ)). r >>= λ (q, n). plus n (feed q y))
                (sym (feed-whole p x w))))
  where
    go :
        (r : Result (Parser × ℕ))
        → Waits r
        → (r >>= λ (q, n). plus n (whole q y)) ≡ (r >>= λ (q, n). plus n (feed q y))
    go (err e) v = refl
    go (ok (q, n)) v = ap (plus n) (sym (feed-whole q y v))

plus-plus : (m n : ℕ) (r : Result (Parser × ℕ)) → plus m (plus n r) ≡ plus (m + n) r
plus-plus m n (err e) = refl
plus-plus m n (ok (q, k)) = let e : m + (n + k) ≡ m + n + k = omega arith in rw e refl

-- For a parser that waits for more, however the bytes are cut into receives, the parser in the end,
-- the number of responses completed and the error are those of one receive of all of them.
pub feed_all-joined :
    (p : Parser) (xs : List (List ℕ)) → IsWaiting p → feed_all p xs ≡ feed p (joined xs)
unfolding Waits
feed_all-joined p [] w =
    let stays : run p.scanner (p.pending ++ []) ≡ ok (p.scanner, p.pending, 0) =
      ap (λ (x : List ℕ). run p.scanner x) (append-nil p.pending)
      ∙ (run-turn p.scanner p.pending ∙ ap (continue run) w.stays) in
    sym (feed-whole p [] w ∙ ap keep_rest stays)
feed_all-joined p (x ∷ xs) w =
    go (λ q. feed_all-joined q xs) (feed p x) (sym (feed-whole p x w))
    ∙ sym (feed-append p x (joined xs) w)
  where
    step :
        ((q : Parser) → IsWaiting q → feed_all q xs ≡ feed q (joined xs))
        → (r : Result (Parser × ℕ)) → Waits r
        → (r >>= λ (q, n). plus n (feed_all q xs)) ≡ (r >>= λ (q, n). plus n (feed q (joined xs)))
    step ih (err e) v = refl
    step ih (ok (q, n)) v = ap (plus n) (ih q v)

    go :
        ((q : Parser) → IsWaiting q → feed_all q xs ≡ feed q (joined xs))
        → (r : Result (Parser × ℕ)) → whole p x ≡ r
        → (r >>= λ (q, n). plus n (feed_all q xs)) ≡ (r >>= λ (q, n). plus n (feed q (joined xs)))
    go ih r e = step ih r (rw e at (whole-Waits p x))
