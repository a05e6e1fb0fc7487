-- ===== src/Http3/Pieces.antt =====
-- However a response stream is cut into reads, `ResponseReader` reads the same.
use shb.Common.{ℕ, ◌≡◌, refl, sym, ap, ◌∙◌, List, [], ◌∷◌, ◌++◌, append_assoc, append-nil}
use shb.Http1.Pieces.{joined}
use shb.Incremental.{Ran, left, failed}
use shb.Incremental.Split.{then_loop, loop-append}
use shb.Http3.{
  ReadError, Reading, ResponseReader, read_turn, run_reader, out_of_turns, Fed, fed, feed_failed,
  keep_left, feed_reader, then_fed, feed_pieces,
}
use shb.Http3.Frames.{read_turn-extended, read_turn-Nearer}

pub run_reader-append :
    (s : Reading) (x y : List ℕ) → run_reader s (x ++ y) ≡ then_loop run_reader y (run_reader s x)
run_reader-append s x y =
    loop-append read_turn out_of_turns read_turn-Nearer read_turn-extended s x y

-- One read of `x ++ y` is a read of `x` and then one of `y`.
pub feed_reader-append :
    (r : ResponseReader) (x y : List ℕ)
    → feed_reader r (x ++ y) ≡ then_fed (feed_reader r x) (λ q. feed_reader q y)
feed_reader-append r x y =
    ap (λ (z : List ℕ). keep_left (run_reader r.reading z)) (sym (append_assoc r.pending x y))
    ∙ (ap keep_left (run_reader-append r.reading (r.pending ++ x) y)
        ∙ go (run_reader r.reading (r.pending ++ x)))
  where
    go :
        (m : Ran Reading ReadError)
        → keep_left (then_loop run_reader y m) ≡ then_fed (keep_left m) (λ q. feed_reader q y)
    go (left s rest) = refl
    go (failed e) = refl

-- However a stream is cut into one read or more, the reader in the end, with the status that it noted
-- and the part of a frame that it keeps, and the error are those of one read of all the bytes.
pub feed_pieces-joined :
    (r : ResponseReader) (x : List ℕ) (xs : List (List ℕ))
    → feed_pieces r (x ∷ xs) ≡ feed_reader r (joined (x ∷ xs))
feed_pieces-joined r x [] = last (feed_reader r x) ∙ ap (feed_reader r) (sym (append-nil x))
  where
    last : (f : Fed) → then_fed f (λ q. feed_pieces q []) ≡ f
    last (fed q) = refl
    last (feed_failed e) = refl
feed_pieces-joined r x (y ∷ ys) =
    go (λ q. feed_pieces-joined q y ys) (feed_reader r x)
    ∙ sym (feed_reader-append r x (joined (y ∷ ys)))
  where
    go :
        ((q : ResponseReader) → feed_pieces q (y ∷ ys) ≡ feed_reader q (joined (y ∷ ys)))
        → (f : Fed)
        → then_fed f (λ q. feed_pieces q (y ∷ ys))
          ≡ then_fed f (λ q. feed_reader q (joined (y ∷ ys)))
    go ih (fed q) = ih q
    go ih (feed_failed e) = refl
