-- ===== src/Incremental/Split.antt =====
-- A reader whose turns do not depend on where the stream is cut reads the same from any pieces.
use shb.Common.{ℕ, zero, suc, ◌<◌, ◌≡◌, refl, sym, ap, ◌∙◌, List, ◌++◌, length, arith}
use shb.Incremental.{Moved, moves, fails, waits, Ran, left, failed, go_on, loop_fuel, loop}

-- What is left is shorter where the loop goes on.
abbrev pub Nearer : {S E : Type 0} → List ℕ → Moved S E → Type 0
Nearer buf (moves s rest) = length rest < length buf
Nearer buf (fails e) = Unit
Nearer buf (waits s rest) = Unit

-- What a turn becomes with more bytes behind the buffer.
abbrev pub extended : {S E : Type 0} → (S → List ℕ → Moved S E) → List ℕ → Moved S E → Moved S E
extended turn y (moves s rest) = moves s (rest ++ y)
extended turn y (fails e) = fails e
extended turn y (waits s rest) = turn s (rest ++ y)

-- The run on what was left and more.
abbrev pub then_loop : {S E : Type 0} → (S → List ℕ → Ran S E) → List ℕ → Ran S E → Ran S E
then_loop go y (left s rest) = go s (rest ++ y)
then_loop go y (failed e) = failed e

module _ {S E : Type 0} (turn : S → List ℕ → Moved S E) (cut : E)
    (nearer : (s : S) (x : List ℕ) → Nearer x (turn s x)) where
  loop_fuel-enough :
      (f g : ℕ) (s : S) (x : List ℕ)
      → length x < f
      → length x < g
      → loop_fuel turn cut f s x ≡ loop_fuel turn cut g s x
  unfolding loop_fuel
  loop_fuel-enough zero g s x h k = absurd (omega arith)
  loop_fuel-enough (suc f) zero s x h k = absurd (omega arith)
  loop_fuel-enough (suc f) (suc g) s x h k = go (loop_fuel-enough f g) (turn s x) (nearer s x)
    where
      go :
          ((s : S) (x : List ℕ)
            → length x < f
            → length x < g
            → loop_fuel turn cut f s x ≡ loop_fuel turn cut g s x)
          → (m : Moved S E) → Nearer x m
          → go_on (loop_fuel turn cut f) m ≡ go_on (loop_fuel turn cut g) m
      go ih (moves s rest) v = ih s rest (omega arith) (omega arith)
      go ih (fails e) v = refl
      go ih (waits s rest) v = refl

  -- The loop is its turns: the fuel never runs out.
  pub loop-turn : (s : S) (x : List ℕ) → loop turn cut s x ≡ go_on (loop turn cut) (turn s x)
  unfolding loop loop_fuel
  loop-turn s x = go (turn s x) (nearer s x)
    where
      go :
          (m : Moved S E)
          → Nearer x m
          → go_on (loop_fuel turn cut (length x)) m ≡ go_on (loop turn cut) m
      go (moves s rest) v =
          loop_fuel-enough (length x) (suc (length rest)) s rest (omega arith) (omega arith)
      go (fails e) v = refl
      go (waits s rest) v = refl

module _ {S E : Type 0} (turn : S → List ℕ → Moved S E) (cut : E)
    (nearer : (s : S) (x : List ℕ) → Nearer x (turn s x))
    (extends : (s : S) (x y : List ℕ) → turn s (x ++ y) ≡ extended turn y (turn s x)) where
  loop-append_within :
      (k : ℕ) (s : S) (x y : List ℕ)
      → length x < k
      → loop turn cut s (x ++ y) ≡ then_loop (loop turn cut) y (loop turn cut s x)
  loop-append_within zero s x y h = absurd (omega arith)
  loop-append_within (suc k) s x y h =
      loop-turn turn cut nearer s (x ++ y)
      ∙ (ap (go_on (loop turn cut)) (extends s x y)
          ∙ (go (loop-append_within k) (turn s x) (nearer s x)
              ∙ ap (then_loop (loop turn cut) y) (sym (loop-turn turn cut nearer s x))))
    where
      go :
          ((s : S) (x y : List ℕ)
            → length x < k
            → loop turn cut s (x ++ y) ≡ then_loop (loop turn cut) y (loop turn cut s x))
          → (m : Moved S E) → Nearer x m
          → go_on (loop turn cut) (extended turn y m)
            ≡ then_loop (loop turn cut) y (go_on (loop turn cut) m)
      go ih (moves s rest) v = ih s rest y (omega arith)
      go ih (fails e) v = refl
      go ih (waits s rest) v = sym (loop-turn turn cut nearer s (rest ++ y))

  -- A run on two pieces is a run on the first, and then one on what that left and the second.
  pub loop-append :
      (s : S) (x y : List ℕ)
      → loop turn cut s (x ++ y) ≡ then_loop (loop turn cut) y (loop turn cut s x)
  loop-append s x y = loop-append_within (suc (length x)) s x y (omega arith)
