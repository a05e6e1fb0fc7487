-- ===== src/Http1/Turns.antt =====
-- The fuel of `run` is enough: it is the loop of its turns.
use shb.Common.{ℕ, zero, suc, ◌<◌, ◌≡◌, refl, sym, ap, ◌∙◌, true, List, [], ◌++◌, arith, append-nil}
use shb.Http1.Bytes.{HttpError, Result, ok, err}
use shb.Http1.Scan.{
  Scanner, Turn, more, stop, turn, Outcome, add_done, continue, run_fuel, enough, run,
}
use shb.Http1.Extend.{grow, turn-append}
use shb.Http1.Progress.{measure, rank-le, ends_line, Rests, Good, turn-Good}

run_fuel-enough :
    (f g : ℕ) (s : Scanner) (x : List ℕ)
    → measure s x < f
    → measure s x < g
    → run_fuel f s x ≡ run_fuel g s x
unfolding run_fuel
run_fuel-enough zero g s x h k = absurd (omega arith)
run_fuel-enough (suc f) zero s x h k = absurd (omega arith)
run_fuel-enough (suc f) (suc g) s x h k = go (run_fuel-enough f g) (turn s x) (turn-Good s x)
  where
    go :
        ((s' : Scanner) (rest : List ℕ)
          → measure s' rest < f
          → measure s' rest < g
          → run_fuel f s' rest ≡ run_fuel g s' rest)
        → (t : Result Turn) → Good s x t
        → continue (run_fuel f) t ≡ continue (run_fuel g) t
    go ih (err e) v = refl
    go ih (ok (stop s' rest)) v = refl
    go ih (ok (more s' rest n)) v =
        ap (add_done n) (ih s' rest (omega (arith, v.0)) (omega (arith, v.0)))

-- The loop: a turn, and on with what it says.
pub run-turn : (s : Scanner) (x : List ℕ) → run s x ≡ continue run (turn s x)
unfolding run run_fuel
run-turn s x =
    run_fuel-enough (enough x) (suc (enough x)) s x (omega (arith, rank-le s.state))
      (omega (arith, rank-le s.state))
    ∙ go (turn s x) (turn-Good s x)
  where
    go : (t : Result Turn) → Good s x t → continue (run_fuel (enough x)) t ≡ continue run t
    go (err e) v = refl
    go (ok (stop s' rest)) v = refl
    go (ok (more s' rest n)) v = ap (add_done n) (
        run_fuel-enough (enough x) (enough rest) s' rest (omega (arith, v.0, rank-le s.state))
          (omega (arith, rank-le s'.state)))

-- The finite runs of the loop: it ends in an error, returns, or takes a turn and goes on.
pub data Ends : Scanner → List ℕ → Outcome → Type 0 where
  fails : {s : Scanner} {x : List ℕ} (e : HttpError) → turn s x ≡ err e → Ends s x (err e)
  returns :
      {s : Scanner} {x : List ℕ} (s' : Scanner) (rest : List ℕ)
      → turn s x ≡ ok (stop s' rest)
      → Ends s x (ok (s', rest, 0))
  goes_on :
      {s : Scanner} {x : List ℕ} (s' : Scanner) (rest : List ℕ) (n : ℕ) (r : Outcome)
      → turn s x ≡ ok (more s' rest n)
      → Ends s' rest r
      → Ends s x (add_done n r)

run-Ends_within : (k : ℕ) (s : Scanner) (x : List ℕ) → measure s x < k → Ends s x (run s x)
run-Ends_within zero s x h = absurd (omega arith)
run-Ends_within (suc k) s x h =
    rw (run-turn s x) (go (run-Ends_within k) (turn s x) (turn-Good s x) refl)
  where
    go :
        ((s' : Scanner) (rest : List ℕ) → measure s' rest < k → Ends s' rest (run s' rest))
        → (t : Result Turn) → Good s x t
        → turn s x ≡ t
        → Ends s x (continue run t)
    go ih (err e) v q = fails e q
    go ih (ok (stop s' rest)) v q = returns s' rest q
    go ih (ok (more s' rest n)) v q = goes_on s' rest n _ q (ih s' rest (omega (arith, v.0)))

-- On every buffer the loop comes to an end after finitely many turns, and `run` gives what it ends
-- with: the fuel never runs out.
pub run-Ends : (s : Scanner) (x : List ℕ) → Ends s x (run s x)
run-Ends s x = run-Ends_within (suc (measure s x)) s x (omega arith)

-- A scanner that has returned with `rest` left stays where it is.
pub record IsIdle (s : Scanner) (rest : List ℕ) : Type 0 where
  pub stays : turn s rest ≡ ok (stop s rest)
  pub rests : Rests s rest

abbrev pub Leaves : List ℕ → Outcome → Type 0
Leaves x (err e) = Unit
Leaves x (ok (s', rest, done)) = IsIdle s' rest × (ends_line x ≡ true → ends_line rest ≡ true)

turn-idle :
    (s s' : Scanner) (x rest : List ℕ)
    → turn s x ≡ ok (stop s' rest)
    → turn s' rest ≡ ok (stop s' rest)
turn-idle s s' x rest h =
    let again = turn-append s x [] in
    let here : turn s (x ++ []) ≡ ok (stop s' rest) = rw (append-nil x) h in
    let there : grow [] (turn s x) ≡ turn s' (rest ++ []) = rw h refl in
    let there' : turn s' (rest ++ []) ≡ turn s' rest =
      ap (λ (r : List ℕ). turn s' r) (append-nil rest) in
    sym there' ∙ (sym there ∙ (sym again ∙ here))

add_done-Leaves :
    (x y : List ℕ) (n : ℕ) (r : Outcome)
    → (ends_line x ≡ true → ends_line y ≡ true)
    → Leaves y r
    → Leaves x (add_done n r)
add_done-Leaves x y n (err e) h v = tt
add_done-Leaves x y n (ok (s', rest, done)) h v = (v.0, λ e. v.1 (h e))

Ends-Leaves : {s : Scanner} {x : List ℕ} {r : Outcome} → Ends s x r → Leaves x r
Ends-Leaves (fails e q) = tt
Ends-Leaves {s} {x} (returns s' rest q) =
    let v : Good s x (ok (stop s' rest)) = rw q at (turn-Good s x) in
    (record { stays = turn-idle s s' x rest q; rests = v.0 }, v.1)
Ends-Leaves {s} {x} (goes_on s' rest n r q e) =
    let v : Good s x (ok (more s' rest n)) = rw q at (turn-Good s x) in
    add_done-Leaves x rest n r v.1 (Ends-Leaves e)

-- What `run` leaves is nothing, or a part of a line that the scanner waits to see the end of.
pub run-Leaves : (s : Scanner) (x : List ℕ) → Leaves x (run s x)
run-Leaves s x = Ends-Leaves (run-Ends s x)
