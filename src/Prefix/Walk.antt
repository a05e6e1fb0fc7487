-- ===== src/Prefix/Walk.antt =====
-- The walk over a section comes to its end: the fuel is never used up.
use shb.Common.{ℕ, zero, suc, ◌≤◌, ◌<◌, ◌≡◌, refl, List, [], ◌∷◌, Option, none, some, arith, length}
use shb.Prefix.{Result, ok, err, FieldError, Step, status_found, next, on_step, walk_fuel, walk}

-- A field leaves no more than what follows its first byte.
abbrev pub Shortens : List ℕ → Result Step → Type 0
Shortens rest (err e) = Unit
Shortens rest (ok (status_found status)) = Unit
Shortens rest (ok (next left)) = length left ≤ length rest

module _ (turn : ℕ → List ℕ → Result Step)
    (shortens : (first : ℕ) (rest : List ℕ) → Shortens rest (turn first rest)) where
  walk_fuel-enough :
      (f g : ℕ) (s : List ℕ) → length s < f → length s < g → walk_fuel f turn s ≡ walk_fuel g turn s
  unfolding walk_fuel
  walk_fuel-enough zero g s h k = absurd (omega arith)
  walk_fuel-enough (suc f) zero s h k = absurd (omega arith)
  walk_fuel-enough (suc f) (suc g) [] h k = refl
  walk_fuel-enough (suc f) (suc g) (first ∷ rest) h k =
      go (walk_fuel-enough f g) (turn first rest) (shortens first rest)
    where
      go :
          ((s : List ℕ) → length s < f → length s < g → walk_fuel f turn s ≡ walk_fuel g turn s)
          → (r : Result Step) → Shortens rest r
          → on_step (walk_fuel f turn) r ≡ on_step (walk_fuel g turn) r
      go ih (err e) v = refl
      go ih (ok (status_found status)) v = refl
      go ih (ok (next left)) v = ih left (omega arith) (omega arith)

  pub walk-step :
      (first : ℕ) (rest : List ℕ) → walk turn (first ∷ rest) ≡ on_step (walk turn) (turn first rest)
  unfolding walk walk_fuel
  walk-step first rest = go (turn first rest) (shortens first rest)
    where
      go :
          (r : Result Step)
          → Shortens rest r
          → on_step (walk_fuel (suc (length rest)) turn) r ≡ on_step (walk turn) r
      go (err e) v = refl
      go (ok (status_found status)) v = refl
      go (ok (next left)) v =
          walk_fuel-enough (suc (length rest)) (suc (length left)) left (omega arith) (omega arith)

pub walk-nil : (turn : ℕ → List ℕ → Result Step) → walk turn [] ≡ ok none
unfolding walk walk_fuel
walk-nil turn = refl

-- The finite walks: the end of the section, an error, a status, or a field and on.
pub data Ends (turn : ℕ → List ℕ → Result Step) : List ℕ → Result (Option ℕ) → Type 0 where
  at_end : Ends turn [] (ok none)
  fails :
      {first : ℕ} {rest : List ℕ} (e : FieldError)
      → turn first rest ≡ err e
      → Ends turn (first ∷ rest) (err e)
  finds :
      {first : ℕ} {rest : List ℕ} (status : ℕ)
      → turn first rest ≡ ok (status_found status)
      → Ends turn (first ∷ rest) (ok (some status))
  goes_on :
      {first : ℕ} {rest : List ℕ} (left : List ℕ) (r : Result (Option ℕ))
      → turn first rest ≡ ok (next left)
      → Ends turn left r
      → Ends turn (first ∷ rest) r

module _ (turn : ℕ → List ℕ → Result Step)
    (shortens : (first : ℕ) (rest : List ℕ) → Shortens rest (turn first rest)) where
  walk-Ends_within : (k : ℕ) (s : List ℕ) → length s < k → Ends turn s (walk turn s)
  walk-Ends_within zero s h = absurd (omega arith)
  walk-Ends_within (suc k) [] h = rw (walk-nil turn) at_end
  walk-Ends_within (suc k) (first ∷ rest) h =
      rw (walk-step turn shortens first rest)
        (go (walk-Ends_within k) (turn first rest) (shortens first rest) refl)
    where
      go :
          ((s : List ℕ) → length s < k → Ends turn s (walk turn s))
          → (r : Result Step) → Shortens rest r
          → turn first rest ≡ r
          → Ends turn (first ∷ rest) (on_step (walk turn) r)
      go ih (err e) v q = fails e q
      go ih (ok (status_found status)) v q = finds status q
      go ih (ok (next left)) v q = goes_on left (walk turn left) q (ih left (omega arith))

  pub walk-Ends : (s : List ℕ) → Ends turn s (walk turn s)
  walk-Ends s = walk-Ends_within (suc (length s)) s (omega arith)
