-- ===== src/InFlight/Window.antt =====
-- The slots from the front on, and what they hold, through the moves of the front.
use shb.Common.{
  ℕ, zero, suc, ◌+◌, ◌-◌, ◌≤◌, ◌≡◌, refl, sym, ap, ◌∙◌, true, false, List, [], ◌∷◌, Option, none,
  some, leb, ◌==◌, if◌then◌else◌, if_elim, Bool-cases, inl, inr, length, get_elem?, set, drop,
  arith,
}
use shb.InFlight.{Ring, join, holes}

module _ {ℓ} {T : Type ℓ} where
  abbrev pub window : Ring T → List (Option T)
  window r = drop r.head r.slots

  abbrev pub seen : List (Option T) → ℕ → Option T
  seen w k = join (get_elem? w k)

  -- What slots that start at the number `base` hold at the number `n`.
  abbrev pub held : ℕ → List (Option T) → ℕ → Option T
  held base w n = if leb base n then seen w (n - base) else none

  pub get_elem?-drop :
      (h k : ℕ) (xs : List (Option T)) → get_elem? xs (h + k) ≡ get_elem? (drop h xs) k
  get_elem?-drop zero k xs = ap (get_elem? xs) (omega arith)
  get_elem?-drop (suc h) k [] = refl
  get_elem?-drop (suc h) k (x ∷ xs) =
      let e : suc h + k ≡ suc (h + k) = omega arith in rw e (get_elem?-drop h k xs)

  pub drop-set :
      (h k : ℕ) (v : Option T) (xs : List (Option T))
      → drop h (set xs (h + k) v) ≡ set (drop h xs) k v
  drop-set zero k v xs = ap (λ (i : ℕ). set xs i v) (omega arith)
  drop-set (suc h) k v [] = refl
  drop-set (suc h) k v (x ∷ xs) =
      let e : suc h + k ≡ suc (h + k) = omega arith in rw e (drop-set h k v xs)

  pub length-set : (k : ℕ) (v : Option T) (xs : List (Option T)) → length (set xs k v) ≡ length xs
  length-set k v [] = refl
  length-set zero v (x ∷ xs) = refl
  length-set (suc k) v (x ∷ xs) = omega (arith, length-set k v xs)

  pub seen-set :
      (k j : ℕ) (w : List (Option T)) → seen (set w k none) j ≡ (if j == k then none else seen w j)
  seen-set k j [] = if_elim (λ (o : Option T). none ≡ o) (j == k) (λ _. refl) (λ _. refl)
  seen-set zero zero (x ∷ w) = refl
  seen-set zero (suc j) (x ∷ w) = let e : (suc j == 0) ≡ false = ground arith in rw e refl
  seen-set (suc k) zero (x ∷ w) = let e : (0 == suc k) ≡ false = ground arith in rw e refl
  seen-set (suc k) (suc j) (x ∷ w) =
      let e : (suc j == suc k) ≡ (j == k) = ground arith in rw e (seen-set k j w)

  -- A hole in front counts for nothing.
  pub held-hole : (base n : ℕ) (w : List (Option T)) → held base (none ∷ w) n ≡ held (suc base) w n
  held-hole base n w = elim (Bool-cases (leb (suc base) n)) [
    | inl after ↦
        let on : leb base n ≡ true = ground arith in
        let e : n - base ≡ suc (n - suc base) = ground arith in rw (on, after, e) refl
    | inr before ↦ elim (Bool-cases (leb base n)) [
      | inl here ↦ let e : n - base ≡ 0 = ground arith in rw (here, before, e) refl
      | inr there ↦ rw (there, before) refl
    ]
  ]

  pub held-holes :
      (base n : ℕ) (w : List (Option T))
      → held (base + holes w) (drop (holes w) w) n ≡ held base w n
  held-holes base n [] = let e : base + 0 ≡ base = omega arith in rw e refl
  held-holes base n (some x ∷ w) = let e : base + 0 ≡ base = omega arith in rw e refl
  held-holes base n (none ∷ w) =
      let e : base + suc (holes w) ≡ suc base + holes w = omega arith in
      rw e (held-holes (suc base) n w) ∙ sym (held-hole base n w)

  pub length-holes : (w : List (Option T)) → holes w ≤ length w
  length-holes [] = omega arith
  length-holes (some x ∷ w) = omega arith
  length-holes (none ∷ w) = omega (arith, length-holes w)
