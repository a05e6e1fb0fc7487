-- ===== src/Http1/Terminator.antt =====
-- The check of a chunk's terminator does not depend on where the bytes are cut.
use shb.Common.{
  bytes_eq, ℕ, zero, suc, ◌+◌, ◌-◌, ◌≤◌, ◌<◌, ◌≡◌, refl, ◌∙◌, ◌&&◌, true, List, [], ◌∷◌, ◌++◌, ltb,
  length, drop, min, arith, append-nil, length-append, drop-append, drop_all, Bool-cases, inl, inr,
}
use shb.Http1.Scan.{last_bytes, crlf, terminator_ok}

-- A suffix that lies within the second part.
last_bytes-append : (k : ℕ) (a b : List ℕ) → k ≤ length b → last_bytes k (a ++ b) ≡ last_bytes k b
last_bytes-append k a b h =
    let long = length-append a b in
    let past : drop (length (a ++ b) - k) a ≡ [] =
      drop_all (length (a ++ b) - k) a (omega (arith, long)) in
    let rest : length (a ++ b) - k - length a ≡ length b - k = omega (arith, long) in
    drop-append (length (a ++ b) - k) a b ∙ rw (past, rest) refl

-- One byte more.
last_two :
    (a : List ℕ) (z : ℕ) → 0 < length a → last_bytes 2 (a ++ z ∷ []) ≡ last_bytes 1 a ++ z ∷ []
last_two a z h =
    let long = length-append a (z ∷ []) in
    let e : length (a ++ z ∷ []) - 2 ≡ length a - 1 = omega (arith, long) in
    let none_of : length a - 1 - length a ≡ 0 = omega arith in
    rw e (drop-append (length a - 1) a (z ∷ []) ∙ rw none_of refl)

bytes_eq-crlf :
    (u : List ℕ) (z : ℕ)
    → bytes_eq (u ++ z ∷ []) crlf ≡ (bytes_eq u (b'\r' ∷ []) && bytes_eq (z ∷ []) (b'\n' ∷ []))
bytes_eq-crlf [] z = ground arith
bytes_eq-crlf (w ∷ []) z = ground arith
bytes_eq-crlf (w ∷ v ∷ []) z = ground arith
bytes_eq-crlf (w ∷ v ∷ t ∷ u) z = ground arith

-- Where all of the terminator that has come lies in the second part.
in_second :
    (a b : List ℕ) (left : ℕ)
    → 2 ≤ length b + left
    → terminator_ok (a ++ b) left ≡ terminator_ok b left
unfolding terminator_ok
in_second a b left h = elim (Bool-cases (ltb left 2)) [
  | inr far ↦ rw far refl
  | inl near ↦
      let long = length-append a b in
      let on : ltb 0 (length (a ++ b)) ≡ true = ground (arith, long) in
      let on' : ltb 0 (length b) ≡ true = ground arith in
      let size : min (length (a ++ b)) (2 - left) ≡ 2 - left = ground (arith, long) in
      let size' : min (length b) (2 - left) ≡ 2 - left = ground arith in
      rw (near, on, on', size, size', last_bytes-append (2 - left) a b (ground arith)) refl
]

-- With two or more to come, no byte of the terminator is there to be checked.
far_off : (a : List ℕ) (left : ℕ) → 2 ≤ left → terminator_ok a left ≡ true
unfolding terminator_ok
far_off a left h = ground arith

empty : (left : ℕ) → terminator_ok [] left ≡ true
unfolding terminator_ok
empty left = ground arith

-- A receive that ends between the two bytes of the terminator.
between :
    (a : List ℕ) (z : ℕ)
    → terminator_ok (a ++ z ∷ []) 0 ≡ (terminator_ok a 1 && terminator_ok (z ∷ []) 0)
between [] z = rw (empty 1) refl
between (x ∷ a) z =
    unfold terminator_ok in
    (let long = length-append (x ∷ a) (z ∷ []) in
      let size : min (length (x ∷ a ++ z ∷ [])) 2 ≡ 2 = omega (arith, long) in
      let size' : min (length (x ∷ a)) 1 ≡ 1 = omega arith in
      let on : ltb 0 (length (x ∷ a ++ z ∷ [])) ≡ true = ground (arith, long) in
      let on' : ltb 0 (length (x ∷ a)) ≡ true = ground arith in
      rw (on, on', size, size', last_two (x ∷ a) z (omega arith))
        (bytes_eq-crlf (last_bytes 1 (x ∷ a)) z))

-- A part and then the rest are checked as the two together.
pub terminator_ok-append :
    (a b : List ℕ) (left : ℕ)
    → terminator_ok (a ++ b) left ≡ (terminator_ok a (length b + left) && terminator_ok b left)
terminator_ok-append a [] left =
    let e : 0 + left ≡ left = omega arith in rw (append-nil a, e, empty left) (ground arith)
terminator_ok-append a (z ∷ []) zero = let e : 1 + 0 ≡ 1 = omega arith in rw e (between a z)
terminator_ok-append a (z ∷ []) (suc left) =
    in_second a (z ∷ []) (suc left) (omega arith) ∙ rw (far_off a (1 + suc left) (omega arith)) refl
terminator_ok-append a (y ∷ z ∷ b) left =
    in_second a (y ∷ z ∷ b) left (omega arith)
    ∙ rw (far_off a (suc (suc (length b)) + left) (omega arith)) refl
