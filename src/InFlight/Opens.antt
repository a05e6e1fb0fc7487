-- ===== src/InFlight/Opens.antt =====
-- Opening a stream adds its request to the map.
use shb.Common.{
  ℕ, zero, suc, ◌+◌, ◌-◌, ◌/◌, ◌^◌, ◌≤◌, ◌≡◌, refl, sym, ◌∙◌, false, List, [], ◌∷◌, ◌++◌, Option,
  some, leb, ◌==◌, if◌then◌else◌, Bool-cases, inl, inr, length, length-drop, drop-append_le, arith,
}
use shb.InFlight.{Ring, live, push, base_after}
use shb.InFlight.Window.{window, seen, held}
use shb.InFlight.Refines.{view}

module _ {ℓ} {T : Type ℓ} where
  seen-snoc :
      (w : List (Option T)) (item : T) (k : ℕ)
      → seen (w ++ (some item ∷ [])) k ≡ (if k == length w then some item else seen w k)
  seen-snoc [] item zero = refl
  seen-snoc [] item (suc k) = let e : (suc k == 0) ≡ false = ground arith in rw e refl
  seen-snoc (x ∷ w) item zero = let e : (0 == suc (length w)) ≡ false = ground arith in rw e refl
  seen-snoc (x ∷ w) item (suc k) =
      let e : (suc k == suc (length w)) ≡ (k == length w) = ground arith in
      rw e (seen-snoc w item k)

  held-snoc :
      (base m : ℕ) (w : List (Option T)) (item : T)
      → held base (w ++ (some item ∷ [])) m
        ≡ (if m == base + length w then some item else held base w m)
  held-snoc base m w item = elim (Bool-cases (leb base m)) [
    | inl after ↦
        let e : (m == base + length w) ≡ (m - base == length w) = ground arith in
        rw (after, e) (seen-snoc w item (m - base))
    | inr before ↦ let e : (m == base + length w) ≡ false = ground arith in rw (before, e) refl
  ]

  -- With its front within its slots, and a stream that comes next in order: `push` adds the stream's
  -- request to the map and leaves all others.
  pub push-view :
      (shift : ℕ) (r : Ring T) (stream_id m : ℕ) (item : T)
      → r.head ≤ length r.slots
      → r.base + live r ≡ stream_id / 2 ^ shift
      → view (push shift r stream_id item) m
        ≡ (if m == stream_id / 2 ^ shift then some item else view r m)
  unfolding push
  push-view shift r stream_id m item b next =
      let tail = drop-append_le r.head r.slots (some item ∷ []) b in
      let start : base_after r.slots r.base (stream_id / 2 ^ shift) ≡ r.base =
        base_kept r.slots (ground arith) in
      let long : r.base + length (window r) ≡ stream_id / 2 ^ shift =
        omega (arith, length-drop r.head r.slots, next) in
      rw (start, tail) (held-snoc r.base m (window r) item ∙ rw long refl)
    where
      base_kept :
          (slots : List (Option T))
          → (slots ≡ [] → r.base ≡ stream_id / 2 ^ shift)
          → base_after slots r.base (stream_id / 2 ^ shift) ≡ r.base
      base_kept [] h = sym (h refl)
      base_kept (x ∷ xs) h = refl
