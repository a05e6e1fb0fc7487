-- ===== src/Quic/Transport/Loop.antt =====
-- The loop of `Params::decode` ends: each turn reads a byte at least.
use shb.Common.{
  ℕ, zero, suc, ◌/◌, ◌^◌, ◌≤◌, ◌<◌, ◌≡◌, refl, List, [], ◌∷◌, Option, none, some, ltb, if_elim,
  length, length-drop, arith,
}
use native.Mathlib.Nat.{one-le-pow}
use shb.Quic.Varint.{get_varint}
use shb.Quic.Transport.{
  ParamError, Outcome, ok, err, ◌>>=◌, Params, set_param, take_varint, varint_off, take_value, turn,
  on_turn, decode_fuel, decode_from, truncated_id, truncated_length,
}

Uses : Option (ℕ × ℕ) → Type 0
Uses none = Unit
Uses (some (v, n)) = 1 ≤ n

get_varint-Uses : (buf : List ℕ) → Uses (get_varint buf)
unfolding get_varint Uses
get_varint-Uses [] = tt
get_varint-Uses (first ∷ rest) =
    if_elim Uses (ltb (suc (length rest)) (2 ^ (first / 2 ^ 6))) (λ short. tt)
      (λ all. one-le-pow (first / 2 ^ 6) 2 (omega arith))

-- What is left of `n` bytes.
abbrev pub Within {ℓ} : {A : Type ℓ} → ℕ → Outcome (A × List ℕ) → Type 0
Within n (err e) = Unit
Within n (ok (a, rest)) = length rest ≤ n

take_varint-Within :
    (e : ParamError) (b : ℕ) (buf : List ℕ) → Within (length buf) (take_varint e (b ∷ buf))
unfolding Uses
take_varint-Within e b buf = go (get_varint (b ∷ buf)) (get_varint-Uses (b ∷ buf))
  where
    go : (o : Option (ℕ × ℕ)) → Uses o → Within (length buf) (varint_off e (b ∷ buf) o)
    go none h = tt
    go (some (v, n)) h = omega (arith, length-drop n (b ∷ buf))

varint-Within : (e : ParamError) (buf : List ℕ) → Within (length buf) (take_varint e buf)
varint-Within e buf = go (get_varint buf)
  where
    go : (o : Option (ℕ × ℕ)) → Within (length buf) (varint_off e buf o)
    go none = tt
    go (some (v, n)) = omega (arith, length-drop n buf)

value-Within : (len : ℕ) (buf : List ℕ) → Within (length buf) (take_value len buf)
value-Within len buf =
    if_elim (Within (length buf)) (ltb (length buf) len) (λ short. tt)
      (λ all. omega (arith, length-drop len buf))

turn-Within : (p : Params) (b : ℕ) (buf : List ℕ) → Within (length buf) (turn p (b ∷ buf))
unfolding turn
turn-Within p b buf =
    on_id (take_varint truncated_id (b ∷ buf)) (take_varint-Within truncated_id b buf)
  where
    on_set :
        (rest : List ℕ)
        → length rest ≤ length buf
        → (r : Outcome Params) → Within (length buf) (r >>= λ out. ok (out, rest))
    on_set rest h (err e) = tt
    on_set rest h (ok q) = h

    on_value :
        (id n : ℕ)
        → n ≤ length buf
        → (r : Outcome (List ℕ × List ℕ)) → Within n r
        → Within
            (length buf)
            (r >>= λ (value, rest). set_param p id value >>= λ out. ok (out, rest))
    on_value id n h (err e) w = tt
    on_value id n h (ok (value, rest)) w = on_set rest (omega arith) (set_param p id value)

    on_length :
        (id n : ℕ)
        → n ≤ length buf
        → (r : Outcome (ℕ × List ℕ)) → Within n r
        → Within (length buf) (
            r >>= λ (len, buf).
            take_value len buf >>= λ (value, rest). set_param p id value >>= λ out. ok (out, rest))
    on_length id n h (err e) w = tt
    on_length id n h (ok (len, left)) w =
        on_value id (length left) (omega arith) (take_value len left) (value-Within len left)

    on_id :
        (r : Outcome (ℕ × List ℕ))
        → Within (length buf) r
        → Within (length buf) (
            r >>= λ (id, buf). take_varint truncated_length buf >>= λ (len, buf).
            take_value len buf >>= λ (value, rest). set_param p id value >>= λ out. ok (out, rest))
    on_id (err e) w = tt
    on_id (ok (id, left)) w =
        on_length id (length left) w (take_varint truncated_length left)
          (varint-Within truncated_length left)

decode_fuel-enough :
    (f g : ℕ) (p : Params) (buf : List ℕ)
    → length buf < f
    → length buf < g
    → decode_fuel f p buf ≡ decode_fuel g p buf
unfolding decode_fuel
decode_fuel-enough zero g p buf h k = absurd (omega arith)
decode_fuel-enough (suc f) zero p buf h k = absurd (omega arith)
decode_fuel-enough (suc f) (suc g) p [] h k = refl
decode_fuel-enough (suc f) (suc g) p (b ∷ buf) h k =
    go (decode_fuel-enough f g) (turn p (b ∷ buf)) (turn-Within p b buf)
  where
    go :
        ((p : Params) (s : List ℕ)
          → length s < f
          → length s < g
          → decode_fuel f p s ≡ decode_fuel g p s)
        → (r : Outcome (Params × List ℕ)) → Within (length buf) r
        → on_turn (decode_fuel f) r ≡ on_turn (decode_fuel g) r
    go ih (err e) v = refl
    go ih (ok (q, rest)) v = ih q rest (omega arith) (omega arith)

-- The loop: a parameter, and on with the rest, until nothing is left.
pub decode_from-turn :
    (p : Params) (b : ℕ) (buf : List ℕ)
    → decode_from p (b ∷ buf) ≡ on_turn decode_from (turn p (b ∷ buf))
unfolding decode_fuel
decode_from-turn p b buf = go (turn p (b ∷ buf)) (turn-Within p b buf)
  where
    go :
        (r : Outcome (Params × List ℕ))
        → Within (length buf) r
        → on_turn (decode_fuel (suc (length buf))) r ≡ on_turn decode_from r
    go (err e) v = refl
    go (ok (q, rest)) v =
        decode_fuel-enough (suc (length buf)) (suc (length rest)) q rest (omega arith) (omega arith)

pub decode_from-nil : (p : Params) → decode_from p [] ≡ ok p
unfolding decode_fuel
decode_from-nil p = refl
