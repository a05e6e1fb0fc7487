-- ===== src/Http1/Digits.antt =====
-- The numbers in the lines of src/http1/parse.rs, against the values of their digits.
use shb.Common.{
  ℕ, suc, ◌+◌, ◌*◌, ◌^◌, ◌≤◌, ◌<◌, ◌≡◌, refl, ap, ◌∙◌, true, false, List, [], ◌∷◌, Option, some,
  ltb, if◌then◌else◌, length, arith, u64_mod, Bool-cases, inl, inr,
}
use native.Mathlib.Nat.{mul-le-mul, pow-zero, pow-suc, one-le-pow}
use shb.Http1.Bytes.{Result, ok, err, HttpError, ◌>>=◌, invalid_length, length_overflow}
use shb.Http1.Numbers.{shift_in, add_digits, decimal_digit, parse_u64}

-- The value of digits by their places: each counts its base raised to the number of digits behind it.
abbrev pub place_value : ℕ → List ℕ → ℕ
place_value base [] = 0
place_value base (d ∷ ds) = d * base ^ length ds + place_value base ds

-- The digits of some bytes, all of which are digits.
pub data Digits (digit : ℕ → Option ℕ) : List ℕ → List ℕ → Type 0 where
  nil : Digits digit [] []
  digit_then :
      {c d : ℕ} {cs ds : List ℕ}
      → digit c ≡ some d
      → Digits digit cs ds
      → Digits digit (c ∷ cs) (d ∷ ds)

-- A number that fits in 64 bits, or the error.
abbrev pub fitting : HttpError → ℕ → Result ℕ
fitting overflow n = if ltb n u64_mod then ok n else err overflow

shift_place : (base n d P v : ℕ) → (n * base + d) * P + v ≡ n * (P * base) + (d * P + v)
shift_place base n d P v = omega arith

shift_over : (m P v : ℕ) → 1 ≤ P → u64_mod ≤ m → u64_mod ≤ m * P + v
shift_over m P v h k = let grown : m * 1 ≤ m * P = mul-le-mul (omega arith) h in omega arith

fitting-shift :
    (overflow : HttpError) (base n d k v : ℕ) (go : ℕ → Result ℕ)
    → 0 < base
    → ((m : ℕ) → m < u64_mod → go m ≡ fitting overflow (m * base ^ k + v))
    → (shift_in overflow base n d >>= go) ≡ fitting overflow (n * base ^ suc k + (d * base ^ k + v))
fitting-shift overflow base n d k v go h ih =
    let placed = shift_place base n d (base ^ k) v in
    let power = pow-suc base k in
    elim (Bool-cases (ltb (n * base + d) u64_mod)) [
      | inl fits ↦
          let product : ltb (n * base) u64_mod ≡ true = ground arith in
          rw (product, fits, power)
            (ih (n * base + d) (ground arith) ∙ ap (fitting overflow) placed)
      | inr over ↦
          let over' = shift_over (n * base + d) (base ^ k) v (one-le-pow k base h) (ground arith) in
          let all : ltb (n * (base ^ k * base) + (d * base ^ k + v)) u64_mod ≡ false =
            ground arith in
          rw (power, over, all)
            (elim (Bool-cases (ltb (n * base) u64_mod)) [ inl f ↦ rw f refl | inr f ↦ rw f refl ])
    ]

add_digits-place_value :
    (digit : ℕ → Option ℕ) (invalid overflow : HttpError) (base n : ℕ) {cs ds : List ℕ}
    → 0 < base
    → n < u64_mod
    → Digits digit cs ds
    → add_digits digit invalid overflow base n cs
      ≡ fitting overflow (n * base ^ length ds + place_value base ds)
unfolding add_digits
add_digits-place_value digit invalid overflow base n h fits nil =
    let one : n * base ^ 0 + 0 ≡ n = ap (λ (k : ℕ). n * k + 0) (pow-zero base) ∙ omega arith in
    let fits' : ltb n u64_mod ≡ true = ground arith in rw (one, fits') refl
add_digits-place_value digit invalid overflow base n h fits (digit_then {c} {d} {cs} {ds} e rest) =
    rw (add_digits, e)
      (fitting-shift overflow base n d (length ds) (place_value base ds)
        (λ m. add_digits digit invalid overflow base m cs) h
        (λ m fits'. add_digits-place_value digit invalid overflow base m h fits' rest))

-- Where all the bytes are digits and there is one, a Content-Length is the value of its digits by their
-- places if that is below 2^64, and the overflow error if it is not.
pub parse_u64-place_value :
    {c : ℕ} {cs ds : List ℕ}
    → Digits decimal_digit (c ∷ cs) ds
    → parse_u64 (c ∷ cs) ≡ fitting length_overflow (place_value 10 ds)
unfolding parse_u64
parse_u64-place_value {c} {cs} {ds} h =
    add_digits-place_value decimal_digit invalid_length length_overflow 10 0 (omega arith)
      (omega arith) h
    ∙ ap (fitting length_overflow) (no_start (10 ^ length ds) (place_value 10 ds))
  where
    no_start : (P v : ℕ) → 0 * P + v ≡ v
    no_start P v = omega arith
