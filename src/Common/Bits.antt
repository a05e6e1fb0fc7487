-- ===== src/Common/Bits.antt =====
-- Masks and shifts at variables: `bit_and` with a low mask is `%`, `bit_or` of disjoint fields is
-- `+`. All follow from the digit recursion that the native operations stand for.
use Prim.Native.Nat.{
  ℕ, zero, suc, ◌+◌, ◌-◌, ◌*◌, ◌/◌, ◌%◌, ◌≤◌, ◌<◌, min, max, bit_and, bit_or, digits,
  bit_and-bitwise, bit_or-bitwise,
}
use mathlib.Core.Path.{◌≡◌, refl, sym, ap, ◌∙◌}
use native.Mathlib.Omega.{arith}

-- The recursion on the digits of the left operand: `end` is what is left when it has none.
module _ (end : ℕ → ℕ) (op : ℕ → ℕ → ℕ) where
  digits-end : (n b : ℕ) → digits end op n 0 b ≡ end b
  digits-end zero b = refl
  digits-end (suc n) b = refl

  -- Fuel beyond the operand changes nothing.
  digits-spare : (n more a b : ℕ) → a ≤ n → digits end op (n + more) a b ≡ digits end op n a b
  digits-spare n more zero b h = digits-end (n + more) b ∙ sym (digits-end n b)
  digits-spare zero more (suc a) b h = absurd (omega arith)
  digits-spare (suc n) more (suc a) b h =
      let shift : suc n + more ≡ suc (n + more) = omega arith in
      rw shift (
        ap (λ (d : ℕ). d * 2 + op (suc a % 2) (b % 2))
          (digits-spare n more (suc a / 2) (b / 2) (omega arith)))

  -- One digit off both operands.
  digits-halve :
      (a b : ℕ)
      → digits end op (suc a) (suc a) b
        ≡ digits end op (suc a / 2) (suc a / 2) (b / 2) * 2 + op (suc a % 2) (b % 2)
  digits-halve a b =
      let k : suc a / 2 + (a - suc a / 2) ≡ a = omega arith in
      let e = digits-spare (suc a / 2) (a - suc a / 2) (suc a / 2) (b / 2) (omega arith) in
      omega (arith, rw k at e)

pub zero-bit_or : (b : ℕ) → bit_or 0 b ≡ b
zero-bit_or b = bit_or-bitwise 0 b

bit_and-halve : (a b : ℕ) → bit_and a b ≡ bit_and (a / 2) (b / 2) * 2 + min (a % 2) (b % 2)
bit_and-halve zero b = omega (arith, bit_and-bitwise 0 b, bit_and-bitwise 0 (b / 2))
bit_and-halve (suc a) b =
    bit_and-bitwise (suc a) b
    ∙ omega (arith, digits-halve (λ b. 0) min a b, bit_and-bitwise (suc a / 2) (b / 2))

bit_or-halve : (a b : ℕ) → bit_or a b ≡ bit_or (a / 2) (b / 2) * 2 + max (a % 2) (b % 2)
bit_or-halve zero b = omega (arith, bit_or-bitwise 0 b, bit_or-bitwise 0 (b / 2))
bit_or-halve (suc a) b =
    bit_or-bitwise (suc a) b
    ∙ omega (arith, digits-halve (λ b. b) max a b, bit_or-bitwise (suc a / 2) (b / 2))

-- Both absorb or keep a zero on the right, for every operand below a bound.
both-zero : (bound a : ℕ) → a < bound → (bit_and a 0 ≡ 0) × (bit_or a 0 ≡ a)
both-zero zero a h = absurd (omega arith)
both-zero (suc bound) zero h = (bit_and-bitwise 0 0, bit_or-bitwise 0 0)
both-zero (suc bound) (suc a) h =
    let (none_set, kept) = both-zero bound (suc a / 2) (omega arith) in
    (omega (arith, bit_and-halve (suc a) 0, none_set), omega (arith, bit_or-halve (suc a) 0, kept))

pub bit_and-zero : (a : ℕ) → bit_and a 0 ≡ 0
bit_and-zero a = (both-zero (suc a) a (omega arith)).0

pub bit_or-zero : (a : ℕ) → bit_or a 0 ≡ a
bit_or-zero a = (both-zero (suc a) a (omega arith)).1

-- `p` stands for a power of two with `k` factors.
abbrev pub pow2 : ℕ → ℕ
pow2 zero = 1
pow2 (suc k) = pow2 k + pow2 k

pub bit_or_low : (k a m : ℕ) → a < pow2 k → bit_or a (pow2 k * m) ≡ a + pow2 k * m
bit_or_low zero a m h = let e : a ≡ 0 = omega arith in rw e (omega (arith, zero-bit_or (1 * m)))
bit_or_low (suc k) a m h =
    let half : pow2 (suc k) * m / 2 ≡ pow2 k * m = omega arith in
    let even : pow2 (suc k) * m % 2 ≡ 0 = omega arith in
    rw (bit_or-halve a (pow2 (suc k) * m), half, even)
      (omega (arith, bit_or_low k (a / 2) m (omega arith)))

pub bit_or_high : (k a m : ℕ) → a < pow2 k → bit_or (pow2 k * m) a ≡ pow2 k * m + a
bit_or_high zero a m h = let e : a ≡ 0 = omega arith in rw e (omega (arith, bit_or-zero (1 * m)))
bit_or_high (suc k) a m h =
    let half : pow2 (suc k) * m / 2 ≡ pow2 k * m = omega arith in
    let even : pow2 (suc k) * m % 2 ≡ 0 = omega arith in
    rw (bit_or-halve (pow2 (suc k) * m) a, half, even)
      (omega (arith, bit_or_high k (a / 2) m (omega arith)))

-- A mask with `k` ones, and one with `k` zeros under `m`.
pub bit_and_low : (k a : ℕ) (d r : ℕ) → a ≡ pow2 k * d + r → r < pow2 k → bit_and a (pow2 k - 1) ≡ r
bit_and_low zero a d r e h = omega (arith, bit_and-zero a)
bit_and_low (suc k) a d r e h =
    let half : (pow2 (suc k) - 1) / 2 ≡ pow2 k - 1 = omega arith in
    let odd : (pow2 (suc k) - 1) % 2 ≡ 1 = omega (arith, bit_and-zero a) in
    rw (bit_and-halve a (pow2 (suc k) - 1), half, odd)
      (omega (arith, bit_and_low k (a / 2) d (r / 2) (omega arith) (omega arith)))

pub bit_and_high :
    (k a m : ℕ) (d r : ℕ)
    → a ≡ pow2 k * d + r
    → r < pow2 k
    → bit_and a (pow2 k * m) ≡ pow2 k * bit_and d m
bit_and_high zero a m d r e h =
    let ea : a ≡ d = omega arith in let em : 1 * m ≡ m = omega arith in rw (ea, em) (omega arith)
bit_and_high (suc k) a m d r e h =
    let half : pow2 (suc k) * m / 2 ≡ pow2 k * m = omega arith in
    let even : pow2 (suc k) * m % 2 ≡ 0 = omega arith in
    rw (bit_and-halve a (pow2 (suc k) * m), half, even)
      (omega (arith, bit_and_high k (a / 2) m d (r / 2) (omega arith) (omega arith)))
