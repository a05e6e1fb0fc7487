-- ===== src/Budget/Split.antt =====
-- The parts make up the whole.
use native.Mathlib.Nat.{mod-lt, div-add-mod}
use shb.Common.{
  ℕ, zero, suc, ◌+◌, ◌-◌, ◌*◌, ◌/◌, ◌%◌, ◌<◌, ◌≤◌, ◌≡◌, refl, List, [], ◌∷◌, length, All, arith,
  ◌∙◌,
}
use shb.Budget.{Budget, requests, duration, shares, split}

abbrev pub sum_requests : List Budget → ℕ
sum_requests [] = 0
sum_requests (requests n ∷ bs) = n + sum_requests bs
sum_requests (duration d ∷ bs) = sum_requests bs

sum_requests-shares :
    (total threads i left : ℕ)
    → 0 < threads
    → i + left ≡ threads
    → sum_requests (shares total threads i left) ≡ left * (total / threads) + (total % threads - i)
sum_requests-shares total threads i zero h e =
    let m : total % threads < threads = mod-lt total h in omega arith
sum_requests-shares total threads i (suc left) h e =
    let rest = sum_requests-shares total threads (suc i) left h (omega arith) in
    ground (arith, rest)

-- A part is the even share, rounded up or down.
abbrev pub IsEven : ℕ → ℕ → Budget → Type 0
IsEven total threads (requests n) = (total / threads ≤ n) × (n ≤ total / threads + 1)
IsEven total threads (duration d) = ⊥

shares-IsEven :
    (total threads i left : ℕ)
    → All (IsEven total threads) (shares total threads i left)
      × (length (shares total threads i left) ≡ left)
shares-IsEven total threads i zero = (tt, refl)
shares-IsEven total threads i (suc left) =
    let (even, long) = shares-IsEven total threads (suc i) left in
    ((ground arith, even), omega (arith, long))

-- With at least one thread, a number of requests is divided into one part for each thread; the
-- parts add up to it, and each is the quotient or one more.
pub split-requests :
    (total threads : ℕ)
    → 0 < threads
    → (sum_requests (split (requests total) threads) ≡ total)
      × (length (split (requests total) threads) ≡ threads)
      × All (IsEven total threads) (split (requests total) threads)
unfolding split
split-requests total threads h =
    let (even, long) = shares-IsEven total threads 0 threads in
    (
      sum_requests-shares total threads 0 threads h (omega arith)
          ∙ (omega (arith, div-add-mod total threads)),
      long,
      even,
    )
