-- ===== src/Budget.antt =====
-- src/budget.rs: what ends a run, and how it is divided among threads.
pub mod Split
mod Runs
use shb.Common.{
  ℕ, zero, suc, ◌+◌, ◌-◌, ◌/◌, ◌%◌, Bool, true, false, List, [], ◌∷◌, Option, none, some, ltb, leb,
  ◌==◌, if◌then◌else◌, replicate,
}

-- A duration is a number of nanoseconds.
pub data Budget : Type 0 where
  requests duration : ℕ → Budget

abbrev pub is_empty : Budget → Bool
is_empty (requests n) = n == 0
is_empty (duration d) = false

abbrev pub may_start : Budget → ℕ → Bool
may_start (requests n) started = ltb started n
may_start (duration d) started = true

abbrev pub is_met : Budget → ℕ → Bool
is_met (requests n) finished = leb n finished
is_met (duration d) finished = false

abbrev pub expected_requests : Budget → Option ℕ
expected_requests (requests n) = some n
expected_requests (duration d) = none

abbrev pub deadline : Budget → Option ℕ
deadline (requests n) = none
deadline (duration d) = some d

-- The share of thread `i`.
abbrev pub share : ℕ → ℕ → ℕ → ℕ
share total threads i = total / threads + (if ltb i (total % threads) then 1 else 0)

-- `(0..threads).map(..)`, from `i` on, with `left` to go.
abbrev pub shares : ℕ → ℕ → ℕ → ℕ → List Budget
shares total threads i zero = []
shares total threads i (suc left) =
    requests (share total threads i) ∷ shares total threads (suc i) left

unfoldable pub split : Budget → ℕ → List Budget
split (duration d) threads = replicate threads (duration d)
split (requests total) threads = shares total threads 0 threads
