-- ===== src/Common/Words.antt =====
-- Rust's unsigned integers as native numbers: wrapping, checked and saturating operations.
use Prim.Native.Nat.{ℕ, ◌+◌, ◌-◌, ◌%◌, ◌^◌, ◌<◌}
use mathlib.Core.Option.{Option, none, some}
use shb.Common.Tests.{ltb, if◌then◌else◌}

-- `u64`, and `usize` on the 64-bit targets that the program is built for.
abbrev pub u64_mod : ℕ
u64_mod = 2 ^ 64

abbrev pub IsU64 : ℕ → Type 0
IsU64 n = n < u64_mod

abbrev pub IsByte : ℕ → Type 0
IsByte b = b < 256

-- `+` and `-` of a release build, which wrap.
abbrev pub add_u64 : ℕ → ℕ → ℕ
add_u64 a b = (a + b) % u64_mod

abbrev pub sub_u64 : ℕ → ℕ → ℕ
sub_u64 a b = (a + u64_mod - b) % u64_mod

abbrev pub checked_add : ℕ → ℕ → Option ℕ
checked_add a b = if ltb (a + b) u64_mod then some (a + b) else none

abbrev pub checked_sub : ℕ → ℕ → Option ℕ
checked_sub a b = if ltb a b then none else some (a - b)

abbrev pub saturating_sub : ℕ → ℕ → ℕ
saturating_sub a b = a - b
