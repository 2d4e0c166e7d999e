-- ===== src/Base/Word.antt =====
-- Unsigned 64-bit arithmetic: `u64::checked_add`, the wrapping operators of a release build, and
-- `Duration`, a number of nanoseconds that holds at most 2^64 - 1 seconds and 999,999,999 ns.
use Prim.Native.Nat.{ℕ, ◌+◌, ◌-◌, ◌*◌, ◌%◌, ◌^◌, ◌≤◌, ◌<◌, min}
use mathlib.Core.Path.{◌≡◌}
use mathlib.Core.Option.{Option, none, some}
use native.Mathlib.Omega.{arith}
use jingwei.Base.Tests.{ltb, leb, if◌then◌else◌}

abbrev pub u64_mod : ℕ
u64_mod = 2 ^ 64

abbrev pub checked_add : ℕ → ℕ → Option ℕ
checked_add a b = if ltb (a + b) u64_mod then some (a + b) else none

abbrev pub saturating_add : ℕ → ℕ → ℕ
saturating_add a b = min (a + b) (u64_mod - 1)

-- `+` and `-` on u64 as a release build computes them.
abbrev pub wrapping_add : ℕ → ℕ → ℕ
wrapping_add a b = (a + b) % u64_mod

abbrev pub wrapping_sub : ℕ → ℕ → ℕ
wrapping_sub a b = (a + u64_mod - b) % u64_mod

-- `Duration::MAX`, in nanoseconds.
abbrev pub duration_max : ℕ
duration_max = 2 ^ 64 * 1000000000 - 1

abbrev pub duration_checked_add : ℕ → ℕ → Option ℕ
duration_checked_add a b = if leb (a + b) duration_max then some (a + b) else none

abbrev pub duration_saturating_add : ℕ → ℕ → ℕ
duration_saturating_add a b = min (a + b) duration_max

abbrev pub duration_checked_sub : ℕ → ℕ → Option ℕ
duration_checked_sub a b = if leb b a then some (a - b) else none

-- With no carry out of the word the operators are those of the naturals.
pub wrapping_add_exact : (a b : ℕ) → a + b < u64_mod → wrapping_add a b ≡ a + b
wrapping_add_exact a b h = omega arith

pub wrapping_sub_exact : (a b : ℕ) → b ≤ a → a < u64_mod → wrapping_sub a b ≡ a - b
wrapping_sub_exact a b h k = omega arith
