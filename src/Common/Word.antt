-- ===== src/Common/Word.antt =====
-- Rust's 64-bit words: `u64`, and `usize` on a 64-bit target.
use Prim.Native.Nat.{ℕ, ◌+◌, ◌≤◌, min}
use mathlib.Core.Path.{◌≡◌}
use mathlib.Core.Option.{Option, none, some}
use native.Mathlib.Omega.{arith}
use aivtuber.Common.Tests.{ltb, if◌then◌else◌}

-- `u64::MAX`
abbrev pub u64_max : ℕ
u64_max = 18446744073709551615

-- `u64::saturating_add`
unfoldable pub saturating_add : ℕ → ℕ → ℕ
saturating_add a b = min (a + b) u64_max

-- `u64::checked_add(1)`
unfoldable pub checked_suc : ℕ → Option ℕ
checked_suc a = if ltb a u64_max then some (a + 1) else none

pub saturating_add-le_max : (a b : ℕ) → saturating_add a b ≤ u64_max
unfolding saturating_add
saturating_add-le_max a b = omega arith

pub le-saturating_add : (a b : ℕ) → a ≤ u64_max → a ≤ saturating_add a b
unfolding saturating_add
le-saturating_add a b h = omega arith

pub saturating_add_exact : (a b : ℕ) → a + b ≤ u64_max → saturating_add a b ≡ a + b
unfolding saturating_add
saturating_add_exact a b h = omega arith
