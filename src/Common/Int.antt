-- ===== src/Common/Int.antt =====
-- Integers, as far as a signed counter needs them: `negsuc n` is -(n + 1).
use Prim.Native.Nat.{ℕ, ◌+◌, ◌-◌, ◌≤◌}
use mathlib.Core.Path.{◌≡◌}
use mathlib.Core.Bool.{Bool, true}
use native.Mathlib.Omega.{arith}
use la_tte.Common.Tests.{ltb, leb, if◌then◌else◌}

pub data ℤ : Type 0 where
  pos : ℕ → ℤ
  negsuc : ℕ → ℤ

-- `a - b` of two numbers
abbrev pub sub_ℕ : ℕ → ℕ → ℤ
sub_ℕ a b = if leb b a then pos (a - b) else negsuc (b - a - 1)

-- `z < b`
abbrev pub ltb_ℕ : ℤ → ℕ → Bool
ltb_ℕ (pos a) b = ltb a b
ltb_ℕ (negsuc a) b = true

-- `z - b`
abbrev pub minus_ℕ : ℤ → ℕ → ℤ
minus_ℕ (pos a) b = sub_ℕ a b
minus_ℕ (negsuc a) b = negsuc (a + b)

-- `a - z`, cut off at 0
abbrev pub ℕ_minus : ℕ → ℤ → ℕ
ℕ_minus a (pos b) = a - b
ℕ_minus a (negsuc b) = a + b + 1

pub sub_ℕ-of_le : (a b : ℕ) → b ≤ a → sub_ℕ a b ≡ pos (a - b)
sub_ℕ-of_le a b h = ground arith
