-- ===== src/Base/Int.antt =====
-- Signed `int` values, kept exact: a sentinel such as -1, an offset from %rbp.
use Prim.Native.Nat.{ℕ, zero, suc}
use mathlib.Core.Path.{◌≡◌, refl}
use mathlib.Core.Logic.{◌↔◌}
use mathlib.Core.Bool.{Bool, true, false}
use native.Mathlib.Omega.{arith}
use winds.Base.Tests.{◌==◌, ltb}

-- `negsuc n` is -(n + 1).
pub data ℤ : Type 0 where
  pos : ℕ → ℤ
  negsuc : ℕ → ℤ

-- -n
abbrev pub neg : ℕ → ℤ
neg zero = pos zero
neg (suc n) = negsuc n

abbrev pub int_eq : ℤ → ℤ → Bool
int_eq (pos a) (pos b) = a == b
int_eq (negsuc a) (negsuc b) = a == b
int_eq _ _ = false

-- `v > 0`
abbrev pub is_positive : ℤ → Bool
is_positive (pos n) = ltb 0 n
is_positive (negsuc n) = false

pub int_eq_iff : (a b : ℤ) → (int_eq a b ≡ true) ↔ (a ≡ b)
int_eq_iff a b = ground arith

pub neg_injective : (a b : ℕ) → neg a ≡ neg b → a ≡ b
neg_injective zero zero h = refl
neg_injective zero (suc b) h = ground arith
neg_injective (suc a) zero h = ground arith
neg_injective (suc a) (suc b) h = ground arith
