-- ===== src/Base/Word/Laws.antt =====
-- Identities of word arithmetic with 0, 1, -1 and a word itself.
use Prim.Native.Nat.{ℕ, ◌-◌, ◌%◌, ◌^◌, ◌<◌}
use mathlib.Core.Path.{◌≡◌}
use mathlib.Core.Logic.{◌≢◌}
use native.Mathlib.Nat.{mul_comm, div_self, mod_self, zero-div}
use native.Mathlib.Omega.{arith}
use winds.Base.Word.{word_mod, minus_one, add64, sub64, mul64, sdiv64, smod64, shl64, sar64, shr64}

module _ (a : ℕ) (fits : a < word_mod) where
  pub add64-zero : add64 a 0 ≡ a
  unfolding add64
  add64-zero = omega arith

  pub zero-add64 : add64 0 a ≡ a
  unfolding add64
  zero-add64 = omega arith

  pub sub64-zero : sub64 a 0 ≡ a
  unfolding sub64
  sub64-zero = omega arith

  pub sub64_self : sub64 a a ≡ 0
  unfolding sub64
  sub64_self = omega arith

  pub mul64-minus_one : mul64 a minus_one ≡ sub64 0 a
  unfolding mul64 sub64
  mul64-minus_one = omega arith

  pub minus_one-mul64 : mul64 minus_one a ≡ sub64 0 a
  unfolding mul64 sub64
  minus_one-mul64 = omega arith

  pub mul64-zero : mul64 a 0 ≡ 0
  unfolding mul64
  mul64-zero = omega arith

  pub zero-mul64 : mul64 0 a ≡ 0
  unfolding mul64
  zero-mul64 = omega arith

  pub mul64-one : mul64 a 1 ≡ a
  unfolding mul64
  mul64-one = omega arith

  pub one-mul64 : mul64 1 a ≡ a
  unfolding mul64
  one-mul64 = omega arith

  pub sdiv64-one : sdiv64 a 1 ≡ a
  unfolding sdiv64
  sdiv64-one = ground arith

  pub sdiv64-minus_one : sdiv64 a minus_one ≡ sub64 0 a
  unfolding sdiv64 sub64
  sdiv64-minus_one = ground arith

  pub zero-sdiv64 : sdiv64 0 a ≡ 0
  unfolding sdiv64
  zero-sdiv64 = ground arith

  pub sdiv64_self : a ≢ 0 → sdiv64 a a ≡ 1
  unfolding sdiv64
  sdiv64_self h = ground (arith, div_self {n = a}, div_self {n = word_mod - a})

  pub smod64-one : smod64 a 1 ≡ 0
  unfolding smod64
  smod64-one = ground arith

  pub smod64_self : smod64 a a ≡ 0
  unfolding smod64
  smod64_self = rw mod_self (ground arith)

  pub zero-smod64 : smod64 0 a ≡ 0
  unfolding smod64
  zero-smod64 = ground arith

  pub shl64-zero : shl64 a 0 ≡ a
  unfolding shl64
  shl64-zero = omega arith

  pub zero-shl64 : shl64 0 a ≡ 0
  unfolding shl64
  zero-shl64 = omega arith

  pub sar64-zero : sar64 a 0 ≡ a
  unfolding sar64
  sar64-zero = ground arith

  pub zero-sar64 : sar64 0 a ≡ 0
  unfolding sar64
  zero-sar64 = zero-div (2 ^ (a % 64))

  pub shr64-zero : shr64 a 0 ≡ a
  unfolding shr64
  shr64-zero = omega arith

  pub zero-shr64 : shr64 0 a ≡ 0
  unfolding shr64
  zero-shr64 = zero-div (2 ^ (a % 64))

pub mul64_comm : (a b : ℕ) → mul64 a b ≡ mul64 b a
unfolding mul64
mul64_comm a b = rw (mul_comm a b)
