-- ===== src/Base/Bits.antt =====
-- Laws of `&`, `|` and `^` at variables, from their lowest digits.
use Prim.Native.Nat.{
  ℕ, zero, suc, ◌+◌, ◌-◌, ◌*◌, ◌/◌, ◌%◌, ◌^◌, ◌≤◌, ◌<◌, min, max, bit_and, bit_or, bit_xor, digits,
  differ, bit_and-bitwise, bit_or-bitwise, bit_xor-bitwise,
}
use mathlib.Core.Path.{◌≡◌, refl, ◌∙◌}
use native.Mathlib.Nat.{pow-suc, one-le-pow}
use native.Mathlib.Omega.{arith}

-- Any count of rounds from the first number on gives the same digits.
digits_enough :
    (z : ℕ → ℕ) (f : ℕ → ℕ → ℕ) (n m a b : ℕ) → a ≤ n → a ≤ m → digits z f n a b ≡ digits z f m a b
digits_enough z f zero zero a b p q = refl
digits_enough z f zero (suc m) zero b p q = refl
digits_enough z f zero (suc m) (suc a) b p q = absurd (omega arith)
digits_enough z f (suc n) zero zero b p q = refl
digits_enough z f (suc n) zero (suc a) b p q = absurd (omega arith)
digits_enough z f (suc n) (suc m) zero b p q = refl
digits_enough z f (suc n) (suc m) (suc a) b p q =
    omega (arith, digits_enough z f n m (suc a / 2) (b / 2) (omega arith) (omega arith))

pub bit_and_step : (a b : ℕ) → bit_and a b ≡ bit_and (a / 2) (b / 2) * 2 + min (a % 2) (b % 2)
bit_and_step zero b = omega (arith, bit_and-bitwise 0 b, bit_and-bitwise 0 (b / 2))
bit_and_step (suc a) b = omega (
  arith,
  bit_and-bitwise (suc a) b,
  bit_and-bitwise (suc a / 2) (b / 2),
  digits_enough (λ _. 0) min a (suc a / 2) (suc a / 2) (b / 2) (omega arith) (omega arith),
)

pub bit_or_step : (a b : ℕ) → bit_or a b ≡ bit_or (a / 2) (b / 2) * 2 + max (a % 2) (b % 2)
bit_or_step zero b = omega (arith, bit_or-bitwise 0 b, bit_or-bitwise 0 (b / 2))
bit_or_step (suc a) b = omega (
  arith,
  bit_or-bitwise (suc a) b,
  bit_or-bitwise (suc a / 2) (b / 2),
  digits_enough (λ y. y) max a (suc a / 2) (suc a / 2) (b / 2) (omega arith) (omega arith),
)

differ-zero : (a : ℕ) → differ a 0 ≡ a
differ-zero zero = refl
differ-zero (suc a) = refl

differ_self : (a : ℕ) → differ a a ≡ 0
differ_self zero = refl
differ_self (suc a) = differ_self a

pub bit_xor_step : (a b : ℕ) → bit_xor a b ≡ bit_xor (a / 2) (b / 2) * 2 + differ (a % 2) (b % 2)
bit_xor_step zero b = omega (arith, bit_xor-bitwise 0 b, bit_xor-bitwise 0 (b / 2))
bit_xor_step (suc a) b = omega (
  arith,
  bit_xor-bitwise (suc a) b,
  bit_xor-bitwise (suc a / 2) (b / 2),
  digits_enough (λ y. y) differ a (suc a / 2) (suc a / 2) (b / 2) (omega arith) (omega arith),
)

-- A law that goes from `a / 2` to `a`, with a bound to recur on.
halving : (P : ℕ → Type 0) → P 0 → ((a : ℕ) → P (suc a / 2) → P (suc a)) → (n a : ℕ) → a ≤ n → P a
halving P base step n zero h = base
halving P base step zero (suc a) h = absurd (omega arith)
halving P base step (suc n) (suc a) h = step a (halving P base step n (suc a / 2) (omega arith))

pub zero-bit_and : (b : ℕ) → bit_and 0 b ≡ 0
zero-bit_and b = bit_and-bitwise 0 b

pub bit_and-zero : (a : ℕ) → bit_and a 0 ≡ 0
bit_and-zero a =
    halving (λ x. bit_and x 0 ≡ 0) refl (λ x ih. omega (arith, bit_and_step (suc x) 0, ih)) a a
      (omega arith)

pub bit_and_self : (a : ℕ) → bit_and a a ≡ a
bit_and_self a =
    halving (λ x. bit_and x x ≡ x) refl (λ x ih. omega (arith, bit_and_step (suc x) (suc x), ih)) a
      a (omega arith)

pub zero-bit_or : (b : ℕ) → bit_or 0 b ≡ b
zero-bit_or b = bit_or-bitwise 0 b

pub bit_or-zero : (a : ℕ) → bit_or a 0 ≡ a
bit_or-zero a =
    halving (λ x. bit_or x 0 ≡ x) refl (λ x ih. omega (arith, bit_or_step (suc x) 0, ih)) a a
      (omega arith)

pub bit_or_self : (a : ℕ) → bit_or a a ≡ a
bit_or_self a =
    halving (λ x. bit_or x x ≡ x) refl (λ x ih. omega (arith, bit_or_step (suc x) (suc x), ih)) a a
      (omega arith)

pub zero-bit_xor : (b : ℕ) → bit_xor 0 b ≡ b
zero-bit_xor b = bit_xor-bitwise 0 b

pub bit_xor-zero : (a : ℕ) → bit_xor a 0 ≡ a
bit_xor-zero a =
    halving (λ x. bit_xor x 0 ≡ x) refl
      (λ x ih. omega (arith, bit_xor_step (suc x) 0, differ-zero (suc x % 2), ih)) a a (omega arith)

pub bit_xor_self : (a : ℕ) → bit_xor a a ≡ 0
bit_xor_self a =
    halving (λ x. bit_xor x x ≡ 0) refl
      (λ x ih. omega (arith, bit_xor_step (suc x) (suc x), differ_self (suc x % 2), ih)) a a
      (omega arith)

-- `k` ones are neutral to `&` and absorb under `|`, on numbers of `k` digits.
half_ones : (k : ℕ) → (2 ^ suc k - 1) / 2 ≡ 2 ^ k - 1
half_ones k = omega (arith, pow-suc 2 k, one-le-pow k 2)

odd_ones : (k : ℕ) → (2 ^ suc k - 1) % 2 ≡ 1
odd_ones k = omega (arith, pow-suc 2 k, one-le-pow k 2)

pub bit_and_ones : (k a : ℕ) → a < 2 ^ k → bit_and a (2 ^ k - 1) ≡ a
bit_and_ones zero a h = rw bit_and-zero (omega arith)
bit_and_ones (suc k) a h =
    bit_and_step a (2 ^ suc k - 1)
    ∙ rw (half_ones k, odd_ones k)
        (omega (arith, bit_and_ones k (a / 2) (omega (arith, pow-suc 2 k))))

pub ones-bit_and : (k a : ℕ) → a < 2 ^ k → bit_and (2 ^ k - 1) a ≡ a
ones-bit_and zero a h = omega (arith, zero-bit_and a)
ones-bit_and (suc k) a h =
    bit_and_step (2 ^ suc k - 1) a
    ∙ rw (half_ones k, odd_ones k)
        (omega (arith, ones-bit_and k (a / 2) (omega (arith, pow-suc 2 k))))

pub bit_or_ones : (k a : ℕ) → a < 2 ^ k → bit_or a (2 ^ k - 1) ≡ 2 ^ k - 1
bit_or_ones zero a h = rw bit_or-zero (omega arith)
bit_or_ones (suc k) a h =
    bit_or_step a (2 ^ suc k - 1)
    ∙ rw (half_ones k, odd_ones k)
        (omega
          (arith, pow-suc 2 k, one-le-pow k 2, bit_or_ones k (a / 2) (omega (arith, pow-suc 2 k))))

pub ones-bit_or : (k a : ℕ) → a < 2 ^ k → bit_or (2 ^ k - 1) a ≡ 2 ^ k - 1
ones-bit_or zero a h = omega (arith, zero-bit_or a)
ones-bit_or (suc k) a h =
    bit_or_step (2 ^ suc k - 1) a
    ∙ rw (half_ones k, odd_ones k)
        (omega
          (arith, pow-suc 2 k, one-le-pow k 2, ones-bit_or k (a / 2) (omega (arith, pow-suc 2 k))))

-- `n & (n - 1)` is that of the half, for an even number, and the number less one, for an odd one.
pub even-pred : (n : ℕ) → 0 < n → n % 2 ≡ 0 → bit_and n (n - 1) ≡ bit_and (n / 2) (n / 2 - 1) * 2
even-pred n pos even = bit_and_step n (n - 1) ∙ rw (h, even) (omega arith)
  where
    h : (n - 1) / 2 ≡ n / 2 - 1
    h = omega arith

pub odd-pred : (n : ℕ) → n % 2 ≡ 1 → bit_and n (n - 1) ≡ n - 1
odd-pred n odd = bit_and_step n (n - 1) ∙ rw (h, bit_and_self (n / 2), l) (omega arith)
  where
    h : (n - 1) / 2 ≡ n / 2
    h = omega arith

    l : (n - 1) % 2 ≡ 0
    l = omega arith
