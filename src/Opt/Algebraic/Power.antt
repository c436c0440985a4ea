-- ===== src/Opt/Algebraic/Power.antt =====
-- The test for a power of two and the loop that finds its exponent.
use Prim.Native.Nat.{bit_and}
use native.Mathlib.Nat.{pow-suc, mod-eq_of_lt}
use winds.Base.{ℕ, zero, suc, ◌-◌, ◌/◌, ◌%◌, ◌^◌, ◌≤◌, ◌<◌, ◌≡◌, subst, arith}
use native.Mathlib.Decide.{ℕ_discrete}
use winds.Base.Word.{shl64, mul64, sign_bit}
use winds.Base.Bits.{even-pred, odd-pred}
use winds.Opt.Algebraic.{shift_count}

shift_count-stop : (f n : ℕ) → n / 2 ≡ 0 → shift_count (suc f) n ≡ 0
unfolding shift_count
shift_count-stop f n h = rw h

shift_count-go : (f n : ℕ) → 0 < n / 2 → shift_count (suc f) n ≡ suc (shift_count f (n / 2))
unfolding shift_count
shift_count-go f n h = ground arith

-- With a round for each bit, the loop counts the exponent of a power of two.
pub shift_count-power :
    (f n : ℕ)
    → 0 < n
    → n < 2 ^ f
    → bit_and n (n - 1) ≡ 0
    → (n ≡ 2 ^ shift_count f n) × (shift_count f n < f)
shift_count-power zero n pos lt h = absurd (omega arith)
shift_count-power (suc f) n pos lt h = elim (ℕ_discrete (n % 2) 0) [
  | no odd ↦
      let one : n ≡ 1 = omega (arith, odd-pred n (omega arith)) in
      rw (shift_count-stop f n (omega arith)) (one, omega arith)
  | yes even ↦
      let (p, q) =
        shift_count-power f (n / 2) (omega arith) (omega (arith, pow-suc 2 f))
          (omega (arith, even-pred n pos even)) in
      rw (shift_count-go f n (omega arith))
        (omega (arith, p, pow-suc 2 (shift_count f (n / 2))), omega arith)
]

-- Multiplication by a power of two below 2 ^ 63 is a shift by at most 62.
pub mul64-power :
    (v n : ℕ)
    → 1 < n
    → n < sign_bit
    → bit_and n (n - 1) ≡ 0
    → (1 ≤ shift_count 64 n) × (shift_count 64 n ≤ 62) × (shl64 v (shift_count 64 n) ≡ mul64 v n)
unfolding shl64 mul64
mul64-power v n lo hi h =
    let (p, q) = shift_count-power 64 n (omega arith) (omega arith) h in
    let k : shift_count 64 n ≤ 62 = at_most (shift_count 64 n) q p in
    (at_least (shift_count 64 n) p, k, rw (mod-eq_of_lt q, ← p))
  where
    at_most : (k : ℕ) → k < 64 → n ≡ 2 ^ k → k ≤ 62
    at_most k lt e = elim (ℕ_discrete k 63) [
      | yes q ↦ absurd (omega (arith, subst (λ x. n ≡ 2 ^ x) q e))
      | no ne ↦ omega arith
    ]

    at_least : (k : ℕ) → n ≡ 2 ^ k → 1 ≤ k
    at_least zero e = absurd (omega arith)
    at_least (suc k) e = omega arith
