-- ===== src/Base/Word.antt =====
-- 64-bit words as bit patterns below 2 ^ 64: the machine's operations, signed and unsigned.
pub mod Laws
use Prim.Native.Nat.{bit_and, bit_or, bit_xor}
use winds.Base.Tests.{ltb, leb, ◌==◌, if◌then◌else◌}
use Prim.Native.Nat.{ℕ, suc, ◌+◌, ◌-◌, ◌*◌, ◌/◌, ◌%◌, ◌^◌, ◌≤◌, ◌<◌}
use mathlib.Core.Bool.{Bool, true, false}

-- 2 ^ 64
abbrev pub word_mod : ℕ
word_mod = 0x1_0000_0000_0000_0000

-- 2 ^ 63
abbrev pub sign_bit : ℕ
sign_bit = 0x8000_0000_0000_0000

-- -1
abbrev pub minus_one : ℕ
minus_one = 0xffff_ffff_ffff_ffff

unfoldable pub add64 : ℕ → ℕ → ℕ
add64 a b = (a + b) % word_mod

unfoldable pub sub64 : ℕ → ℕ → ℕ
sub64 a b = (a + word_mod - b) % word_mod

unfoldable pub mul64 : ℕ → ℕ → ℕ
mul64 a b = a * b % word_mod

-- `v < 0`
abbrev pub is_negative : ℕ → Bool
is_negative a = leb sign_bit a

-- -v, wrapped
abbrev pub neg64 : ℕ → ℕ
neg64 a = (word_mod - a) % word_mod

-- The magnitude of a signed word.
abbrev pub abs64 : ℕ → ℕ
abs64 a = if is_negative a then word_mod - a else a

-- The word of a magnitude with a sign.
abbrev pub signed_word : Bool → ℕ → ℕ
signed_word negative m = if negative then neg64 m else m

-- Signed division truncates; at a zero divisor it is never asked for.
unfoldable pub sdiv64 : ℕ → ℕ → ℕ
sdiv64 a b =
    if is_negative a
    then signed_word (if is_negative b then false else true) (abs64 a / abs64 b)
    else signed_word (is_negative b) (abs64 a / abs64 b)

-- The remainder has the sign of the dividend.
unfoldable pub smod64 : ℕ → ℕ → ℕ
smod64 a b = signed_word (is_negative a) (abs64 a % abs64 b)

unfoldable pub shl64 : ℕ → ℕ → ℕ
shl64 a k = a * 2 ^ (k % 64) % word_mod

-- The arithmetic shift: zeros shift into the complement of a negative word.
unfoldable pub sar64 : ℕ → ℕ → ℕ
sar64 a k = if is_negative a then minus_one - (minus_one - a) / 2 ^ (k % 64) else a / 2 ^ (k % 64)

unfoldable pub shr64 : ℕ → ℕ → ℕ
shr64 a k = a / 2 ^ (k % 64)

-- `a < b` on signed words: the sign bit turned over puts them in the order of ℕ.
abbrev pub slt64 : ℕ → ℕ → Bool
slt64 a b = ltb ((a + sign_bit) % word_mod) ((b + sign_bit) % word_mod)

abbrev pub word_of : Bool → ℕ
word_of true = 1
word_of false = 0
