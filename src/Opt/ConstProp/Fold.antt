-- ===== src/Opt/ConstProp/Fold.antt =====
-- src/opt.c: the folding of an operation on two constants.
use Prim.Native.Nat.{bit_and, bit_or, bit_xor}
use winds.Base.{ℕ, ◌≡◌, false, not, ◌&&◌, some, arith, if◌then◌else◌, ◌==◌}
use winds.Base.Word.{
  add64, sub64, mul64, sdiv64, smod64, shl64, sar64, slt64, word_of, sign_bit, minus_one,
}
use winds.Ir.{
  IrOp, ir_add, ir_sub, ir_mul, ir_div, ir_mod, ir_and, ir_or, ir_xor, ir_shl, ir_shr, ir_cmp_eq,
  ir_cmp_ne, ir_cmp_lt, ir_cmp_le, ir_cmp_gt, ir_cmp_ge,
}
use winds.Ir.Value.{binary_value}

-- A result, nothing to fold, or a division on which the compiler itself traps.
pub data Folded : Type 0 where
  value : ℕ → Folded
  unfolded trapped : Folded

-- `v1 / v2` and `v1 % v2`, computed by `f`.
abbrev pub fold_division : (ℕ → ℕ → ℕ) → ℕ → ℕ → Folded
fold_division f v1 v2 =
    if v2 == 0
    then unfolded
    else if v1 == sign_bit && v2 == minus_one
    then trapped
    else value (f v1 v2)

-- The switch over the operation, on the words of two `int64_t`.
unfoldable pub fold : IrOp → ℕ → ℕ → Folded
fold ir_add v1 v2 = value (add64 v1 v2)
fold ir_sub v1 v2 = value (sub64 v1 v2)
fold ir_mul v1 v2 = value (mul64 v1 v2)
fold ir_div v1 v2 = fold_division sdiv64 v1 v2
fold ir_mod v1 v2 = fold_division smod64 v1 v2
fold ir_and v1 v2 = value (bit_and v1 v2)
fold ir_or v1 v2 = value (bit_or v1 v2)
fold ir_xor v1 v2 = value (bit_xor v1 v2)
fold ir_shl v1 v2 = value (shl64 v1 v2)
fold ir_shr v1 v2 = value (sar64 v1 v2)
fold ir_cmp_eq v1 v2 = value (word_of (v1 == v2))
fold ir_cmp_ne v1 v2 = value (word_of (not (v1 == v2)))
fold ir_cmp_lt v1 v2 = value (word_of (slt64 v1 v2))
fold ir_cmp_le v1 v2 = value (word_of (not (slt64 v2 v1)))
fold ir_cmp_gt v1 v2 = value (word_of (slt64 v2 v1))
fold ir_cmp_ge v1 v2 = value (word_of (not (slt64 v1 v2)))
fold _ v1 v2 = unfolded

-- A folded value is what the signed operation computes.
pub fold-value :
    (op : IrOp) (v1 v2 n : ℕ) → fold op v1 v2 ≡ value n → binary_value op false v1 v2 ≡ some n
unfolding fold binary_value
fold-value ir_div v1 v2 n h = ground arith
fold-value _ v1 v2 n h = ground arith
