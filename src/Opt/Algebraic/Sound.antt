-- ===== src/Opt/Algebraic/Sound.antt =====
-- The whole pass opt_algebraic_simplification, and unsigned division by -1.
use winds.Base.{
  ℕ, zero, suc, ◌-◌, ◌<◌, ◌≡◌, refl, sym, ap, subst, true, false, some, List, [], ◌∷◌, arith,
  get_elem?,
}
use mathlib.Core.Option.{some-injective}
use native.Mathlib.Nat.{div-eq_of_lt}
use winds.Base.Word.{word_mod, minus_one, sub64}
use winds.Ir.{IrOp, ir_label, ir_div, IrInst}
use winds.Ir.Value.{Regs, operand_value, binary_value, op_value, inst_value}
use winds.Opt.Algebraic.{
  is_imm_of, to_shift, simplify_add, simplify_sub, simplify_mul, simplify_div, simplify_mod,
  simplify_and, simplify_or, simplify_xor, simplify_shift, simplify_cmp, simplify_op,
  opt_algebraic_simplification,
}
use winds.Opt.Algebraic.Keeps.{value_of_imm, simplify_op-Keeps}

-- The rewrite touches neither the destination nor the number of instructions.
simplify_op-dest : (op : IrOp) (inst : IrInst) → (simplify_op op inst).0.dest ≡ inst.dest
unfolding simplify_op simplify_add simplify_sub simplify_mul simplify_div simplify_mod simplify_and
    simplify_or simplify_xor simplify_shift simplify_cmp to_shift
simplify_op-dest ir_label inst = refl
simplify_op-dest _ inst = ground arith

-- If the instruction at a position computes an integer from operands below 2 ^ 64, and is no
-- unsigned division by the immediate -1, then after the pass the instruction at that position has
-- the same destination and computes the same integer.
pub opt_algebraic_simplification-value :
    (regs : Regs) (insts : List IrInst) (k : ℕ) (inst : IrInst) (x : ℕ)
    → get_elem? insts k ≡ some inst
    → operand_value regs inst.src1 < word_mod
    → operand_value regs inst.src2 < word_mod
    → (inst.op ≡ ir_div → inst.is_unsigned ≡ true → is_imm_of inst.src2 minus_one ≡ false)
    → inst_value regs inst ≡ some x
    → (inst' : IrInst) × (get_elem? (opt_algebraic_simplification insts).0 k ≡ some inst')
      × (inst'.dest ≡ inst.dest)
      × (inst_value regs inst' ≡ some x)
unfolding opt_algebraic_simplification
opt_algebraic_simplification-value regs [] k inst x e fa fb d v = cc
opt_algebraic_simplification-value regs (i ∷ insts) zero inst x e fa fb d v = (
  (simplify_op inst.op inst).0,
  ap (λ (y : IrInst). some ((simplify_op y.op y).0)) (some-injective i inst e),
  simplify_op-dest inst.op inst,
  simplify_op-Keeps regs inst fa fb inst.op refl d x (unfold inst_value in v),
)
opt_algebraic_simplification-value regs (i ∷ insts) (suc k) inst x e fa fb d v =
    opt_algebraic_simplification-value regs insts k inst x e fa fb d v

div_unsigned-old :
    (regs : Regs) (inst : IrInst)
    → inst.is_unsigned ≡ true
    → inst.src1.fp_size ≡ 0
    → is_imm_of inst.src2 minus_one ≡ true
    → operand_value regs inst.src1 < minus_one
    → op_value ir_div regs inst ≡ some 0
unfolding op_value binary_value operand_value
div_unsigned-old regs inst u gp m hi =
    ground (arith, value_of_imm regs inst.src2 minus_one m, div-eq_of_lt hi)

div_unsigned-new :
    (regs : Regs) (inst : IrInst)
    → inst.src1.fp_size ≡ 0
    → is_imm_of inst.src2 minus_one ≡ true
    → 0 < operand_value regs inst.src1
    → operand_value regs inst.src1 < minus_one
    → inst_value regs (simplify_op ir_div inst).0 ≡ some (word_mod - operand_value regs inst.src1)
unfolding simplify_op simplify_div inst_value op_value binary_value operand_value sub64
div_unsigned-new regs inst gp m lo hi = ground (arith, value_of_imm regs inst.src2 minus_one m)

-- An unsigned integer division by the immediate -1, whose dividend is neither 0 nor the largest
-- word, computes 0 before the rewrite and 2 ^ 64 less the dividend after it.
pub simplify_div-unsigned :
    (regs : Regs) (inst : IrInst)
    → inst.op ≡ ir_div
    → inst.is_unsigned ≡ true
    → inst.src1.fp_size ≡ 0
    → is_imm_of inst.src2 minus_one ≡ true
    → 0 < operand_value regs inst.src1
    → operand_value regs inst.src1 < minus_one
    → (inst_value regs inst ≡ some 0)
      × (inst_value regs (simplify_op inst.op inst).0
          ≡ some (word_mod - operand_value regs inst.src1))
unfolding inst_value
simplify_div-unsigned regs inst e u gp m lo hi = (
  subst (λ o. op_value o regs inst ≡ some 0) (sym e) (div_unsigned-old regs inst u gp m hi),
  subst
      (λ o. inst_value regs (simplify_op o inst).0 ≡ some (word_mod - operand_value regs inst.src1))
      (sym e) (div_unsigned-new regs inst gp m lo hi),
)
