-- ===== src/Opt/Algebraic/Keeps.antt =====
-- Each case of opt_algebraic_simplification, and the value that the instruction computes.
use winds.Base.{ℕ, ◌<◌, ◌≡◌, refl, sym, subst, Bool, true, false, some, arith}
use native.Mathlib.Nat.{mod_self, zero-mod, div_self, zero-div}
use winds.Base.Int.{int_eq_iff}
use winds.Base.Word.{word_mod, minus_one, mul64}
use winds.Base.Word.Laws
use winds.Base.Bits.{
  bit_and-zero, zero-bit_and, bit_and_self, bit_and_ones, ones-bit_and, bit_or-zero, zero-bit_or,
  bit_or_self, bit_or_ones, ones-bit_or, bit_xor-zero, zero-bit_xor, bit_xor_self,
}
use winds.Ir.{
  IrOp, ir_add, ir_sub, ir_mul, ir_div, ir_mod, ir_and, ir_or, ir_xor, ir_shl, ir_shr, ir_cmp_eq,
  ir_cmp_ne, ir_cmp_lt, ir_cmp_le, ir_cmp_gt, ir_cmp_ge, IrOperand, IrInst,
}
use winds.Ir.Value.{Regs, operand_value, binary_value, op_value, inst_value}
use winds.Opt.Algebraic.{
  is_imm_of, same_reg, is_power, to_shift, simplify_add, simplify_sub, simplify_mul, simplify_div,
  simplify_mod, simplify_and, simplify_or, simplify_xor, simplify_shift, simplify_cmp, simplify_op,
}
use winds.Opt.Algebraic.Power.{mul64-power}

module _ (regs : Regs) where
  pub value_of_imm : (o : IrOperand) (n : ℕ) → is_imm_of o n ≡ true → operand_value regs o ≡ n
  unfolding operand_value
  value_of_imm o n h = ground arith

  value_of_same :
      (inst : IrInst)
      → same_reg inst ≡ true
      → operand_value regs inst.src1 ≡ operand_value regs inst.src2
  unfolding operand_value
  value_of_same inst h = ground (arith, int_eq_iff inst.src1.vreg inst.src2.vreg)

  module _ (inst : IrInst) (a_fits : operand_value regs inst.src1 < word_mod)
      (b_fits : operand_value regs inst.src2 < word_mod) where
    abbrev a : ℕ
    a = operand_value regs inst.src1

    abbrev b : ℕ
    b = operand_value regs inst.src2

    -- The instruction, at the operation `op`, keeps its value under the rewrite.
    abbrev pub Keeps : IrOp → IrInst × Bool → Type 0
    Keeps op r = (x : ℕ) → op_value op regs inst ≡ some x → inst_value regs r.0 ≡ some x

    add-Keeps : inst.op ≡ ir_add → Keeps ir_add (simplify_add inst)
    unfolding simplify_add inst_value op_value binary_value operand_value
    add-Keeps e x h = ground (
      arith,
      Laws.add64-zero a a_fits,
      Laws.zero-add64 b b_fits,
      value_of_imm inst.src2 0,
      value_of_imm inst.src1 0,
    )

    sub-Keeps : inst.op ≡ ir_sub → Keeps ir_sub (simplify_sub inst)
    unfolding simplify_sub inst_value op_value binary_value operand_value
    sub-Keeps e x h = ground (
      arith,
      Laws.sub64-zero a a_fits,
      Laws.sub64_self a a_fits,
      value_of_imm inst.src2 0,
      value_of_same inst,
    )

    and-Keeps : inst.op ≡ ir_and → Keeps ir_and (simplify_and inst)
    unfolding simplify_and inst_value op_value binary_value operand_value
    and-Keeps e x h = ground (
      arith,
      bit_and-zero a,
      zero-bit_and b,
      bit_and_self a,
      bit_and_ones 64 a a_fits,
      ones-bit_and 64 b b_fits,
      value_of_imm inst.src2 0,
      value_of_imm inst.src1 0,
      value_of_imm inst.src2 minus_one,
      value_of_imm inst.src1 minus_one,
      value_of_same inst,
    )

    or-Keeps : inst.op ≡ ir_or → Keeps ir_or (simplify_or inst)
    unfolding simplify_or inst_value op_value binary_value operand_value
    or-Keeps e x h = ground (
      arith,
      bit_or-zero a,
      zero-bit_or b,
      bit_or_self a,
      bit_or_ones 64 a a_fits,
      ones-bit_or 64 b b_fits,
      value_of_imm inst.src2 0,
      value_of_imm inst.src1 0,
      value_of_imm inst.src2 minus_one,
      value_of_imm inst.src1 minus_one,
      value_of_same inst,
    )

    xor-Keeps : inst.op ≡ ir_xor → Keeps ir_xor (simplify_xor inst)
    unfolding simplify_xor inst_value op_value binary_value operand_value
    xor-Keeps e x h = ground (
      arith,
      bit_xor-zero a,
      zero-bit_xor b,
      bit_xor_self a,
      value_of_imm inst.src2 0,
      value_of_imm inst.src1 0,
      value_of_same inst,
    )

    shl-Keeps : inst.op ≡ ir_shl → Keeps ir_shl (simplify_shift inst)
    unfolding simplify_shift inst_value op_value binary_value operand_value
    shl-Keeps e x h = ground (
      arith,
      Laws.shl64-zero a a_fits,
      Laws.zero-shl64 b b_fits,
      value_of_imm inst.src2 0,
      value_of_imm inst.src1 0,
    )

    shr-Keeps : inst.op ≡ ir_shr → Keeps ir_shr (simplify_shift inst)
    unfolding simplify_shift inst_value op_value binary_value operand_value
    shr-Keeps e x h = ground (
      arith,
      Laws.shr64-zero a a_fits,
      Laws.zero-shr64 b b_fits,
      Laws.sar64-zero a a_fits,
      Laws.zero-sar64 b b_fits,
      value_of_imm inst.src2 0,
      value_of_imm inst.src1 0,
    )

    mod-Keeps : inst.op ≡ ir_mod → Keeps ir_mod (simplify_mod inst)
    unfolding simplify_mod inst_value op_value binary_value operand_value
    mod-Keeps e x h = ground (
      arith,
      Laws.smod64-one a a_fits,
      Laws.smod64_self a a_fits,
      Laws.zero-smod64 b b_fits,
      mod_self a,
      zero-mod b,
      value_of_imm inst.src2 1,
      value_of_imm inst.src1 0,
      value_of_same inst,
    )

    -- The rewrite of a division by -1 is right for a signed division only.
    div-Keeps :
        inst.op ≡ ir_div
        → (inst.is_unsigned ≡ true → is_imm_of inst.src2 minus_one ≡ false)
        → Keeps ir_div (simplify_div inst)
    unfolding simplify_div inst_value op_value binary_value operand_value
    div-Keeps e signed x h = ground (
      arith,
      signed,
      Laws.sdiv64-one a a_fits,
      Laws.sdiv64-minus_one a a_fits,
      Laws.sdiv64_self a a_fits,
      Laws.zero-sdiv64 b b_fits,
      div_self {n = a},
      zero-div b,
      value_of_imm inst.src2 1,
      value_of_imm inst.src2 minus_one,
      value_of_imm inst.src1 0,
      value_of_same inst,
    )

    eq-Keeps : inst.op ≡ ir_cmp_eq → Keeps ir_cmp_eq (simplify_cmp inst 1)
    unfolding simplify_cmp inst_value op_value binary_value operand_value
    eq-Keeps e x h = ground (arith, value_of_same inst)

    ne-Keeps : inst.op ≡ ir_cmp_ne → Keeps ir_cmp_ne (simplify_cmp inst 0)
    unfolding simplify_cmp inst_value op_value binary_value operand_value
    ne-Keeps e x h = ground (arith, value_of_same inst)

    lt-Keeps : inst.op ≡ ir_cmp_lt → Keeps ir_cmp_lt (simplify_cmp inst 0)
    unfolding simplify_cmp inst_value op_value binary_value operand_value
    lt-Keeps e x h = ground (arith, value_of_same inst)

    le-Keeps : inst.op ≡ ir_cmp_le → Keeps ir_cmp_le (simplify_cmp inst 1)
    unfolding simplify_cmp inst_value op_value binary_value operand_value
    le-Keeps e x h = ground (arith, value_of_same inst)

    gt-Keeps : inst.op ≡ ir_cmp_gt → Keeps ir_cmp_gt (simplify_cmp inst 0)
    unfolding simplify_cmp inst_value op_value binary_value operand_value
    gt-Keeps e x h = ground (arith, value_of_same inst)

    ge-Keeps : inst.op ≡ ir_cmp_ge → Keeps ir_cmp_ge (simplify_cmp inst 1)
    unfolding simplify_cmp inst_value op_value binary_value operand_value
    ge-Keeps e x h = ground (arith, value_of_same inst)

    -- A product with a power of two is a shift.
    shift-Keeps :
        (value o : IrOperand)
        → is_power o ≡ true
        → inst_value regs (to_shift inst value o.imm).0
          ≡ some (mul64 (operand_value regs value) (operand_value regs o))
    unfolding to_shift is_power inst_value op_value binary_value operand_value
    shift-Keeps value o p = ground (arith, mul64-power (operand_value regs value) o.imm)

    mul-Keeps : inst.op ≡ ir_mul → Keeps ir_mul (simplify_mul inst)
    unfolding simplify_mul inst_value op_value binary_value operand_value
    mul-Keeps e x h = ground (
      arith,
      Laws.mul64-minus_one a a_fits,
      Laws.minus_one-mul64 b b_fits,
      Laws.mul64-zero a a_fits,
      Laws.zero-mul64 b b_fits,
      Laws.mul64-one a a_fits,
      Laws.one-mul64 b b_fits,
      Laws.mul64_comm a b,
      value_of_imm inst.src2 minus_one,
      value_of_imm inst.src1 minus_one,
      value_of_imm inst.src2 0,
      value_of_imm inst.src1 0,
      value_of_imm inst.src2 1,
      value_of_imm inst.src1 1,
      shift-Keeps inst.src1 inst.src2,
      shift-Keeps inst.src2 inst.src1,
    )

    unchanged :
        (op : IrOp)
        → inst.op ≡ op
        → (x : ℕ) → op_value op regs inst ≡ some x
        → inst_value regs inst ≡ some x
    unfolding inst_value
    unchanged op e x h = subst (λ o. op_value o regs inst ≡ some x) (sym e) h

    -- At every operation the rewrite keeps the value.
    pub simplify_op-Keeps :
        (op : IrOp)
        → inst.op ≡ op
        → (op ≡ ir_div → inst.is_unsigned ≡ true → is_imm_of inst.src2 minus_one ≡ false)
        → Keeps op (simplify_op op inst)
    unfolding simplify_op
    simplify_op-Keeps ir_add e d = add-Keeps e
    simplify_op-Keeps ir_sub e d = sub-Keeps e
    simplify_op-Keeps ir_mul e d = mul-Keeps e
    simplify_op-Keeps ir_div e d = div-Keeps e (d refl)
    simplify_op-Keeps ir_mod e d = mod-Keeps e
    simplify_op-Keeps ir_and e d = and-Keeps e
    simplify_op-Keeps ir_or e d = or-Keeps e
    simplify_op-Keeps ir_xor e d = xor-Keeps e
    simplify_op-Keeps ir_shl e d = shl-Keeps e
    simplify_op-Keeps ir_shr e d = shr-Keeps e
    simplify_op-Keeps ir_cmp_eq e d = eq-Keeps e
    simplify_op-Keeps ir_cmp_ne e d = ne-Keeps e
    simplify_op-Keeps ir_cmp_lt e d = lt-Keeps e
    simplify_op-Keeps ir_cmp_le e d = le-Keeps e
    simplify_op-Keeps ir_cmp_gt e d = gt-Keeps e
    simplify_op-Keeps ir_cmp_ge e d = ge-Keeps e
    simplify_op-Keeps op e d = unchanged op e
