-- ===== src/Opt/ConstProp/Total.antt =====
-- When opt_constant_propagation returns: the divisions that trap in the compiler.
use winds.Base.{
  ℕ, ◌≡◌, refl, ◌≢◌, Bool, true, false, some, sym, ◌∙◌, subst, arith, if◌then◌else◌, ◌&&◌,
}
use winds.Ir.{
  IrOp, ir_label, ir_imm, ir_mov, ir_store, ir_load_stack, ir_store_stack, ir_addr_stack, ir_div,
  ir_mod, ir_add, ir_cmp_ge, ir_jmp_if_zero, ir_jmp_if_not_zero, ir_call, ir_ret, IrOperand, IrInst,
  op_between,
}
use winds.Opt.ConstProp.Fold.{Folded, value, unfolded, trapped, fold}
use winds.Opt.ConstProp.Step.{
  ConstState, Stepped, step_folded, step_arith, step_rest, step_op, replace_const,
}
use winds.Base.Word.{sign_bit, minus_one}
use winds.Ir.Value.{Regs, operand_value}
use winds.Opt.ConstProp.Values.{HoldsConsts}
use winds.Opt.ConstProp.Consts.{replace_const-value}
use winds.Base.Int.{pos, int_eq}

-- `op == IR_DIV || op == IR_MOD`
abbrev pub is_division : IrOp → Bool
is_division ir_div = true
is_division ir_mod = true
is_division _ = false

fold-trapped :
    (op : IrOp) (v1 v2 : ℕ)
    → fold op v1 v2 ≡ trapped
    → (is_division op ≡ true) × (v1 ≡ sign_bit) × (v2 ≡ minus_one)
unfolding fold
fold-trapped ir_div v1 v2 h = ground arith
fold-trapped ir_mod v1 v2 h = ground arith
fold-trapped _ v1 v2 h = ground arith

-- The instruction does not divide the least integer by -1.
abbrev pub NoOverflow : Regs → IrInst → Type 0
NoOverflow regs inst =
    is_division inst.op ≡ true
    → operand_value regs inst.src1 ≡ sign_bit
    → operand_value regs inst.src2 ≢ minus_one

immediate_value :
    (regs : Regs) (o : IrOperand) → int_eq o.vreg (pos 0) ≡ true → operand_value regs o ≡ o.imm
unfolding operand_value
immediate_value regs o z = rw z refl

module _ (regs : Regs) (max_vreg : ℕ) (def_count : ℕ → ℕ) where
  step_folded-runs :
      (s : ConstState) (inst : IrInst) (changed : Bool) (f : Folded)
      → f ≢ trapped
      → (r : Stepped) × (step_folded max_vreg def_count s inst changed f ≡ some r)
  unfolding step_folded
  step_folded-runs s inst changed (value n) ne = (_, refl)
  step_folded-runs s inst changed unfolded ne = (_, refl)
  step_folded-runs s inst changed trapped ne = absurd (ne refl)

  step_rest-runs :
      (arithmetic : Bool) (s : ConstState) (inst : IrInst)
      → HoldsConsts regs s.consts
      → NoOverflow regs inst
      → (r : Stepped) × (step_rest max_vreg def_count arithmetic inst.op s inst ≡ some r)
  unfolding step_rest step_arith
  step_rest-runs false s inst holds no_overflow = (_, refl)
  step_rest-runs true s inst holds no_overflow = step_folded-runs s _ _ _ (only_folds _ _ refl refl)
    where
      a : IrOperand
      a = (replace_const max_vreg def_count s.consts inst.src1).0

      b : IrOperand
      b = (replace_const max_vreg def_count s.consts inst.src2).0

      only_folds :
          (y z : Bool)
          → int_eq a.vreg (pos 0) ≡ y
          → int_eq b.vreg (pos 0) ≡ z
          → (if y && z then fold inst.op a.imm b.imm else unfolded) ≢ trapped
      only_folds true true p q h =
          let (d, x, y) = fold-trapped inst.op a.imm b.imm h in
          no_overflow d
            (sym (replace_const-value regs regs max_vreg def_count s.consts inst.src1 holds)
              ∙ (immediate_value regs a p ∙ x))
            (sym (replace_const-value regs regs max_vreg def_count s.consts inst.src2 holds)
              ∙ (immediate_value regs b q ∙ y))
      only_folds true false p q h = cc
      only_folds false z p q h = cc

  pub step_op-runs :
      (op : IrOp) (s : ConstState) (inst : IrInst)
      → inst.op ≡ op
      → HoldsConsts regs s.consts
      → NoOverflow regs inst
      → (r : Stepped) × (step_op max_vreg def_count op s inst ≡ some r)
  unfolding step_op
  step_op-runs ir_label s inst e holds n = (_, refl)
  step_op-runs ir_call s inst e holds n = (_, refl)
  step_op-runs ir_store s inst e holds n = (_, refl)
  step_op-runs ir_addr_stack s inst e holds n = (_, refl)
  step_op-runs ir_store_stack s inst e holds n = (_, refl)
  step_op-runs ir_load_stack s inst e holds n = (_, refl)
  step_op-runs ir_imm s inst e holds n = (_, refl)
  step_op-runs ir_mov s inst e holds n = (_, refl)
  step_op-runs ir_ret s inst e holds n = (_, refl)
  step_op-runs ir_jmp_if_zero s inst e holds n = (_, refl)
  step_op-runs ir_jmp_if_not_zero s inst e holds n = (_, refl)
  step_op-runs op s inst e holds n =
      subst
        (λ o.
          (r : Stepped) × (step_rest max_vreg def_count (op_between ir_add ir_cmp_ge op) o s inst
            ≡ some r))
        e (step_rest-runs (op_between ir_add ir_cmp_ge op) s inst holds n)
