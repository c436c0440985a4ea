-- ===== src/Opt/ConstProp/Arith.antt =====
-- Arithmetic that opt_constant_propagation rewrites or folds, and its value.
use winds.Base.{
  ℕ, ◌≡◌, refl, sym, ◌∙◌, ap, Bool, true, false, ◌&&◌, inl, inr, some, subst, if◌then◌else◌,
  Bool-cases, &&-both,
}
use mathlib.Core.Option.{some-injective}
use winds.Base.Int.{ℤ, pos, int_eq}
use winds.Ir.{IrOp, ir_add, ir_cmp_ge, IrOperand, IrInst, op_between}
use winds.Ir.Value.{Regs, operand_value, binary_value, op_value}
use winds.Opt.Values.{value_at}
use winds.Opt.Vreg.{reg_below}
use winds.Opt.ConstProp.Table.Slots.{Matches}
use winds.Opt.ConstProp.Fold.{Folded, value, unfolded, trapped, fold, fold-value}
use winds.Opt.ConstProp.Step.{ConstState, Stepped, replace_const, step_folded, step_arith}
use winds.Opt.ConstProp.Values.{value_at-arith}
use winds.Opt.ConstProp.Consts.{
  HoldsResult, Knows, Sound, set_const-HoldsConsts, replace_const-value, replace_const-fp_size,
}

module _ (regs regs' : Regs) (max_vreg : ℕ) (def_count : ℕ → ℕ) where
  step_folded-Sound :
      (slots slots' : ℤ → ℕ) (s : ConstState) (inst inst' : IrInst) (changed : Bool) (f : Folded)
      → op_between ir_add ir_cmp_ge inst.op ≡ true
      → inst'.dest ≡ inst.dest
      → value_at inst'.op regs slots inst' ≡ value_at inst.op regs slots inst
      → ((n : ℕ) → f ≡ value n → value_at inst.op regs slots inst ≡ some n)
      → Knows regs regs' max_vreg def_count s.consts
      → Matches slots' s.table
      → HoldsResult regs regs' max_vreg def_count slots inst
      → (r : Stepped) → step_folded max_vreg def_count s inst' changed f ≡ some r
      → Sound regs regs' max_vreg def_count slots slots' inst r
  unfolding step_folded op_value
  step_folded-Sound slots slots' s inst inst' changed (value n) arith_op d same fold holds m result
        r h =
      subst (Sound regs regs' max_vreg def_count slots slots' inst) (some-injective _ r h) (
        sym (fold n refl),
        (
          d,
          (
            set_const-HoldsConsts regs regs' max_vreg def_count s.consts _ n holds.1 (λ v e.
                result v n (subst (λ (o : IrOperand). reg_below max_vreg o.vreg ≡ some v) d e)
                  (inr arith_op) (fold n refl)),
            m,
          ),
        ),
      )
  step_folded-Sound slots slots' s inst inst' changed unfolded arith_op d same fold holds m result r
        h =
      subst (Sound regs regs' max_vreg def_count slots slots' inst) (some-injective _ r h)
        (same, (d, (holds.1, m)))
  step_folded-Sound slots slots' s inst inst' changed trapped arith_op d same fold holds m result r
        h =
      cc

  pub step_arith-Sound :
      (op : IrOp) (slots slots' : ℤ → ℕ) (s : ConstState) (inst : IrInst)
      → inst.op ≡ op
      → op_between ir_add ir_cmp_ge op ≡ true
      → inst.is_unsigned ≡ false
      → inst.src1.fp_size ≡ 0
      → Knows regs regs' max_vreg def_count s.consts
      → Matches slots' s.table
      → HoldsResult regs regs' max_vreg def_count slots inst
      → (r : Stepped) → step_arith max_vreg def_count op s inst ≡ some r
      → Sound regs regs' max_vreg def_count slots slots' inst r
  unfolding step_arith operand_value
  step_arith-Sound op slots slots' s inst e arith_op u fp holds m result r h =
      step_folded-Sound slots slots' s inst new _ _ (ap (op_between ir_add ir_cmp_ge) e ∙ arith_op)
        refl same folds holds m result r h
    where
      a : IrOperand
      a = (replace_const max_vreg def_count s.consts inst.src1).0

      b : IrOperand
      b = (replace_const max_vreg def_count s.consts inst.src2).0

      new : IrInst
      new = record inst { src1 = a; src2 = b }

      old_value :
          value_at inst.op regs slots inst
          ≡ binary_value op false (operand_value regs inst.src1) (operand_value regs inst.src2)
      old_value =
          subst
            (λ o.
              value_at o regs slots inst
              ≡ binary_value op false (operand_value regs inst.src1) (operand_value regs inst.src2))
            (sym e) (value_at-arith op regs slots inst arith_op u fp)

      new_value :
          value_at inst.op regs slots new
          ≡ binary_value op false (operand_value regs a) (operand_value regs b)
      new_value =
          subst
            (λ o.
              value_at o regs slots new
              ≡ binary_value op false (operand_value regs a) (operand_value regs b))
            (sym e)
            (value_at-arith op regs slots new arith_op u
              (replace_const-fp_size regs regs' max_vreg def_count s.consts inst.src1 ∙ fp))

      values :
          binary_value op false (operand_value regs a) (operand_value regs b)
          ≡ binary_value op false (operand_value regs inst.src1) (operand_value regs inst.src2)
      values =
          ap (λ x. binary_value op false x (operand_value regs b))
            (replace_const-value regs regs' max_vreg def_count s.consts inst.src1 holds.0)
          ∙ ap (λ y. binary_value op false (operand_value regs inst.src1) y)
              (replace_const-value regs regs' max_vreg def_count s.consts inst.src2 holds.0)

      same : value_at inst.op regs slots new ≡ value_at inst.op regs slots inst
      same = new_value ∙ values ∙ sym old_value

      folds :
          (n : ℕ)
          → (if int_eq a.vreg (pos 0) && int_eq b.vreg (pos 0)
              then fold op a.imm b.imm
              else unfolded)
            ≡ value n
          → value_at inst.op regs slots inst ≡ some n
      folds n h = elim (Bool-cases (int_eq a.vreg (pos 0) && int_eq b.vreg (pos 0))) [
        | inl z ↦
            let (za, zb) = &&-both (int_eq a.vreg (pos 0)) (int_eq b.vreg (pos 0)) z in
            old_value ∙ sym values ∙ rw (za, zb) (fold-value op a.imm b.imm n (rw z at h))
        | inr z ↦ cc (rw z at h)
      ]
