-- ===== src/Opt/ConstProp/Steps.antt =====
-- Loads, stores and moves in opt_constant_propagation, and their values.
use winds.Base.{
  ℕ, ◌≡◌, refl, sym, ◌∙◌, ap, true, false, inl, inr, some, arith, subst, Bool-cases, Option-cases,
}
use winds.Base.Int.{ℤ, pos, int_eq}
use winds.Ir.{ir_imm, ir_mov, ir_load_stack, ir_store_stack, IrInst}
use winds.Ir.Value.{Regs, operand_value, op_value}
use winds.Opt.Values.{value_at, store_slot, StoresTo, StoresTo-store_slot, is_incoming}
use winds.Opt.Vreg.{reg_below-pos, reg_below}
use winds.Opt.ConstProp.Table.{StackConstTable, stack_const_set, stack_const_get}
use winds.Opt.ConstProp.Table.Slots.{
  Matches, stack_const_get-value, Matches-same, stack_const_invalidate-store, set_entry-Matches,
}
use winds.Opt.ConstProp.Step.{
  ConstState, const_of, record_once, step_store_stack, step_load_stack, step_mov, step_src1,
}
use winds.Opt.ConstProp.Values.{HoldsConsts, has_no_value, value_at-same}
use winds.Opt.ConstProp.Consts.{HoldsResult, Knows, Sound, record_once-HoldsConsts, const_of-value}

module _ (regs regs' : Regs) (max_vreg : ℕ) (def_count : ℕ → ℕ) where
  pub step_load_stack-Sound :
      (slots slots' : ℤ → ℕ) (s : ConstState) (inst : IrInst)
      → inst.op ≡ ir_load_stack
      → Knows regs regs' max_vreg def_count s.consts
      → Matches slots s.table
      → HoldsResult regs regs' max_vreg def_count slots inst
      → ((o : ℤ) → slots' o ≡ slots o)
      → Sound regs regs' max_vreg def_count slots slots' inst
          (step_load_stack max_vreg def_count s inst (stack_const_get s.table inst.src1.offset))
  unfolding step_load_stack op_value record_once
  step_load_stack-Sound slots slots' s inst op holds m result same =
      elim (Option-cases (stack_const_get s.table inst.src1.offset)) [
        | inl e ↦ rw e (refl, (refl, (holds.1, Matches-same slots slots' s.table same m)))
        | inr (n, e) ↦
            let at_op : some (slots inst.src1.offset) ≡ value_at inst.op regs slots inst =
              subst (λ o. some (slots inst.src1.offset) ≡ value_at o regs slots inst) (sym op)
                refl in
            let known = stack_const_get-value slots s.table inst.src1.offset n m e in
            rw e (
              ap some (sym known) ∙ at_op,
              (
                refl,
                (
                  record_once-HoldsConsts regs regs' max_vreg def_count s inst n holds.1
                      (λ v h once. result v n h (inl once) (sym at_op ∙ ap some known)),
                  Matches-same slots slots' s.table same m,
                ),
              ),
            )
      ]

  pub step_store_stack-Sound :
      (slots slots' : ℤ → ℕ) (s : ConstState) (inst : IrInst)
      → inst.op ≡ ir_store_stack
      → Knows regs regs' max_vreg def_count s.consts
      → Matches slots s.table
      → StoresTo regs slots slots' inst.dest.offset inst.src1
      → Sound regs regs' max_vreg def_count slots slots' inst
          (step_store_stack max_vreg def_count s inst)
  unfolding step_store_stack operand_value op_value stack_const_set const_of
  step_store_stack-Sound slots slots' s inst op holds m same =
      elim (Bool-cases (int_eq inst.src1.vreg (pos 0))) [
        | inl z ↦ rw z (
          refl,
          (
            refl,
            (
              holds.1,
              stored inst.src1.imm (value_of (ground arith) ∙ ground arith) _
                  (set_entry-Matches inst.dest.offset inst.src1.imm _ slots s.table m),
            ),
          ),
        )
        | inr z ↦ elim (Option-cases (const_of s.consts (reg_below max_vreg inst.src1.vreg))) [
          | inl e ↦
              rw (z, e)
                (
                  refl,
                  (
                    refl,
                    (
                      holds.1,
                      stored (slots' inst.dest.offset) refl _ (
                          stack_const_invalidate-store inst.dest.offset (slots' inst.dest.offset)
                            slots s.table m),
                    ),
                  ),
                )
          | inr (n, e) ↦
              rw (z, e)
                (
                  value_at-same inst.op regs slots _ _ (ap has_no_value op),
                  (
                    refl,
                    (
                      holds.1,
                      stored n
                          (value_of (const_of-register n e)
                            ∙ const_of-value regs regs' max_vreg def_count s.consts inst.src1 n
                                holds.0 e)
                          _ (set_entry-Matches inst.dest.offset n _ slots s.table m),
                    ),
                  ),
                )
        ]
      ]
    where
      value_of :
          is_incoming inst.src1.vreg ≡ false
          → slots' inst.dest.offset ≡ operand_value regs inst.src1
      value_of h = elim same.1 [ inl i ↦ cc (h, i) | inr q ↦ q ]

      const_of-register :
          (n : ℕ)
          → const_of s.consts (reg_below max_vreg inst.src1.vreg) ≡ some n
          → is_incoming inst.src1.vreg ≡ false
      const_of-register n e = elim (Option-cases (reg_below max_vreg inst.src1.vreg)) [
        | inl r ↦ cc (rw (r, const_of) at e)
        | inr (v, r) ↦ rw (reg_below-pos max_vreg inst.src1.vreg v r).0 refl
      ]

      stored :
          (val : ℕ)
          → slots' inst.dest.offset ≡ val
          → (table : StackConstTable) → Matches (store_slot slots inst.dest.offset val) table
          → Matches slots' table
      stored val e table k =
          Matches-same (store_slot slots inst.dest.offset val) slots' table
            (λ o.
              StoresTo-store_slot regs slots slots' inst.dest.offset inst.src1 same o
              ∙ ap (λ w. store_slot slots inst.dest.offset w o) e)
            k

  pub step_imm-Sound :
      (slots slots' : ℤ → ℕ) (s : ConstState) (inst : IrInst)
      → inst.op ≡ ir_imm
      → Knows regs regs' max_vreg def_count s.consts
      → Matches slots s.table
      → HoldsResult regs regs' max_vreg def_count slots inst
      → ((o : ℤ) → slots' o ≡ slots o)
      → Sound regs regs' max_vreg def_count slots slots' inst
          (inst, (record_once max_vreg def_count s inst inst.src1.imm, false))
  unfolding op_value record_once
  step_imm-Sound slots slots' s inst op holds m result same = (
    refl,
    (
      refl,
      (
        record_once-HoldsConsts regs regs' max_vreg def_count s inst inst.src1.imm holds.1
            (λ v q once.
              result v inst.src1.imm q (inl once)
                (subst (λ o. value_at o regs slots inst ≡ some inst.src1.imm) (sym op) refl)),
        Matches-same slots slots' s.table same m,
      ),
    ),
  )

  pub step_mov-Sound :
      (slots slots' : ℤ → ℕ) (s : ConstState) (inst : IrInst)
      → inst.op ≡ ir_mov
      → Knows regs regs' max_vreg def_count s.consts
      → Matches slots s.table
      → HoldsResult regs regs' max_vreg def_count slots inst
      → ((o : ℤ) → slots' o ≡ slots o)
      → Sound regs regs' max_vreg def_count slots slots' inst (
          step_mov max_vreg def_count s inst
            (const_of s.consts (reg_below max_vreg inst.src1.vreg)))
  unfolding step_mov op_value operand_value record_once
  step_mov-Sound slots slots' s inst op holds m result same =
      elim (Option-cases (const_of s.consts (reg_below max_vreg inst.src1.vreg))) [
        | inl e ↦ elim (Bool-cases (int_eq inst.src1.vreg (pos 0))) [
          | inl z ↦ rw (e, z) (moved inst.src1.imm (ground arith))
          | inr z ↦ rw (e, z) (refl, (refl, (holds.1, kept)))
        ]
        | inr (n, e) ↦
            rw e (
              moved n (const_of-value regs regs' max_vreg def_count s.consts inst.src1 n holds.0 e))
      ]
    where
      kept : Matches slots' s.table
      kept = Matches-same slots slots' s.table same m

      at_op : value_at inst.op regs slots inst ≡ some (operand_value regs inst.src1)
      at_op =
          subst (λ o. value_at o regs slots inst ≡ some (operand_value regs inst.src1)) (sym op)
            refl

      moved :
          (n : ℕ)
          → operand_value regs inst.src1 ≡ n
          → (some n ≡ value_at inst.op regs slots inst)
            × ((inst.dest ≡ inst.dest)
                × (HoldsConsts regs' (record_once max_vreg def_count s inst n).consts
                    × Matches slots' s.table))
      moved n e = (
        ap some (sym e) ∙ sym at_op,
        (
          refl,
          (
            record_once-HoldsConsts regs regs' max_vreg def_count s inst n holds.1
                (λ v h once. result v n h (inl once) (at_op ∙ ap some e)),
            kept,
          ),
        ),
      )

  pub step_src1-Sound :
      (slots slots' : ℤ → ℕ) (s : ConstState) (inst : IrInst)
      → has_no_value inst.op ≡ true
      → Knows regs regs' max_vreg def_count s.consts
      → Matches slots' s.table
      → Sound regs regs' max_vreg def_count slots slots' inst (step_src1 max_vreg def_count s inst)
  unfolding step_src1
  step_src1-Sound slots slots' s inst h holds m =
      (value_at-same inst.op regs slots _ _ h, (refl, (holds.1, m)))
