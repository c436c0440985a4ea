-- ===== src/Opt/ConstProp/Operands.antt =====
-- The operands of an instruction before and after a step of opt_constant_propagation.
use winds.Base.{
  ℕ, ◌≡◌, refl, sym, ◌∙◌, subst, ◌⊎◌, inl, inr, Bool, true, false, Option, none, some, List, [],
  ◌∷◌, Bool-cases, Option-cases,
}
use mathlib.Core.Option.{some-injective}
use winds.Base.Int.{pos, int_eq}
use winds.Ir.{
  IrOp, ir_label, ir_imm, ir_mov, ir_store, ir_load_stack, ir_store_stack, ir_addr_stack, ir_add,
  ir_cmp_ge, ir_jmp_if_zero, ir_jmp_if_not_zero, ir_call, ir_ret, IrOperand, IrInst, op_between,
}
use winds.Ir.Value.{Regs, operand_value}
use winds.Opt.Vreg.{reg_below}
use winds.Opt.ConstProp.Table.{stack_const_get}
use winds.Opt.ConstProp.Fold.{Folded, value, unfolded, trapped}
use winds.Opt.ConstProp.Values.{HoldsConsts}
use winds.Opt.ConstProp.Consts.{replace_const-value, const_of-value}
use winds.Opt.ConstProp.Step.{
  ConstState, Stepped, const_of, replace, replace_const, replace_args, step_store_stack,
  step_load_stack, step_mov, step_folded, step_arith, step_src1, step_rest, step_op,
}

-- The same value, and the same operand but for its register and its immediate.
abbrev pub SameOperand : Regs → IrOperand → IrOperand → Type 0
SameOperand regs o' o =
    (operand_value regs o' ≡ operand_value regs o)
    × (o' ≡ record o { vreg = o'.vreg; imm = o'.imm })

-- One for one.
abbrev pub SameOperands : Regs → List IrOperand → List IrOperand → Type 0
SameOperands regs [] [] = Unit
SameOperands regs (o' ∷ os') (o ∷ os) = SameOperand regs o' o × SameOperands regs os' os
SameOperands regs _ _ = ⊥

-- The same operation on operands of the same values.
abbrev pub SameOperation : Regs → IrInst → IrInst → Type 0
SameOperation regs inst' inst =
    (inst'.op ≡ inst.op)
    × (inst'.is_unsigned ≡ inst.is_unsigned)
    × SameOperand regs inst'.src1 inst.src1
    × SameOperand regs inst'.src2 inst.src2
    × SameOperands regs inst'.call_args inst.call_args

-- The same operation, or a constant.
abbrev pub Kept : Regs → IrInst → IrInst → Type 0
Kept regs inst' inst =
    (inst'.size ≡ inst.size) × (SameOperation regs inst' inst ⊎ (inst'.op ≡ ir_imm))

operand-SameOperand : (regs : Regs) (o : IrOperand) → SameOperand regs o o
operand-SameOperand regs o = (refl, refl)

operands-SameOperands : (regs : Regs) (os : List IrOperand) → SameOperands regs os os
operands-SameOperands regs [] = tt
operands-SameOperands regs (o ∷ os) = (operand-SameOperand regs o, operands-SameOperands regs os)

constant_value :
    (regs : Regs) (o : IrOperand) (n : ℕ)
    → operand_value regs (record o { vreg = pos 0; imm = n }) ≡ n
unfolding operand_value
constant_value regs o n = refl

module _ (regs : Regs) (max_vreg : ℕ) (def_count : ℕ → ℕ) where
  Kept-src1 :
      (inst : IrInst) (o : IrOperand)
      → SameOperand regs o inst.src1
      → Kept regs (record inst { src1 = o }) inst
  Kept-src1 inst o same =
      (refl, inl (refl, refl, same, (refl, refl), operands-SameOperands regs inst.call_args))

  inst-Kept : (inst : IrInst) → Kept regs inst inst
  inst-Kept inst = Kept-src1 inst inst.src1 (refl, refl)

  replace_const-Same :
      (consts : ℕ → Option ℕ) (o : IrOperand)
      → HoldsConsts regs consts
      → SameOperand regs (replace_const max_vreg def_count consts o).0 o
  unfolding replace_const replace
  replace_const-Same consts o holds = (
    replace_const-value regs regs max_vreg def_count consts o holds,
    elim (Option-cases (const_of consts (reg_below max_vreg o.vreg))) [
      | inl e ↦ rw e refl
      | inr (n, e) ↦ rw e refl
    ],
  )

  replace_args-Same :
      (consts : ℕ → Option ℕ) (os : List IrOperand)
      → HoldsConsts regs consts
      → SameOperands regs (replace_args max_vreg def_count consts os).0 os
  unfolding replace_args
  replace_args-Same consts [] holds = tt
  replace_args-Same consts (o ∷ os) holds =
      (replace_const-Same consts o holds, replace_args-Same consts os holds)

  step_src1-Kept :
      (s : ConstState) (inst : IrInst)
      → HoldsConsts regs s.consts
      → Kept regs (step_src1 max_vreg def_count s inst).0 inst
  unfolding step_src1
  step_src1-Kept s inst holds = Kept-src1 inst _ (replace_const-Same s.consts inst.src1 holds)

  step_store_stack-Kept :
      (s : ConstState) (inst : IrInst)
      → HoldsConsts regs s.consts
      → Kept regs (step_store_stack max_vreg def_count s inst).0 inst
  unfolding step_store_stack
  step_store_stack-Kept s inst holds = elim (Bool-cases (int_eq inst.src1.vreg (pos 0))) [
    | inl z ↦ rw z (inst-Kept inst)
    | inr z ↦ elim (Option-cases (const_of s.consts (reg_below max_vreg inst.src1.vreg))) [
      | inl e ↦ rw (z, e) (inst-Kept inst)
      | inr (n, e) ↦
          rw (z, e)
            (Kept-src1 inst (record (inst.src1) { vreg = pos 0; imm = n })
              (
                constant_value regs inst.src1 n
                    ∙ sym
                        (const_of-value regs regs max_vreg def_count s.consts inst.src1 n holds e),
                refl,
              ))
    ]
  ]

  step_load_stack-Kept :
      (s : ConstState) (inst : IrInst) (known : Option ℕ)
      → Kept regs (step_load_stack max_vreg def_count s inst known).0 inst
  unfolding step_load_stack
  step_load_stack-Kept s inst none = inst-Kept inst
  step_load_stack-Kept s inst (some n) = (refl, inr refl)

  step_mov-Kept :
      (s : ConstState) (inst : IrInst) (known : Option ℕ)
      → Kept regs (step_mov max_vreg def_count s inst known).0 inst
  unfolding step_mov
  step_mov-Kept s inst none = elim (Bool-cases (int_eq inst.src1.vreg (pos 0))) [
    | inl z ↦ rw z (refl, inr refl)
    | inr z ↦ rw z (inst-Kept inst)
  ]
  step_mov-Kept s inst (some n) = (refl, inr refl)

  step_folded-Kept :
      (s : ConstState) (inst inst' : IrInst) (changed : Bool) (f : Folded)
      → Kept regs inst' inst
      → (r : Stepped) → step_folded max_vreg def_count s inst' changed f ≡ some r
      → Kept regs r.0 inst
  unfolding step_folded
  step_folded-Kept s inst inst' changed (value n) k r h =
      subst (λ (x : Stepped). Kept regs x.0 inst) (some-injective _ r h) (k.0, inr refl)
  step_folded-Kept s inst inst' changed unfolded k r h =
      subst (λ (x : Stepped). Kept regs x.0 inst) (some-injective _ r h) k
  step_folded-Kept s inst inst' changed trapped k r h = cc

  step_rest-Kept :
      (arithmetic : Bool) (op : IrOp) (s : ConstState) (inst : IrInst)
      → HoldsConsts regs s.consts
      → (r : Stepped) → step_rest max_vreg def_count arithmetic op s inst ≡ some r
      → Kept regs r.0 inst
  unfolding step_rest step_arith
  step_rest-Kept true op s inst holds r h =
      step_folded-Kept s inst _ _ _
        (
          refl,
          inl (
            refl,
            refl,
            replace_const-Same s.consts inst.src1 holds,
            replace_const-Same s.consts inst.src2 holds,
            operands-SameOperands regs inst.call_args,
          ),
        )
        r h
  step_rest-Kept false op s inst holds r h =
      subst (λ (x : Stepped). Kept regs x.0 inst) (some-injective _ r h) (inst-Kept inst)

  pub step_op-Kept :
      (op : IrOp) (s : ConstState) (inst : IrInst)
      → HoldsConsts regs s.consts
      → (r : Stepped) → step_op max_vreg def_count op s inst ≡ some r
      → Kept regs r.0 inst
  unfolding step_op
  step_op-Kept op s inst holds r h = by_op op h
    where
      at : (x : Stepped) → some x ≡ some r → Kept regs x.0 inst → Kept regs r.0 inst
      at x e k = subst (λ (y : Stepped). Kept regs y.0 inst) (some-injective x r e) k

      by_op : (o : IrOp) → step_op max_vreg def_count o s inst ≡ some r → Kept regs r.0 inst
      by_op ir_label e = at _ e (inst-Kept inst)
      by_op ir_call e = at _ e (
        refl,
        inl (
          refl,
          refl,
          (refl, refl),
          (refl, refl),
          replace_args-Same s.consts inst.call_args holds,
        ),
      )
      by_op ir_store e = at _ e (step_src1-Kept (record s { table = [] }) inst holds)
      by_op ir_addr_stack e = at _ e (inst-Kept inst)
      by_op ir_store_stack e = at _ e (step_store_stack-Kept s inst holds)
      by_op ir_load_stack e =
          at _ e (step_load_stack-Kept s inst (stack_const_get s.table inst.src1.offset))
      by_op ir_imm e = at _ e (inst-Kept inst)
      by_op ir_mov e = at _ e (step_mov-Kept s inst _)
      by_op ir_ret e = at _ e (step_src1-Kept s inst holds)
      by_op ir_jmp_if_zero e = at _ e (step_src1-Kept s inst holds)
      by_op ir_jmp_if_not_zero e = at _ e (step_src1-Kept s inst holds)
      by_op o e = step_rest-Kept (op_between ir_add ir_cmp_ge o) o s inst holds r e
