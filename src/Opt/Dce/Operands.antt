-- ===== src/Opt/Dce/Operands.antt =====
-- opt_dead_code_elimination on the machine.
use winds.Base.{ℕ, ◌≡◌, refl, sym, ◌∙◌, ap, inl, inr, true, false, some, [], ◌∷◌, arith, Member}
use winds.Ir.{
  IrOp, ir_label, ir_imm, ir_str, ir_mov, ir_load, ir_store, ir_load_stack, ir_store_stack,
  ir_addr_stack, ir_jmp, ir_jmp_if_zero, ir_jmp_if_not_zero, ir_call, ir_ret, ir_addr_global,
  ir_load_global, ir_store_global, ir_cast, ir_cmp_ge, IrOperand, IrInst, is_op, op_between,
}
use winds.Opt.Vreg.{reg_below}
use winds.Opt.Machine.{operands_read, has_effect}
use winds.Opt.Flow.{is_plain}
use winds.Opt.Dce.{uses_src1, is_pure}
use winds.Opt.Dce.Uses.{Reads}

-- What is pure computes nothing but its destination, and is no control flow.
pub is_pure-computes :
    (max_vreg : ℕ) (op : IrOp) → is_pure max_vreg op ≡ true → has_effect op ≡ false
unfolding is_pure has_effect
is_pure-computes max_vreg ir_store h = cc
is_pure-computes max_vreg ir_store_stack h = cc
is_pure-computes max_vreg ir_call h = cc
is_pure-computes max_vreg ir_ret h = cc
is_pure-computes max_vreg ir_store_global h = cc
is_pure-computes max_vreg _ h = refl

pub is_pure-is_plain : (max_vreg : ℕ) (op : IrOp) → is_pure max_vreg op ≡ true → is_plain op ≡ true
unfolding is_pure
is_pure-is_plain max_vreg op h = ground (arith, h)

module _ (max_vreg v : ℕ) (inst : IrInst) (o : IrOperand)
    (r : reg_below max_vreg o.vreg ≡ some v) where
  src1-Reads : uses_src1 max_vreg inst.op ≡ true → o ≡ inst.src1 → Reads max_vreg v inst
  src1-Reads u e = inl (u, ap (λ x. reg_below max_vreg x.vreg) (sym e) ∙ r)

  src1_only-Reads :
      uses_src1 max_vreg inst.op ≡ true → Member o (inst.src1 ∷ []) → Reads max_vreg v inst
  src1_only-Reads u m = elim m [ inl e ↦ src1-Reads u e | inr n ↦ absurd n ]

  both-Reads :
      uses_src1 max_vreg inst.op ≡ true
      → op_between ir_load ir_cmp_ge inst.op ≡ true
      → Member o (inst.src1 ∷ inst.src2 ∷ [])
      → Reads max_vreg v inst
  both-Reads u b m = elim m [
    | inl e ↦ src1-Reads u e
    | inr (inl e) ↦ inr (inl (b, ap (λ x. reg_below max_vreg x.vreg) (sym e) ∙ r))
    | inr (inr n) ↦ absurd n
  ]

  store-Reads : inst.op ≡ ir_store → Member o (inst.src1 ∷ inst.dest ∷ []) → Reads max_vreg v inst
  store-Reads s m = elim m [
    | inl e ↦ src1-Reads (ap (uses_src1 max_vreg) s) e
    | inr (inl e) ↦
        inr (
          inr (inl (ap (λ x. is_op x ir_store) s, ap (λ x. reg_below max_vreg x.vreg) (sym e) ∙ r)))
    | inr (inr n) ↦ absurd n
  ]

  call-Reads : inst.op ≡ ir_call → Member o (inst.src1 ∷ inst.call_args) → Reads max_vreg v inst
  call-Reads s m = elim m [
    | inl e ↦ src1-Reads (ap (uses_src1 max_vreg) s) e
    | inr n ↦ inr (inr (inr (ap (λ x. is_op x ir_call) s, (o, n, r))))
  ]

  -- An operand that the machine reads is one that the pass counts.
  op-Reads : (op : IrOp) → inst.op ≡ op → Member o (operands_read op inst) → Reads max_vreg v inst
  unfolding operands_read
  op-Reads ir_label e m = absurd m
  op-Reads ir_imm e m = absurd m
  op-Reads ir_str e m = absurd m
  op-Reads ir_load_stack e m = absurd m
  op-Reads ir_addr_stack e m = absurd m
  op-Reads ir_jmp e m = absurd m
  op-Reads ir_addr_global e m = absurd m
  op-Reads ir_load_global e m = absurd m
  op-Reads ir_mov e m = src1_only-Reads (ap (uses_src1 max_vreg) e) m
  op-Reads ir_load e m = src1_only-Reads (ap (uses_src1 max_vreg) e) m
  op-Reads ir_store_stack e m = src1_only-Reads (ap (uses_src1 max_vreg) e) m
  op-Reads ir_jmp_if_zero e m = src1_only-Reads (ap (uses_src1 max_vreg) e) m
  op-Reads ir_jmp_if_not_zero e m = src1_only-Reads (ap (uses_src1 max_vreg) e) m
  op-Reads ir_ret e m = src1_only-Reads (ap (uses_src1 max_vreg) e) m
  op-Reads ir_store_global e m = src1_only-Reads (ap (uses_src1 max_vreg) e) m
  op-Reads ir_cast e m = src1_only-Reads (ap (uses_src1 max_vreg) e) m
  op-Reads ir_store e m = store-Reads e m
  op-Reads ir_call e m = call-Reads e m
  op-Reads _ e m = both-Reads (ap (uses_src1 max_vreg) e) (ap (op_between ir_load ir_cmp_ge) e) m

  pub operands_read-Reads : Member o (operands_read inst.op inst) → Reads max_vreg v inst
  operands_read-Reads m = op-Reads inst.op refl m
