-- ===== src/Opt/Dce.antt =====
-- src/opt.c: opt_dead_code_elimination, which removes pure instructions whose result is not used.
pub mod Uses
pub mod Operands
pub mod Agrees
pub mod Runs
use winds.Base.{
  ℕ, suc, ◌+◌, Bool, true, false, not, ◌&&◌, ◌||◌, Option, none, some, List, [], ◌∷◌, if◌then◌else◌,
  ◌==◌,
}
use winds.Ir.{
  IrOp, ir_label, ir_imm, ir_str, ir_mov, ir_load, ir_store, ir_load_stack, ir_addr_stack, ir_add,
  ir_cmp_ge, ir_call, ir_addr_global, IrOperand, IrInst, IrFunction, is_op, op_between,
}
use winds.Opt.Vreg.{reg_below}

-- `use_count`
abbrev pub UseCount : Type 0
UseCount = ℕ → ℕ

-- `use_count[r]++` for a register in range.
unfoldable pub count_reg : UseCount → Option ℕ → UseCount
count_reg use_count none v = use_count v
count_reg use_count (some r) v = if v == r then suc (use_count v) else use_count v

module _ (max_vreg : ℕ) where
  -- The operand is counted if the condition holds.
  unfoldable pub count_if : Bool → IrOperand → UseCount → UseCount
  count_if true o use_count = count_reg use_count (reg_below max_vreg o.vreg)
  count_if false o use_count = use_count

  unfoldable pub count_args : Bool → List IrOperand → UseCount → UseCount
  count_args when [] use_count = use_count
  count_args when (o ∷ os) use_count = count_args when os (count_if when o use_count)

  -- The conditions under which an instruction uses `src1`, also as the target of an indirect call.
  abbrev pub uses_src1 : IrOp → Bool
  uses_src1 op = not (is_op op ir_label || is_op op ir_str || is_op op ir_addr_stack)

  abbrev pub is_indirect : IrInst → Bool
  is_indirect inst = is_op inst.op ir_call && elim inst.src1.label [ none ↦ true | some _ ↦ false ]

  -- The body of the first loop. The target of an indirect call is counted twice.
  unfoldable pub count_inst : IrInst → UseCount → UseCount
  count_inst inst use_count = count_args (is_op inst.op ir_call) inst.call_args (
      count_if (is_indirect inst) inst.src1 (
        count_if (is_op inst.op ir_store) inst.dest (
          count_if (op_between ir_load ir_cmp_ge inst.op) inst.src2
            (count_if (uses_src1 inst.op) inst.src1 use_count))))

  unfoldable pub count_uses : List IrInst → UseCount → UseCount
  count_uses [] use_count = use_count
  count_uses (inst ∷ rest) use_count = count_uses rest (count_inst inst use_count)

  unfoldable pub is_pure : IrOp → Bool
  is_pure op =
      is_op op ir_imm
      || is_op op ir_str
      || is_op op ir_mov
      || is_op op ir_load_stack
      || is_op op ir_addr_stack
      || is_op op ir_addr_global
      || op_between ir_add ir_cmp_ge op

  -- `use_count` of a register in range is 0.
  unfoldable pub is_unused : UseCount → Option ℕ → Bool
  is_unused use_count none = false
  is_unused use_count (some d) = use_count d == 0

  unfoldable pub is_dead : UseCount → IrInst → Bool
  is_dead use_count inst =
      is_pure inst.op && is_unused use_count (reg_below max_vreg inst.dest.vreg)

  -- The second loop: the instructions that stay, and whether one was removed.
  unfoldable pub remove_dead : UseCount → List IrInst → List IrInst × Bool
  remove_dead use_count [] = ([], false)
  remove_dead use_count (inst ∷ rest) =
      let (kept, changed) = remove_dead use_count rest in
      if is_dead use_count inst then (kept, true) else (inst ∷ kept, changed)

unfoldable pub opt_dead_code_elimination : IrFunction → List IrInst × Bool
opt_dead_code_elimination fn =
    let max_vreg = fn.vreg_count + 32 in
    remove_dead max_vreg (count_uses max_vreg fn.insts (λ _. 0)) fn.insts
