-- ===== src/Opt/ConstProp/Step.antt =====
-- src/opt.c: what opt_constant_propagation does with one instruction.
use winds.Base.{
  ℕ, Bool, true, false, ◌&&◌, ◌||◌, Option, none, some, List, [], ◌∷◌, if◌then◌else◌, ◌==◌,
}
use winds.Base.Int.{pos, int_eq}
use winds.Ir.{
  IrOp, ir_label, ir_imm, ir_mov, ir_store, ir_load_stack, ir_store_stack, ir_addr_stack, ir_add,
  ir_cmp_ge, ir_jmp_if_zero, ir_jmp_if_not_zero, ir_call, ir_ret, IrOperand, IrInst, op_between,
}
use winds.Opt.Vreg.{reg_below}
use winds.Opt.ConstProp.Table.{
  StackConstTable, stack_const_set, stack_const_invalidate, stack_const_get,
}
use winds.Opt.ConstProp.Fold.{Folded, value, unfolded, trapped, fold}

-- `consts`, in which a register that is not constant has `none`, and `stack_table`.
pub record ConstState : Type 0 where
  pub consts : ℕ → Option ℕ
  pub table : StackConstTable

-- The instruction in its new form, the state after it, and whether it changed.
abbrev pub Stepped : Type 0
Stepped = IrInst × (ConstState × Bool)

-- `consts[d].is_const = true; consts[d].val = val`
unfoldable pub set_const : (ℕ → Option ℕ) → Option ℕ → ℕ → ℕ → Option ℕ
set_const consts none val v = consts v
set_const consts (some d) val v = if v == d then some val else consts v

-- The register, if `def_count` of it is 1.
unfoldable pub defined_once : (ℕ → ℕ) → Option ℕ → Option ℕ
defined_once def_count none = none
defined_once def_count (some d) = if def_count d == 1 then some d else none

-- The constant in a register.
unfoldable pub const_of : (ℕ → Option ℕ) → Option ℕ → Option ℕ
const_of consts none = none
const_of consts (some r) = consts r

-- The operand as a constant, if there is one.
unfoldable pub replace : IrOperand → Option ℕ → IrOperand × Bool
replace o none = (o, false)
replace o (some n) = (record o { vreg = pos 0; imm = n }, true)

module _ (max_vreg : ℕ) (def_count : ℕ → ℕ) where
  unfoldable pub replace_const : (ℕ → Option ℕ) → IrOperand → IrOperand × Bool
  replace_const consts o = replace o (const_of consts (reg_below max_vreg o.vreg))

  unfoldable pub replace_args : (ℕ → Option ℕ) → List IrOperand → List IrOperand × Bool
  replace_args consts [] = ([], false)
  replace_args consts (o ∷ os) =
      let a = replace_const consts o in
      let rest = replace_args consts os in (a.0 ∷ rest.0, a.1 || rest.1)

  -- The destination is recorded as `val` if it is defined once.
  unfoldable pub record_once : ConstState → IrInst → ℕ → ConstState
  record_once s inst val = record s {
    consts = set_const s.consts (defined_once def_count (reg_below max_vreg inst.dest.vreg)) val;
  }

  -- IR_STORE_STACK
  unfoldable pub step_store_stack : ConstState → IrInst → Stepped
  step_store_stack s inst =
      if int_eq inst.src1.vreg (pos 0)
      then (
        inst,
        (record s { table = stack_const_set s.table inst.dest.offset inst.src1.imm }, false),
      )
      else elim (const_of s.consts (reg_below max_vreg inst.src1.vreg)) [
        | none ↦
            (inst, (record s { table = stack_const_invalidate s.table inst.dest.offset }, false))
        | some val ↦ (
          record inst { src1 = record (inst.src1) { vreg = pos 0; imm = val } },
          (record s { table = stack_const_set s.table inst.dest.offset val }, true),
        )
      ]

  -- IR_LOAD_STACK
  unfoldable pub step_load_stack : ConstState → IrInst → Option ℕ → Stepped
  step_load_stack s inst none = (inst, (s, false))
  step_load_stack s inst (some val) = (
    record inst {
      op = ir_imm;
      src1 = record (inst.src1) { vreg = pos 0; imm = val; label = none; offset = pos 0 };
    },
    (record_once s inst val, true),
  )

  -- IR_MOV
  unfoldable pub step_mov : ConstState → IrInst → Option ℕ → Stepped
  step_mov s inst none =
      if int_eq inst.src1.vreg (pos 0)
      then (record inst { op = ir_imm }, (record_once s inst inst.src1.imm, true))
      else (inst, (s, false))
  step_mov s inst (some val) = (
    record inst { op = ir_imm; src1 = record (inst.src1) { vreg = pos 0; imm = val } },
    (record_once s inst val, true),
  )

  -- The end of the arithmetic case, `changed` so far.
  unfoldable pub step_folded : ConstState → IrInst → Bool → Folded → Option Stepped
  step_folded s inst changed (value res) = some (
    record inst {
      op = ir_imm;
      src1 = record (inst.src1) { vreg = pos 0; imm = res };
      src2 = record (inst.src2) { vreg = pos 0; imm = 0 };
    },
    (record s { consts = set_const s.consts (reg_below max_vreg inst.dest.vreg) res }, true),
  )
  step_folded s inst changed unfolded = some (inst, (s, changed))
  step_folded s inst changed trapped = none

  -- Arithmetic and comparisons.
  unfoldable pub step_arith : IrOp → ConstState → IrInst → Option Stepped
  step_arith op s inst =
      let a = replace_const s.consts inst.src1 in
      let b = replace_const s.consts inst.src2 in
      step_folded s (record inst { src1 = a.0; src2 = b.0 }) (a.1 || b.1)
        (if int_eq a.0.vreg (pos 0) && int_eq b.0.vreg (pos 0)
          then fold op a.0.imm b.0.imm
          else unfolded)

  -- IR_RET and the conditional jumps.
  unfoldable pub step_src1 : ConstState → IrInst → Stepped
  step_src1 s inst =
      let a = replace_const s.consts inst.src1 in (record inst { src1 = a.0 }, (s, a.1))

  -- Whatever operation is left, arithmetic or not.
  unfoldable pub step_rest : Bool → IrOp → ConstState → IrInst → Option Stepped
  step_rest true op s inst = step_arith op s inst
  step_rest false op s inst = some (inst, (s, false))

  -- The body of the loop, by operation.
  unfoldable pub step_op : IrOp → ConstState → IrInst → Option Stepped
  step_op ir_label s inst = some (inst, (record s { table = [] }, false))
  step_op ir_call s inst =
      let args = replace_args s.consts inst.call_args in
      some (record inst { call_args = args.0 }, (record s { table = [] }, args.1))
  step_op ir_store s inst = some (step_src1 (record s { table = [] }) inst)
  step_op ir_addr_stack s inst =
      some (inst, (record s { table = stack_const_invalidate s.table inst.src1.offset }, false))
  step_op ir_store_stack s inst = some (step_store_stack s inst)
  step_op ir_load_stack s inst =
      some (step_load_stack s inst (stack_const_get s.table inst.src1.offset))
  step_op ir_imm s inst = some (inst, (record_once s inst inst.src1.imm, false))
  step_op ir_mov s inst =
      some (step_mov s inst (const_of s.consts (reg_below max_vreg inst.src1.vreg)))
  step_op ir_ret s inst = some (step_src1 s inst)
  step_op ir_jmp_if_zero s inst = some (step_src1 s inst)
  step_op ir_jmp_if_not_zero s inst = some (step_src1 s inst)
  step_op op s inst = step_rest (op_between ir_add ir_cmp_ge op) op s inst

  unfoldable pub const_step : ConstState → IrInst → Option Stepped
  const_step s inst = step_op inst.op s inst
