-- ===== src/Opt/Forward.antt =====
-- src/opt.c: opt_store_load_forwarding, which replaces a load from a stack slot by what was stored.
pub mod Table
pub mod Escapes
pub mod Describes
pub mod Sound
use winds.Base.{
  ℕ, ◌+◌, ◌/◌, Bool, false, true, ◌&&◌, ◌||◌, Option, none, some, List, [], ◌∷◌, if◌then◌else◌, ltb,
  map,
}
use winds.Base.Int.{ℤ, pos, int_eq, is_positive}
use winds.Ir.{
  IrOp, ir_label, ir_imm, ir_mov, ir_store, ir_load_stack, ir_store_stack, ir_addr_stack, ir_call,
  IrOperand, IrInst, IrFunction, is_op,
}
use Table.{
  StackFwdSlot, StackFwdTable, stack_fwd_get, stack_fwd_get_or_create, with_slot,
  stack_fwd_invalidate_all, stack_fwd_invalidate_escaped, stack_fwd_invalidate_vreg,
}

-- `stack_size / 4 + 64` entries, or 64.
unfoldable pub capacity_of : ℕ → ℕ
capacity_of stack_size = if ltb 0 stack_size then stack_size / 4 + 64 else 64

-- `slot->addr_escaped = true`
abbrev pub escape : StackFwdSlot → StackFwdSlot
escape s = record s { addr_escaped = true }

-- Step 1: the offsets whose address is taken.
unfoldable pub record_escapes : ℕ → List IrInst → StackFwdTable → StackFwdTable
record_escapes capacity [] table = table
record_escapes capacity (inst ∷ rest) table = record_escapes capacity rest (
    if is_op inst.op ir_addr_stack
    then with_slot (stack_fwd_get_or_create capacity table inst.src1.offset) inst.src1.offset escape
    else table)

-- The slot after a store of the operand.
unfoldable pub stored : IrOperand → StackFwdSlot → StackFwdSlot
stored o s =
    if is_positive o.vreg
    then record s { vreg = o.vreg; imm = 0; is_const = false; valid = true }
    else if int_eq o.vreg (pos 0)
    then record s { vreg = pos 0; imm = o.imm; is_const = true; valid = true }
    else s

-- A load, with the slot that it finds.
unfoldable pub forward_load : IrInst → Option StackFwdSlot → IrInst × Bool
forward_load inst none = (inst, false)
forward_load inst (some s) =
    if s.valid
    then if s.is_const
      then (
        record inst {
          op = ir_imm;
          src1 = record (inst.src1) { vreg = pos 0; imm = s.imm; label = none; offset = pos 0 };
        },
        true,
      )
      else if is_positive s.vreg
      then (
        record inst {
          op = ir_mov;
          src1 = record (inst.src1) { vreg = s.vreg; imm = 0; label = none; offset = pos 0 };
        },
        true,
      )
      else (inst, false)
    else (inst, false)

-- The instruction in its new form, whether it changed, and the table after it.
abbrev pub Forwarded : Type 0
Forwarded = (IrInst × Bool) × StackFwdTable

-- The body of the loop of step 2, by operation.
unfoldable pub forward_op : ℕ → IrOp → IrInst → StackFwdTable → Forwarded
forward_op capacity ir_label inst table = ((inst, false), stack_fwd_invalidate_all table)
forward_op capacity ir_call inst table = ((inst, false), stack_fwd_invalidate_all table)
forward_op capacity ir_store inst table = ((inst, false), stack_fwd_invalidate_escaped table)
forward_op capacity ir_store_stack inst table = (
  (inst, false),
  with_slot (stack_fwd_get_or_create capacity table inst.dest.offset) inst.dest.offset
      (stored inst.src1),
)
forward_op capacity ir_load_stack inst table =
    (forward_load inst (stack_fwd_get table inst.src1.offset), table)
forward_op capacity _ inst table = (
  (inst, false),
  if is_positive inst.dest.vreg then stack_fwd_invalidate_vreg table inst.dest.vreg else table,
)

unfoldable pub forward_loop : ℕ → List IrInst → StackFwdTable → List IrInst × Bool
forward_loop capacity [] table = ([], false)
forward_loop capacity (inst ∷ rest) table =
    let r = forward_op capacity inst.op inst table in
    let (rest', changed) = forward_loop capacity rest r.1 in (r.0.0 ∷ rest', r.0.1 || changed)

unfoldable pub opt_store_load_forwarding : IrFunction → List IrInst × Bool
opt_store_load_forwarding fn =
    let capacity = capacity_of fn.stack_size in
    forward_loop capacity fn.insts (record_escapes capacity fn.insts [])
