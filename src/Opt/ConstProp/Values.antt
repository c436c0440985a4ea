-- ===== src/Opt/ConstProp/Values.antt =====
-- What instructions compute over the registers and the stack slots.
use winds.Base.{ℕ, ◌≡◌, sym, ◌∙◌, Bool, true, false, Option, none, some, arith, not}
use winds.Base.Int.{ℤ, pos}
use winds.Ir.{
  IrOp, ir_label, ir_imm, ir_mov, ir_store, ir_load_stack, ir_store_stack, ir_add, ir_cmp_ge,
  ir_call, IrInst, op_between,
}
use winds.Ir.Value.{Regs, operand_value, binary_value, op_value}
use winds.Opt.Values.{StoresTo, value_at}

-- The slots after an instruction: unknown after a join of control flow, a call or a store through
-- a pointer.
abbrev pub Next : IrOp → Regs → (ℤ → ℕ) → (ℤ → ℕ) → IrInst → Type 0
Next ir_label regs slots slots' inst = Unit
Next ir_call regs slots slots' inst = Unit
Next ir_store regs slots slots' inst = Unit
Next ir_store_stack regs slots slots' inst = StoresTo regs slots slots' inst.dest.offset inst.src1
Next _ regs slots slots' inst = (o : ℤ) → slots' o ≡ slots o

-- Signed integer arithmetic, where the instruction is arithmetic.
abbrev pub IsSigned : IrInst → Type 0
IsSigned inst =
    op_between ir_add ir_cmp_ge inst.op ≡ true
    → (inst.is_unsigned ≡ false) × (inst.src1.fp_size ≡ 0)

abbrev pub HoldsConsts : Regs → (ℕ → Option ℕ) → Type 0
HoldsConsts regs consts = (v n : ℕ) → consts v ≡ some n → regs (pos v) ≡ n

-- The instructions that have no integer value.
abbrev pub has_no_value : IrOp → Bool
has_no_value ir_imm = false
has_no_value ir_mov = false
has_no_value ir_load_stack = false
has_no_value op = not (op_between ir_add ir_cmp_ge op)

pub value_at-none :
    (op : IrOp) (regs : Regs) (slots : ℤ → ℕ) (inst : IrInst)
    → has_no_value op ≡ true
    → value_at op regs slots inst ≡ none
unfolding op_value binary_value
value_at-none ir_imm regs slots inst h = cc
value_at-none _ regs slots inst h = ground arith

pub value_at-same :
    (op : IrOp) (regs : Regs) (slots : ℤ → ℕ) (a b : IrInst)
    → has_no_value op ≡ true
    → value_at op regs slots a ≡ value_at op regs slots b
value_at-same op regs slots a b h =
    value_at-none op regs slots a h ∙ sym (value_at-none op regs slots b h)

pub value_at-arith :
    (op : IrOp) (regs : Regs) (slots : ℤ → ℕ) (inst : IrInst)
    → op_between ir_add ir_cmp_ge op ≡ true
    → inst.is_unsigned ≡ false
    → inst.src1.fp_size ≡ 0
    → value_at op regs slots inst
      ≡ binary_value op false (operand_value regs inst.src1) (operand_value regs inst.src2)
unfolding op_value
value_at-arith ir_imm regs slots inst h u f = ground arith
value_at-arith ir_mov regs slots inst h u f = ground arith
value_at-arith ir_load_stack regs slots inst h u f = ground arith
value_at-arith _ regs slots inst h u f = rw u (ground arith)
