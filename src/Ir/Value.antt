-- ===== src/Ir/Value.antt =====
-- What the machine code that src/codegen_x86.c emits for an integer instruction puts into its
-- destination: the reference that the optimiser's rewrites are held to.
use Prim.Native.Nat.{bit_and, bit_or, bit_xor}
use winds.Base.{ℕ, ◌/◌, ◌%◌, Bool, not, ◌&&◌, ◌||◌, Option, none, some, if◌then◌else◌, ltb, ◌==◌}
use winds.Base.Int.{ℤ, pos, int_eq}
use winds.Base.Word.{
  add64, sub64, mul64, sdiv64, smod64, shl64, sar64, shr64, slt64, word_of, sign_bit, minus_one,
}
use winds.Ir.{
  IrOp, ir_imm, ir_mov, ir_add, ir_sub, ir_mul, ir_div, ir_mod, ir_and, ir_or, ir_xor, ir_shl,
  ir_shr, ir_cmp_eq, ir_cmp_ne, ir_cmp_lt, ir_cmp_le, ir_cmp_gt, ir_cmp_ge, IrOperand, IrInst,
  op_between,
}

-- The virtual registers.
abbrev pub Regs : Type 0
Regs = ℤ → ℕ

unfoldable pub operand_value : Regs → IrOperand → ℕ
operand_value regs o = if int_eq o.vreg (pos 0) then o.imm else regs o.vreg

-- `idivq` and `divq` trap at a zero divisor, and `idivq` where the quotient does not fit.
abbrev pub divides : Bool → ℕ → ℕ → Bool
divides is_unsigned a b = not (b == 0) && (is_unsigned || not (a == sign_bit && b == minus_one))

-- `none` is a trap, or an operation that is not integer arithmetic.
unfoldable pub binary_value : IrOp → Bool → ℕ → ℕ → Option ℕ
binary_value ir_add u a b = some (add64 a b)
binary_value ir_sub u a b = some (sub64 a b)
binary_value ir_mul u a b = some (mul64 a b)
binary_value ir_div u a b = if divides u a b then some (if u then a / b else sdiv64 a b) else none
binary_value ir_mod u a b = if divides u a b then some (if u then a % b else smod64 a b) else none
binary_value ir_and u a b = some (bit_and a b)
binary_value ir_or u a b = some (bit_or a b)
binary_value ir_xor u a b = some (bit_xor a b)
binary_value ir_shl u a b = some (shl64 a b)
binary_value ir_shr u a b = some (if u then shr64 a b else sar64 a b)
binary_value ir_cmp_eq u a b = some (word_of (a == b))
binary_value ir_cmp_ne u a b = some (word_of (not (a == b)))
binary_value ir_cmp_lt u a b = some (word_of (if u then ltb a b else slt64 a b))
binary_value ir_cmp_le u a b = some (word_of (not (if u then ltb b a else slt64 b a)))
binary_value ir_cmp_gt u a b = some (word_of (if u then ltb b a else slt64 b a))
binary_value ir_cmp_ge u a b = some (word_of (not (if u then ltb a b else slt64 a b)))
binary_value _ u a b = none

-- The operations that are floating arithmetic if their first operand is floating.
abbrev pub may_float : IrOp → Bool
may_float op = op_between ir_add ir_div op || op_between ir_cmp_eq ir_cmp_ge op

-- Arithmetic on a floating operand has no integer value.
unfoldable pub op_value : IrOp → Regs → IrInst → Option ℕ
op_value ir_imm regs inst = some inst.src1.imm
op_value ir_mov regs inst = some (operand_value regs inst.src1)
op_value op regs inst =
    if inst.src1.fp_size == 0 || not (may_float op)
    then binary_value op inst.is_unsigned (operand_value regs inst.src1)
        (operand_value regs inst.src2)
    else none

unfoldable pub inst_value : Regs → IrInst → Option ℕ
inst_value regs inst = op_value inst.op regs inst
