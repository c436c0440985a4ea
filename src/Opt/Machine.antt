-- ===== src/Opt/Machine.antt =====
-- A machine for functions: registers, and a state of everything else (memory, files). The tables
-- say, for each operation, which operands the code of src/codegen_x86.c reads, whether it writes
-- `dest`, and whether it does nothing but that. What it computes and does is a parameter.
use winds.Base.{ℕ, Bool, true, false, ◌&&◌, List, [], ◌∷◌, map, if◌then◌else◌}
use winds.Base.Int.{ℤ, int_eq, is_positive}
use winds.Ir.{
  IrOp, ir_label, ir_imm, ir_str, ir_mov, ir_load, ir_store, ir_load_stack, ir_store_stack,
  ir_addr_stack, ir_jmp, ir_jmp_if_zero, ir_jmp_if_not_zero, ir_call, ir_ret, ir_addr_global,
  ir_load_global, ir_store_global, ir_cast, IrOperand, IrInst,
}

-- The operands whose registers are read; an address in `dest` is read, not written.
unfoldable pub operands_read : IrOp → IrInst → List IrOperand
operands_read ir_label inst = []
operands_read ir_imm inst = []
operands_read ir_str inst = []
operands_read ir_mov inst = inst.src1 ∷ []
operands_read ir_load inst = inst.src1 ∷ []
operands_read ir_store inst = inst.src1 ∷ inst.dest ∷ []
operands_read ir_load_stack inst = []
operands_read ir_store_stack inst = inst.src1 ∷ []
operands_read ir_addr_stack inst = []
operands_read ir_jmp inst = []
operands_read ir_jmp_if_zero inst = inst.src1 ∷ []
operands_read ir_jmp_if_not_zero inst = inst.src1 ∷ []
operands_read ir_call inst = inst.src1 ∷ inst.call_args
operands_read ir_ret inst = inst.src1 ∷ []
operands_read ir_addr_global inst = []
operands_read ir_load_global inst = []
operands_read ir_store_global inst = inst.src1 ∷ []
operands_read ir_cast inst = inst.src1 ∷ []
operands_read _ inst = inst.src1 ∷ inst.src2 ∷ []

-- The operations that write `dest`.
unfoldable pub writes_dest : IrOp → Bool
writes_dest ir_label = false
writes_dest ir_store = false
writes_dest ir_store_stack = false
writes_dest ir_jmp = false
writes_dest ir_jmp_if_zero = false
writes_dest ir_jmp_if_not_zero = false
writes_dest ir_ret = false
writes_dest ir_store_global = false
writes_dest _ = true

-- The operations that change more than a register.
unfoldable pub has_effect : IrOp → Bool
has_effect ir_store = true
has_effect ir_store_stack = true
has_effect ir_call = true
has_effect ir_ret = true
has_effect ir_store_global = true
has_effect _ = false

-- The contents of the virtual registers.
abbrev pub Contents : Type 0
Contents = ℤ → ℕ

-- What is read of an operand: its register, where it has one. An immediate is part of the
-- instruction.
unfoldable pub content_of : Contents → IrOperand → ℕ
content_of regs o = if is_positive o.vreg then regs o.vreg else 0

unfoldable pub read_all : Contents → List IrOperand → List ℕ
read_all regs os = map (content_of regs) os

-- The registers after an instruction that computed `n`.
unfoldable pub write_dest : IrInst → ℕ → Contents → Contents
write_dest inst n regs v =
    if writes_dest inst.op && (is_positive v && int_eq v inst.dest.vreg) then n else regs v

module _ {W : Type 0} (value : IrInst → List ℕ → W → ℕ) (effect : IrInst → List ℕ → W → W) where
  -- What an instruction does, given what it read.
  unfoldable pub act : IrInst → Contents × W → Contents × W
  act inst s =
      let xs = read_all s.0 (operands_read inst.op inst) in
      (
        write_dest inst (value inst xs s.1) s.0,
        if has_effect inst.op then effect inst xs s.1 else s.1,
      )

-- A test of the operand of a branch.
unfoldable pub branch_test : {W : Type 0} → (IrOperand → ℕ → Bool) → IrOperand → Contents × W → Bool
branch_test test o s = test o (content_of s.0 o)
