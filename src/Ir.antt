-- ===== src/Ir.antt =====
-- include/ir.h: the three-address code that lowering builds, the optimiser rewrites and the
-- code generator reads.
pub mod Value
use winds.Base.{ℕ, String, Bool, true, false, Option, none, List, [], leb, ◌==◌, ◌&&◌}
use winds.Base.Int.{ℤ, pos}

-- `IROp`, in the order of the enumeration.
pub data IrOp : Type 0 where
  ir_label ir_imm ir_str ir_mov ir_load ir_store : IrOp
  ir_load_stack ir_store_stack ir_addr_stack : IrOp
  ir_add ir_sub ir_mul ir_div ir_mod ir_and ir_or ir_xor ir_shl ir_shr : IrOp
  ir_cmp_eq ir_cmp_ne ir_cmp_lt ir_cmp_le ir_cmp_gt ir_cmp_ge : IrOp
  ir_jmp ir_jmp_if_zero ir_jmp_if_not_zero ir_call ir_ret : IrOp
  ir_addr_global ir_load_global ir_store_global ir_cast : IrOp

-- `IROperand`. `imm` is the bit pattern of the `int64_t`, below 2 ^ 64; no label is a null pointer.
pub record IrOperand : Type 0 where
  pub vreg : ℤ
  pub imm : ℕ
  pub label : Option String
  pub offset : ℤ
  pub fp_size : ℕ
  pub is_unsigned : Bool
  pub on_stack : Bool

-- `(IROperand){0}`
abbrev pub zero_operand : IrOperand
zero_operand = record {
  vreg = pos 0;
  imm = 0;
  label = none;
  offset = pos 0;
  fp_size = 0;
  is_unsigned = false;
  on_stack = false;
}

-- `IRInst`. The links `next` and `prev` are the order of a list, and `call_arg_count` is the
-- length of `call_args`.
pub record IrInst : Type 0 where
  pub op : IrOp
  pub dest : IrOperand
  pub src1 : IrOperand
  pub src2 : IrOperand
  pub call_args : List IrOperand
  pub size : ℕ
  pub is_unsigned : Bool

-- `IRFunction`, with the instructions from `first_inst` to `last_inst`.
pub record IrFunction : Type 0 where
  pub name : String
  pub mangled_name : String
  pub stack_size : ℕ
  pub is_global : Bool
  pub va_save_offset : ℤ
  pub named_arg_count : ℕ
  pub insts : List IrInst
  pub vreg_count : ℕ

-- `make_inst` of src/ir.c: an instruction with nothing but its operation.
abbrev pub make_inst : IrOp → IrInst
make_inst op = record {
  op = op;
  dest = zero_operand;
  src1 = zero_operand;
  src2 = zero_operand;
  call_args = [];
  size = 0;
  is_unsigned = false;
}

-- `op == IR_CALL`
abbrev pub is_call : IrOp → Bool
is_call ir_call = true
is_call _ = false

-- `op == IR_LABEL`
abbrev pub is_label : IrOp → Bool
is_label ir_label = true
is_label _ = false

-- `op == IR_JMP || op == IR_JMP_IF_ZERO || op == IR_JMP_IF_NOT_ZERO`
abbrev pub is_jump : IrOp → Bool
is_jump ir_jmp = true
is_jump ir_jmp_if_zero = true
is_jump ir_jmp_if_not_zero = true
is_jump _ = false

-- The values of the enumeration.
abbrev pub op_index : IrOp → ℕ
op_index ir_label = 0
op_index ir_imm = 1
op_index ir_str = 2
op_index ir_mov = 3
op_index ir_load = 4
op_index ir_store = 5
op_index ir_load_stack = 6
op_index ir_store_stack = 7
op_index ir_addr_stack = 8
op_index ir_add = 9
op_index ir_sub = 10
op_index ir_mul = 11
op_index ir_div = 12
op_index ir_mod = 13
op_index ir_and = 14
op_index ir_or = 15
op_index ir_xor = 16
op_index ir_shl = 17
op_index ir_shr = 18
op_index ir_cmp_eq = 19
op_index ir_cmp_ne = 20
op_index ir_cmp_lt = 21
op_index ir_cmp_le = 22
op_index ir_cmp_gt = 23
op_index ir_cmp_ge = 24
op_index ir_jmp = 25
op_index ir_jmp_if_zero = 26
op_index ir_jmp_if_not_zero = 27
op_index ir_call = 28
op_index ir_ret = 29
op_index ir_addr_global = 30
op_index ir_load_global = 31
op_index ir_store_global = 32
op_index ir_cast = 33

-- `op == o`
abbrev pub is_op : IrOp → IrOp → Bool
is_op op o = op_index op == op_index o

-- `op >= lo && op <= hi`
abbrev pub op_between : IrOp → IrOp → IrOp → Bool
op_between lo hi op = leb (op_index lo) (op_index op) && leb (op_index op) (op_index hi)
