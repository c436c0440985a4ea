-- ===== src/Opt/Algebraic.antt =====
-- `opt_algebraic_simplification`: one instruction at a time, by operation.
pub mod Power
mod Keeps
pub mod Sound
use Prim.Native.Nat.{bit_and}
use winds.Base.{
  ℕ, zero, suc, ◌-◌, ◌/◌, ◌<◌, Bool, true, false, ◌&&◌, ◌||◌, Option, none, some, List, [], ◌∷◌,
  if◌then◌else◌, ltb, leb, ◌==◌,
}
use winds.Base.Int.{ℤ, pos, int_eq, is_positive}
use winds.Base.Word.{minus_one, sign_bit}
use winds.Ir.{
  IrOp, ir_imm, ir_mov, ir_add, ir_sub, ir_mul, ir_div, ir_mod, ir_and, ir_or, ir_xor, ir_shl,
  ir_shr, ir_cmp_eq, ir_cmp_ne, ir_cmp_lt, ir_cmp_le, ir_cmp_gt, ir_cmp_ge, IrOperand, IrInst,
  zero_operand,
}

-- `vreg == 0 && imm == n`
abbrev pub is_imm_of : IrOperand → ℕ → Bool
is_imm_of o n = int_eq o.vreg (pos 0) && o.imm == n

-- `vreg == 0`
abbrev pub is_imm : IrOperand → Bool
is_imm o = int_eq o.vreg (pos 0)

abbrev pub same_reg : IrInst → Bool
same_reg inst = is_positive inst.src1.vreg && int_eq inst.src1.vreg inst.src2.vreg

-- The rewrites that the cases share, each with `changed = true`.
abbrev pub keep : IrInst → IrInst × Bool
keep inst = (inst, false)

abbrev pub to_mov : IrInst → IrInst × Bool
to_mov inst = (record inst { op = ir_mov; src2 = zero_operand }, true)

abbrev pub to_mov_src2 : IrInst → IrInst × Bool
to_mov_src2 inst = (record inst { op = ir_mov; src1 = inst.src2; src2 = zero_operand }, true)

abbrev pub to_imm : IrInst → ℕ → IrInst × Bool
to_imm inst n = (
  record inst {
    op = ir_imm;
    src1 = record (inst.src1) { vreg = pos 0; imm = n };
    src2 = zero_operand;
  },
  true,
)

-- 0 - value
abbrev pub to_neg : IrInst → IrOperand → IrInst × Bool
to_neg inst value = (record inst { op = ir_sub; src1 = zero_operand; src2 = value }, true)

pub simplify_add : IrInst → IrInst × Bool
simplify_add inst =
    if is_imm_of inst.src2 0
    then to_mov inst
    else if is_imm_of inst.src1 0
    then to_mov_src2 inst
    else keep inst

pub simplify_sub : IrInst → IrInst × Bool
simplify_sub inst =
    if is_imm_of inst.src2 0
    then to_mov inst
    else if same_reg inst
    then to_imm inst 0
    else keep inst

-- `imm > 1 && (imm & (imm - 1)) == 0`, signed.
pub is_power : IrOperand → Bool
is_power o = is_imm o && ltb 1 o.imm && ltb o.imm sign_bit && bit_and o.imm (o.imm - 1) == 0

-- `k = 0; while ((tmp >>= 1) > 0) k++`; the fuel is one round for each bit of a word.
pub shift_count : ℕ → ℕ → ℕ
shift_count zero tmp = 0
shift_count (suc fuel) tmp =
    let rest = shift_count fuel (tmp / 2) in if ltb 0 (tmp / 2) then suc rest else 0

-- x << k for `value` times the power of two `n`.
pub to_shift : IrInst → IrOperand → ℕ → IrInst × Bool
to_shift inst value n =
    let k = shift_count 64 n in
    if leb 1 k && leb k 62
    then (
      record inst {
        op = ir_shl;
        src1 = value;
        src2 = record (inst.src2) { vreg = pos 0; imm = k };
      },
      true,
    )
    else keep inst

pub simplify_mul : IrInst → IrInst × Bool
simplify_mul inst =
    if is_imm_of inst.src2 minus_one || is_imm_of inst.src1 minus_one
    then to_neg inst (if is_imm_of inst.src2 minus_one then inst.src1 else inst.src2)
    else if is_imm_of inst.src2 0 || is_imm_of inst.src1 0
    then to_imm inst 0
    else if is_imm_of inst.src2 1
    then to_mov inst
    else if is_imm_of inst.src1 1
    then to_mov_src2 inst
    else if is_power inst.src2
    then to_shift inst inst.src1 inst.src2.imm
    else if is_power inst.src1
    then to_shift inst inst.src2 inst.src1.imm
    else keep inst

pub simplify_div : IrInst → IrInst × Bool
simplify_div inst =
    if is_imm_of inst.src2 minus_one
    then to_neg inst inst.src1
    else if is_imm_of inst.src2 1
    then to_mov inst
    else if is_imm_of inst.src1 0
        && ((if is_imm inst.src2 then false else true)
            || (if inst.src2.imm == 0 then false else true))
    then to_imm inst 0
    else if same_reg inst
    then to_imm inst 1
    else keep inst

pub simplify_mod : IrInst → IrInst × Bool
simplify_mod inst =
    if is_imm_of inst.src2 1
    then to_imm inst 0
    else if same_reg inst
    then to_imm inst 0
    else if is_imm_of inst.src1 0
        && ((if is_imm inst.src2 then false else true)
            || (if inst.src2.imm == 0 then false else true))
    then to_imm inst 0
    else keep inst

pub simplify_and : IrInst → IrInst × Bool
simplify_and inst =
    if is_imm_of inst.src2 0 || is_imm_of inst.src1 0
    then to_imm inst 0
    else if same_reg inst
    then to_mov inst
    else if is_imm_of inst.src2 minus_one
    then to_mov inst
    else if is_imm_of inst.src1 minus_one
    then to_mov_src2 inst
    else keep inst

pub simplify_or : IrInst → IrInst × Bool
simplify_or inst =
    if is_imm_of inst.src2 0
    then to_mov inst
    else if is_imm_of inst.src1 0
    then to_mov_src2 inst
    else if same_reg inst
    then to_mov inst
    else if is_imm_of inst.src2 minus_one || is_imm_of inst.src1 minus_one
    then to_imm inst minus_one
    else keep inst

pub simplify_xor : IrInst → IrInst × Bool
simplify_xor inst =
    if is_imm_of inst.src2 0
    then to_mov inst
    else if is_imm_of inst.src1 0
    then to_mov_src2 inst
    else if same_reg inst
    then to_imm inst 0
    else keep inst

-- IR_SHL and IR_SHR
pub simplify_shift : IrInst → IrInst × Bool
simplify_shift inst =
    if is_imm_of inst.src2 0
    then to_mov inst
    else if is_imm_of inst.src1 0
    then to_imm inst 0
    else keep inst

-- A comparison of a register with itself is `n`.
pub simplify_cmp : IrInst → ℕ → IrInst × Bool
simplify_cmp inst n = if same_reg inst then to_imm inst n else keep inst

pub simplify_op : IrOp → IrInst → IrInst × Bool
simplify_op ir_add inst = simplify_add inst
simplify_op ir_sub inst = simplify_sub inst
simplify_op ir_mul inst = simplify_mul inst
simplify_op ir_div inst = simplify_div inst
simplify_op ir_mod inst = simplify_mod inst
simplify_op ir_and inst = simplify_and inst
simplify_op ir_or inst = simplify_or inst
simplify_op ir_xor inst = simplify_xor inst
simplify_op ir_shl inst = simplify_shift inst
simplify_op ir_shr inst = simplify_shift inst
simplify_op ir_cmp_eq inst = simplify_cmp inst 1
simplify_op ir_cmp_ne inst = simplify_cmp inst 0
simplify_op ir_cmp_lt inst = simplify_cmp inst 0
simplify_op ir_cmp_le inst = simplify_cmp inst 1
simplify_op ir_cmp_gt inst = simplify_cmp inst 0
simplify_op ir_cmp_ge inst = simplify_cmp inst 1
simplify_op _ inst = keep inst

-- The pass: the new instructions, and whether one changed.
pub opt_algebraic_simplification : List IrInst → List IrInst × Bool
opt_algebraic_simplification [] = ([], false)
opt_algebraic_simplification (inst ∷ rest) =
    let (inst', changed) = simplify_op inst.op inst in
    let (rest', changed') = opt_algebraic_simplification rest in
    (inst' ∷ rest', changed || changed')
