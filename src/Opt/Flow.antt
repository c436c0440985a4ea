-- ===== src/Opt/Flow.antt =====
-- The control flow of a function: the meaning that the passes over branches keep. An instruction
-- that is no branch acts on a state, of which nothing is known.
pub mod Labels
pub mod Ops
use winds.Base.{
  String, ◌≡◌, Bool, true, false, not, ◌&&◌, ◌||◌, Option, none, some, List, [], ◌∷◌, if◌then◌else◌,
}
use text.Mathlib.Text.{◌==◌ as str_eq}
use winds.Ir.{
  IrOp, ir_label, ir_jmp, ir_jmp_if_zero, ir_jmp_if_not_zero, ir_ret, IrOperand, IrInst, is_op,
}

-- `a && b && strcmp(a, b) == 0`
abbrev pub same_label : Option String → Option String → Bool
same_label (some a) (some b) = str_eq a b
same_label _ _ = false

-- `op == IR_JMP_IF_ZERO || op == IR_JMP_IF_NOT_ZERO`
abbrev pub is_conditional : IrOp → Bool
is_conditional op = is_op op ir_jmp_if_zero || is_op op ir_jmp_if_not_zero

-- `op == IR_JMP || op == IR_JMP_IF_ZERO || op == IR_JMP_IF_NOT_ZERO`
abbrev pub is_branch : IrOp → Bool
is_branch op = is_op op ir_jmp || is_conditional op

-- The label of an instruction that is one.
abbrev pub label_of : IrInst → Option String
label_of inst = if is_op inst.op ir_label then inst.dest.label else none

-- What follows the first label of this name.
unfoldable pub after_label : List IrInst → String → Option (List IrInst)
after_label [] name = none
after_label (inst ∷ rest) name =
    let found = after_label rest name in
    if same_label (label_of inst) (some name) then some rest else found

-- Where a branch to the label goes.
abbrev pub goto : List IrInst → Option String → Option (List IrInst)
goto code none = none
goto code (some name) = after_label code name

-- A branch that jumps, given whether its operand is zero.
abbrev pub takes : IrOp → Bool → Bool
takes op z =
    is_op op ir_jmp || ((is_op op ir_jmp_if_zero && z) || (is_op op ir_jmp_if_not_zero && not z))

-- An instruction after which the next one runs, in the same state.
abbrev pub skips : IrOp → Bool → Bool
skips op z =
    is_op op ir_label || ((is_op op ir_jmp_if_zero && not z) || (is_op op ir_jmp_if_not_zero && z))

-- An instruction that only acts on the state.
abbrev pub is_plain : IrOp → Bool
is_plain op = not (is_branch op || (is_op op ir_label || is_op op ir_ret))

-- A run of the function `code` from a place in it: `Exec rest s t` starts before the
-- instructions `rest` in the state `s`, and returns in the state `t`.
pub data Exec {S : Type 0} (act : IrInst → S → S) (is_zero : IrOperand → S → Bool)
    (code : List IrInst) : List IrInst → S → S → Type 0 where
  ends : {s : S} → Exec act is_zero code [] s s
  returns :
      {inst : IrInst} {rest : List IrInst} {s : S}
      → is_op inst.op ir_ret ≡ true
      → Exec act is_zero code (inst ∷ rest) s (act inst s)
  acts :
      {inst : IrInst} {rest : List IrInst} {s t : S}
      → is_plain inst.op ≡ true
      → Exec act is_zero code rest (act inst s) t
      → Exec act is_zero code (inst ∷ rest) s t
  skip :
      {inst : IrInst} {rest : List IrInst} {s t : S}
      → skips inst.op (is_zero inst.src1 s) ≡ true
      → Exec act is_zero code rest s t
      → Exec act is_zero code (inst ∷ rest) s t
  jump :
      {inst : IrInst} {rest target : List IrInst} {s t : S}
      → takes inst.op (is_zero inst.src1 s) ≡ true
      → goto code inst.dest.label ≡ some target
      → Exec act is_zero code target s t
      → Exec act is_zero code (inst ∷ rest) s t
