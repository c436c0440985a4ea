-- ===== src/Opt/Cfg.antt =====
-- src/opt.c: opt_cfg_optimization, which simplifies branches on constants, removes jumps to the next
-- instruction, threads jumps to jumps and removes labels that nothing jumps to.
pub mod Branches
pub mod DeadJumps
pub mod Threading
pub mod Unused
pub mod Distinct
pub mod Sound
use winds.Base.{
  ℕ, zero, suc, String, Bool, true, false, not, ◌&&◌, ◌||◌, Option, none, some, List, [], ◌∷◌, ◌++◌,
  if◌then◌else◌, ◌==◌,
}
use text.Mathlib.Text.{◌==◌ as str_eq}
use winds.Base.Int.{pos, int_eq}
use winds.Ir.{
  IrOp, ir_label, ir_jmp, ir_jmp_if_zero, ir_jmp_if_not_zero, IrInst, zero_operand, is_op,
}
use winds.Opt.Dead.{ends_flow}
use winds.Opt.Flow.{same_label, is_conditional, is_branch, after_label}

-- Whether a conditional branch on a constant is taken.
unfoldable pub constant_branch : IrInst → Option Bool
constant_branch inst =
    if is_op inst.op ir_jmp_if_zero && int_eq inst.src1.vreg (pos 0)
    then some (inst.src1.imm == 0)
    else if is_op inst.op ir_jmp_if_not_zero && int_eq inst.src1.vreg (pos 0)
    then some (not (inst.src1.imm == 0))
    else none

-- `inst->op = IR_JMP; inst->src1 = (IROperand){0};`
abbrev pub always_jump : IrInst → IrInst
always_jump inst = record inst { op = ir_jmp; src1 = zero_operand }

-- Step 1.
unfoldable pub simplify_branches : List IrInst → List IrInst × Bool
simplify_branches [] = ([], false)
simplify_branches (inst ∷ rest) =
    let (rest', changed) = simplify_branches rest in
    elim (constant_branch inst) [
      | none ↦ (inst ∷ rest', changed)
      | some true ↦ (always_jump inst ∷ rest', true)
      | some false ↦ (rest', true)
    ]

-- A branch to a label that comes next.
unfoldable pub is_dead_jump : IrInst → List IrInst → Bool
is_dead_jump inst [] = false
is_dead_jump inst (next ∷ rest) =
    is_branch inst.op && (is_op next.op ir_label && same_label inst.dest.label next.dest.label)

-- Step 2.
unfoldable pub remove_dead_jumps : List IrInst → List IrInst × Bool
remove_dead_jumps [] = ([], false)
remove_dead_jumps (inst ∷ rest) =
    let (rest', changed) = remove_dead_jumps rest in
    if is_dead_jump inst rest then (rest', true) else (inst ∷ rest', changed)

-- The label, if it is another one than `curr`.
unfoldable pub other_label : String → Option String → Option String
other_label curr none = none
other_label curr (some l) = if str_eq l curr then none else some l

-- The label that the first of the instructions, a jump, goes to, if it is another one than `curr`.
unfoldable pub jump_from : String → Option (List IrInst) → Option String
jump_from curr none = none
jump_from curr (some []) = none
jump_from curr (some (next ∷ rest)) =
    if is_op next.op ir_jmp then other_label curr next.dest.label else none

-- The rounds of the loop that follows jumps.
unfoldable pub thread_hops : ℕ → List IrInst → String → String
thread_hops zero code curr = curr
thread_hops (suc n) code curr = elim (jump_from curr (after_label code curr)) [
  | none ↦ curr
  | some l ↦ thread_hops n code l
]

unfoldable pub thread_jump_target : List IrInst → Option String → Option String
thread_jump_target code none = none
thread_jump_target code (some target) = some (thread_hops 8 code target)

abbrev pub with_label : IrInst → Option String → IrInst
with_label inst l = record inst { dest = record (inst.dest) { label = l } }

-- The branch with its label replaced by the target, if there is one and it is another label.
unfoldable pub thread_to : IrInst → Option String → IrInst × Bool
thread_to inst none = (inst, false)
thread_to inst (some target) =
    if same_label (some target) inst.dest.label
    then (inst, false)
    else (with_label inst (some target), true)

-- The body of the loop of step 3, for an instruction of the function `code`.
unfoldable pub thread_inst : List IrInst → IrInst → IrInst × Bool
thread_inst code inst =
    if is_branch inst.op
    then thread_to inst (thread_jump_target code inst.dest.label)
    else (inst, false)

-- Step 3; `before` are the instructions that it has been through.
unfoldable pub thread_jumps : List IrInst → List IrInst → List IrInst × Bool
thread_jumps before [] = (before, false)
thread_jumps before (inst ∷ rest) =
    let (inst', threaded) = thread_inst (before ++ (inst ∷ rest)) inst in
    let (out, changed) = thread_jumps (before ++ (inst' ∷ [])) rest in (out, threaded || changed)

-- Some branch goes to the label.
unfoldable pub is_referenced : List IrInst → Option String → Bool
is_referenced [] l = false
is_referenced (other ∷ rest) l =
    (is_branch other.op && same_label other.dest.label l) || is_referenced rest l

-- There is no instruction before, or control goes on from it.
abbrev pub falls_into : Option IrOp → Bool
falls_into none = true
falls_into (some op) = not (ends_flow op)

-- The label is no null pointer.
abbrev pub is_named : Option String → Bool
is_named none = false
is_named (some _) = true

-- A label that can go: it has a name, no branch of `code` goes to it, and control falls into it
-- from the instruction before.
unfoldable pub is_unused_label : List IrInst → Option IrOp → IrInst → Bool
is_unused_label code prev inst =
    is_op inst.op ir_label
    && (is_named inst.dest.label && (not (is_referenced code inst.dest.label) && falls_into prev))

-- Step 4. The branches of the function stay, so those of `code`, the function at the start of the
-- step, are those of each later time. `prev` is the operation before the rest.
unfoldable pub remove_unused_labels : List IrInst → Option IrOp → List IrInst → List IrInst × Bool
remove_unused_labels code prev [] = ([], false)
remove_unused_labels code prev (inst ∷ rest) =
    let unused = is_unused_label code prev inst in
    let (rest', changed) = remove_unused_labels code (if unused then prev else some inst.op) rest in
    if unused then (rest', true) else (inst ∷ rest', changed)

unfoldable pub opt_cfg_optimization : List IrInst → List IrInst × Bool
opt_cfg_optimization insts =
    let (simplified, changed1) = simplify_branches insts in
    let (live, changed2) = remove_dead_jumps simplified in
    let (threaded, changed3) = thread_jumps [] live in
    let (out, changed4) = remove_unused_labels threaded none threaded in
    (out, changed1 || (changed2 || (changed3 || changed4)))
