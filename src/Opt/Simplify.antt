-- ===== src/Opt/Simplify.antt =====
-- src/opt.c: opt_cfg_simplify, which inverts a branch over a jump, folds a branch and a jump to the
-- same label, merges labels that follow one another and removes what follows a jump.
pub mod Inverted
pub mod Folded
pub mod Merged
pub mod MergeLoop
pub mod Stripped
pub mod Sound
use winds.Base.{
  ℕ, zero, suc, String, Bool, true, false, not, ◌&&◌, ◌||◌, Option, none, some, List, [], ◌∷◌, ◌++◌,
  map, if◌then◌else◌, length,
}
use winds.Ir.{IrOp, ir_label, ir_jmp, ir_jmp_if_zero, ir_jmp_if_not_zero, IrInst, is_op}
use winds.Opt.Dead.{strip_dead}
use winds.Opt.Flow.{same_label, is_conditional, is_branch}
use winds.Opt.Cfg.{with_label}

-- A conditional branch over an unconditional jump.
unfoldable pub is_branch_over : IrInst → IrInst → IrInst → Bool
is_branch_over inst next target_lbl =
    is_conditional inst.op
    && (is_op next.op ir_jmp
        && (is_op target_lbl.op ir_label && same_label inst.dest.label target_lbl.dest.label))

-- The inverted branch, to the target of the jump.
unfoldable pub inverted : IrInst → IrInst → IrInst
inverted inst next =
    with_label
      (record inst {
        op = if is_op inst.op ir_jmp_if_zero then ir_jmp_if_not_zero else ir_jmp_if_zero;
      })
      next.dest.label

-- Step 1. After an inversion the loop looks at the inverted branch again: the label that comes next
-- is no jump, and the loop goes on to it.
unfoldable pub invert_branches : List IrInst → List IrInst × Bool
invert_branches [] = ([], false)
invert_branches (inst ∷ []) = (inst ∷ [], false)
invert_branches (inst ∷ next ∷ []) = (inst ∷ next ∷ [], false)
invert_branches (inst ∷ next ∷ target_lbl ∷ rest) = elim (is_branch_over inst next target_lbl) [
  | true ↦
      let (rest', changed) = invert_branches (target_lbl ∷ rest) in
      (inverted inst next ∷ rest', true)
  | false ↦
      let (rest', changed) = invert_branches (next ∷ target_lbl ∷ rest) in (inst ∷ rest', changed)
]

-- A conditional branch to where the jump after it goes.
unfoldable pub is_folded : IrInst → List IrInst → Bool
is_folded inst [] = false
is_folded inst (next ∷ rest) =
    is_conditional inst.op && (is_op next.op ir_jmp && same_label inst.dest.label next.dest.label)

-- Step 2.
unfoldable pub fold_branches : List IrInst → List IrInst × Bool
fold_branches [] = ([], false)
fold_branches (inst ∷ rest) =
    let (rest', changed) = fold_branches rest in
    if is_folded inst rest then (rest', true) else (inst ∷ rest', changed)

-- `keep_lbl && remove_lbl && strcmp(keep_lbl, remove_lbl) != 0`
abbrev pub are_different : Option String → Option String → Bool
are_different (some a) (some b) = not (same_label (some a) (some b))
are_different _ _ = false

-- The label after which comes another one.
unfoldable pub are_merged : IrInst → IrInst → Bool
are_merged inst next =
    is_op inst.op ir_label
    && (is_op next.op ir_label && are_different inst.dest.label next.dest.label)

-- A branch to `remove_lbl`, now to `keep_lbl`.
unfoldable pub redirect : Option String → Option String → IrInst → IrInst
redirect keep_lbl remove_lbl other =
    if is_branch other.op && same_label other.dest.label remove_lbl
    then with_label other keep_lbl
    else other

-- Step 3; `before` are the instructions that the loop has been through, and each round takes one
-- instruction from the rest. `none` means that the fuel ran out.
unfoldable pub merge_labels : ℕ → List IrInst → List IrInst → Option (List IrInst × Bool)
merge_labels zero before rest = none
merge_labels (suc fuel) before [] = some (before, false)
merge_labels (suc fuel) before (inst ∷ []) = some (before ++ (inst ∷ []), false)
merge_labels (suc fuel) before (inst ∷ next ∷ rest) = elim (are_merged inst next) [
  | false ↦ merge_labels fuel (before ++ (inst ∷ [])) (next ∷ rest)
  | true ↦
      let redirected = redirect inst.dest.label next.dest.label in
      let out = merge_labels fuel (map redirected before) (inst ∷ map redirected rest) in
      elim out [ none ↦ none | some (insts, changed) ↦ some (insts, true) ]
]

-- The pass; the fuel is a round for each instruction, and one more.
unfoldable pub opt_cfg_simplify : List IrInst → Option (List IrInst × Bool)
opt_cfg_simplify insts =
    let (inverted, changed1) = invert_branches insts in
    let (folded, changed2) = fold_branches inverted in
    elim (merge_labels (suc (length folded)) [] folded) [
      | none ↦ none
      | some (merged, changed3) ↦
          let (out, changed4) = strip_dead false merged in
          some (out, changed1 || (changed2 || (changed3 || changed4)))
    ]
