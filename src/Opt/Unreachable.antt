-- ===== src/Opt/Unreachable.antt =====
-- src/opt.c: opt_unreachable_block_removal, which removes the blocks that no control flow reaches.
pub mod Reaches
pub mod Progress
pub mod Bounds
pub mod Marked
pub mod Closed
pub mod Exact
pub mod Kept
pub mod Blocks
pub mod Places
pub mod Runs
use winds.Base.{
  ℕ, zero, suc, String, Bool, true, false, not, ◌&&◌, ◌||◌, Option, none, some, List, [], ◌∷◌, ◌++◌,
  if◌then◌else◌, ltb, ◌==◌, length,
}
use text.Mathlib.Text.{◌==◌ as str_eq}
use winds.Ir.{IrOp, IrInst, is_label, is_jump}
use winds.Opt.Dead.{ends_flow, strip_dead}

-- `BasicBlockInfo`: the instructions from `start` to `end`, and the label.
pub record BasicBlockInfo : Type 0 where
  pub insts : List IrInst
  pub label : Option String

-- The block that begins with the instruction.
unfoldable pub start_block : IrInst → BasicBlockInfo
start_block inst = record {
  insts = inst ∷ [];
  label = if is_label inst.op then inst.dest.label else none;
}

-- The rest of the instructions, after the current block.
unfoldable pub split_blocks : BasicBlockInfo → List IrInst → List BasicBlockInfo
split_blocks current [] = current ∷ []
split_blocks current (inst ∷ rest) = elim (is_label inst.op) [
  | true ↦ current ∷ split_blocks (start_block inst) rest
  | false ↦ split_blocks (record current { insts = current.insts ++ (inst ∷ []) }) rest
]

unfoldable pub blocks_of : List IrInst → List BasicBlockInfo
blocks_of [] = []
blocks_of (inst ∷ rest) = split_blocks (start_block inst) rest

-- The field `reachable` of the blocks, and `bb_changed`.
abbrev pub ReachState : Type 0
ReachState = (ℕ → Bool) × Bool

unfoldable pub mark : ℕ → ReachState → ReachState
mark t s = if s.0 t then s else ((λ b. if b == t then true else s.0 b), true)

-- `label && strcmp(label, name) == 0`
unfoldable pub has_label : Option String → String → Bool
has_label none name = false
has_label (some l) name = str_eq l name

abbrev pub next_index : Option ℕ → Option ℕ
next_index none = none
next_index (some t) = some (suc t)

-- The first block with the label.
unfoldable pub find_block : List BasicBlockInfo → String → Option ℕ
find_block [] name = none
find_block (b ∷ rest) name =
    let later = next_index (find_block rest name) in
    if has_label b.label name then some 0 else later

unfoldable pub mark_found : Option ℕ → ReachState → ReachState
mark_found none s = s
mark_found (some t) s = mark t s

-- The block that a jump goes to, if the instruction is one.
unfoldable pub target_of : List BasicBlockInfo → IrInst → Option ℕ
target_of blocks inst =
    if is_jump inst.op
    then elim inst.dest.label [ none ↦ none | some name ↦ find_block blocks name ]
    else none

-- The jumps of a block.
unfoldable pub visit_insts : List BasicBlockInfo → List IrInst → ReachState → ReachState
visit_insts blocks [] s = s
visit_insts blocks (inst ∷ rest) s = visit_insts blocks rest (mark_found (target_of blocks inst) s)

-- The last instruction is neither a return nor a jump.
unfoldable pub falls_through : List IrInst → Bool
falls_through [] = false
falls_through (inst ∷ []) = not (ends_flow inst.op)
falls_through (inst ∷ next ∷ rest) = falls_through (next ∷ rest)

-- The block after `b`, if `b` falls through to one.
unfoldable pub next_of : List BasicBlockInfo → ℕ → List IrInst → Option ℕ
next_of blocks b insts =
    if falls_through insts && ltb (suc b) (length blocks) then some (suc b) else none

-- The body of the loop over the blocks.
unfoldable pub visit_block : List BasicBlockInfo → ℕ → BasicBlockInfo → ReachState → ReachState
visit_block blocks b block s =
    if s.0 b
    then mark_found (next_of blocks b block.insts) (visit_insts blocks block.insts s)
    else s

-- The blocks from `b` on.
unfoldable pub visit_blocks :
    List BasicBlockInfo → ℕ → List BasicBlockInfo → ReachState → ReachState
visit_blocks blocks b [] s = s
visit_blocks blocks b (block ∷ rest) s =
    visit_blocks blocks (suc b) rest (visit_block blocks b block s)

-- `while (bb_changed)`, with fuel; `none` means that the fuel ran out.
unfoldable pub reach_loop : ℕ → List BasicBlockInfo → (ℕ → Bool) → Option (ℕ → Bool)
reach_loop zero blocks reachable = none
reach_loop (suc fuel) blocks reachable =
    let s = visit_blocks blocks 0 blocks (reachable, false) in
    let rest = reach_loop fuel blocks s.0 in if s.1 then rest else some s.0

-- The blocks that are marked at the end; the fuel is a round for each block, and one more.
unfoldable pub reachable_blocks : List BasicBlockInfo → Option (ℕ → Bool)
reachable_blocks blocks = reach_loop (suc (length blocks)) blocks (λ b. b == 0)

-- The instructions of the blocks from `b` on that stay, and whether a block was removed.
unfoldable pub keep_blocks : (ℕ → Bool) → ℕ → List BasicBlockInfo → List IrInst × Bool
keep_blocks reachable b [] = ([], false)
keep_blocks reachable b (block ∷ rest) =
    let (kept, changed) = keep_blocks reachable (suc b) rest in
    if reachable b then (block.insts ++ kept, changed) else (kept, true)

unfoldable pub opt_unreachable_block_removal : List IrInst → Option (List IrInst × Bool)
opt_unreachable_block_removal insts =
    let (stripped, changed) = strip_dead false insts in
    let blocks = blocks_of stripped in
    elim (reachable_blocks blocks) [
      | none ↦ none
      | some reachable ↦
          let (kept, removed) = keep_blocks reachable 0 blocks in some (kept, changed || removed)
    ]
