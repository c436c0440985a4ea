-- ===== src/Opt/Unreachable/Blocks.antt =====
-- The basic blocks of a function: labels come first in them.
use winds.Base.{
  String, ◌≡◌, refl, sym, ◌∙◌, ap, inl, inr, true, false, Option, none, some, List, [], ◌∷◌, ◌++◌,
  Bool-cases, if◌then◌else◌,
}
use mathlib.Core.List.{append_assoc}
use winds.Ir.{IrInst, ir_label, is_label, is_op}
use winds.Opt.Flow.{same_label, label_of, after_label}
use winds.Opt.Simplify.Stripped.{is_label-op}
use winds.Opt.Unreachable.{BasicBlockInfo, start_block, split_blocks, blocks_of, has_label}

-- All blocks together.
abbrev pub all_insts : List BasicBlockInfo → List IrInst
all_insts [] = []
all_insts (b ∷ rest) = b.insts ++ all_insts rest

-- No instruction is a label.
abbrev pub NoLabels : List IrInst → Type 0
NoLabels [] = Unit
NoLabels (inst ∷ rest) = (is_op inst.op ir_label ≡ false) × NoLabels rest

-- A first instruction, whose label the block has, and no label after it.
abbrev pub IsBlock : BasicBlockInfo → Type 0
IsBlock block =
    (inst : IrInst) × (rest : List IrInst) × (block.insts ≡ inst ∷ rest)
    × (block.label ≡ label_of inst)
    × NoLabels rest

abbrev pub AllBlocks : List BasicBlockInfo → Type 0
AllBlocks [] = Unit
AllBlocks (block ∷ rest) = IsBlock block × AllBlocks rest

NoLabels-snoc :
    (xs : List IrInst) (inst : IrInst)
    → NoLabels xs
    → is_op inst.op ir_label ≡ false
    → NoLabels (xs ++ (inst ∷ []))
NoLabels-snoc [] inst n h = (h, tt)
NoLabels-snoc (x ∷ xs) inst n h = (n.0, NoLabels-snoc xs inst n.1 h)

start_block-IsBlock : (inst : IrInst) → IsBlock (start_block inst)
unfolding start_block
start_block-IsBlock inst =
    (inst, [], refl, ap (λ b. if b then inst.dest.label else none) (is_label-op inst.op), tt)

snoc-IsBlock :
    (current : BasicBlockInfo) (inst : IrInst)
    → IsBlock current
    → is_op inst.op ir_label ≡ false
    → IsBlock (record current { insts = current.insts ++ (inst ∷ []) })
snoc-IsBlock current inst (first, rest, e, l, n) h =
    (first, rest ++ (inst ∷ []), ap (λ xs. xs ++ (inst ∷ [])) e, l, NoLabels-snoc rest inst n h)

split_blocks-AllBlocks :
    (current : BasicBlockInfo) (insts : List IrInst)
    → IsBlock current
    → AllBlocks (split_blocks current insts)
unfolding split_blocks
split_blocks-AllBlocks current [] b = (b, tt)
split_blocks-AllBlocks current (inst ∷ rest) b = elim (Bool-cases (is_label inst.op)) [
  | inl h ↦
      rw (h, split_blocks)
        (b, split_blocks-AllBlocks (start_block inst) rest (start_block-IsBlock inst))
  | inr h ↦
      rw (h, split_blocks)
        (split_blocks-AllBlocks (record current { insts = current.insts ++ (inst ∷ []) }) rest
          (snoc-IsBlock current inst b (sym (is_label-op inst.op) ∙ h)))
]

pub blocks_of-AllBlocks : (insts : List IrInst) → AllBlocks (blocks_of insts)
unfolding blocks_of
blocks_of-AllBlocks [] = tt
blocks_of-AllBlocks (inst ∷ rest) =
    split_blocks-AllBlocks (start_block inst) rest (start_block-IsBlock inst)

split_blocks-all :
    (current : BasicBlockInfo) (insts : List IrInst)
    → all_insts (split_blocks current insts) ≡ current.insts ++ insts
unfolding split_blocks start_block
split_blocks-all current [] = refl
split_blocks-all current (inst ∷ rest) = elim (Bool-cases (is_label inst.op)) [
  | inl h ↦
      rw (h, split_blocks) (ap (λ x. current.insts ++ x) (split_blocks-all (start_block inst) rest))
  | inr h ↦
      rw (h, split_blocks)
        (split_blocks-all (record current { insts = current.insts ++ (inst ∷ []) }) rest
          ∙ append_assoc current.insts (inst ∷ []) rest)
]

pub blocks_of-all : (insts : List IrInst) → all_insts (blocks_of insts) ≡ insts
unfolding blocks_of start_block
blocks_of-all [] = refl
blocks_of-all (inst ∷ rest) = split_blocks-all (start_block inst) rest

no_label :
    (inst : IrInst) (name : String)
    → is_op inst.op ir_label ≡ false
    → same_label (label_of inst) (some name) ≡ false
no_label inst name h = rw h refl

-- A search passes over instructions that are no labels.
pub after_label-NoLabels :
    (xs ys : List IrInst) (name : String)
    → NoLabels xs
    → after_label (xs ++ ys) name ≡ after_label ys name
unfolding after_label
after_label-NoLabels [] ys name n = refl
after_label-NoLabels (x ∷ xs) ys name n =
    rw (no_label x name n.0) (after_label-NoLabels xs ys name n.1)

pub has_label-same :
    (l : Option String) (name : String) → has_label l name ≡ same_label l (some name)
unfolding has_label
has_label-same none name = refl
has_label-same (some l) name = refl

-- A search passes over a block with another label, and stops behind the label of a block.
pub after_label-block :
    (block : BasicBlockInfo) (ys : List IrInst) (name : String)
    → IsBlock block
    → has_label block.label name ≡ false
    → after_label (block.insts ++ ys) name ≡ after_label ys name
unfolding after_label
after_label-block block ys name (first, rest, e, l, n) h =
    ap (λ xs. after_label (xs ++ ys) name) e
    ∙ rw (ap (λ x. same_label x (some name)) (sym l) ∙ (sym (has_label-same block.label name) ∙ h))
        (after_label-NoLabels rest ys name n)

pub after_label-found :
    (block : BasicBlockInfo) (ys : List IrInst) (name : String)
    → (b : IsBlock block) → has_label block.label name ≡ true
    → after_label (block.insts ++ ys) name ≡ some (b.1 ++ ys)
unfolding after_label
after_label-found block ys name (first, rest, e, l, n) h =
    ap (λ xs. after_label (xs ++ ys) name) e
    ∙ rw (ap (λ x. same_label x (some name)) (sym l) ∙ (sym (has_label-same block.label name) ∙ h))
        refl
