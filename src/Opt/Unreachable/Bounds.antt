-- ===== src/Opt/Unreachable/Bounds.antt =====
-- The blocks that a round visits, and the marks that it adds.
use winds.Base.{
  ℕ, suc, ◌<◌, ◌≡◌, inl, inr, true, Option, none, some, List, [], ◌∷◌, arith, Bool-cases,
  Option-cases, length, String,
}
use mathlib.Core.Option.{some-injective}
use winds.Ir.{IrInst, is_jump}
use winds.Opt.Unreachable.{
  BasicBlockInfo, ReachState, mark, mark_found, has_label, find_block, target_of, visit_insts,
  next_of, visit_block, visit_blocks,
}
use winds.Opt.Unreachable.Progress.{Progress, Progress-refl, Progress-trans, mark_found-Progress}

find_block-lt :
    (blocks : List BasicBlockInfo) (name : String) (t : ℕ)
    → find_block blocks name ≡ some t
    → t < length blocks
unfolding find_block
find_block-lt [] name t h = cc
find_block-lt (b ∷ rest) name t h = elim (Bool-cases (has_label b.label name)) [
  | inl l ↦ ground (arith, some-injective 0 t (rw l at h))
  | inr l ↦ elim (Option-cases (find_block rest name)) [
    | inl n ↦ cc (rw (l, n) at h)
    | inr (u, n) ↦
        omega (arith, find_block-lt rest name u n, some-injective (suc u) t (rw (l, n) at h))
  ]
]

module _ (blocks : List BasicBlockInfo) where
  pub target_of-lt : (inst : IrInst) (t : ℕ) → target_of blocks inst ≡ some t → t < length blocks
  unfolding target_of
  target_of-lt inst t h = elim (Bool-cases (is_jump inst.op)) [
    | inr j ↦ cc (rw (j, target_of) at h)
    | inl j ↦ elim (Option-cases inst.dest.label) [
      | inl n ↦ cc (rw (j, n, target_of) at h)
      | inr (l, n) ↦ find_block-lt blocks l t (rw (j, n, target_of) at h)
    ]
  ]

  pub next_of-lt :
      (b : ℕ) (insts : List IrInst) (t : ℕ) → next_of blocks b insts ≡ some t → t < length blocks
  unfolding next_of
  next_of-lt b insts t h = ground arith

  pub mark_found-marks :
      (o : Option ℕ) (s : ReachState) (t : ℕ) → o ≡ some t → (mark_found o s).0 t ≡ true
  unfolding mark_found mark
  mark_found-marks none s t h = cc
  mark_found-marks (some u) s t h = ground (arith, some-injective u t h)

  pub visit_insts-Progress :
      (insts : List IrInst) (s : ReachState)
      → Progress (length blocks) s (visit_insts blocks insts s)
  unfolding visit_insts
  visit_insts-Progress [] s = Progress-refl _ s
  visit_insts-Progress (inst ∷ rest) s =
      Progress-trans _ s (mark_found (target_of blocks inst) s) _
        (mark_found-Progress _ (target_of blocks inst) s (target_of-lt inst))
        (visit_insts-Progress rest (mark_found (target_of blocks inst) s))

  pub visit_block-Progress :
      (a : ℕ) (block : BasicBlockInfo) (s : ReachState)
      → Progress (length blocks) s (visit_block blocks a block s)
  unfolding visit_block
  visit_block-Progress a block s = elim (Bool-cases (s.0 a)) [
    | inl h ↦ rw h (
        Progress-trans _ s (visit_insts blocks block.insts s) _ (visit_insts-Progress block.insts s)
          (mark_found-Progress _ (next_of blocks a block.insts) _ (next_of-lt a block.insts)))
    | inr h ↦ rw h (Progress-refl _ s)
  ]

  pub visit_blocks-Progress :
      (a : ℕ) (rest : List BasicBlockInfo) (s : ReachState)
      → Progress (length blocks) s (visit_blocks blocks a rest s)
  unfolding visit_blocks
  visit_blocks-Progress a [] s = Progress-refl _ s
  visit_blocks-Progress a (block ∷ rest) s =
      Progress-trans _ s (visit_block blocks a block s) _ (visit_block-Progress a block s)
        (visit_blocks-Progress (suc a) rest (visit_block blocks a block s))
