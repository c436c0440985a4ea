-- ===== src/Opt/Unreachable/Marked.antt =====
-- The blocks that are marked, against those that are reached.
use winds.Base.{
  ℕ, suc, ◌+◌, ◌≡◌, refl, subst, inl, inr, true, Option, none, some, List, [], ◌∷◌, arith, ◌==◌,
  Bool-cases, get_elem?, Member,
}
use winds.Ir.{IrInst}
use winds.Opt.Unreachable.{
  BasicBlockInfo, ReachState, mark, mark_found, target_of, visit_insts, next_of, visit_block,
  visit_blocks,
}
use winds.Opt.Unreachable.Reaches.{Reaches, edge}

module _ (blocks : List BasicBlockInfo) where
  -- Everything that is marked is reached.
  abbrev pub Marked : ReachState → Type 0
  Marked s = (t : ℕ) → s.0 t ≡ true → Reaches blocks t

  mark_found-Marked :
      (o : Option ℕ) (s : ReachState)
      → ((t : ℕ) → o ≡ some t → Reaches blocks t)
      → Marked s
      → Marked (mark_found o s)
  unfolding mark_found mark
  mark_found-Marked none s h m t e = m t e
  mark_found-Marked (some u) s h m t e = elim (Bool-cases (s.0 u)) [
    | inl q ↦ m t (rw q at e)
    | inr q ↦ elim (Bool-cases (t == u)) [
      | inl k ↦ let w : t ≡ u = ground arith in rw w (h u refl)
      | inr k ↦ m t (rw (q, k) at e)
    ]
  ]

  visit_insts-Marked :
      (a : ℕ) (block : BasicBlockInfo) (insts : List IrInst) (s : ReachState)
      → get_elem? blocks a ≡ some block
      → ((inst : IrInst) → Member inst insts → Member inst block.insts)
      → Reaches blocks a
      → Marked s
      → Marked (visit_insts blocks insts s)
  unfolding visit_insts
  visit_insts-Marked a block [] s g sub r m = m
  visit_insts-Marked a block (inst ∷ rest) s g sub r m =
      visit_insts-Marked a block rest (mark_found (target_of blocks inst) s) g
        (λ i n. sub i (inr n)) r
        (mark_found-Marked (target_of blocks inst) s
          (λ t e. edge r (block, g, inl (inst, sub inst (inl refl), e))) m)

  visit_block-Marked :
      (a : ℕ) (block : BasicBlockInfo) (s : ReachState)
      → get_elem? blocks a ≡ some block
      → Marked s
      → Marked (visit_block blocks a block s)
  unfolding visit_block
  visit_block-Marked a block s g m = elim (Bool-cases (s.0 a)) [
    | inl h ↦ rw h (
        mark_found-Marked (next_of blocks a block.insts) (visit_insts blocks block.insts s)
          (λ t e. edge (m a h) (block, g, inr e))
          (visit_insts-Marked a block block.insts s g (λ i n. n) (m a h) m))
    | inr h ↦ rw h m
  ]

  pub visit_blocks-Marked :
      (a : ℕ) (rest : List BasicBlockInfo) (s : ReachState)
      → ((k : ℕ) (block : BasicBlockInfo)
          → get_elem? rest k ≡ some block
          → get_elem? blocks (a + k) ≡ some block)
      → Marked s
      → Marked (visit_blocks blocks a rest s)
  unfolding visit_blocks
  visit_blocks-Marked a [] s g m = m
  visit_blocks-Marked a (block ∷ rest) s g m =
      visit_blocks-Marked (suc a) rest (visit_block blocks a block s)
        (λ k b e. subst (λ n. get_elem? blocks n ≡ some b) (omega arith) (g (suc k) b e))
        (visit_block-Marked a block s
          (subst (λ n. get_elem? blocks n ≡ some block) (omega arith) (g 0 block refl)) m)
