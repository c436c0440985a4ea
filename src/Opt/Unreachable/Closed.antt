-- ===== src/Opt/Unreachable/Closed.antt =====
-- The marks after a round that changes nothing, against the edges.
use winds.Base.{
  ℕ, zero, suc, ◌+◌, ◌≡◌, sym, ◌∙◌, ap, subst, ◌⊎◌, inl, inr, true, false, some, List, [], ◌∷◌,
  arith, length, get_elem?, Member,
}
use mathlib.Core.Option.{some-injective}
use winds.Ir.{IrInst}
use winds.Opt.Unreachable.{
  BasicBlockInfo, ReachState, mark_found, target_of, visit_insts, next_of, visit_block,
  visit_blocks,
}
use winds.Opt.Unreachable.Progress.{mark_found-Progress}
use winds.Opt.Unreachable.Bounds.{
  next_of-lt, mark_found-marks, visit_insts-Progress, visit_block-Progress, visit_blocks-Progress,
}

module _ (blocks : List BasicBlockInfo) where
  visit_insts-marks :
      (insts : List IrInst) (s : ReachState) (inst : IrInst) (t : ℕ)
      → Member inst insts
      → target_of blocks inst ≡ some t
      → (visit_insts blocks insts s).0 t ≡ true
  unfolding visit_insts
  visit_insts-marks [] s inst t m e = absurd m
  visit_insts-marks (i ∷ rest) s inst t (inl q) e =
      (visit_insts-Progress blocks rest (mark_found (target_of blocks i) s)).grows t
        (mark_found-marks blocks (target_of blocks i) s t (ap (target_of blocks) (sym q) ∙ e))
  visit_insts-marks (i ∷ rest) s inst t (inr m) e =
      visit_insts-marks rest (mark_found (target_of blocks i) s) inst t m e

  -- A jump of the block goes to `t`, or it falls through to it.
  abbrev pub Goes : ℕ → BasicBlockInfo → ℕ → Type 0
  Goes a block t =
      ((inst : IrInst) × Member inst block.insts × (target_of blocks inst ≡ some t))
      ⊎ (next_of blocks a block.insts ≡ some t)

  visit_block-marks :
      (a : ℕ) (block : BasicBlockInfo) (s : ReachState) (t : ℕ)
      → s.0 a ≡ true
      → Goes a block t
      → (visit_block blocks a block s).0 t ≡ true
  unfolding visit_block
  visit_block-marks a block s t h (inl (inst, m, e)) = rw h (
      (mark_found-Progress (length blocks) (next_of blocks a block.insts) _
          (next_of-lt blocks a block.insts)).grows
        t (visit_insts-marks block.insts s inst t m e))
  visit_block-marks a block s t h (inr e) = rw h (
      mark_found-marks blocks (next_of blocks a block.insts) (visit_insts blocks block.insts s) t e)

  quiet :
      (a : ℕ) (first : BasicBlockInfo) (rest : List BasicBlockInfo) (s : ReachState)
      → (visit_blocks blocks (suc a) rest (visit_block blocks a first s)).1 ≡ false
      → (visit_block blocks a first s).1 ≡ false
  quiet a first rest s h =
      ((visit_blocks-Progress blocks (suc a) rest (visit_block blocks a first s)).same h).0

  -- A round that changes nothing leaves a state that is closed under the edges.
  pub visit_blocks-closed :
      (a : ℕ) (rest : List BasicBlockInfo) (s : ReachState)
      → (visit_blocks blocks a rest s).1 ≡ false
      → (k : ℕ) (block : BasicBlockInfo) (t : ℕ) → get_elem? rest k ≡ some block
      → s.0 (a + k) ≡ true
      → Goes (a + k) block t
      → s.0 t ≡ true
  unfolding visit_blocks
  visit_blocks-closed a [] s h k block t g r e = cc
  visit_blocks-closed a (first ∷ rest) s h zero block t g r e =
      let after = visit_block blocks a first s in
      let (_, same) = (visit_block-Progress blocks a first s).same (quiet a first rest s h) in
      let at_a : a + 0 ≡ a = omega arith in
      sym (same t)
      ∙ visit_block-marks a first s t (subst (λ n. s.0 n ≡ true) at_a r) (
          subst (λ n. Goes n first t) at_a
            (subst (λ b. Goes (a + 0) b t) (sym (some-injective first block g)) e))
  visit_blocks-closed a (first ∷ rest) s h (suc k) block t g r e =
      let (_, same) = (visit_block-Progress blocks a first s).same (quiet a first rest s h) in
      let at_k : a + suc k ≡ suc a + k = omega arith in
      sym (same t)
      ∙ visit_blocks-closed (suc a) rest (visit_block blocks a first s) h k block t g
          (same (suc a + k) ∙ subst (λ n. s.0 n ≡ true) at_k r) (subst (λ n. Goes n block t) at_k e)
