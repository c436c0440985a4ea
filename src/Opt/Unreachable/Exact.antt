-- ===== src/Opt/Unreachable/Exact.antt =====
-- The end of the loop that marks blocks.
use winds.Base.{
  ℕ, zero, suc, ◌+◌, ◌<◌, ◌≡◌, refl, sym, ◌∙◌, subst, inl, inr, ◌↔◌, Bool, true, false, some, List,
  arith, ◌==◌, Bool-cases, length, get_elem?,
}
use winds.Opt.Unreachable.{BasicBlockInfo, ReachState, visit_blocks, reach_loop, reachable_blocks}
use winds.Opt.Unreachable.Reaches.{Reaches, entry, edge}
use winds.Opt.Unreachable.Progress.{count_marked, count_marked-le, count_marked-Added}
use winds.Opt.Unreachable.Bounds.{visit_blocks-Progress}
use winds.Opt.Unreachable.Marked.{visit_blocks-Marked}
use winds.Opt.Unreachable.Closed.{Goes, visit_blocks-closed}

module _ (blocks : List BasicBlockInfo) where
  IsClosed : (ℕ → Bool) → Type 0
  IsClosed f =
      (a : ℕ) (block : BasicBlockInfo) (t : ℕ)
      → get_elem? blocks a ≡ some block
      → f a ≡ true
      → Goes blocks a block t
      → f t ≡ true

  round : (ℕ → Bool) → ReachState
  round f = visit_blocks blocks 0 blocks (f, false)

  -- What the loop returns, from marks that are all reached.
  Ends : ℕ → (ℕ → Bool) → Type 0
  Ends fuel f =
      (g : ℕ → Bool) × (reach_loop fuel blocks f ≡ some g)
      × ((t : ℕ) → f t ≡ true → g t ≡ true)
      × ((t : ℕ) → g t ≡ true → Reaches blocks t)
      × IsClosed g

  reach_loop-Ends :
      (fuel : ℕ) (f : ℕ → Bool)
      → length blocks < fuel + count_marked f (length blocks)
      → ((t : ℕ) → f t ≡ true → Reaches blocks t)
      → Ends fuel f
  unfolding reach_loop Ends round IsClosed
  reach_loop-Ends zero f enough m =
      absurd (omega (arith, enough, count_marked-le f (length blocks)))
  reach_loop-Ends (suc fuel) f enough m =
      let p = visit_blocks-Progress blocks 0 blocks (f, false) in
      let m' =
        visit_blocks-Marked blocks 0 blocks (f, false)
          (λ k b e. subst (λ n. get_elem? blocks n ≡ some b) (omega arith) e) m in
      elim (Bool-cases (round f).1) [
        | inr quiet ↦ ((round f).0, rw (quiet, reach_loop) refl, p.grows, m', closed quiet)
        | inl again ↦
            let (g, e, grows, reached, c) = reach_loop-Ends fuel (round f).0 (fewer again) m' in
            (g, rw (again, reach_loop) e, (λ t h. grows t (p.grows t h)), reached, c)
      ]
    where
      fewer : (round f).1 ≡ true → length blocks < fuel + count_marked (round f).0 (length blocks)
      fewer again = elim ((visit_blocks-Progress blocks 0 blocks (f, false)).added again) [
        | inl q ↦ cc
        | inr new ↦ omega (
          arith,
          enough,
          count_marked-Added f (round f).0 (length blocks)
              (visit_blocks-Progress blocks 0 blocks (f, false)).grows new,
        )
      ]

      closed : (round f).1 ≡ false → IsClosed (round f).0
      closed quiet a block t g h e =
          let (_, same) = (visit_blocks-Progress blocks 0 blocks (f, false)).same quiet in
          let at_a : 0 + a ≡ a = omega arith in
          same t
          ∙ visit_blocks-closed blocks 0 blocks (f, false) quiet a block t g
              (subst (λ n. f n ≡ true) (sym at_a) (sym (same a) ∙ h))
              (subst (λ n. Goes blocks n block t) (sym at_a) e)

  Reaches-marked :
      (g : ℕ → Bool) → g 0 ≡ true → IsClosed g → (b : ℕ) → Reaches blocks b → g b ≡ true
  unfolding IsClosed
  Reaches-marked g h c b entry = h
  Reaches-marked g h c b (edge {a = a} r (block, at, goes)) =
      c a block b at (Reaches-marked g h c a r) goes

  -- For all basic blocks, the loop that propagates reachability ends, and it marks exactly the
  -- blocks that a path of jumps and falls through reaches from the first block.
  pub reachable_blocks-Reaches :
      (g : ℕ → Bool) × (reachable_blocks blocks ≡ some g)
      × ((b : ℕ) → (g b ≡ true) ↔ Reaches blocks b)
  unfolding reachable_blocks Ends
  reachable_blocks-Reaches =
      let (g, e, grows, reached, c) =
        reach_loop-Ends (suc (length blocks)) (λ b. b == 0) (omega arith)
          (λ t h. let q : 0 ≡ t = ground arith in subst (Reaches blocks) q entry) in
      (g, e, λ b. (reached b, Reaches-marked g (grows 0 refl) c b))
