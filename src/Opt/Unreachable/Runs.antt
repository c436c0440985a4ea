-- ===== src/Opt/Unreachable/Runs.antt =====
-- opt_unreachable_block_removal: runs of a function before and after it.
use winds.Base.{
  ℕ, suc, ◌+◌, String, ◌≡◌, refl, sym, ◌∙◌, ap, subst, inl, inr, ◌⊎◌, ◌↔◌, Bool, true, false, ◌||◌,
  Option, none, some, List, [], ◌∷◌, ◌++◌, arith, Bool-cases, if◌then◌else◌, get_elem?, Member,
}
use mathlib.Core.Option.{some-injective}
use winds.Ir.{IrInst, IrOperand, is_jump}
use winds.Opt.Dead.{ends_flow, strip_dead}
use winds.Opt.Flow.{same_label, after_label, goto, Exec, ends, returns, acts, skip, jump}
use winds.Opt.Simplify.Stripped.{plain-ends_flow, skips-ends_flow, strip_dead-Exec}
use winds.Opt.Unreachable.Places.{
  From, start, next, From-get, From-length, zero_add, add_zero, takes-is_jump, label_of-ends_flow,
  falls_through-snoc, member-middle,
}
use winds.Opt.Unreachable.Kept.{Keeps, keep_blocks-Keeps}
use winds.Opt.Unreachable.{
  BasicBlockInfo, has_label, find_block, next_index, target_of, falls_through, next_of, blocks_of,
  keep_blocks, opt_unreachable_block_removal,
}
use winds.Opt.Unreachable.Reaches.{Reaches, entry, edge}
use winds.Opt.Unreachable.Exact.{reachable_blocks-Reaches}
use winds.Opt.Unreachable.Blocks.{
  all_insts, AllBlocks, blocks_of-AllBlocks, blocks_of-all, after_label-block, after_label-found,
  has_label-same,
}

module _ (blocks : List BasicBlockInfo) (g : ℕ → Bool)
    (exact : (b : ℕ) → (g b ≡ true) ↔ Reaches blocks b) where
  abbrev keep : ℕ → List BasicBlockInfo → List IrInst
  keep b rest = (keep_blocks g b rest).0

  keep-marked :
      (b : ℕ) (block : BasicBlockInfo) (rest : List BasicBlockInfo)
      → g b ≡ true
      → keep b (block ∷ rest) ≡ block.insts ++ keep (suc b) rest
  unfolding keep_blocks
  keep-marked b block rest h =
      ap
        (λ (c : Bool).
          (if◌then◌else◌ {A = List IrInst × Bool} c
            (block.insts ++ keep (suc b) rest, (keep_blocks g (suc b) rest).1)
            (keep (suc b) rest, true)).0)
        h

  keep-unmarked :
      (b : ℕ) (block : BasicBlockInfo) (rest : List BasicBlockInfo)
      → g b ≡ false
      → keep b (block ∷ rest) ≡ keep (suc b) rest
  unfolding keep_blocks
  keep-unmarked b block rest h =
      ap
        (λ (c : Bool).
          (if◌then◌else◌ {A = List IrInst × Bool} c
            (block.insts ++ keep (suc b) rest, (keep_blocks g (suc b) rest).1)
            (keep (suc b) rest, true)).0)
        h

  -- A place in a reached block, before the instruction `x`.
  abbrev Inside : List IrInst → List IrInst → Type 0
  Inside rest rest' =
      (b : ℕ) × (block : BasicBlockInfo) × (after : List BasicBlockInfo) × (pre : List IrInst)
      × (x : IrInst) × (xs : List IrInst) × From blocks b (block ∷ after)
      × Reaches blocks b
      × (block.insts ≡ pre ++ (x ∷ xs))
      × (rest ≡ x ∷ (xs ++ all_insts after))
      × (rest' ≡ x ∷ (xs ++ keep (suc b) after))

  -- The same place, in all blocks and in those that stay.
  abbrev At : List IrInst → List IrInst → Type 0
  At rest rest' = ((rest ≡ []) × (rest' ≡ [])) ⊎ Inside rest rest'

  At-start :
      (b : ℕ) (after : List BasicBlockInfo)
      → From blocks b after
      → AllBlocks after
      → Reaches blocks b
      → At (all_insts after) (keep b after)
  unfolding keep_blocks
  At-start b [] f a r = inl (refl, refl)
  At-start b (block ∷ after) f ((x, xs, e, l, n), _) r = inr (
    b,
    block,
    after,
    [],
    x,
    xs,
    f,
    r,
    e,
    ap (λ ys. ys ++ all_insts after) e,
    keep-marked b block after ((exact b).1 r) ∙ ap (λ ys. ys ++ keep (suc b) after) e,
  )

  reaches-next :
      (b : ℕ) (block next_block : BasicBlockInfo) (after : List BasicBlockInfo)
      → From blocks b (block ∷ next_block ∷ after)
      → Reaches blocks b
      → falls_through block.insts ≡ true
      → Reaches blocks (suc b)
  unfolding next_of
  reaches-next b block next_block after f r h = edge r (
    block,
    subst (λ n. get_elem? blocks n ≡ some block) (omega arith) (From-get 0 f),
    inr (ground (arith, h, From-length f)),
  )

  -- The place after an instruction that does not leave.
  At-next :
      (b : ℕ) (block : BasicBlockInfo) (after : List BasicBlockInfo) (pre : List IrInst)
      (x : IrInst) (xs : List IrInst)
      → From blocks b (block ∷ after)
      → AllBlocks after
      → Reaches blocks b
      → block.insts ≡ pre ++ (x ∷ xs)
      → ends_flow x.op ≡ false
      → At (xs ++ all_insts after) (xs ++ keep (suc b) after)
  unfolding keep_blocks
  At-next b block after pre x (y ∷ ys) f a r e h =
      inr (b, block, after, pre ++ (x ∷ []), y, ys, f, r, e ∙ sym (snoc pre), refl, refl)
    where
      snoc : (zs : List IrInst) → (zs ++ (x ∷ [])) ++ (y ∷ ys) ≡ zs ++ (x ∷ y ∷ ys)
      snoc [] = refl
      snoc (z ∷ zs) = ap (λ ws. z ∷ ws) (snoc zs)
  At-next b block [] pre x [] f a r e h = inl (refl, refl)
  At-next b block (next_block ∷ after) pre x [] f a r e h =
      At-start (suc b) (next_block ∷ after) (next f) a (
        reaches-next b block next_block after f r (ap falls_through e ∙ falls_through-snoc pre x h))

  AllBlocks-From :
      {b : ℕ} {rest : List BasicBlockInfo} → AllBlocks blocks → From blocks b rest → AllBlocks rest
  AllBlocks-From a start = a
  AllBlocks-From a (next f) = (AllBlocks-From a f).1

  -- Where a label is, in all blocks and in those that stay.
  Lands : String → ℕ → List BasicBlockInfo → List IrInst → Type 0
  Lands name b rest target =
      (t : ℕ) × (find_block rest name ≡ some t)
      × (Reaches blocks (b + t)
          → (target' : List IrInst) × (after_label (keep b rest) name ≡ some target')
            × At target target')

  find_block-Lands :
      (name : String) (b : ℕ) (rest : List BasicBlockInfo) (target : List IrInst)
      → From blocks b rest
      → AllBlocks rest
      → after_label (all_insts rest) name ≡ some target
      → Lands name b rest target
  unfolding find_block after_label Lands
  find_block-Lands name b [] target f a h = cc
  find_block-Lands name b (block ∷ rest) target f ((x, xs, e, l, n), a) h =
      elim (Bool-cases (has_label block.label name)) [
        | inl q ↦
            let here = after_label-found block (all_insts rest) name (x, xs, e, l, n) q in
            let is_label =
              sym (ap (λ z. same_label z (some name)) l)
              ∙ (sym (has_label-same block.label name) ∙ q) in
            (
              0,
              rw (q, find_block) refl,
              λ r.
                  let r' = subst (Reaches blocks) (omega arith) r in
                  (
                    xs ++ keep (suc b) rest,
                    ap (λ ys. after_label ys name) (keep-marked b block rest ((exact b).1 r'))
                        ∙ after_label-found block (keep (suc b) rest) name (x, xs, e, l, n) q,
                    subst (λ ys. At ys (xs ++ keep (suc b) rest))
                        (some-injective _ target (sym here ∙ h))
                        (At-next b block rest [] x xs f a r' e
                          (label_of-ends_flow x (some name) is_label)),
                  ),
            )
        | inr q ↦
            let (t, found, land) =
              find_block-Lands name (suc b) rest target (next f) a
                (sym (after_label-block block (all_insts rest) name (x, xs, e, l, n) q) ∙ h) in
            (
              suc t,
              rw (q, find_block) (ap next_index found),
              λ r.
                  let (target', found', at) = land (subst (Reaches blocks) (omega arith) r) in
                  (
                    target',
                    elim (Bool-cases (g b)) [
                      | inl m ↦
                          ap (λ ys. after_label ys name) (keep-marked b block rest m)
                          ∙ (after_label-block block (keep (suc b) rest) name (x, xs, e, l, n) q
                              ∙ found')
                      | inr m ↦
                          ap (λ ys. after_label ys name) (keep-unmarked b block rest m) ∙ found'
                    ],
                    at,
                  ),
            )
      ]

  module _ (all : AllBlocks blocks) where
    abbrev code : List IrInst
    code = all_insts blocks

    -- The instruction at a place, and the places after it.
    AtInst : IrInst → List IrInst → List IrInst → Type 0
    AtInst inst rest rest' =
        (later : List IrInst) × (rest' ≡ inst ∷ later)
        × (ends_flow inst.op ≡ false → At rest later)
        × ((target : List IrInst)
            → is_jump inst.op ≡ true
            → goto code inst.dest.label ≡ some target
            → (target' : List IrInst) × (goto (keep 0 blocks) inst.dest.label ≡ some target')
              × At target target')

    jump-At :
        (b : ℕ) (block : BasicBlockInfo) (inst : IrInst) (l : Option String)
        → get_elem? blocks b ≡ some block
        → Reaches blocks b
        → Member inst block.insts
        → is_jump inst.op ≡ true
        → inst.dest.label ≡ l
        → (target : List IrInst) → goto code l ≡ some target
        → (target' : List IrInst) × (goto (keep 0 blocks) l ≡ some target') × At target target'
    unfolding target_of Lands
    jump-At b block inst none at r m j e target h = cc
    jump-At b block inst (some name) at r m j e target h =
        let (t, found, land) = find_block-Lands name 0 blocks target start all h in
        let goes : target_of blocks inst ≡ some t = rw (j, e) found in
        land (subst (Reaches blocks) (sym (zero_add t)) (edge r (block, at, inl (inst, m, goes))))

    At-AtInst :
        (inst : IrInst) (rest rest' : List IrInst) → At (inst ∷ rest) rest' → AtInst inst rest rest'
    unfolding AtInst
    At-AtInst inst rest rest' (inl (e, _)) = cc
    At-AtInst inst rest rest' (inr (b, block, after, pre, x, xs, f, r, e, here, here')) =
        let same : x ≡ inst = cc in
        let same_rest : xs ++ all_insts after ≡ rest = cc in
        let at = subst (λ n. get_elem? blocks n ≡ some block) (add_zero b) (From-get 0 f) in
        let m = subst (Member x) (sym e) (member-middle pre x xs) in
        (
          xs ++ keep (suc b) after,
          here' ∙ ap (λ y. y ∷ (xs ++ keep (suc b) after)) same,
          (λ h.
              subst (λ ys. At ys (xs ++ keep (suc b) after)) same_rest
                (At-next b block after pre x xs f (AllBlocks-From all f).1 r e
                  (ap (λ (y : IrInst). ends_flow y.op) same ∙ h))),
          λ target j g.
              jump-At b block inst inst.dest.label at r (subst (λ y. Member y block.insts) same m) j
                refl target g,
        )

    module _ {S : Type 0} (act : IrInst → S → S) (is_zero : IrOperand → S → Bool) where
      keep-Exec :
          {rest : List IrInst} {s t : S} (rest' : List IrInst)
          → At rest rest'
          → Exec act is_zero code rest s t
          → Exec act is_zero (keep 0 blocks) rest' s t
      unfolding AtInst
      keep-Exec rest' (inl (_, e)) (ends {s}) =
          subst (λ ys. Exec act is_zero (keep 0 blocks) ys s s) (sym e) ends
      keep-Exec rest' (inr (b, block, after, pre, x, xs, f, r, e, here, here')) ends = cc
      keep-Exec rest' at (returns {inst} {rest} {s} h) =
          let (later, e, _, _) = At-AtInst inst rest rest' at in
          subst (λ ys. Exec act is_zero (keep 0 blocks) ys s (act inst s)) (sym e) (returns h)
      keep-Exec rest' at (acts {inst} {rest} {s} {t} h run) =
          let (later, e, on, _) = At-AtInst inst rest rest' at in
          subst (λ ys. Exec act is_zero (keep 0 blocks) ys s t) (sym e)
            (acts h (keep-Exec later (on (plain-ends_flow inst.op h)) run))
      keep-Exec rest' at (skip {inst} {rest} {s} {t} h run) =
          let (later, e, on, _) = At-AtInst inst rest rest' at in
          subst (λ ys. Exec act is_zero (keep 0 blocks) ys s t) (sym e)
            (skip h (keep-Exec later (on (skips-ends_flow inst.op _ h)) run))
      keep-Exec rest' at (jump {inst} {rest} {target} {s} {t} h g run) =
          let (later, e, _, off) = At-AtInst inst rest rest' at in
          let (target', g', at') = off target (takes-is_jump inst.op _ h) g in
          subst (λ ys. Exec act is_zero (keep 0 blocks) ys s t) (sym e)
            (jump h g' (keep-Exec target' at' run))

-- Let an instruction that is no branch act on a state in any way, and let a branch be taken by
-- any test of its operand and the state. The pass returns for every function. Its result is the
-- instructions of the basic blocks that a path of jumps and falls through reaches from the first,
-- in order, and no others, of the function without what follows a jump or a return up to the next
-- label. Whenever the function, started in a state, returns in another, so does the result.
pub opt_unreachable_block_removal-Exec :
    {S : Type 0} (act : IrInst → S → S) (is_zero : IrOperand → S → Bool) (insts : List IrInst)
    → (out : List IrInst × Bool) × (opt_unreachable_block_removal insts ≡ some out)
      × Keeps (blocks_of (strip_dead false insts).0) 0 (blocks_of (strip_dead false insts).0) out.0
      × ((s t : S) → Exec act is_zero insts insts s t → Exec act is_zero out.0 out.0 s t)
unfolding opt_unreachable_block_removal
opt_unreachable_block_removal-Exec act is_zero insts =
    let stripped = (strip_dead false insts).0 in
    let blocks = blocks_of stripped in
    let all = blocks_of-AllBlocks stripped in
    let (g, e, exact) = reachable_blocks-Reaches blocks in
    (
      ((keep_blocks g 0 blocks).0, (strip_dead false insts).1 || (keep_blocks g 0 blocks).1),
      rw (e, opt_unreachable_block_removal) refl,
      keep_blocks-Keeps blocks g 0 blocks exact,
      λ s t run.
          keep-Exec blocks g exact all act is_zero (keep_blocks g 0 blocks).0
            (At-start blocks g exact 0 blocks start all entry)
            (subst (λ xs. Exec act is_zero xs xs s t) (sym (blocks_of-all stripped))
              (strip_dead-Exec act is_zero insts run)),
    )
