-- ===== src/Opt/CopyProp/Links.antt =====
-- The chains of moves along which opt_copy_propagation replaces registers.
use winds.Base.{
  ℕ, zero, suc, ◌≡◌, refl, sym, ◌∙◌, ap, subst, ◌⊎◌, Bool, true, false, not, ◌&&◌, inl, inr, Option,
  none, some, List, [], ◌∷◌, arith, Bool-cases, Member, ltb, ◌==◌, &&-both, length,
}
use winds.Base.Int.{pos}
use winds.Ir.{ir_mov, IrOperand, IrInst, is_op}
use winds.Opt.Vreg.{reg_below, reg_below-pos}
use winds.Opt.CopyProp.{
  CopyMap, has_next, find_copy_root, set_copy, record_copy, record_move, build_copies, copies_of,
  is_self_move, rewrite_reg, rewrite_if, rewrite_args,
}

-- The register `v` is a copy of `w` through moves of the function, one after the other, each from
-- its source to its destination.
pub data Chain (max_vreg : ℕ) (insts : List IrInst) : ℕ → ℕ → Type 0 where
  here : {v : ℕ} → Chain max_vreg insts v v
  via :
      {v u w : ℕ} (inst : IrInst)
      → Member inst insts
      → is_op inst.op ir_mov ≡ true
      → reg_below max_vreg inst.dest.vreg ≡ some v
      → reg_below max_vreg inst.src1.vreg ≡ some u
      → Chain max_vreg insts u w
      → Chain max_vreg insts v w

module _ (max_vreg : ℕ) (insts : List IrInst) where
  abbrev C : ℕ → ℕ → Type 0
  C = Chain max_vreg insts

  -- The operand is the old one, or has another register, which the old one is a copy of, and
  -- everything else of it.
  abbrev pub Copied : IrOperand → IrOperand → Type 0
  Copied o' o =
      (o' ≡ o)
      ⊎ ((v : ℕ) × (w : ℕ) × (reg_below max_vreg o.vreg ≡ some v)
          × (o' ≡ record o { vreg = pos w })
          × Chain max_vreg insts v w)

  -- One for one.
  abbrev pub AllCopied : List IrOperand → List IrOperand → Type 0
  AllCopied [] [] = Unit
  AllCopied (o' ∷ os') (o ∷ os) = Copied o' o × AllCopied os' os
  AllCopied _ _ = ⊥

  Chain-trans : {u v w : ℕ} → C u v → C v w → C u w
  Chain-trans here b = b
  Chain-trans (via inst m o d s a) b = via inst m o d s (Chain-trans a b)

  -- Every link is such a chain.
  abbrev Linked : CopyMap → Type 0
  Linked copy_map = (v : ℕ) → C v (copy_map v)

  find_copy_root-Chain :
      (fuel : ℕ) (copy_map : CopyMap) (v : ℕ)
      → Linked copy_map
      → C v (find_copy_root fuel copy_map v)
  unfolding find_copy_root
  find_copy_root-Chain zero copy_map v l = here
  find_copy_root-Chain (suc fuel) copy_map v l = elim (Bool-cases (has_next copy_map v)) [
    | inl h ↦ rw h (Chain-trans (l v) (find_copy_root-Chain fuel copy_map (copy_map v) l))
    | inr h ↦ rw h here
  ]

  set_copy-Linked :
      (copy_map : CopyMap) (d root : ℕ)
      → Linked copy_map
      → C d root
      → Linked (set_copy copy_map d root)
  set_copy-Linked copy_map d root l c v = elim (Bool-cases (v == d)) [
    | inl h ↦ rw h (subst (λ x. C x root) (ground arith) c)
    | inr h ↦ rw h (l v)
  ]

  record_copy-Linked :
      (fuel : ℕ) (copy_map : CopyMap) (d s : Option ℕ)
      → Linked copy_map
      → ((a b : ℕ) → d ≡ some a → s ≡ some b → (w : ℕ) → C b w → C a w)
      → Linked (record_copy fuel copy_map d s)
  unfolding record_copy
  record_copy-Linked fuel copy_map none s l h = l
  record_copy-Linked fuel copy_map (some d) none l h = l
  record_copy-Linked fuel copy_map (some d) (some s) l h =
      let root = find_copy_root fuel copy_map s in
      elim (Bool-cases (ltb 0 root && not (root == d))) [
        | inl e ↦ rw e (
            set_copy-Linked copy_map d root l
              (h d s refl refl root (find_copy_root-Chain fuel copy_map s l)))
        | inr e ↦ rw e l
      ]

  record_move-Linked :
      (fuel : ℕ) (copy_map : CopyMap) (inst : IrInst)
      → Member inst insts
      → Linked copy_map
      → Linked (record_move fuel max_vreg copy_map inst)
  unfolding record_move
  record_move-Linked fuel copy_map inst m l =
      elim (Bool-cases (is_op inst.op ir_mov && not (is_self_move max_vreg inst))) [
        | inl h ↦
            let (mov, _) = &&-both _ _ h in
            rw h (record_copy-Linked fuel copy_map _ _ l (λ a b d s w c. via inst m mov d s c))
        | inr h ↦ rw h l
      ]

  build_copies-Linked :
      (fuel : ℕ) (copy_map : CopyMap) (some_of : List IrInst)
      → ((inst : IrInst) → Member inst some_of → Member inst insts)
      → Linked copy_map
      → Linked (build_copies fuel max_vreg copy_map some_of)
  unfolding build_copies
  build_copies-Linked fuel copy_map [] h l = l
  build_copies-Linked fuel copy_map (inst ∷ rest) h l =
      build_copies-Linked fuel (record_move fuel max_vreg copy_map inst) rest (λ i m. h i (inr m))
        (record_move-Linked fuel copy_map inst (h inst (inl refl)) l)

  pub copies_of-Linked : (v : ℕ) → Chain max_vreg insts v (copies_of max_vreg insts v)
  unfolding copies_of
  copies_of-Linked = build_copies-Linked (length insts) (λ v. v) insts (λ i m. m) (λ v. here)

  module _ (fuel : ℕ) (copy_map : CopyMap) (l : (v : ℕ) → Chain max_vreg insts v (copy_map v)) where
    rewrite_reg-Copied :
        (o : IrOperand) (r : Option ℕ)
        → reg_below max_vreg o.vreg ≡ r
        → Copied (rewrite_reg fuel copy_map o r).0 o
    unfolding rewrite_reg
    rewrite_reg-Copied o none e = inl refl
    rewrite_reg-Copied o (some r) e =
        let root = find_copy_root fuel copy_map r in
        elim (Bool-cases (ltb 0 root && not (root == r))) [
          | inl h ↦ rw h (inr (r, root, e, refl, find_copy_root-Chain fuel copy_map r l))
          | inr h ↦ rw h (inl refl)
        ]

    pub rewrite_if-Copied :
        (when : Bool) (o : IrOperand) → Copied (rewrite_if fuel max_vreg copy_map when o).0 o
    unfolding rewrite_if
    rewrite_if-Copied true o = rewrite_reg-Copied o _ refl
    rewrite_if-Copied false o = inl refl

    pub rewrite_args-AllCopied :
        (when : Bool) (os : List IrOperand)
        → AllCopied (rewrite_args fuel max_vreg copy_map when os).0 os
    unfolding rewrite_args
    rewrite_args-AllCopied when [] = tt
    rewrite_args-AllCopied when (o ∷ os) =
        (rewrite_if-Copied when o, rewrite_args-AllCopied when os)

  pub Copied-trans : (o p q : IrOperand) → Copied o p → Copied p q → Copied o q
  Copied-trans o p q (inl e) c = subst (λ x. Copied x q) (sym e) c
  Copied-trans o p q (inr a) (inl e) = subst (λ x. Copied o x) e (inr a)
  Copied-trans o p q (inr (v, w, r, e, c)) (inr (v', w', r', e', c')) =
      let at = reg_below-pos max_vreg p.vreg v r in
      let now : p.vreg ≡ pos w' = ap (λ (x : IrOperand). x.vreg) e' in
      let same : w' ≡ v = ground (arith, at.0, now) in
      inr (
        v',
        w,
        r',
        e ∙ ap (λ (x : IrOperand). record x { vreg = pos w }) e',
        Chain-trans c' (subst (λ x. Chain max_vreg insts x w) (sym same) c),
      )
