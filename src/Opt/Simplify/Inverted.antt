-- ===== src/Opt/Simplify/Inverted.antt =====
-- Step 1 of opt_cfg_simplify: runs of a function before and after it.
use winds.Base.{
  String, ◌≡◌, refl, sym, ◌∙◌, ap, subst, inl, inr, Bool, true, false, Option, none, some, List, [],
  ◌∷◌, Bool-cases, arith,
}
use mathlib.Core.Option
use mathlib.Core.Option.{some-injective}
use winds.Ir.{IrInst, IrOperand, ir_label, ir_jmp, is_op}
use winds.Opt.Flow.Ops.{
  branch-label, branch-plain, branch-ret, jmp-branch, label-branch, label-skips, conditional-branch,
  conditional-jmp, jmp-skips,
}
use winds.Opt.Flow.{
  same_label, label_of, after_label, goto, takes, skips, is_conditional, Exec, ends, returns, acts,
  skip, jump,
}
use winds.Opt.Flow.Labels.{
  Distinct, IsSuffix, IsSuffix-tail, goto-IsSuffix, after_label-own, after_label-other,
  after_label-cons, same_label-eq, label_of-label,
}
use winds.Opt.Simplify.{is_branch_over, inverted, invert_branches}

abbrev inverts : List IrInst → List IrInst
inverts insts = (invert_branches insts).0

inverts-over :
    (inst next lbl : IrInst) (rest : List IrInst)
    → is_branch_over inst next lbl ≡ true
    → inverts (inst ∷ next ∷ lbl ∷ rest) ≡ inverted inst next ∷ inverts (lbl ∷ rest)
unfolding invert_branches
inverts-over inst next lbl rest h = rw (h, inverts, invert_branches) refl

inverts-keep :
    (inst next lbl : IrInst) (rest : List IrInst)
    → is_branch_over inst next lbl ≡ false
    → inverts (inst ∷ next ∷ lbl ∷ rest) ≡ inst ∷ inverts (next ∷ lbl ∷ rest)
unfolding invert_branches
inverts-keep inst next lbl rest h = rw (h, inverts, invert_branches) refl

-- The three instructions of an inversion.
is_branch_over-ops :
    (inst next lbl : IrInst)
    → is_branch_over inst next lbl ≡ true
    → (is_conditional inst.op ≡ true)
      × (is_op next.op ir_jmp ≡ true)
      × (is_op lbl.op ir_label ≡ true)
      × (same_label inst.dest.label lbl.dest.label ≡ true)
unfolding is_branch_over
is_branch_over-ops inst next lbl h = ground (arith, h)

inverted-label : (inst next : IrInst) → is_op (inverted inst next).op ir_label ≡ false
unfolding inverted
inverted-label inst next = ground arith

inverted-takes :
    (inst next : IrInst) (z : Bool)
    → is_conditional inst.op ≡ true
    → skips inst.op z ≡ true
    → takes (inverted inst next).op z ≡ true
unfolding inverted
inverted-takes inst next z c h = ground (arith, c, h)

inverted-skips :
    (inst next : IrInst) (z : Bool)
    → is_conditional inst.op ≡ true
    → takes inst.op z ≡ true
    → skips (inverted inst next).op z ≡ true
unfolding inverted
inverted-skips inst next z c h = ground (arith, c, h)

after_label-inverts :
    (insts : List IrInst) (name : String)
    → after_label (inverts insts) name ≡ Option.map inverts (after_label insts name)
unfolding after_label invert_branches
after_label-inverts [] name = refl
after_label-inverts (inst ∷ []) name = after_label-cons inverts inst [] name refl
after_label-inverts (inst ∷ next ∷ []) name =
    after_label-cons inverts inst (next ∷ []) name (after_label-inverts (next ∷ []) name)
after_label-inverts (inst ∷ next ∷ lbl ∷ rest) name =
    elim (Bool-cases (is_branch_over inst next lbl)) [
      | inr h ↦
          ap (λ xs. after_label xs name) (inverts-keep inst next lbl rest h)
          ∙ after_label-cons inverts inst (next ∷ lbl ∷ rest) name
              (after_label-inverts (next ∷ lbl ∷ rest) name)
      | inl h ↦
          let (c, j, _, _) = is_branch_over-ops inst next lbl h in
          ap (λ xs. after_label xs name) (inverts-over inst next lbl rest h)
          ∙ after_label-other (inverted inst next) (inverts (lbl ∷ rest)) name
              (inverted-label inst next)
          ∙ after_label-inverts (lbl ∷ rest) name
          ∙ ap (Option.map inverts) (
              sym (
                after_label-other inst (next ∷ lbl ∷ rest) name
                  (branch-label inst.op (conditional-branch inst.op c))
                ∙ after_label-other next (lbl ∷ rest) name
                    (branch-label next.op (jmp-branch next.op j))))
    ]

goto-inverts :
    (code : List IrInst) (l : Option String) (target : List IrInst)
    → goto code l ≡ some target
    → goto (inverts code) l ≡ some (inverts target)
goto-inverts code none target h = cc
goto-inverts code (some name) target h = after_label-inverts code name ∙ ap (Option.map inverts) h

-- A label that does not come again does not come again.
inverts_unique :
    (inst : IrInst) (rest : List IrInst)
    → Distinct (inst ∷ rest)
    → (name : String) → label_of inst ≡ some name
    → after_label (inverts rest) name ≡ none
inverts_unique inst rest d name e =
    after_label-inverts rest name ∙ ap (Option.map inverts) (d.0 name e)

unlabelled :
    (inst : IrInst) (rest : List IrInst)
    → is_op inst.op ir_label ≡ false
    → (name : String) → label_of inst ≡ some name
    → after_label rest name ≡ none
unlabelled inst rest h name e = absurd (ground (arith, h, e))

pub invert_branches-Distinct :
    (insts : List IrInst) → Distinct insts → Distinct (invert_branches insts).0
unfolding invert_branches
invert_branches-Distinct [] d = tt
invert_branches-Distinct (inst ∷ []) d = d
invert_branches-Distinct (inst ∷ next ∷ []) d = d
invert_branches-Distinct (inst ∷ next ∷ lbl ∷ rest) d =
    elim (Bool-cases (is_branch_over inst next lbl)) [
      | inr h ↦ subst Distinct (sym (inverts-keep inst next lbl rest h)) (
        inverts_unique inst (next ∷ lbl ∷ rest) d,
        invert_branches-Distinct (next ∷ lbl ∷ rest) d.1,
      )
      | inl h ↦ subst Distinct (sym (inverts-over inst next lbl rest h)) (
        unlabelled (inverted inst next) (inverts (lbl ∷ rest)) (inverted-label inst next),
        invert_branches-Distinct (lbl ∷ rest) d.1.1,
      )
    ]

module _ {S : Type 0} (act : IrInst → S → S) (is_zero : IrOperand → S → Bool) where
  inverts-next :
      (code : List IrInst) (inst : IrInst) (rest : List IrInst) (s t : S)
      → Exec act is_zero code (inst ∷ inverts rest) s t
      → ((next lbl : IrInst) (later : List IrInst)
          → rest ≡ next ∷ lbl ∷ later
          → is_branch_over inst next lbl ≡ true
          → Exec act is_zero code (inverted inst next ∷ inverts (lbl ∷ later)) s t)
      → Exec act is_zero code (inverts (inst ∷ rest)) s t
  unfolding invert_branches
  inverts-next code inst [] s t keep over = keep
  inverts-next code inst (next ∷ []) s t keep over = keep
  inverts-next code inst (next ∷ lbl ∷ rest) s t keep over =
      elim (Bool-cases (is_branch_over inst next lbl)) [
        | inl h ↦
            subst (λ xs. Exec act is_zero code xs s t) (sym (inverts-over inst next lbl rest h))
              (over next lbl rest refl h)
        | inr h ↦
            subst (λ xs. Exec act is_zero code xs s t) (sym (inverts-keep inst next lbl rest h))
              keep
      ]

  -- An instruction that is no conditional branch stays.
  inverts-stays :
      (inst : IrInst) (rest : List IrInst)
      → (is_conditional inst.op ≡ true → ⊥)
      → inverts (inst ∷ rest) ≡ inst ∷ inverts rest
  unfolding invert_branches
  inverts-stays inst [] n = refl
  inverts-stays inst (next ∷ []) n = refl
  inverts-stays inst (next ∷ lbl ∷ rest) n = elim (Bool-cases (is_branch_over inst next lbl)) [
    | inl h ↦ absurd (n (is_branch_over-ops inst next lbl h).0)
    | inr h ↦ inverts-keep inst next lbl rest h
  ]

  -- A run from an unconditional jump is one from its target.
  jmp-run :
      (code : List IrInst) {inst : IrInst} {rest : List IrInst} {s t : S}
      → is_op inst.op ir_jmp ≡ true
      → Exec act is_zero code (inst ∷ rest) s t
      → (target : List IrInst) × (goto code inst.dest.label ≡ some target)
        × Exec act is_zero code target s t
  jmp-run code j (returns {inst} h) = absurd (branch-ret inst.op (jmp-branch inst.op j) h)
  jmp-run code j (acts {inst} h run) = absurd (branch-plain inst.op (jmp-branch inst.op j) h)
  jmp-run code j (skip {inst} {s = s} h run) = absurd (jmp-skips inst.op (is_zero inst.src1 s) j h)
  jmp-run code j (jump {target = target} h g run) = (target, g, run)

  -- The branch not taken, and the jump after it.
  inverted-jump :
      (code : List IrInst) (inst next lbl : IrInst) (later : List IrInst) (s t : S)
      → is_branch_over inst next lbl ≡ true
      → skips inst.op (is_zero inst.src1 s) ≡ true
      → Exec act is_zero code (inverts (next ∷ lbl ∷ later)) s t
      → Exec act is_zero code (inverted inst next ∷ inverts (lbl ∷ later)) s t
  unfolding inverted
  inverted-jump code inst next lbl later s t h take run =
      let (c, j, _, _) = is_branch_over-ops inst next lbl h in
      let stays = inverts-stays next (lbl ∷ later) (λ n. conditional-jmp next.op n j) in
      let (target, g, run') =
        jmp-run code j (subst (λ xs. Exec act is_zero code xs s t) stays run) in
      jump (inverted-takes inst next (is_zero inst.src1 s) c take) g run'

  -- The branch taken, and the label that it goes to.
  inverted-skip :
      (code final : List IrInst) (inst next lbl : IrInst) (later target : List IrInst) (s t : S)
      → Distinct code
      → IsSuffix code (inst ∷ next ∷ lbl ∷ later)
      → is_branch_over inst next lbl ≡ true
      → takes inst.op (is_zero inst.src1 s) ≡ true
      → goto code inst.dest.label ≡ some target
      → Exec act is_zero final (inverts target) s t
      → Exec act is_zero final (inverted inst next ∷ inverts (lbl ∷ later)) s t
  unfolding inverted
  inverted-skip code final inst next lbl later target s t d suffix h take g run =
      let (c, j, l, same) = is_branch_over-ops inst next lbl h in
      let (name, from, to) = same_label-eq inst.dest.label lbl.dest.label same in
      let at_lbl =
        IsSuffix-tail code next (lbl ∷ later)
          (IsSuffix-tail code inst (next ∷ lbl ∷ later) suffix) in
      let own =
        after_label-own code lbl later name d at_lbl (label_of-label lbl (some name) l to) in
      let here : target ≡ later = some-injective target later (sym g ∙ ap (goto code) from ∙ own) in
      let stays =
        inverts-stays lbl later (λ n. label-branch lbl.op l (conditional-branch lbl.op n)) in
      skip (inverted-skips inst next (is_zero inst.src1 s) c take) (
        subst (λ xs. Exec act is_zero final xs s t) (sym stays)
          (skip (label-skips lbl.op (is_zero lbl.src1 s) l)
            (subst (λ x. Exec act is_zero final (inverts x) s t) here run)))

  pub invert_branches-Exec :
      (code : List IrInst)
      → Distinct code
      → {rest : List IrInst} {s t : S} → IsSuffix code rest
      → Exec act is_zero code rest s t
      → Exec act is_zero (invert_branches code).0 (invert_branches rest).0 s t
  unfolding invert_branches
  invert_branches-Exec code d suffix ends = ends
  invert_branches-Exec code d suffix (returns {inst} {rest} {s} h) =
      inverts-next _ inst rest s _ (returns h) (λ next lbl later e over. absurd (
        branch-ret inst.op (conditional-branch inst.op (is_branch_over-ops inst next lbl over).0)
          h))
  invert_branches-Exec code d suffix (acts {inst} {rest} {s} h run) =
      inverts-next _ inst rest s _
        (acts h (invert_branches-Exec code d (IsSuffix-tail code inst rest suffix) run))
        (λ next lbl later e over. absurd (
          branch-plain inst.op
            (conditional-branch inst.op (is_branch_over-ops inst next lbl over).0) h))
  invert_branches-Exec code d suffix (skip {inst} {rest} {s} {t} h run) =
      let ran = invert_branches-Exec code d (IsSuffix-tail code inst rest suffix) run in
      inverts-next _ inst rest s t (skip h ran) (λ next lbl later e over.
        inverted-jump _ inst next lbl later s t over h
          (subst (λ xs. Exec act is_zero (inverts code) (inverts xs) s t) e ran))
  invert_branches-Exec code d suffix (jump {inst} {rest} {target} {s} {t} h g run) =
      let ran = invert_branches-Exec code d (goto-IsSuffix code inst.dest.label target g) run in
      inverts-next _ inst rest s t (jump h (goto-inverts code inst.dest.label target g) ran)
        (λ next lbl later e over.
          inverted-skip code _ inst next lbl later target s t d
            (subst (λ xs. IsSuffix code (inst ∷ xs)) e suffix) over h g ran)
