-- ===== src/Opt/Simplify/Folded.antt =====
-- Step 2 of opt_cfg_simplify: runs of a function before and after it.
use winds.Base.{
  String, ◌≡◌, refl, sym, ◌∙◌, ap, inl, inr, Bool, true, false, Option, none, some, List, [], ◌∷◌,
  Bool-cases, arith,
}
use mathlib.Core.Option
use winds.Ir.{IrInst, IrOperand, ir_jmp, is_op}
use winds.Opt.Flow.Ops.{
  branch-label, branch-plain, branch-ret, jmp-takes, conditional-branch, conditional-jmp,
}
use winds.Opt.Flow.{
  same_label, label_of, after_label, goto, is_conditional, Exec, ends, returns, acts, skip, jump,
}
use winds.Opt.Flow.Labels.{Distinct, same_label-eq, after_label-other}
use winds.Opt.Simplify.{is_folded, fold_branches}

abbrev folded : List IrInst → List IrInst
folded insts = (fold_branches insts).0

is_folded-conditional :
    (inst : IrInst) (rest : List IrInst)
    → is_folded inst rest ≡ true
    → is_conditional inst.op ≡ true
unfolding is_folded
is_folded-conditional inst [] h = cc
is_folded-conditional inst (next ∷ rest) h = ground (arith, h)

is_folded-next :
    (inst next : IrInst) (rest : List IrInst)
    → is_folded inst (next ∷ rest) ≡ true
    → (is_op next.op ir_jmp ≡ true) × (same_label inst.dest.label next.dest.label ≡ true)
unfolding is_folded
is_folded-next inst next rest h = ground (arith, h)

is_folded-end : (inst : IrInst) → is_folded inst [] ≡ false
unfolding is_folded
is_folded-end inst = refl

after_label-folded :
    (insts : List IrInst) (name : String)
    → after_label (folded insts) name ≡ Option.map folded (after_label insts name)
unfolding after_label fold_branches
after_label-folded [] name = refl
after_label-folded (inst ∷ rest) name =
    let later = after_label-folded rest name in
    elim (Bool-cases (is_folded inst rest)) [
      | inl h ↦
          let no_label =
            branch-label inst.op (conditional-branch inst.op (is_folded-conditional inst rest h)) in
          rw (h, fold_branches, folded)
            (later ∙ sym (ap (Option.map folded) (after_label-other inst rest name no_label)))
      | inr h ↦
          rw (h, fold_branches, folded, after_label)
            (elim (Bool-cases (same_label (label_of inst) (some name))) [
              | inl e ↦ rw e refl
              | inr e ↦ rw e later
            ])
    ]

goto-folded :
    (code : List IrInst) (l : Option String) (target : List IrInst)
    → goto code l ≡ some target
    → goto (folded code) l ≡ some (folded target)
goto-folded code none target h = cc
goto-folded code (some name) target h = after_label-folded code name ∙ ap (Option.map folded) h

pub fold_branches-Distinct :
    (insts : List IrInst) → Distinct insts → Distinct (fold_branches insts).0
unfolding fold_branches
fold_branches-Distinct [] d = tt
fold_branches-Distinct (inst ∷ rest) d =
    let later = fold_branches-Distinct rest d.1 in
    elim (Bool-cases (is_folded inst rest)) [
      | inl h ↦ rw (h, fold_branches) later
      | inr h ↦
          rw (h, fold_branches)
            ((λ name e. after_label-folded rest name ∙ ap (Option.map folded) (d.0 name e)), later)
    ]

module _ {S : Type 0} (act : IrInst → S → S) (is_zero : IrOperand → S → Bool) where
  folded-next :
      (code : List IrInst) (inst : IrInst) (rest : List IrInst) (s t : S)
      → (is_folded inst rest ≡ false → Exec act is_zero code (inst ∷ folded rest) s t)
      → (is_folded inst rest ≡ true → Exec act is_zero code (folded rest) s t)
      → Exec act is_zero code (folded (inst ∷ rest)) s t
  unfolding fold_branches
  folded-next code inst rest s t keep drop = elim (Bool-cases (is_folded inst rest)) [
    | inl h ↦ rw (h, fold_branches, folded) (drop h)
    | inr h ↦ rw (h, fold_branches, folded) (keep h)
  ]

  -- The jump of a folded branch is the jump after it.
  folded-jump :
      (code : List IrInst) (inst : IrInst) (rest target : List IrInst) (s t : S)
      → is_folded inst rest ≡ true
      → goto (folded code) inst.dest.label ≡ some (folded target)
      → Exec act is_zero (folded code) (folded target) s t
      → Exec act is_zero (folded code) (folded rest) s t
  folded-jump code inst [] target s t h g run = cc (h, is_folded-end inst)
  folded-jump code inst (next ∷ rest) target s t h g run =
      let both = is_folded-next inst next rest h in
      let (name, from, to) = same_label-eq inst.dest.label next.dest.label both.1 in
      folded-next (folded code) next rest s t
        (λ e.
          jump (jmp-takes next.op (is_zero next.src1 s) both.0)
            (ap (goto (folded code)) (to ∙ sym from) ∙ g) run)
        (λ e. absurd (conditional-jmp next.op (is_folded-conditional next rest e) both.0))

  pub fold_branches-Exec :
      (code : List IrInst) {rest : List IrInst} {s t : S}
      → Exec act is_zero code rest s t
      → Exec act is_zero (fold_branches code).0 (fold_branches rest).0 s t
  unfolding fold_branches
  fold_branches-Exec code ends = ends
  fold_branches-Exec code (returns {inst} {rest} {s} h) =
      folded-next _ inst rest s _ (λ e. returns h)
        (λ e.
          absurd
            (branch-ret inst.op (conditional-branch inst.op (is_folded-conditional inst rest e)) h))
  fold_branches-Exec code (acts {inst} {rest} {s} h run) =
      folded-next _ inst rest s _ (λ e. acts h (fold_branches-Exec code run))
        (λ e.
          absurd (
            branch-plain inst.op (conditional-branch inst.op (is_folded-conditional inst rest e))
              h))
  fold_branches-Exec code (skip {inst} {rest} {s} h run) =
      let later = fold_branches-Exec code run in
      folded-next _ inst rest s _ (λ e. skip h later) (λ e. later)
  fold_branches-Exec code (jump {inst} {rest} {target} {s} h g run) =
      let later = fold_branches-Exec code run in
      let found = goto-folded code inst.dest.label target g in
      folded-next _ inst rest s _ (λ e. jump h found later)
        (λ e. folded-jump code inst rest target s _ e found later)
