-- ===== src/Opt/Cfg/DeadJumps.antt =====
-- Step 2 of opt_cfg_optimization: runs of a function before and after it.
use winds.Base.{
  String, ◌≡◌, refl, sym, ◌∙◌, ap, subst, inl, inr, Bool, true, false, Option, none, some, List, [],
  ◌∷◌, Bool-cases, arith,
}
use mathlib.Core.Option
use mathlib.Core.Option.{some-injective}
use winds.Ir.{IrInst, IrOperand, ir_label, is_op}
use winds.Opt.Flow.Ops.{label-branch, label-skips}
use winds.Opt.Flow.{
  same_label, label_of, after_label, goto, is_branch, Exec, ends, returns, acts, skip, jump,
}
use winds.Opt.Flow.Labels.{
  Distinct, IsSuffix, IsSuffix-tail, goto-IsSuffix, after_label-own, same_label-eq, label_of-label,
}
use winds.Opt.Cfg.{is_dead_jump, remove_dead_jumps}

abbrev live : List IrInst → List IrInst
live insts = (remove_dead_jumps insts).0

is_dead_jump-is_branch :
    (inst : IrInst) (rest : List IrInst) → is_dead_jump inst rest ≡ true → is_branch inst.op ≡ true
unfolding is_dead_jump
is_dead_jump-is_branch inst [] h = cc
is_dead_jump-is_branch inst (next ∷ rest) h = ground (arith, h)

is_dead_jump-next :
    (inst next : IrInst) (rest : List IrInst)
    → is_dead_jump inst (next ∷ rest) ≡ true
    → (is_op next.op ir_label ≡ true) × (same_label inst.dest.label next.dest.label ≡ true)
unfolding is_dead_jump
is_dead_jump-next inst next rest h = ground (arith, h)

-- A dead jump goes behind the label that comes next.
dead_jump-target :
    (code : List IrInst) (inst next : IrInst) (rest target : List IrInst) (name : String)
    → Distinct code
    → IsSuffix code (next ∷ rest)
    → is_op next.op ir_label ≡ true
    → inst.dest.label ≡ some name
    → next.dest.label ≡ some name
    → goto code inst.dest.label ≡ some target
    → target ≡ rest
dead_jump-target code inst next rest target name d suffix is_lbl from to g =
    some-injective target rest (
      sym g
      ∙ ap (goto code) from
      ∙ after_label-own code next rest name d suffix (label_of-label next (some name) is_lbl to))

after_label-live :
    (insts : List IrInst) (name : String)
    → after_label (live insts) name ≡ Option.map live (after_label insts name)
unfolding after_label remove_dead_jumps
after_label-live [] name = refl
after_label-live (inst ∷ rest) name =
    let later = after_label-live rest name in
    elim (Bool-cases (is_dead_jump inst rest)) [
      | inl h ↦
          let no_label : is_op inst.op ir_label ≡ false =
            ground (arith, is_dead_jump-is_branch inst rest h) in
          rw (h, remove_dead_jumps, live, after_label, no_label) later
      | inr h ↦
          rw (h, remove_dead_jumps, live, after_label)
            (elim (Bool-cases (same_label (label_of inst) (some name))) [
              | inl e ↦ rw e refl
              | inr e ↦ rw e later
            ])
    ]

goto-live :
    (code : List IrInst) (l : Option String) (target : List IrInst)
    → goto code l ≡ some target
    → goto (live code) l ≡ some (live target)
goto-live code none target h = cc
goto-live code (some name) target h = after_label-live code name ∙ ap (Option.map live) h

pub remove_dead_jumps-Distinct :
    (insts : List IrInst) → Distinct insts → Distinct (remove_dead_jumps insts).0
unfolding remove_dead_jumps
remove_dead_jumps-Distinct [] d = tt
remove_dead_jumps-Distinct (inst ∷ rest) d =
    let later = remove_dead_jumps-Distinct rest d.1 in
    elim (Bool-cases (is_dead_jump inst rest)) [
      | inl h ↦ rw (h, remove_dead_jumps) later
      | inr h ↦
          rw (h, remove_dead_jumps)
            ((λ name e. after_label-live rest name ∙ ap (Option.map live) (d.0 name e)), later)
    ]

no_next : (inst : IrInst) → is_dead_jump inst [] ≡ false
unfolding is_dead_jump
no_next inst = refl

module _ {S : Type 0} (act : IrInst → S → S) (is_zero : IrOperand → S → Bool) where
  live-next :
      (code : List IrInst) (inst : IrInst) (rest : List IrInst) (s t : S)
      → (is_dead_jump inst rest ≡ false → Exec act is_zero code (inst ∷ live rest) s t)
      → (is_dead_jump inst rest ≡ true → Exec act is_zero code (live rest) s t)
      → Exec act is_zero code (live (inst ∷ rest)) s t
  unfolding remove_dead_jumps
  live-next code inst rest s t keep drop = elim (Bool-cases (is_dead_jump inst rest)) [
    | inl h ↦ rw (h, remove_dead_jumps, live) (drop h)
    | inr h ↦ rw (h, remove_dead_jumps, live) (keep h)
  ]

  -- The jump of a dead jump is the step over the label.
  dead_jump-skip :
      (code : List IrInst) (inst : IrInst) (rest target : List IrInst) (s t : S)
      → Distinct code
      → IsSuffix code (inst ∷ rest)
      → is_dead_jump inst rest ≡ true
      → goto code inst.dest.label ≡ some target
      → Exec act is_zero (live code) (live target) s t
      → Exec act is_zero (live code) (live rest) s t
  dead_jump-skip code inst [] target s t d suffix h g run = cc (h, no_next inst)
  dead_jump-skip code inst (next ∷ rest) target s t d suffix h g run =
      let after = IsSuffix-tail code inst (next ∷ rest) suffix in
      let both = is_dead_jump-next inst next rest h in
      let (name, from, to) = same_label-eq inst.dest.label next.dest.label both.1 in
      let here = dead_jump-target code inst next rest target name d after both.0 from to g in
      live-next (live code) next rest s t
        (λ e.
          skip (label-skips next.op (is_zero next.src1 s) both.0)
            (subst (λ x. Exec act is_zero (live code) (live x) s t) here run))
        (λ e. absurd (label-branch next.op both.0 (is_dead_jump-is_branch next rest e)))

  pub remove_dead_jumps-Exec :
      (code : List IrInst)
      → Distinct code
      → {rest : List IrInst} {s t : S} → IsSuffix code rest
      → Exec act is_zero code rest s t
      → Exec act is_zero (remove_dead_jumps code).0 (remove_dead_jumps rest).0 s t
  unfolding remove_dead_jumps
  remove_dead_jumps-Exec code d suffix ends = ends
  remove_dead_jumps-Exec code d suffix (returns {inst} {rest} {s} h) =
      live-next _ inst rest s _ (λ e. returns h)
        (λ e. absurd (ground (arith, h, is_dead_jump-is_branch inst rest e)))
  remove_dead_jumps-Exec code d suffix (acts {inst} {rest} {s} h run) =
      live-next _ inst rest s _
        (λ e. acts h (remove_dead_jumps-Exec code d (IsSuffix-tail code inst rest suffix) run))
        (λ e. absurd (ground (arith, h, is_dead_jump-is_branch inst rest e)))
  remove_dead_jumps-Exec code d suffix (skip {inst} {rest} {s} h run) =
      let later = remove_dead_jumps-Exec code d (IsSuffix-tail code inst rest suffix) run in
      live-next _ inst rest s _ (λ e. skip h later) (λ e. later)
  remove_dead_jumps-Exec code d suffix (jump {inst} {rest} {target} {s} h g run) =
      let later = remove_dead_jumps-Exec code d (goto-IsSuffix code inst.dest.label target g) run in
      live-next _ inst rest s _ (λ e. jump h (goto-live code inst.dest.label target g) later)
        (λ e. dead_jump-skip code inst rest target s _ d suffix e g later)
