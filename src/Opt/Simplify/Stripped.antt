-- ===== src/Opt/Simplify/Stripped.antt =====
-- Step 4 of opt_cfg_simplify: runs of a function before and after it.
use winds.Base.{
  String, ◌≡◌, refl, sym, ◌∙◌, ap, subst, inl, inr, Bool, true, false, not, ◌&&◌, Option, none,
  some, List, [], ◌∷◌, Bool-cases, arith,
}
use mathlib.Core.Option
use mathlib.Core.Option.{some-injective}
use winds.Ir.{IrOp, IrInst, IrOperand, ir_label, is_op, is_label}
use winds.Opt.Dead.{ends_flow, strip_dead}
use winds.Opt.Flow.Labels.{Distinct, after_label-other}
use winds.Opt.Flow.{
  same_label, label_of, after_label, goto, skips, is_plain, Exec, ends, returns, acts, skip, jump,
}

pub is_label-op : (op : IrOp) → is_label op ≡ is_op op ir_label
is_label-op ir_label = refl
is_label-op _ = refl

abbrev stripped : Bool → List IrInst → List IrInst
stripped dead insts = (strip_dead dead insts).0

stripped-skip :
    (dead : Bool) (inst : IrInst) (rest : List IrInst)
    → (dead && not (is_label inst.op)) ≡ true
    → stripped dead (inst ∷ rest) ≡ stripped true rest
unfolding strip_dead
stripped-skip dead inst rest h = rw (h, strip_dead, stripped) refl

stripped-keep :
    (dead : Bool) (inst : IrInst) (rest : List IrInst)
    → (dead && not (is_label inst.op)) ≡ false
    → stripped dead (inst ∷ rest) ≡ inst ∷ stripped (ends_flow inst.op) rest
unfolding strip_dead
stripped-keep dead inst rest h = rw (h, strip_dead, stripped) refl

pub plain-ends_flow : (op : IrOp) → is_plain op ≡ true → ends_flow op ≡ false
plain-ends_flow op h = ground (arith, h)

pub skips-ends_flow : (op : IrOp) (z : Bool) → skips op z ≡ true → ends_flow op ≡ false
skips-ends_flow op z h = ground (arith, h)

label-ends_flow : (op : IrOp) → is_op op ir_label ≡ true → ends_flow op ≡ false
label-ends_flow op h = ground (arith, h)

named-label :
    (inst : IrInst) (l : Option String)
    → same_label (label_of inst) l ≡ true
    → is_op inst.op ir_label ≡ true
named-label inst l h = ground (arith, h)

skipped-label :
    (dead : Bool) (op : IrOp) → (dead && not (is_label op)) ≡ true → is_op op ir_label ≡ false
skipped-label dead op h = sym (is_label-op op) ∙ ground (arith, h)

after_label-stripped :
    (dead : Bool) (insts : List IrInst) (name : String)
    → after_label (stripped dead insts) name ≡ Option.map (stripped false) (after_label insts name)
unfolding after_label strip_dead
after_label-stripped dead [] name = refl
after_label-stripped dead (inst ∷ rest) name = elim (Bool-cases (dead && not (is_label inst.op))) [
  | inl h ↦
      ap (λ xs. after_label xs name) (stripped-skip dead inst rest h)
      ∙ after_label-stripped true rest name
      ∙ ap (Option.map (stripped false))
          (sym (after_label-other inst rest name (skipped-label dead inst.op h)))
  | inr h ↦
      ap (λ xs. after_label xs name) (stripped-keep dead inst rest h)
      ∙ elim (Bool-cases (same_label (label_of inst) (some name))) [
        | inl e ↦ rw e (
            ap (λ b. some (stripped b rest))
              (label-ends_flow inst.op (named-label inst (some name) e)))
        | inr e ↦ rw e (after_label-stripped (ends_flow inst.op) rest name)
      ]
]

goto-stripped :
    (code : List IrInst) (l : Option String) (target : List IrInst)
    → goto code l ≡ some target
    → goto (stripped false code) l ≡ some (stripped false target)
goto-stripped code none target h = cc
goto-stripped code (some name) target h =
    after_label-stripped false code name ∙ ap (Option.map (stripped false)) h

pub strip_dead-Distinct :
    (dead : Bool) (insts : List IrInst) → Distinct insts → Distinct (strip_dead dead insts).0
unfolding strip_dead
strip_dead-Distinct dead [] d = tt
strip_dead-Distinct dead (inst ∷ rest) d = elim (Bool-cases (dead && not (is_label inst.op))) [
  | inl h ↦
      subst Distinct (sym (stripped-skip dead inst rest h)) (strip_dead-Distinct true rest d.1)
  | inr h ↦ subst Distinct (sym (stripped-keep dead inst rest h)) (
    (λ name e.
        after_label-stripped (ends_flow inst.op) rest name
        ∙ ap (Option.map (stripped false)) (d.0 name e)),
    strip_dead-Distinct (ends_flow inst.op) rest d.1,
  )
]

module _ {S : Type 0} (act : IrInst → S → S) (is_zero : IrOperand → S → Bool) where
  -- The instruction stays, and the rest after it.
  stripped-next :
      (code : List IrInst) (inst : IrInst) (rest : List IrInst) (s t : S)
      → ((dead : Bool)
          → ends_flow inst.op ≡ dead
          → Exec act is_zero code (inst ∷ stripped dead rest) s t)
      → Exec act is_zero code (stripped false (inst ∷ rest)) s t
  stripped-next code inst rest s t keep =
      subst (λ xs. Exec act is_zero code xs s t) (sym (stripped-keep false inst rest refl))
        (keep (ends_flow inst.op) refl)

  pub strip_dead-Exec :
      (code : List IrInst) {rest : List IrInst} {s t : S}
      → Exec act is_zero code rest s t
      → Exec act is_zero (strip_dead false code).0 (strip_dead false rest).0 s t
  unfolding strip_dead
  strip_dead-Exec code ends = ends
  strip_dead-Exec code (returns {inst} {rest} {s} h) =
      stripped-next _ inst rest s _ (λ dead e. returns h)
  strip_dead-Exec code (acts {inst} {rest} {s} {t} h run) =
      let live = plain-ends_flow inst.op h in
      stripped-next _ inst rest s _ (λ dead e. acts h (
        subst (λ b. Exec act is_zero (stripped false code) (stripped b rest) (act inst s) t)
          (sym live ∙ e) (strip_dead-Exec code run)))
  strip_dead-Exec code (skip {inst} {rest} {s} {t} h run) =
      let live = skips-ends_flow inst.op (is_zero inst.src1 s) h in
      stripped-next _ inst rest s _ (λ dead e. skip h (
        subst (λ b. Exec act is_zero (stripped false code) (stripped b rest) s t) (sym live ∙ e)
          (strip_dead-Exec code run)))
  strip_dead-Exec code (jump {inst} {rest} {target} {s} h g run) =
      stripped-next _ inst rest s _
        (λ dead e. jump h (goto-stripped code inst.dest.label target g) (strip_dead-Exec code run))
