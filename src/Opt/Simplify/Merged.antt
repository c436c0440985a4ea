-- ===== src/Opt/Simplify/Merged.antt =====
-- Step 3 of opt_cfg_simplify: runs of a function before and after one merge of labels.
use winds.Base.{
  String, ◌≡◌, ◌≢◌, refl, sym, ◌∙◌, ap, subst, inl, inr, Bool, true, ◌&&◌, Option, none, some, List,
  [], ◌∷◌, ◌++◌, map, Bool-cases, &&-both, arith,
}
use mathlib.Core.Option.{some-injective}
use winds.Ir.{IrInst, IrOperand, ir_label, is_op}
use winds.Opt.Flow.Ops.{
  branch-label, branch-plain, branch-ret, takes-branch, label-branch, label-skips, label-plain,
  label-ret, label-takes,
}
use winds.Opt.Flow.{
  same_label, label_of, after_label, goto, is_branch, Exec, ends, returns, acts, skip, jump,
}
use winds.Opt.Flow.Labels.{
  Distinct, same_label-eq, same_label_self, label_of-label, after_label-other,
}
use winds.Opt.Cfg.{with_label}
use winds.Opt.Simplify.{redirect}

-- The instructions without the label `r`, and with `k` in its place where a branch goes.
pub data Merges (k r : String) : List IrInst → List IrInst → Type 0 where
  nothing : Merges k r [] []
  kept :
      {xs ys : List IrInst} (inst : IrInst)
      → (is_branch inst.op ≡ true → inst.dest.label ≢ some r)
      → Merges k r xs ys
      → Merges k r (inst ∷ xs) (inst ∷ ys)
  moved :
      {xs ys : List IrInst} (inst : IrInst)
      → is_branch inst.op ≡ true
      → inst.dest.label ≡ some r
      → Merges k r xs ys
      → Merges k r (inst ∷ xs) (with_label inst (some k) ∷ ys)
  gone :
      {xs ys : List IrInst} (inst : IrInst)
      → is_op inst.op ir_label ≡ true
      → inst.dest.label ≡ some r
      → Merges k r xs ys
      → Merges k r (inst ∷ xs) ys

branch-unlabelled :
    (inst : IrInst) (name : String) → is_branch inst.op ≡ true → label_of inst ≡ some name → ⊥
branch-unlabelled inst name b l = ground (arith, l, branch-label inst.op b)

-- A label of another name.
after_label-skip :
    (inst : IrInst) (rest : List IrInst) (name r : String)
    → is_op inst.op ir_label ≡ true
    → inst.dest.label ≡ some r
    → name ≢ r
    → after_label (inst ∷ rest) name ≡ after_label rest name
unfolding after_label
after_label-skip inst rest name r l e ne =
    elim (Bool-cases (same_label (label_of inst) (some name))) [
      | inl same ↦
          let (n, own, named) = same_label-eq (label_of inst) (some name) same in
          absurd (ne (some-injective name r (named ∙ sym own ∙ label_of-label inst (some r) l e)))
      | inr other ↦ rw (other, after_label) refl
    ]

after_label-Merges :
    (k r : String) {xs ys : List IrInst} (name : String) (rest : List IrInst)
    → name ≢ r
    → Merges k r xs ys
    → after_label xs name ≡ some rest
    → (rest' : List IrInst) × (after_label ys name ≡ some rest') × Merges k r rest rest'
unfolding after_label
after_label-Merges k r name rest ne nothing h = cc
after_label-Merges k r name rest ne (kept {xs} {ys} inst away m) h =
    elim (Bool-cases (same_label (label_of inst) (some name))) [
      | inl e ↦ (
        ys,
        rw e refl,
        subst (λ x. Merges k r x ys) (some-injective xs rest (ground (arith, h, e))) m,
      )
      | inr e ↦
          let (rest', found, m') = after_label-Merges k r name rest ne m (ground (arith, h, e)) in
          (rest', rw e found, m')
    ]
after_label-Merges k r name rest ne (moved {xs} {ys} inst b e m) h = rw (branch-label inst.op b) (
    after_label-Merges k r name rest ne m
      (sym (after_label-other inst xs name (branch-label inst.op b)) ∙ h))
after_label-Merges k r name rest ne (gone {xs} {ys} inst l e m) h =
    after_label-Merges k r name rest ne m (sym (after_label-skip inst xs name r l e ne) ∙ h)

Merges-missing :
    (k r : String) {xs ys : List IrInst} (name : String)
    → Merges k r xs ys
    → after_label xs name ≡ none
    → after_label ys name ≡ none
unfolding after_label
Merges-missing k r name nothing h = refl
Merges-missing k r name (kept {xs} {ys} inst away m) h =
    elim (Bool-cases (same_label (label_of inst) (some name))) [
      | inl e ↦ absurd (ground (arith, h, e))
      | inr e ↦ rw e (Merges-missing k r name m (ground (arith, h, e)))
    ]
Merges-missing k r name (moved {xs} {ys} inst b e m) h =
    rw (branch-label inst.op b) (
      Merges-missing k r name m (sym (after_label-other inst xs name (branch-label inst.op b)) ∙ h))
Merges-missing k r name (gone {xs} {ys} inst l e m) h =
    elim (Bool-cases (same_label (label_of inst) (some name))) [
      | inl e ↦ absurd (ground (arith, h, e))
      | inr e ↦ Merges-missing k r name m (ground (arith, h, e))
    ]

pub Merges-Distinct :
    (k r : String) {xs ys : List IrInst} → Merges k r xs ys → Distinct xs → Distinct ys
Merges-Distinct k r nothing d = tt
Merges-Distinct k r (kept inst away m) d =
    ((λ name e. Merges-missing k r name m (d.0 name e)), Merges-Distinct k r m d.1)
Merges-Distinct k r (moved inst b e m) d = (
  (λ name l. absurd (branch-unlabelled (with_label inst (some k)) name b l)),
  Merges-Distinct k r m d.1,
)
Merges-Distinct k r (gone inst l e m) d = Merges-Distinct k r m d.1

same_label-some : (l : Option String) (r : String) → same_label l (some r) ≡ true → l ≡ some r
same_label-some l r h = let (n, from, to) = same_label-eq l (some r) h in from ∙ sym to

redirect-both :
    (inst : IrInst) (r : String)
    → is_branch inst.op ≡ true
    → inst.dest.label ≡ some r
    → (is_branch inst.op && same_label inst.dest.label (some r)) ≡ true
redirect-both inst r b e =
    let same : same_label inst.dest.label (some r) ≡ true =
      subst (λ l. same_label l (some r) ≡ true) (sym e) (same_label_self r) in
    ground (arith, b, same)

-- The redirected branches.
redirected-Merges :
    (k r : String) (inst : IrInst) {xs ys : List IrInst}
    → Merges k r xs ys
    → Merges k r (inst ∷ xs) (redirect (some k) (some r) inst ∷ ys)
unfolding redirect
redirected-Merges k r inst m =
    elim (Bool-cases (is_branch inst.op && same_label inst.dest.label (some r))) [
      | inl h ↦
          let (b, same) = &&-both (is_branch inst.op) _ h in
          rw (h, redirect) (moved inst b (same_label-some inst.dest.label r same) m)
      | inr h ↦ rw (h, redirect) (kept inst (λ b e. cc (h, redirect-both inst r b e)) m)
    ]

pub redirect-Merges :
    (k r : String) (insts : List IrInst) → Merges k r insts (map (redirect (some k) (some r)) insts)
redirect-Merges k r [] = nothing
redirect-Merges k r (inst ∷ rest) = redirected-Merges k r inst (redirect-Merges k r rest)

pub Merges-append :
    (k r : String) (before : List IrInst) {xs ys : List IrInst}
    → Merges k r xs ys
    → Merges k r (before ++ xs) (map (redirect (some k) (some r)) before ++ ys)
Merges-append k r [] m = m
Merges-append k r (inst ∷ before) m = redirected-Merges k r inst (Merges-append k r before m)

goto-Merges :
    (k r : String) (code code' : List IrInst) (l : Option String) (target : List IrInst)
    → Merges k r code code'
    → l ≢ some r
    → goto code l ≡ some target
    → (target' : List IrInst) × (goto code' l ≡ some target') × Merges k r target target'
goto-Merges k r code code' none target m ne g = cc
goto-Merges k r code code' (some name) target m ne g =
    after_label-Merges k r name target (λ e. ne (ap some e)) m g

module _ {S : Type 0} (act : IrInst → S → S) (is_zero : IrOperand → S → Bool) (k r : String)
    (code code' : List IrInst) where
  -- What follows the first instruction, in each of the ways that it was treated.
  merges-next :
      (inst : IrInst) (rest rest' : List IrInst) (s t : S)
      → Merges k r (inst ∷ rest) rest'
      → ((later : List IrInst)
          → Merges k r rest later
          → (is_branch inst.op ≡ true → inst.dest.label ≢ some r)
          → Exec act is_zero code' (inst ∷ later) s t)
      → ((later : List IrInst)
          → Merges k r rest later
          → is_branch inst.op ≡ true
          → inst.dest.label ≡ some r
          → Exec act is_zero code' (with_label inst (some k) ∷ later) s t)
      → ((later : List IrInst)
          → Merges k r rest later
          → is_op inst.op ir_label ≡ true
          → Exec act is_zero code' later s t)
      → Exec act is_zero code' rest' s t
  merges-next inst rest rest' s t (kept {ys = ys} _ away m) keep move go = keep ys m away
  merges-next inst rest rest' s t (moved {ys = ys} _ b e m) keep move go = move ys m b e
  merges-next inst rest rest' s t (gone {ys = ys} _ l e m) keep move go = go ys m l

  pub Exec-Merges :
      (next : IrInst) (after : List IrInst)
      → Merges k r code code'
      → k ≢ r
      → is_op next.op ir_label ≡ true
      → after_label code k ≡ some (next ∷ after)
      → after_label code r ≡ some after
      → {rest : List IrInst} {s t : S} (rest' : List IrInst) → Merges k r rest rest'
      → Exec act is_zero code rest s t
      → Exec act is_zero code' rest' s t
  Exec-Merges next after all ne lbl at_k at_r rest' nothing ends = ends
  Exec-Merges next after all ne lbl at_k at_r rest' m (returns {inst} {rest} {s} h) =
      merges-next inst rest rest' s _ m (λ later m' away. returns h)
        (λ later m' b e. absurd (branch-ret inst.op b h))
        (λ later m' l. absurd (label-ret inst.op l h))
  Exec-Merges next after all ne lbl at_k at_r rest' m (acts {inst} {rest} {s} {t} h run) =
      merges-next inst rest rest' s t m
        (λ later m' away. acts h (Exec-Merges next after all ne lbl at_k at_r later m' run))
        (λ later m' b e. absurd (branch-plain inst.op b h))
        (λ later m' l. absurd (label-plain inst.op l h))
  Exec-Merges next after all ne lbl at_k at_r rest' m (skip {inst} {rest} {s} {t} h run) =
      merges-next inst rest rest' s t m
        (λ later m' away. skip h (Exec-Merges next after all ne lbl at_k at_r later m' run))
        (λ later m' b e. skip h (Exec-Merges next after all ne lbl at_k at_r later m' run))
        (λ later m' l. Exec-Merges next after all ne lbl at_k at_r later m' run)
  Exec-Merges next after all ne lbl at_k at_r rest' m
        (jump {inst} {rest} {target} {s} {t} h g run) =
      merges-next inst rest rest' s t m
        (λ later m' away.
          let (target', found, to) =
            goto-Merges k r code code' inst.dest.label target all
              (away (takes-branch inst.op (is_zero inst.src1 s) h)) g in
          jump h found (Exec-Merges next after all ne lbl at_k at_r target' to run))
        (λ later m' b e.
          let (target', found, to) = after_label-Merges k r k (next ∷ after) ne all at_k in
          let here : target ≡ after =
            some-injective target after (sym g ∙ ap (goto code) e ∙ at_r) in
          jump h found (
            merges-next next after target' s t to
              (λ later' m'' away. skip (label-skips next.op (is_zero next.src1 s) lbl) (
                Exec-Merges next after all ne lbl at_k at_r later'
                  (subst (λ x. Merges k r x later') (sym here) m'') run))
              (λ later' m'' b' e'. absurd (label-branch next.op lbl b'))
              (λ later' m'' l'.
                Exec-Merges next after all ne lbl at_k at_r later'
                  (subst (λ x. Merges k r x later') (sym here) m'') run)))
        (λ later m' l. absurd (label-takes inst.op (is_zero inst.src1 s) l h))
