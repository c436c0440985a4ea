-- ===== src/Opt/Cfg/Unused.antt =====
-- Step 4 of opt_cfg_optimization: runs of a function before and after it.
use winds.Base.{
  String, ◌≡◌, refl, sym, ◌∙◌, ap, subst, inl, inr, Bool, true, false, Option, none, some, List, [],
  ◌∷◌, ◌++◌, if◌then◌else◌, Bool-cases, arith,
}
use mathlib.Core.Option.{some-injective}
use winds.Ir.{IrOp, IrInst, IrOperand, ir_label, is_op}
use winds.Opt.Flow.Ops.{takes-branch, label-plain, label-ret, label-takes}
use winds.Opt.Flow.{
  same_label, label_of, after_label, goto, is_branch, Exec, ends, returns, acts, skip, jump,
}
use winds.Opt.Flow.Labels.{IsSuffix, IsSuffix-tail, goto-IsSuffix, same_label-eq, same_label_self}
use winds.Opt.Cfg.{is_referenced, is_unused_label, remove_unused_labels}

is_unused_label-both :
    (code : List IrInst) (prev : Option IrOp) (inst : IrInst)
    → is_unused_label code prev inst ≡ true
    → (is_op inst.op ir_label ≡ true) × (is_referenced code inst.dest.label ≡ false)
unfolding is_unused_label
is_unused_label-both code prev inst h = ground (arith, h)

label_of-named :
    (inst : IrInst) (name : String) → label_of inst ≡ some name → inst.dest.label ≡ some name
label_of-named inst name h = elim (Bool-cases (is_op inst.op ir_label)) [
  | inl e ↦ sym (ap (λ b. if b then inst.dest.label else none) e) ∙ h
  | inr e ↦ absurd (ground (arith, h, e))
]

is_referenced-branch :
    (before : List IrInst) (inst : IrInst) (rest : List IrInst) (name : String)
    → is_branch inst.op ≡ true
    → inst.dest.label ≡ some name
    → is_referenced (before ++ (inst ∷ rest)) (some name) ≡ true
unfolding is_referenced
is_referenced-branch [] inst rest name b e =
    let same : same_label inst.dest.label (some name) ≡ true =
      subst (λ l. same_label l (some name) ≡ true) (sym e) (same_label_self name) in
    ground (arith, b, same)
is_referenced-branch (x ∷ before) inst rest name b e =
    let later = is_referenced-branch before inst rest name b e in ground (arith, later)

goto-referenced :
    (code : List IrInst) (inst : IrInst) (rest target : List IrInst) (l : Option String)
    → IsSuffix code (inst ∷ rest)
    → is_branch inst.op ≡ true
    → inst.dest.label ≡ l
    → goto code l ≡ some target
    → is_referenced code l ≡ true
goto-referenced code inst rest target none suffix b e g = cc
goto-referenced code inst rest target (some name) (before, q) b e g =
    subst (λ c. is_referenced c (some name) ≡ true) (sym q)
      (is_referenced-branch before inst rest name b e)

module _ (code : List IrInst) where
  abbrev remaining : Option IrOp → List IrInst → List IrInst
  remaining prev insts = (remove_unused_labels code prev insts).0

  after_label-remaining :
      (prev : Option IrOp) (insts : List IrInst) (name : String) (rest : List IrInst)
      → is_referenced code (some name) ≡ true
      → after_label insts name ≡ some rest
      → (p : Option IrOp) × (after_label (remaining prev insts) name ≡ some (remaining p rest))
  unfolding after_label remove_unused_labels
  after_label-remaining prev [] name rest r h = cc
  after_label-remaining prev (inst ∷ later) name rest r h =
      elim (Bool-cases (same_label (label_of inst) (some name))) [
        | inr e ↦
            let found : after_label later name ≡ some rest = ground (arith, h, e) in
            elim (Bool-cases (is_unused_label code prev inst)) [
              | inl u ↦
                  rw (u, remove_unused_labels, remaining)
                    (after_label-remaining prev later name rest r found)
              | inr u ↦
                  let (p, q) = after_label-remaining (some inst.op) later name rest r found in
                  (p, rw (u, remove_unused_labels, remaining, after_label, e) q)
            ]
        | inl e ↦ elim (Bool-cases (is_unused_label code prev inst)) [
          | inl u ↦
              let (n, own, named) = same_label-eq (label_of inst) (some name) e in
              let label = label_of-named inst n own ∙ sym named in
              cc (r, label, (is_unused_label-both code prev inst u).1)
          | inr u ↦ (
            some inst.op,
            rw (u, remove_unused_labels, remaining, after_label, e)
                (ap (λ x. some (remaining (some inst.op) x))
                  (some-injective later rest (ground (arith, h, e)))),
          )
        ]
      ]

  goto-remaining :
      (inst : IrInst) (rest target : List IrInst) (l : Option String)
      → IsSuffix code (inst ∷ rest)
      → is_branch inst.op ≡ true
      → inst.dest.label ≡ l
      → goto code l ≡ some target
      → (p : Option IrOp) × (goto (remaining none code) l ≡ some (remaining p target))
  goto-remaining inst rest target none suffix b e g = cc
  goto-remaining inst rest target (some name) suffix b e g =
      after_label-remaining none code name target
        (goto-referenced code inst rest target (some name) suffix b e g) g

  module _ {S : Type 0} (act : IrInst → S → S) (is_zero : IrOperand → S → Bool) where
    -- An instruction stays, or is a label.
    remaining-next :
        (final : List IrInst) (prev : Option IrOp) (inst : IrInst) (rest : List IrInst) (s t : S)
        → ((p : Option IrOp) → Exec act is_zero final (inst ∷ remaining p rest) s t)
        → (is_op inst.op ir_label ≡ true → Exec act is_zero final (remaining prev rest) s t)
        → Exec act is_zero final (remaining prev (inst ∷ rest)) s t
    unfolding remove_unused_labels
    remaining-next final prev inst rest s t keep drop =
        elim (Bool-cases (is_unused_label code prev inst)) [
          | inl u ↦
              rw (u, remove_unused_labels, remaining)
                (drop (is_unused_label-both code prev inst u).0)
          | inr u ↦ rw (u, remove_unused_labels, remaining) (keep (some inst.op))
        ]

    pub remove_unused_labels-Exec :
        (prev : Option IrOp)
        → {rest : List IrInst} {s t : S} → IsSuffix code rest
        → Exec act is_zero code rest s t
        → Exec act is_zero
            (remove_unused_labels code none code).0
            (remove_unused_labels code prev rest).0
            s
            t
    unfolding remove_unused_labels
    remove_unused_labels-Exec prev suffix ends = ends
    remove_unused_labels-Exec prev suffix (returns {inst} {rest} {s} h) =
        remaining-next _ prev inst rest s _ (λ p. returns h) (λ l. absurd (label-ret inst.op l h))
    remove_unused_labels-Exec prev suffix (acts {inst} {rest} {s} h run) =
        let after = IsSuffix-tail code inst rest suffix in
        remaining-next _ prev inst rest s _ (λ p. acts h (remove_unused_labels-Exec p after run))
          (λ l. absurd (label-plain inst.op l h))
    remove_unused_labels-Exec prev suffix (skip {inst} {rest} {s} h run) =
        let after = IsSuffix-tail code inst rest suffix in
        remaining-next _ prev inst rest s _ (λ p. skip h (remove_unused_labels-Exec p after run))
          (λ l. remove_unused_labels-Exec prev after run)
    remove_unused_labels-Exec prev suffix (jump {inst} {rest} {target} {s} h g run) =
        let b = takes-branch inst.op (is_zero inst.src1 s) h in
        let (q, found) = goto-remaining inst rest target inst.dest.label suffix b refl g in
        let later = remove_unused_labels-Exec q (goto-IsSuffix code inst.dest.label target g) run in
        remaining-next _ prev inst rest s _ (λ p. jump h found later)
          (λ l. absurd (label-takes inst.op (is_zero inst.src1 s) l h))
