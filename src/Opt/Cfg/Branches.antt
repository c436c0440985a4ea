-- ===== src/Opt/Cfg/Branches.antt =====
-- Step 1 of opt_cfg_optimization: runs of a function before and after it.
use winds.Base.{
  String, ◌≡◌, refl, ◌∙◌, ap, inl, inr, Bool, true, false, not, Option, none, some, List, [], ◌∷◌,
  ◌==◌, Bool-cases, Option-cases, arith,
}
use mathlib.Core.Option
use winds.Base.Int.{pos, int_eq}
use winds.Ir.{IrInst, IrOperand, ir_label, ir_ret, is_op}
use winds.Opt.Flow.{
  same_label, label_of, after_label, goto, takes, skips, is_plain, Exec, ends, returns, acts, skip,
  jump,
}
use winds.Opt.Flow.Labels.{Distinct}
use winds.Opt.Cfg.{constant_branch, always_jump, simplify_branches}

-- What the branch does, by its operand.
constant_branch-cases :
    (inst : IrInst) (way : Bool)
    → constant_branch inst ≡ some way
    → (int_eq inst.src1.vreg (pos 0) ≡ true)
      × (is_op inst.op ir_label ≡ false)
      × (is_plain inst.op ≡ false)
      × (is_op inst.op ir_ret ≡ false)
      × (takes inst.op (inst.src1.imm == 0) ≡ way)
      × (skips inst.op (inst.src1.imm == 0) ≡ not way)
unfolding constant_branch
constant_branch-cases inst way h = ground (arith, h)

abbrev simplified : List IrInst → List IrInst
simplified insts = (simplify_branches insts).0

after_label-simplified :
    (insts : List IrInst) (name : String)
    → after_label (simplified insts) name ≡ Option.map simplified (after_label insts name)
unfolding after_label simplify_branches
after_label-simplified [] name = refl
after_label-simplified (inst ∷ rest) name =
    let later = after_label-simplified rest name in
    elim (Option-cases (constant_branch inst)) [
      | inl h ↦
          rw (h, simplify_branches, simplified, after_label)
            (elim (Bool-cases (same_label (label_of inst) (some name))) [
              | inl e ↦ rw e refl
              | inr e ↦ rw e later
            ])
      | inr (true, h) ↦
          rw (h, simplify_branches, simplified, after_label, (constant_branch-cases inst true h).1)
            later
      | inr (false, h) ↦
          rw (h, simplify_branches, simplified, after_label, (constant_branch-cases inst false h).1)
            later
    ]

pub simplify_branches-Distinct :
    (insts : List IrInst) → Distinct insts → Distinct (simplify_branches insts).0
unfolding simplify_branches
simplify_branches-Distinct [] d = tt
simplify_branches-Distinct (inst ∷ rest) d =
    let later = simplify_branches-Distinct rest d.1 in
    elim (Option-cases (constant_branch inst)) [
      | inl h ↦
          rw (h, simplify_branches)
            (
              (λ name e.
                  after_label-simplified rest name ∙ ap (Option.map simplified) (d.0 name e)),
              later,
            )
      | inr (true, h) ↦ rw (h, simplify_branches) ((λ name e. absurd (ground arith)), later)
      | inr (false, h) ↦ rw (h, simplify_branches) later
    ]

module _ {S : Type 0} (act : IrInst → S → S) (is_zero : IrOperand → S → Bool)
    (constants : (o : IrOperand) (s : S)
      → int_eq o.vreg (pos 0) ≡ true
      → is_zero o s ≡ (o.imm == 0)) where
  simplified-next :
      (code : List IrInst) (inst : IrInst) (rest : List IrInst) (s t : S)
      → (constant_branch inst ≡ none → Exec act is_zero code (inst ∷ simplified rest) s t)
      → (constant_branch inst ≡ some true
          → Exec act is_zero code (always_jump inst ∷ simplified rest) s t)
      → (constant_branch inst ≡ some false → Exec act is_zero code (simplified rest) s t)
      → Exec act is_zero code (simplified (inst ∷ rest)) s t
  unfolding simplify_branches
  simplified-next code inst rest s t keep always never =
      elim (Option-cases (constant_branch inst)) [
        | inl h ↦ rw (h, simplify_branches, simplified) (keep h)
        | inr (true, h) ↦ rw (h, simplify_branches, simplified) (always h)
        | inr (false, h) ↦ rw (h, simplify_branches, simplified) (never h)
      ]

  goto-simplified :
      (code : List IrInst) (l : Option String) (target : List IrInst)
      → goto code l ≡ some target
      → goto (simplified code) l ≡ some (simplified target)
  goto-simplified code none target h = cc
  goto-simplified code (some name) target h =
      after_label-simplified code name ∙ ap (Option.map simplified) h

  -- A branch on a constant does what its constant says.
  constant_branch-way :
      (inst : IrInst) (way : Bool) (s : S)
      → constant_branch inst ≡ some way
      → (is_plain inst.op ≡ false)
        × (is_op inst.op ir_ret ≡ false)
        × (takes inst.op (is_zero inst.src1 s) ≡ way)
        × (skips inst.op (is_zero inst.src1 s) ≡ not way)
  constant_branch-way inst way s h =
      let (constant, _, plain, ret, take, skipped) = constant_branch-cases inst way h in
      rw (constants inst.src1 s constant) (plain, ret, take, skipped)

  pub simplify_branches-Exec :
      (code : List IrInst) {rest : List IrInst} {s t : S}
      → Exec act is_zero code rest s t
      → Exec act is_zero (simplify_branches code).0 (simplify_branches rest).0 s t
  unfolding simplify_branches
  simplify_branches-Exec code ends = ends
  simplify_branches-Exec code (returns {inst} {rest} {s} h) =
      simplified-next _ inst rest s _ (λ e. returns h)
        (λ e. cc (h, (constant_branch-way inst true s e).1))
        (λ e. cc (h, (constant_branch-way inst false s e).1))
  simplify_branches-Exec code (acts {inst} {rest} {s} h run) =
      simplified-next _ inst rest s _ (λ e. acts h (simplify_branches-Exec code run))
        (λ e. cc (h, (constant_branch-way inst true s e).0))
        (λ e. cc (h, (constant_branch-way inst false s e).0))
  simplify_branches-Exec code (skip {inst} {rest} {s} h run) =
      simplified-next _ inst rest s _ (λ e. skip h (simplify_branches-Exec code run))
        (λ e. cc (h, (constant_branch-way inst true s e).3)) (λ e. simplify_branches-Exec code run)
  simplify_branches-Exec code (jump {inst} {rest} {target} {s} h g run) =
      simplified-next _ inst rest s _
        (λ e.
          jump h (goto-simplified code inst.dest.label target g) (simplify_branches-Exec code run))
        (λ e.
          jump refl (goto-simplified code inst.dest.label target g)
            (simplify_branches-Exec code run))
        (λ e. cc (h, (constant_branch-way inst false s e).2))
