-- ===== src/Opt/Cfg/Distinct.antt =====
-- The labels of a function before and after opt_cfg_optimization.
use winds.Base.{
  String, ◌≡◌, sym, ◌∙◌, subst, inl, inr, Option, none, some, List, [], ◌∷◌, ◌++◌, Bool-cases,
  arith,
}
use mathlib.Core.List.{append-nil, append_assoc}
use winds.Ir.{IrOp, IrInst}
use winds.Opt.Flow.{same_label, label_of, after_label}
use winds.Opt.Flow.Ops.{branch-label}
use winds.Opt.Flow.Labels.{Distinct, after_label-other}
use winds.Opt.Cfg.{
  is_unused_label, simplify_branches, remove_dead_jumps, thread_inst, thread_jumps, with_label,
  remove_unused_labels, opt_cfg_optimization,
}
use winds.Opt.Cfg.Branches.{simplify_branches-Distinct}
use winds.Opt.Cfg.DeadJumps.{remove_dead_jumps-Distinct}
use winds.Opt.Cfg.Threading.{Threads, nothing, kept, moved, Threads-append, thread_inst-Threads}

-- A label that does not stand in a list.
missing-tail :
    (inst : IrInst) (rest : List IrInst) (name : String)
    → after_label (inst ∷ rest) name ≡ none
    → after_label rest name ≡ none
unfolding after_label
missing-tail inst rest name h = elim (Bool-cases (same_label (label_of inst) (some name))) [
  | inl e ↦ absurd (ground (arith, h, e))
  | inr e ↦ ground (arith, h, e)
]

missing-cons :
    (inst : IrInst) (xs ys : List IrInst) (name : String)
    → (after_label xs name ≡ none → after_label ys name ≡ none)
    → after_label (inst ∷ xs) name ≡ none
    → after_label (inst ∷ ys) name ≡ none
unfolding after_label
missing-cons inst xs ys name f h = elim (Bool-cases (same_label (label_of inst) (some name))) [
  | inl e ↦ absurd (ground (arith, h, e))
  | inr e ↦ rw e (f (ground (arith, h, e)))
]

Threads-missing :
    (code : List IrInst) {xs ys : List IrInst} (name : String)
    → Threads code xs ys
    → after_label xs name ≡ none
    → after_label ys name ≡ none
Threads-missing code name nothing h = h
Threads-missing code name (kept {xs} {ys} inst th) h =
    missing-cons inst xs ys name (Threads-missing code name th) h
Threads-missing code name (moved {xs} {ys} inst l n b e hops th) h =
    after_label-other (with_label inst (some n)) ys name (branch-label inst.op b)
    ∙ Threads-missing code name th (missing-tail inst xs name h)

Threads-Distinct :
    (code : List IrInst) {xs ys : List IrInst} → Threads code xs ys → Distinct xs → Distinct ys
Threads-Distinct code nothing d = tt
Threads-Distinct code (kept inst th) d =
    ((λ name e. Threads-missing code name th (d.0 name e)), Threads-Distinct code th d.1)
Threads-Distinct code (moved inst l n b e hops th) d =
    ((λ name q. absurd (ground (arith, q, branch-label inst.op b))), Threads-Distinct code th d.1)

thread_jumps-Distinct :
    (before rest : List IrInst) → Distinct (before ++ rest) → Distinct (thread_jumps before rest).0
unfolding thread_jumps
thread_jumps-Distinct before [] d = subst Distinct (append-nil before) d
thread_jumps-Distinct before (inst ∷ rest) d =
    let code = before ++ (inst ∷ rest) in
    let inst' = (thread_inst code inst).0 in
    thread_jumps-Distinct (before ++ (inst' ∷ [])) rest (
      subst Distinct (sym (append_assoc before (inst' ∷ []) rest))
        (Threads-Distinct code (Threads-append code before (thread_inst-Threads code inst rest)) d))

remaining-missing :
    (code : List IrInst) (prev : Option IrOp) (insts : List IrInst) (name : String)
    → after_label insts name ≡ none
    → after_label (remove_unused_labels code prev insts).0 name ≡ none
unfolding remove_unused_labels
remaining-missing code prev [] name h = h
remaining-missing code prev (inst ∷ rest) name h =
    elim (Bool-cases (is_unused_label code prev inst)) [
      | inl u ↦
          rw (u, remove_unused_labels)
            (remaining-missing code prev rest name (missing-tail inst rest name h))
      | inr u ↦
          rw (u, remove_unused_labels)
            (missing-cons inst rest _ name (remaining-missing code (some inst.op) rest name) h)
    ]

remove_unused_labels-Distinct :
    (code : List IrInst) (prev : Option IrOp) (insts : List IrInst)
    → Distinct insts
    → Distinct (remove_unused_labels code prev insts).0
unfolding remove_unused_labels
remove_unused_labels-Distinct code prev [] d = tt
remove_unused_labels-Distinct code prev (inst ∷ rest) d =
    elim (Bool-cases (is_unused_label code prev inst)) [
      | inl u ↦ rw (u, remove_unused_labels) (remove_unused_labels-Distinct code prev rest d.1)
      | inr u ↦
          rw (u, remove_unused_labels)
            (
              (λ name e. remaining-missing code (some inst.op) rest name (d.0 name e)),
              remove_unused_labels-Distinct code (some inst.op) rest d.1,
            )
    ]

-- If no label stands twice in a function, none stands twice in what opt_cfg_optimization makes of
-- it.
pub opt_cfg_optimization-Distinct :
    (insts : List IrInst) → Distinct insts → Distinct (opt_cfg_optimization insts).0
unfolding opt_cfg_optimization
opt_cfg_optimization-Distinct insts d =
    let simplified = (simplify_branches insts).0 in
    let live = (remove_dead_jumps simplified).0 in
    let threaded = (thread_jumps [] live).0 in
    remove_unused_labels-Distinct threaded none threaded (
      thread_jumps-Distinct [] live
        (remove_dead_jumps-Distinct simplified (simplify_branches-Distinct insts d)))
