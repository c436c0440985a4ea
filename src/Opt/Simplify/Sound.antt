-- ===== src/Opt/Simplify/Sound.antt =====
-- opt_cfg_simplify: its four steps in their order.
use winds.Base.{suc, ◌≡◌, refl, ◌||◌, Bool, false, some, List, [], length, arith}
use winds.Ir.{IrInst, IrOperand}
use winds.Opt.Dead.{strip_dead}
use winds.Opt.Flow.{Exec}
use winds.Opt.Flow.Labels.{Distinct, IsSuffix-self}
use winds.Opt.Simplify.{invert_branches, fold_branches, opt_cfg_simplify}
use winds.Opt.Simplify.Inverted.{invert_branches-Exec, invert_branches-Distinct}
use winds.Opt.Simplify.Folded.{fold_branches-Exec, fold_branches-Distinct}
use winds.Opt.Simplify.MergeLoop.{merge_labels-Merged}
use winds.Opt.Simplify.Stripped.{strip_dead-Exec, strip_dead-Distinct}

module _ {S : Type 0} (act : IrInst → S → S) (is_zero : IrOperand → S → Bool) where
  -- Let an instruction that is no branch act on a state in any way, and let a branch be taken
  -- by any test of its operand and the state. If no label stands twice in the function, then
  -- opt_cfg_simplify returns, no label stands twice in its result, and whenever the function,
  -- started in a state, returns in another, so does the result.
  pub opt_cfg_simplify-Exec :
      (insts : List IrInst)
      → Distinct insts
      → (out : List IrInst × Bool) × (opt_cfg_simplify insts ≡ some out)
        × Distinct out.0
        × ((s t : S) → Exec act is_zero insts insts s t → Exec act is_zero out.0 out.0 s t)
  unfolding opt_cfg_simplify
  opt_cfg_simplify-Exec insts d =
      let inverted = (invert_branches insts).0 in
      let folded = (fold_branches inverted).0 in
      let d1 = invert_branches-Distinct insts d in
      let d2 = fold_branches-Distinct inverted d1 in
      let (merged, e, dout, keeps) =
        merge_labels-Merged act is_zero (suc (length folded)) [] folded (omega arith) d2 in
      (
        (
          (strip_dead false merged.0).0,
          (invert_branches insts).1
              || ((fold_branches inverted).1 || (merged.1 || (strip_dead false merged.0).1)),
        ),
        rw (e, opt_cfg_simplify) refl,
        strip_dead-Distinct false merged.0 dout,
        λ s t run.
            let run1 = invert_branches-Exec act is_zero insts d (IsSuffix-self insts) run in
            let run2 = fold_branches-Exec act is_zero inverted run1 in
            strip_dead-Exec act is_zero merged.0 (keeps s t run2),
      )
