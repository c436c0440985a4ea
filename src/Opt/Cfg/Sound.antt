-- ===== src/Opt/Cfg/Sound.antt =====
-- opt_cfg_optimization: its four steps in their order.
use winds.Base.{◌≡◌, Bool, none, true, List, [], ◌==◌}
use winds.Base.Int.{pos, int_eq}
use winds.Ir.{IrInst, IrOperand}
use winds.Opt.Flow.{Exec}
use winds.Opt.Flow.Labels.{Distinct, IsSuffix-self}
use winds.Opt.Cfg.{simplify_branches, remove_dead_jumps, thread_jumps, opt_cfg_optimization}
use winds.Opt.Cfg.Branches.{simplify_branches-Exec, simplify_branches-Distinct}
use winds.Opt.Cfg.DeadJumps.{remove_dead_jumps-Exec}
use winds.Opt.Cfg.Threading.{thread_jumps-Exec}
use winds.Opt.Cfg.Unused.{remove_unused_labels-Exec}

-- Let an instruction that is no branch act on a state in any way, and let a branch be taken by a
-- test of its operand and the state that is the comparison with 0 on an immediate. If no label
-- stands twice in the function, then whenever the function, started in a state, returns in
-- another, the function that opt_cfg_optimization makes of it, started in the same state, returns
-- in the same.
pub opt_cfg_optimization-Exec :
    {S : Type 0} (act : IrInst → S → S) (is_zero : IrOperand → S → Bool)
    → ((o : IrOperand) (s : S) → int_eq o.vreg (pos 0) ≡ true → is_zero o s ≡ (o.imm == 0))
    → (insts : List IrInst) (s t : S) → Distinct insts
    → Exec act is_zero insts insts s t
    → let out = (opt_cfg_optimization insts).0 in Exec act is_zero out out s t
unfolding opt_cfg_optimization
opt_cfg_optimization-Exec act is_zero constants insts s t distinct run =
    let simplified = (simplify_branches insts).0 in
    let live = (remove_dead_jumps simplified).0 in
    let threaded = (thread_jumps [] live).0 in
    let run1 = simplify_branches-Exec act is_zero constants insts run in
    let run2 =
      remove_dead_jumps-Exec act is_zero simplified (simplify_branches-Distinct insts distinct)
        (IsSuffix-self simplified) run1 in
    let run3 = thread_jumps-Exec act is_zero [] live s t run2 in
    remove_unused_labels-Exec threaded act is_zero none (IsSuffix-self threaded) run3
