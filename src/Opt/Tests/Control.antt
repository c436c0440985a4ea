-- ===== src/Opt/Tests/Control.antt =====
-- Small functions with branches, and the theorems on the passes over branches at them.
use winds.Base.{
  subst, none, ℕ, suc, ◌≡◌, refl, Bool, true, some, List, [], ◌∷◌, ◌==◌, arith, if◌then◌else◌,
}
use mathlib.Core.Option.{some-injective}
use winds.Base.Int.{pos, int_eq}
use winds.Ir.{
  ir_label, ir_imm, ir_jmp, ir_jmp_if_zero, ir_ret, IrInst, IrOperand, make_inst, zero_operand,
}
use winds.Opt.Flow.{Exec, returns, jump, after_label}
use winds.Opt.Flow.Labels.{Distinct}
use winds.Opt.Cfg.{opt_cfg_optimization}
use winds.Opt.Cfg.Distinct.{opt_cfg_optimization-Distinct}
use winds.Opt.Cfg.Sound.{opt_cfg_optimization-Exec}
use winds.Opt.Simplify.{opt_cfg_simplify}
use winds.Opt.Simplify.Sound.{opt_cfg_simplify-Exec}
use winds.Opt.Tests.{vreg, imm}

-- if (0) goto end; v1 = 0; end: return
abbrev branching : List IrInst
branching =
    record (make_inst ir_jmp_if_zero) {
      dest = record zero_operand { label = some "end" };
      src1 = imm 0;
    }
    ∷ record (make_inst ir_imm) { dest = vreg 1 }
    ∷ record (make_inst ir_label) { dest = record zero_operand { label = some "end" } }
    ∷ make_inst ir_ret
    ∷ []

-- The state counts instructions, and a register is zero if the count is.
abbrev count : IrInst → ℕ → ℕ
count inst s = suc s

abbrev count_is_zero : IrOperand → ℕ → Bool
count_is_zero o s = if int_eq o.vreg (pos 0) then o.imm == 0 else s == 0

count-constants :
    (o : IrOperand) (s : ℕ) → int_eq o.vreg (pos 0) ≡ true → count_is_zero o s ≡ (o.imm == 0)
count-constants o s h = ground (arith, h)

branching-Distinct : Distinct branching
unfolding after_label
branching-Distinct = ((λ name e. cc), ((λ name e. cc), ((λ name e. refl), ((λ name e. cc), tt))))

branching-Exec : Exec count count_is_zero branching branching 4 5
unfolding after_label
branching-Exec = jump refl refl (returns refl)

opt_cfg_optimization-Exec_example :
    Exec count count_is_zero
      (opt_cfg_optimization branching).0
      (opt_cfg_optimization branching).0
      4
      5
opt_cfg_optimization-Exec_example =
    opt_cfg_optimization-Exec count count_is_zero count-constants branching 4 5 branching-Distinct
      branching-Exec

-- if (v1) goto first; goto second; first: second: return
abbrev over : List IrInst
over =
    record (make_inst ir_jmp_if_zero) {
      dest = record zero_operand { label = some "first" };
      src1 = vreg 1;
    }
    ∷ record (make_inst ir_jmp) { dest = record zero_operand { label = some "second" } }
    ∷ record (make_inst ir_label) { dest = record zero_operand { label = some "first" } }
    ∷ record (make_inst ir_label) { dest = record zero_operand { label = some "second" } }
    ∷ make_inst ir_ret
    ∷ []

over-Distinct : Distinct over
unfolding after_label
over-Distinct = (
  (λ name e. cc),
  (
    (λ name e. cc),
    (
      (λ name e.
          subst (λ n. after_label (second ∷ make_inst ir_ret ∷ []) n ≡ none)
            (some-injective "first" name e) refl),
      ((λ name e. refl), ((λ name e. cc), tt)),
    ),
  ),
)
  where
    second : IrInst
    second = record (make_inst ir_label) { dest = record zero_operand { label = some "second" } }

opt_cfg_simplify-Exec_example :
    (out : List IrInst × Bool) × (opt_cfg_simplify over ≡ some out)
    × Distinct out.0
    × ((s t : ℕ)
        → Exec count count_is_zero over over s t
        → Exec count count_is_zero out.0 out.0 s t)
opt_cfg_simplify-Exec_example = opt_cfg_simplify-Exec count count_is_zero over over-Distinct

opt_cfg_optimization-Distinct_example : Distinct (opt_cfg_optimization branching).0
opt_cfg_optimization-Distinct_example = opt_cfg_optimization-Distinct branching branching-Distinct
