-- ===== src/Opt/Tests/Passes.antt =====
-- Small functions, and the theorems on stack slots and on control flow at them.
use winds.Base.{ℕ, suc, ◌≡◌, refl, inr, ◌↔◌, Bool, true, false, some, List, [], ◌∷◌}
use winds.Base.Int.{ℤ, negsuc}
use winds.Ir.{
  ir_label, ir_imm, ir_store_stack, ir_load_stack, ir_jmp, ir_ret, IrInst, IrOperand, make_inst,
  zero_operand,
}
use winds.Ir.Value.{operand_value}
use winds.Opt.Values.{SameValues}
use winds.Opt.Forward.{opt_store_load_forwarding}
use winds.Opt.Forward.Sound.{opt_store_load_forwarding-value}
use winds.Opt.Unreachable.{blocks_of, reachable_blocks, opt_unreachable_block_removal}
use winds.Opt.Unreachable.Kept.{Keeps}
use winds.Opt.Unreachable.Runs.{opt_unreachable_block_removal-Exec}
use winds.Opt.Dead.{strip_dead}
use winds.Opt.Flow.{Exec}
use winds.Opt.Unreachable.Reaches.{Reaches}
use winds.Opt.Unreachable.Exact.{reachable_blocks-Reaches}
use winds.Opt.Tests.{vreg, fives, function_of}

-- slot[-8] = v1; v2 = slot[-8]
abbrev saved : List IrInst
saved =
    record (make_inst ir_store_stack) {
      dest = record zero_operand { offset = negsuc 7 };
      src1 = vreg 1;
    }
    ∷ record (make_inst ir_load_stack) {
      dest = vreg 2;
      src1 = record zero_operand { offset = negsuc 7 };
    }
    ∷ []

abbrev five_slots : ℕ → ℤ → ℕ
five_slots k o = 5

opt_store_load_forwarding-value_example :
    SameValues fives five_slots 0 (opt_store_load_forwarding (function_of saved 3)).0 saved
unfolding operand_value
opt_store_load_forwarding-value_example =
    opt_store_load_forwarding-value fives five_slots (function_of saved 3)
      ((((λ p h. refl), inr refl), (λ h. cc)), ((λ o. refl), tt))

-- jmp end; skipped: v1 = 0; end: ret
abbrev skipping : List IrInst
skipping =
    record (make_inst ir_jmp) { dest = record zero_operand { label = some "end" } }
    ∷ record (make_inst ir_label) { dest = record zero_operand { label = some "skipped" } }
    ∷ record (make_inst ir_imm) { dest = vreg 1 }
    ∷ record (make_inst ir_label) { dest = record zero_operand { label = some "end" } }
    ∷ make_inst ir_ret
    ∷ []

reachable_blocks-Reaches_example :
    (g : ℕ → Bool) × (reachable_blocks (blocks_of skipping) ≡ some g)
    × ((b : ℕ) → (g b ≡ true) ↔ Reaches (blocks_of skipping) b)
reachable_blocks-Reaches_example = reachable_blocks-Reaches (blocks_of skipping)

-- An instruction counts itself.
abbrev count_inst_run : IrInst → ℕ → ℕ
count_inst_run inst n = suc n

abbrev never_zero : IrOperand → ℕ → Bool
never_zero o n = false

opt_unreachable_block_removal-Exec_example :
    (out : List IrInst × Bool) × (opt_unreachable_block_removal skipping ≡ some out)
    × Keeps
        (blocks_of (strip_dead false skipping).0)
        0
        (blocks_of (strip_dead false skipping).0)
        out.0
    × ((s t : ℕ)
        → Exec count_inst_run never_zero skipping skipping s t
        → Exec count_inst_run never_zero out.0 out.0 s t)
opt_unreachable_block_removal-Exec_example =
    opt_unreachable_block_removal-Exec count_inst_run never_zero skipping
