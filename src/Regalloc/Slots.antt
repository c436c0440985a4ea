-- ===== src/Regalloc/Slots.antt =====
-- The end of `regalloc_run`: stack slots for saved registers and for spilled virtual registers.
pub mod Disjoint
pub mod Saved
use winds.Base.{
  ℕ, zero, suc, ◌+◌, ◌*◌, Bool, false, Option, none, some, List, [], ◌∷◌, if◌then◌else◌, ltb,
}
use winds.Base.Int.{ℤ, neg}
use winds.Regalloc.Types.{PhysReg, InstIndex, position, set_reg, set_vreg}
use winds.Regalloc.Ranges.{Intervals}

-- `callee_saved_count` and `callee_save_offsets`.
pub record SaveState : Type 0 where
  pub count : ℕ
  pub offsets : PhysReg → ℤ

-- The body of the loop over the callee-saved registers.
unfoldable pub save_reg : ℕ → (PhysReg → Bool) → PhysReg → SaveState → SaveState
save_reg local_stack_base used_regs r s =
    if used_regs r
    then record {
      count = suc s.count;
      offsets = set_reg s.offsets r (neg (local_stack_base + suc s.count * 8));
    }
    else s

unfoldable pub save_regs : ℕ → (PhysReg → Bool) → List PhysReg → SaveState → SaveState
save_regs local_stack_base used_regs [] s = s
save_regs local_stack_base used_regs (r ∷ rs) s =
    save_regs local_stack_base used_regs rs (save_reg local_stack_base used_regs r s)

-- `spill_idx` and `vreg_to_spill`.
pub record SpillState : Type 0 where
  pub spill_idx : ℕ
  pub slots : ℕ → ℤ

-- `vreg_to_reg[v] == PHYS_REG_NONE && start_inst >= 0`
unfoldable pub is_spilled : Option PhysReg → InstIndex → Bool
is_spilled none start = ltb 0 (position start)
is_spilled (some r) start = false

-- The body of the loop over the registers; `frame` is `local_stack_base + callee_save_space`.
unfoldable pub spill_vreg : ℕ → (ℕ → Option PhysReg) → Intervals → ℕ → SpillState → SpillState
spill_vreg frame vreg_to_reg intervals v s =
    if is_spilled (vreg_to_reg v) (intervals v).start_inst
    then record {
      spill_idx = suc s.spill_idx;
      slots = set_vreg s.slots v (neg (frame + suc s.spill_idx * 8));
    }
    else s

-- The loop over `k` registers from `v` on.
unfoldable pub spill_vregs : ℕ → (ℕ → Option PhysReg) → Intervals → ℕ → ℕ → SpillState → SpillState
spill_vregs frame vreg_to_reg intervals v zero s = s
spill_vregs frame vreg_to_reg intervals v (suc k) s =
    spill_vregs frame vreg_to_reg intervals (suc v) k (spill_vreg frame vreg_to_reg intervals v s)
