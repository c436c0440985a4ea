-- ===== src/Regalloc/Run/Frame.antt =====
-- The stack frame under the locals: saved registers first, spilled registers below them.
use winds.Base.{ℕ, ◌+◌, ◌*◌, ◌≤◌, ◌<◌, ◌≡◌, ◌≢◌, true, none, arith, Member}
use winds.Base.Int.{pos}
use winds.Regalloc.Types.{PhysReg, rbx_to_r15, position}
use winds.Regalloc.Ranges.{Intervals}
use winds.Regalloc.Scan.{ScanState}
use winds.Regalloc.Slots.Disjoint.{slot, is_spilled_live, spill_vregs-HasSlot, spill_vregs-InOrder}
use winds.Regalloc.Slots.Saved.{rbx_to_r15-DistinctList, save_regs-distinct}
use winds.Regalloc.Run.{RegAlloc, transfer, result_of}

-- `v` has the slot number `i` under the locals and the saved registers.
abbrev pub SpillSlot : ℕ → RegAlloc → ℕ → ℕ → Type 0
SpillSlot base ra v i =
    (ra.vreg_to_spill v ≡ slot (base + ra.callee_save_space) i)
    × (0 < i)
    × (i ≤ ra.num_spills)
    × (i * 8 ≤ ra.spill_space)

-- `r` has the slot number `i` under the locals, above the spilled registers.
abbrev pub SaveSlot : ℕ → RegAlloc → PhysReg → ℕ → Type 0
SaveSlot base ra r i =
    (ra.callee_save_offsets r ≡ slot base i) × (0 < i) × (i * 8 ≤ ra.callee_save_space)

module _ (n base : ℕ) (iv : Intervals) (s : ScanState) where
  pub result_of-SpillSlot :
      (v : ℕ)
      → 0 < v
      → v ≤ n
      → 0 < position (iv v).start_inst
      → (result_of n base iv s).vreg_to_reg v ≡ none
      → (i : ℕ) × SpillSlot base (result_of n base iv s) v i
  unfolding result_of
  result_of-SpillSlot v lo hi h p =
      let (i, (at, above, below)) =
        spill_vregs-HasSlot (base + (result_of n base iv s).callee_save_space)
          (transfer n s.assigned) iv 1 n (record { spill_idx = 0; slots = λ _. pos 0 }) v lo
          (omega arith) (is_spilled_live (transfer n s.assigned v) (iv v) p h) in
      (i, (at, above, below, omega (arith, below)))

  -- Of two live virtual registers without a physical register, the one with the larger number
  -- has the later slot of the spill space, so that they share none.
  pub result_of-spill_order :
      (v w : ℕ)
      → 0 < v
      → v < w
      → w ≤ n
      → 0 < position (iv v).start_inst
      → 0 < position (iv w).start_inst
      → (result_of n base iv s).vreg_to_reg v ≡ none
      → (result_of n base iv s).vreg_to_reg w ≡ none
      → (i : ℕ) × (j : ℕ) × SpillSlot base (result_of n base iv s) v i
        × SpillSlot base (result_of n base iv s) w j
        × (i < j)
  unfolding result_of
  result_of-spill_order v w lo lt hi h k p q =
      let (i, j, at_i, at_j, above, order, below) =
        spill_vregs-InOrder _ (transfer n s.assigned) iv 1 n
          (record { spill_idx = 0; slots = λ _. pos 0 }) v w lo lt (omega arith)
          (is_spilled_live (transfer n s.assigned v) (iv v) p h)
          (is_spilled_live (transfer n s.assigned w) (iv w) q k) in
      (
        i,
        j,
        (at_i, above, omega arith, omega (arith, order, below)),
        (at_j, omega arith, below, omega (arith, below)),
        order,
      )

  -- Two different callee-saved registers that are used are saved in two different slots of the
  -- space under the locals.
  pub result_of-SaveSlot :
      (p r : PhysReg)
      → Member p rbx_to_r15
      → Member r rbx_to_r15
      → p ≢ r
      → (result_of n base iv s).used_regs p ≡ true
      → (result_of n base iv s).used_regs r ≡ true
      → (i : ℕ) × (j : ℕ) × SaveSlot base (result_of n base iv s) p i
        × SaveSlot base (result_of n base iv s) r j
        × (i ≢ j)
  unfolding result_of
  result_of-SaveSlot p r mp mr ne up ur =
      let (i, j, d, a, b) =
        save_regs-distinct base s.used_regs rbx_to_r15 (record { count = 0; offsets = λ _. pos 0 })
          p r rbx_to_r15-DistinctList mp mr ne up ur in
      (i, j, (a.0, a.1, omega (arith, a.2)), (b.0, b.1, omega (arith, b.2)), d)
