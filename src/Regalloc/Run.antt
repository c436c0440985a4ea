-- ===== src/Regalloc/Run.antt =====
-- `regalloc_run`: the passes in their order, and the result of the allocation.
pub mod LiveRanges
pub mod Sorting
pub mod Frame
pub mod Sound
use winds.Base.{
  ℕ, zero, suc, ◌+◌, ◌*◌, Bool, true, false, ◌&&◌, ◌||◌, Option, none, some, List, [], ◌∷◌,
  if◌then◌else◌, ltb, leb, ◌==◌, length,
}
use winds.Base.Int.{ℤ, pos}
use winds.Ir.{IrFunction, IrInst}
use winds.Regalloc.Types.{PhysReg, rbx_to_r15, position, LiveInterval}
use winds.Regalloc.Ranges.{Intervals, init_interval, live_ranges}
use winds.Regalloc.Extend.{record_labels, extend_loop}
use winds.Regalloc.CrossCalls.{mark_calls}
use winds.Regalloc.Scan.{ScanState, scan, scan_init}
use winds.Regalloc.Slots.{SaveState, save_regs, SpillState, spill_vregs}

-- `RegAlloc`
pub record RegAlloc : Type 0 where
  pub vreg_count : ℕ
  pub vreg_to_reg : ℕ → Option PhysReg
  pub vreg_to_spill : ℕ → ℤ
  pub used_regs : PhysReg → Bool
  pub num_spills : ℕ
  pub spill_space : ℕ
  pub callee_save_space : ℕ
  pub callee_save_offsets : PhysReg → ℤ

-- The zeroed result with no register assigned, which an empty function gets.
unfoldable pub empty_alloc : ℕ → RegAlloc
empty_alloc vreg_count = record {
  vreg_count = vreg_count;
  vreg_to_reg = λ _. none;
  vreg_to_spill = λ _. pos 0;
  used_regs = λ _. false;
  num_spills = 0;
  spill_space = 0;
  callee_save_space = 0;
  callee_save_offsets = λ _. pos 0;
}

-- Passes 1 to 3. The fuel of pass 2 is one round for each instruction that a range may grow by.
unfoldable pub intervals_of : List IrInst → ℕ → Option Intervals
intervals_of insts vreg_count =
    elim (extend_loop (suc (vreg_count * length insts)) (record_labels insts 0) vreg_count insts
      (live_ranges init_interval insts vreg_count 0)) [
        | none ↦ none
        | some intervals ↦ some (mark_calls insts vreg_count intervals)
      ]

-- The intervals of the registers that are live, `k` registers from `v` on.
unfoldable pub valid_intervals : Intervals → ℕ → ℕ → List LiveInterval
valid_intervals intervals v zero = []
valid_intervals intervals v (suc k) =
    let rest = valid_intervals intervals (suc v) k in
    if ltb 0 (position (intervals v).start_inst) then intervals v ∷ rest else rest

-- `vreg_to_reg` holds what was assigned to the registers from 1 to `vreg_count`.
unfoldable pub transfer : ℕ → (ℕ → Option PhysReg) → ℕ → Option PhysReg
transfer vreg_count assigned v = if ltb 0 v && leb v vreg_count then assigned v else none

-- Everything after the scan.
unfoldable pub result_of : ℕ → ℕ → Intervals → ScanState → RegAlloc
result_of vreg_count local_stack_base intervals s =
    let to_reg = transfer vreg_count s.assigned in
    let saved =
      save_regs local_stack_base s.used_regs rbx_to_r15
        (record { count = 0; offsets = λ _. pos 0 }) in
    let spilled =
      spill_vregs (local_stack_base + saved.count * 8) to_reg intervals 1 vreg_count
        (record { spill_idx = 0; slots = λ _. pos 0 }) in
    record {
      vreg_count = vreg_count;
      vreg_to_reg = to_reg;
      vreg_to_spill = spilled.slots;
      used_regs = s.used_regs;
      num_spills = spilled.spill_idx;
      spill_space = spilled.spill_idx * 8;
      callee_save_space = saved.count * 8;
      callee_save_offsets = saved.offsets;
    }

-- `qsort` is the C library's, by `compare_interval_start`; `none` is a loop that did not end.
module _ (qsort : List LiveInterval → List LiveInterval) where
  unfoldable pub regalloc_run : IrFunction → ℕ → Option RegAlloc
  regalloc_run fn local_stack_base =
      if length fn.insts == 0 || fn.vreg_count == 0
      then some (empty_alloc fn.vreg_count)
      else elim (intervals_of fn.insts fn.vreg_count) [
        | none ↦ none
        | some intervals ↦ some (
            result_of fn.vreg_count local_stack_base intervals
              (scan scan_init (qsort (valid_intervals intervals 1 fn.vreg_count))))
      ]
