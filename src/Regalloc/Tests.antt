-- ===== src/Regalloc/Tests.antt =====
-- A loop round a call, allocated; the allocator's theorems at this function.
mod InsertionSort
use winds.Base.{
  ℕ, suc, ◌≤◌, ◌<◌, length, ◌≡◌, refl, ◌≢◌, ◌⊎◌, inl, inr, ◌↔◌, Bool, true, false, Option, none,
  some, List, [], ◌∷◌, arith, get_elem?, String,
}
use winds.Base.Int.{ℤ, pos, neg}
use winds.Ir.{
  IrOperand, IrInst, IrFunction, zero_operand, make_inst, ir_imm, ir_label, ir_add, ir_call,
  ir_jmp_if_not_zero, ir_ret,
}
use winds.Regalloc.Types.{PhysReg, rbx, r12, r10, LiveInterval, is_callee_saved}
use winds.Regalloc.Ranges.{
  Intervals, update_vreg_range, record_operand, record_args, record_inst, live_ranges,
}
use winds.Regalloc.Ranges.Cover.{Covers}
use winds.Regalloc.Extend.{
  label_of, record_labels, find_label, find_label_pos, extend_vreg, extend_vregs, extend_at,
  extend_inst, extend_pass, extend_loop,
}
use winds.Regalloc.CrossCalls.{has_calls, call_prefix, mark_interval, mark_from, mark_calls}
use winds.Regalloc.Scan.{
  ScanState, surviving, release, first_free, choose_reg, append_entry, assign, expire, scan_step,
  scan, scan_init,
}
use winds.Regalloc.Slots.{save_reg, save_regs, is_spilled, spill_vreg, spill_vregs}
use winds.Regalloc.Run.{
  RegAlloc, empty_alloc, intervals_of, valid_intervals, transfer, result_of, regalloc_run,
}
use winds.Regalloc.Run.LiveRanges.{IsLive, intervals_of-IsLive}
use winds.Regalloc.Run.Frame.{SpillSlot, SaveSlot, result_of-spill_order, result_of-SaveSlot}
use winds.Regalloc.Scan.Interference.{scan-length}
use winds.Regalloc.Run.Sound.{
  regalloc_run-total, regalloc_run-no_overlap, regalloc_run-calls, regalloc_run-home,
}
use InsertionSort.{insertion_sort, insertion_sort-SortsByStart}

abbrev vreg : ℕ → IrOperand
vreg v = record zero_operand { vreg = pos v }

abbrev to_label : String → IrOperand
to_label name = record zero_operand { label = some name }

-- v1 = 0; L: v2 = v1 + 0; v3 = f(v2); if (v3) goto L; return v1
abbrev loop_insts : List IrInst
loop_insts =
    record (make_inst ir_imm) { dest = vreg 1 }
    ∷ record (make_inst ir_label) { dest = to_label ".L_loop" }
    ∷ record (make_inst ir_add) { dest = vreg 2; src1 = vreg 1 }
    ∷ record (make_inst ir_call) { dest = vreg 3; src1 = to_label "f"; call_args = vreg 2 ∷ [] }
    ∷ record (make_inst ir_jmp_if_not_zero) { dest = to_label ".L_loop"; src1 = vreg 3 }
    ∷ record (make_inst ir_ret) { src1 = vreg 1 }
    ∷ []

abbrev loop_function : IrFunction
loop_function = record {
  name = "loop";
  mangled_name = "loop";
  stack_size = 16;
  is_global = true;
  va_save_offset = pos 0;
  named_arg_count = 0;
  insts = loop_insts;
  vreg_count = 4;
}

-- Everything that the allocator computes with.
allocated : Option RegAlloc
unfolding update_vreg_range record_operand record_args record_inst live_ranges label_of
    record_labels find_label find_label_pos extend_vreg extend_vregs extend_at extend_inst
    extend_pass extend_loop has_calls call_prefix mark_interval mark_from mark_calls surviving
    release first_free choose_reg append_entry assign expire scan_step scan scan_init save_reg
    save_regs is_spilled spill_vreg spill_vregs empty_alloc intervals_of valid_intervals transfer
    result_of regalloc_run insertion_sort
allocated = regalloc_run insertion_sort loop_function 16

loop_intervals : Option Intervals
unfolding allocated
loop_intervals = intervals_of loop_insts 4

intervals_or : Option Intervals → Intervals
intervals_or none v = record { vreg = v; start_inst = none; end_inst = none; crosses_call = false }
intervals_or (some iv) v = iv v

-- v2 is used last by the call, and its range reaches the loop's jump.
loop-v2 :
    intervals_or loop_intervals 2
    ≡ record { vreg = 2; start_inst = some 2; end_inst = some 4; crosses_call = true }
unfolding loop_intervals intervals_or
loop-v2 = refl

registers : Option RegAlloc → ℕ → Option PhysReg
registers none v = none
registers (some ra) v = ra.vreg_to_reg v

loop-registers : registers allocated 1 ≡ some rbx
unfolding allocated registers
loop-registers = refl

result_or : Option RegAlloc → RegAlloc
result_or none = empty_alloc 0
result_or (some ra) = ra

-- The result, and the intervals that it was made from.
loop_result : RegAlloc
unfolding allocated result_or
loop_result = result_or allocated

loop-ran : regalloc_run insertion_sort loop_function 16 ≡ some loop_result
unfolding loop_result
loop-ran = refl

abbrev loop_live : (iv : Intervals) × (intervals_of loop_insts 4 ≡ some iv) × IsLive loop_insts 4 iv
loop_live = intervals_of-IsLive loop_insts 4

loop_result-v1 : loop_result.vreg_to_reg 1 ≡ some rbx
unfolding loop_result
loop_result-v1 = refl

add-Covers-v1 : Covers (loop_live.0 1) 2
add-Covers-v1 = loop_live.2.covers 2 1 _ (omega arith) (omega arith) refl (inr (inl refl))

add-Covers-v2 : Covers (loop_live.0 2) 2
add-Covers-v2 = loop_live.2.covers 2 2 _ (omega arith) (omega arith) refl (inl refl)

regalloc_run-no_overlap_example : loop_result.vreg_to_reg 2 ≢ some rbx
regalloc_run-no_overlap_example =
    regalloc_run-no_overlap insertion_sort insertion_sort-SortsByStart loop_function 16 loop_live.0
      loop_live.1 loop_result loop-ran 1 2 2 rbx (omega arith) add-Covers-v1 add-Covers-v2
      loop_result-v1

regalloc_run-total_example :
    (ra : RegAlloc) × (regalloc_run insertion_sort loop_function 16 ≡ some ra)
regalloc_run-total_example = regalloc_run-total insertion_sort loop_function 16

call-Covers-v2 : Covers (loop_live.0 2) 3
call-Covers-v2 =
    loop_live.2.covers 3 2 _ (omega arith) (omega arith) refl (inr (inr (inr (refl, inl refl))))

loop_result-v2 : loop_result.vreg_to_reg 2 ≡ some r12
unfolding loop_result
loop_result-v2 = refl

regalloc_run-calls_example : is_callee_saved r12 ≡ true
regalloc_run-calls_example =
    regalloc_run-calls insertion_sort insertion_sort-SortsByStart loop_function 16 loop_live.0
      loop_live.1 loop_result loop-ran 2 3 r12 call-Covers-v2 (_, refl, refl) loop_result-v2

regalloc_run-home_example :
    ((r : PhysReg) × (loop_result.vreg_to_reg 2 ≡ some r) × (loop_result.used_regs r ≡ true))
    ⊎ ((i : ℕ) × SpillSlot 16 loop_result 2 i)
regalloc_run-home_example =
    regalloc_run-home insertion_sort insertion_sort-SortsByStart loop_function 16 loop_live.0
      loop_live.1 loop_result loop-ran 2 2 _ (omega arith) (omega arith) refl (inl refl)

intervals_of-IsLive_example :
    (iv : Intervals) × (intervals_of loop_insts 4 ≡ some iv) × IsLive loop_insts 4 iv
intervals_of-IsLive_example = intervals_of-IsLive loop_insts 4

-- Two overlapping intervals and one that begins after both.
abbrev range_of : ℕ → ℕ → ℕ → LiveInterval
range_of v s e = record { vreg = v; start_inst = some s; end_inst = some e; crosses_call = true }

abbrev three_ranges : List LiveInterval
three_ranges = range_of 1 0 5 ∷ range_of 2 2 4 ∷ range_of 3 6 7 ∷ []

scan-length_example : length (scan scan_init three_ranges).active ≤ 7
scan-length_example =
    scan-length three_ranges ((omega arith, (omega arith, tt)), ((omega arith, tt), (tt, tt)))
      ((omega arith, (omega arith, tt)), ((omega arith, tt), (tt, tt)))

-- A state in which two registers are used and none is given.
abbrev busy : ScanState
busy = record { active = []; reg_in_use = λ _. false; used_regs = λ _. true; assigned = λ _. none }

abbrev long_intervals : Intervals
long_intervals v = record { vreg = v; start_inst = some 0; end_inst = some 9; crosses_call = true }

no_register : (v : ℕ) → (result_of 4 16 long_intervals busy).vreg_to_reg v ≡ none
unfolding result_of transfer
no_register v = ground arith

result_of-spill_order_example :
    (i : ℕ) × (j : ℕ) × SpillSlot 16 (result_of 4 16 long_intervals busy) 1 i
    × SpillSlot 16 (result_of 4 16 long_intervals busy) 3 j
    × (i < j)
result_of-spill_order_example =
    result_of-spill_order 4 16 long_intervals busy 1 3 (omega arith) (omega arith) (omega arith)
      (omega arith) (omega arith) (no_register 1) (no_register 3)

all_used : (r : PhysReg) → (result_of 4 16 long_intervals busy).used_regs r ≡ true
unfolding result_of
all_used r = refl

result_of-SaveSlot_example :
    (i : ℕ) × (j : ℕ) × SaveSlot 16 (result_of 4 16 long_intervals busy) rbx i
    × SaveSlot 16 (result_of 4 16 long_intervals busy) r12 j
    × (i ≢ j)
result_of-SaveSlot_example =
    result_of-SaveSlot 4 16 long_intervals busy rbx r12 (inl refl) (inr (inl refl)) rbx-ne-r12
      (all_used rbx) (all_used r12)
  where
    rbx-ne-r12 : rbx ≢ r12
    rbx-ne-r12 e = cc
