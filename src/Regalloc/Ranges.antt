-- ===== src/Regalloc/Ranges.antt =====
-- Pass 1 of `regalloc_run`: the definition and use points of every virtual register.
pub mod Cover
use winds.Base.{
  ℕ, suc, ◌+◌, Bool, true, false, ◌&&◌, Option, none, some, List, [], ◌∷◌, if◌then◌else◌, ltb, leb,
}
use winds.Base.Int.{ℤ, pos, negsuc, is_positive}
use winds.Ir.{IrOperand, IrInst, is_call}
use winds.Regalloc.Types.{LiveInterval, InstIndex, inst_lt, set_vreg}

-- The array `intervals`, by virtual register.
abbrev pub Intervals : Type 0
Intervals = ℕ → LiveInterval

-- The interval of a register that nothing mentions.
abbrev pub init_interval : Intervals
init_interval v = record { vreg = v; start_inst = none; end_inst = none; crosses_call = false }

-- `if (start_inst == -1) start_inst = inst_idx`
abbrev pub first_point : InstIndex → ℕ → InstIndex
first_point none inst_idx = some inst_idx
first_point (some n) inst_idx = some n

-- The body of `update_vreg_range` for a register in range.
abbrev pub touch : LiveInterval → ℕ → LiveInterval
touch c inst_idx = record c {
  start_inst = first_point c.start_inst inst_idx;
  end_inst = if inst_lt c.end_inst (some inst_idx) then some inst_idx else c.end_inst;
}

unfoldable pub update_vreg_range : Intervals → ℤ → ℕ → ℕ → Intervals
update_vreg_range intervals (pos v) max_vreg inst_idx =
    if ltb 0 v && leb v max_vreg
    then set_vreg intervals v (touch (intervals v) inst_idx)
    else intervals
update_vreg_range intervals (negsuc _) max_vreg inst_idx = intervals

-- One operand, guarded by `vreg > 0`.
unfoldable pub record_operand : Intervals → IrOperand → ℕ → ℕ → Intervals
record_operand intervals o vreg_count i =
    if is_positive o.vreg then update_vreg_range intervals o.vreg vreg_count i else intervals

-- The loop over `call_args`.
unfoldable pub record_args : Intervals → List IrOperand → ℕ → ℕ → Intervals
record_args intervals [] vreg_count i = intervals
record_args intervals (a ∷ rest) vreg_count i =
    record_args (record_operand intervals a vreg_count i) rest vreg_count i

-- The operands of one instruction.
unfoldable pub record_inst : Intervals → IrInst → ℕ → ℕ → Intervals
record_inst intervals inst vreg_count i =
    let dest = record_operand intervals inst.dest vreg_count i in
    let src1 = record_operand dest inst.src1 vreg_count i in
    let src2 = record_operand src1 inst.src2 vreg_count i in
    if is_call inst.op then record_args src2 inst.call_args vreg_count i else src2

-- The loop over the instructions from index `i` on.
unfoldable pub live_ranges : Intervals → List IrInst → ℕ → ℕ → Intervals
live_ranges intervals [] vreg_count i = intervals
live_ranges intervals (inst ∷ rest) vreg_count i =
    live_ranges (record_inst intervals inst vreg_count i) rest vreg_count (suc i)
