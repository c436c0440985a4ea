-- ===== src/Regalloc/CrossCalls.antt =====
-- Pass 3 of `regalloc_run`: which intervals cross a call.
pub mod Exact
use winds.Base.{
  ℕ, zero, suc, ◌+◌, Bool, true, false, ◌||◌, Option, none, some, List, [], ◌∷◌, if◌then◌else◌, ltb,
  get_or,
}
use winds.Ir.{IrInst, is_call}
use winds.Regalloc.Types.{LiveInterval, InstIndex, position, set_vreg}
use winds.Regalloc.Ranges.{Intervals}

-- The first loop of `regalloc_run`, which looks for a call.
unfoldable pub has_calls : List IrInst → Bool
has_calls [] = false
has_calls (inst ∷ rest) = is_call inst.op || has_calls rest

-- The array `call_prefix`, from an entry `n` on.
unfoldable pub call_prefix : ℕ → List IrInst → List ℕ
call_prefix n [] = n ∷ []
call_prefix n (inst ∷ rest) = n ∷ call_prefix (n + (if is_call inst.op then 1 else 0)) rest

-- `crosses_call` of an interval with the start `start`.
unfoldable pub mark_interval : List ℕ → LiveInterval → InstIndex → LiveInterval
mark_interval prefix c none = c
mark_interval prefix c (some start) = record c {
  crosses_call = ltb (get_or prefix start 0) (get_or prefix (position c.end_inst) 0);
}

-- The loop over `k` registers from `v` on.
unfoldable pub mark_from : List ℕ → Intervals → ℕ → ℕ → Intervals
mark_from prefix intervals v zero = intervals
mark_from prefix intervals v (suc k) =
    mark_from prefix
      (set_vreg intervals v (mark_interval prefix (intervals v) (intervals v).start_inst)) (suc v) k

unfoldable pub mark_calls : List IrInst → ℕ → Intervals → Intervals
mark_calls insts vreg_count intervals =
    if has_calls insts then mark_from (call_prefix 0 insts) intervals 1 vreg_count else intervals
