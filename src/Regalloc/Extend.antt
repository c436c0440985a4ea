-- ===== src/Regalloc/Extend.antt =====
-- Pass 2 of `regalloc_run`: live ranges are extended over the loops that backward jumps close.
pub mod Closed
pub mod Terminates
use winds.Base.{
  ℕ, zero, suc, String, Bool, true, false, ◌&&◌, Option, none, some, List, [], ◌∷◌, if◌then◌else◌,
  ltb, leb,
}
use text.Mathlib.Text.{◌==◌ as str_eq}
use winds.Ir.{IrInst, is_label, is_jump}
use winds.Regalloc.Types.{LiveInterval, position, inst_lt, set_vreg}
use winds.Regalloc.Ranges.{Intervals}

-- `LabelPos`
pub record LabelPos : Type 0 where
  pub label : String
  pub index : ℕ

-- The label of an IR_LABEL goes to the table with its index, if it has one.
unfoldable pub label_of : Bool → Option String → ℕ → List LabelPos → List LabelPos
label_of true (some name) i rest = record { label = name; index = i } ∷ rest
label_of _ _ i rest = rest

-- The loop that records the label positions, from index `i` on.
unfoldable pub record_labels : List IrInst → ℕ → List LabelPos
record_labels [] i = []
record_labels (inst ∷ rest) i =
    label_of (is_label inst.op) inst.dest.label i (record_labels rest (suc i))

-- The loop of `find_label_pos`.
unfoldable pub find_label : List LabelPos → String → Option ℕ
find_label [] name = none
find_label (l ∷ rest) name = if str_eq l.label name then some l.index else find_label rest name

-- `find_label_pos`; `none` is -1.
unfoldable pub find_label_pos : List LabelPos → Option String → Option ℕ
find_label_pos labels none = none
find_label_pos labels (some name) = find_label labels name

-- `start_inst >= 0 && start_inst <= j && end_inst >= target_idx`
abbrev pub live_through : LiveInterval → ℕ → ℕ → Bool
live_through c target j =
    leb 1 (position c.start_inst)
    && leb (position c.start_inst) (suc j)
    && leb (suc target) (position c.end_inst)

-- The variables of the loop: the intervals and `loop_changed`.
abbrev pub ExtendState : Type 0
ExtendState = Intervals × Bool

-- One register at the backward jump `j` to `target`.
unfoldable pub extend_vreg : ℕ → ℕ → ExtendState → ℕ → ExtendState
extend_vreg target j s v =
    if live_through (s.0 v) target j && inst_lt (s.0 v).end_inst (some j)
    then (set_vreg s.0 v (record (s.0 v) { end_inst = some j }), true)
    else s

-- The loop over `k` registers from `v` on.
unfoldable pub extend_vregs : ℕ → ℕ → ExtendState → ℕ → ℕ → ExtendState
extend_vregs target j s v zero = s
extend_vregs target j s v (suc k) = extend_vregs target j (extend_vreg target j s v) (suc v) k

-- A label found before the jump is a loop's head.
unfoldable pub extend_at : Option ℕ → ℕ → ℕ → ExtendState → ExtendState
extend_at none vreg_count j s = s
extend_at (some target) vreg_count j s =
    if ltb target j then extend_vregs target j s 1 vreg_count else s

-- The instruction `j`.
unfoldable pub extend_inst : List LabelPos → ℕ → ℕ → IrInst → ExtendState → ExtendState
extend_inst labels vreg_count j inst s =
    if is_jump inst.op then extend_at (find_label_pos labels inst.dest.label) vreg_count j s else s

-- The loop over the instructions from index `j` on.
unfoldable pub extend_pass : List LabelPos → ℕ → ℕ → List IrInst → ExtendState → ExtendState
extend_pass labels vreg_count j [] s = s
extend_pass labels vreg_count j (inst ∷ rest) s =
    extend_pass labels vreg_count (suc j) rest (extend_inst labels vreg_count j inst s)

-- `while (loop_changed)`, with fuel; `none` means that the fuel ran out.
unfoldable pub extend_loop : ℕ → List LabelPos → ℕ → List IrInst → Intervals → Option Intervals
extend_loop zero labels vreg_count insts intervals = none
extend_loop (suc fuel) labels vreg_count insts intervals =
    let s = extend_pass labels vreg_count 0 insts (intervals, false) in
    let rest = extend_loop fuel labels vreg_count insts s.0 in if s.1 then rest else some s.0
