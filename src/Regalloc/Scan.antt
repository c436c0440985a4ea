-- ===== src/Regalloc/Scan.antt =====
-- Pass 4 of `regalloc_run`: the linear scan over the intervals in the order of their starts.
pub mod Active
pub mod Bound
pub mod Invariant
pub mod Interference
pub mod Calls
use winds.Base.{ℕ, ◌≡◌, Bool, true, false, not, Option, none, some, List, [], ◌∷◌, if◌then◌else◌}
use winds.Regalloc.Types.{
  PhysReg, r10, r11, rbx_to_r15, set_reg, set_vreg, InstIndex, inst_lt, LiveInterval,
}

-- `ActiveEntry`
pub record ActiveEntry : Type 0 where
  pub vreg : ℕ
  pub reg : PhysReg
  pub end_inst : InstIndex

-- The variables of the loop: `active` up to `active_count`, `reg_in_use`, `ra->used_regs`, and the
-- field `assigned_reg` of the intervals, by virtual register.
pub record ScanState : Type 0 where
  pub active : List ActiveEntry
  pub reg_in_use : PhysReg → Bool
  pub used_regs : PhysReg → Bool
  pub assigned : ℕ → Option PhysReg

-- The entries that the expiry loop keeps, in order.
unfoldable pub surviving : InstIndex → List ActiveEntry → List ActiveEntry
surviving start [] = []
surviving start (e ∷ es) =
    if inst_lt e.end_inst start then surviving start es else e ∷ surviving start es

-- `reg_in_use` after the expiry loop.
unfoldable pub release : InstIndex → List ActiveEntry → (PhysReg → Bool) → PhysReg → Bool
release start [] in_use = in_use
release start (e ∷ es) in_use =
    release start es (if inst_lt e.end_inst start then set_reg in_use e.reg false else in_use)

-- The first register of the list that is not in use.
unfoldable pub first_free : (PhysReg → Bool) → List PhysReg → Option PhysReg
first_free in_use [] = none
first_free in_use (r ∷ rs) = if in_use r then first_free in_use rs else some r

-- Callee-saved registers only for an interval that crosses a call; else scratch registers first.
unfoldable pub choose_reg : Bool → (PhysReg → Bool) → Option PhysReg
choose_reg crosses_call in_use =
    if crosses_call
    then first_free in_use rbx_to_r15
    else if not (in_use r10)
    then some r10
    else if not (in_use r11)
    then some r11
    else first_free in_use rbx_to_r15

-- The entry that stands for an interval while it holds `r`.
abbrev pub entry : LiveInterval → PhysReg → ActiveEntry
entry curr r = record { vreg = curr.vreg; reg = r; end_inst = curr.end_inst }

-- The array `active` is appended to at its end.
unfoldable pub append_entry : List ActiveEntry → ActiveEntry → List ActiveEntry
append_entry [] e = e ∷ []
append_entry (x ∷ xs) e = x ∷ append_entry xs e

-- What the loop does with the register that it chose.
unfoldable pub assign : ScanState → LiveInterval → Option PhysReg → ScanState
assign s curr none = record s { assigned = set_vreg s.assigned curr.vreg none }
assign s curr (some r) = record {
  active = append_entry s.active (entry curr r);
  reg_in_use = set_reg s.reg_in_use r true;
  used_regs = set_reg s.used_regs r true;
  assigned = set_vreg s.assigned curr.vreg (some r);
}

-- The state once the expired entries are dropped.
unfoldable pub expire : ScanState → InstIndex → ScanState
expire s start = record s {
  active = surviving start s.active;
  reg_in_use = release start s.active s.reg_in_use;
}

-- One round of the loop over `sorted_intervals`.
unfoldable pub scan_step : ScanState → LiveInterval → ScanState
scan_step s curr =
    let s' = expire s curr.start_inst in assign s' curr (choose_reg curr.crosses_call s'.reg_in_use)

unfoldable pub scan : ScanState → List LiveInterval → ScanState
scan s [] = s
scan s (curr ∷ rest) = scan (scan_step s curr) rest

-- The state before the loop; every `assigned_reg` starts as PHYS_REG_NONE.
unfoldable pub scan_init : ScanState
scan_init = record {
  active = [];
  reg_in_use = λ _. false;
  used_regs = λ _. false;
  assigned = λ _. none;
}
