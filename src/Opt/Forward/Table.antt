-- ===== src/Opt/Forward/Table.antt =====
-- src/opt.c: the table of stored values by the offset of the slot.
pub mod Lookup
use winds.Base.{
  ℕ, Bool, false, not, ◌&&◌, Option, none, some, List, [], ◌∷◌, ◌++◌, map, if◌then◌else◌, ltb,
  length,
}
use winds.Base.Int.{ℤ, pos, int_eq, is_positive}

-- `StackFwdSlot`
pub record StackFwdSlot : Type 0 where
  pub offset : ℤ
  pub vreg : ℤ
  pub imm : ℕ
  pub is_const : Bool
  pub valid : Bool
  pub addr_escaped : Bool

-- `StackFwdTable`: the slots up to `count`. Its capacity does not change, and is an argument.
abbrev pub StackFwdTable : Type 0
StackFwdTable = List StackFwdSlot

unfoldable pub stack_fwd_get : StackFwdTable → ℤ → Option StackFwdSlot
stack_fwd_get [] offset = none
stack_fwd_get (s ∷ rest) offset =
    let found = stack_fwd_get rest offset in if int_eq s.offset offset then some s else found

abbrev pub empty_slot : ℤ → StackFwdSlot
empty_slot offset = record {
  offset = offset;
  vreg = pos 0;
  imm = 0;
  is_const = false;
  valid = false;
  addr_escaped = false;
}

-- The table with a slot for the offset, if there is room for one.
unfoldable pub stack_fwd_get_or_create : ℕ → StackFwdTable → ℤ → StackFwdTable
stack_fwd_get_or_create capacity table offset = elim (stack_fwd_get table offset) [
  | some _ ↦ table
  | none ↦ if ltb (length table) capacity then table ++ (empty_slot offset ∷ []) else table
]

-- What is written through the pointer that the lookup returns: nothing if it is null.
unfoldable pub with_slot : StackFwdTable → ℤ → (StackFwdSlot → StackFwdSlot) → StackFwdTable
with_slot [] offset f = []
with_slot (s ∷ rest) offset f =
    let rest' = with_slot rest offset f in if int_eq s.offset offset then f s ∷ rest else s ∷ rest'

-- `valid = false`
abbrev pub forget : StackFwdSlot → StackFwdSlot
forget s = record s { valid = false }

unfoldable pub stack_fwd_invalidate_all : StackFwdTable → StackFwdTable
stack_fwd_invalidate_all table = map forget table

unfoldable pub stack_fwd_invalidate_escaped : StackFwdTable → StackFwdTable
stack_fwd_invalidate_escaped table = map (λ s. if s.addr_escaped then forget s else s) table

unfoldable pub stack_fwd_invalidate_vreg : StackFwdTable → ℤ → StackFwdTable
stack_fwd_invalidate_vreg table vreg =
    if is_positive vreg
    then map (λ s. if s.valid && not s.is_const && int_eq s.vreg vreg then forget s else s) table
    else table
