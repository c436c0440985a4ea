-- ===== src/Opt/ConstProp/Table.antt =====
-- src/opt.c: the table of stack slots that hold a constant.
pub mod Slots
use winds.Base.{
  ℕ, suc, ◌≤◌, ◌≡◌, refl, Bool, true, false, ◌&&◌, ◌||◌, Option, none, some, List, [], ◌∷◌, arith,
  length, if◌then◌else◌, ltb, leb, Bool-cases, ◌∙◌, zero,
}
use winds.Base.Int.{ℤ, int_eq, int_eq_iff}

-- `StackConstEntry`
pub record StackConstEntry : Type 0 where
  pub offset : ℤ
  pub val : ℕ
  pub is_const : Bool

-- `StackConstTable`: the entries up to `count`.
abbrev pub StackConstTable : Type 0
StackConstTable = List StackConstEntry

-- The first entry of the offset takes the constant, or a new one at the end does if the array is
-- not full.
unfoldable pub set_entry : Bool → StackConstTable → ℤ → ℕ → StackConstTable
set_entry true [] offset val = []
set_entry false [] offset val = record { offset = offset; val = val; is_const = true } ∷ []
set_entry full (e ∷ rest) offset val =
    let rest' = set_entry full rest offset val in
    if int_eq e.offset offset then record e { val = val; is_const = true } ∷ rest else e ∷ rest'

-- `stack_const_set`; MAX_STACK_CONSTS is 64.
unfoldable pub stack_const_set : StackConstTable → ℤ → ℕ → StackConstTable
stack_const_set table offset val = set_entry (leb 64 (length table)) table offset val

unfoldable pub stack_const_invalidate : StackConstTable → ℤ → StackConstTable
stack_const_invalidate [] offset = []
stack_const_invalidate (e ∷ rest) offset =
    let rest' = stack_const_invalidate rest offset in
    if int_eq e.offset offset then record e { is_const = false } ∷ rest else e ∷ rest'

unfoldable pub stack_const_get : StackConstTable → ℤ → Option ℕ
stack_const_get [] offset = none
stack_const_get (e ∷ rest) offset =
    let found = stack_const_get rest offset in
    if int_eq e.offset offset && e.is_const then some e.val else found
