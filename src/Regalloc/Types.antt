-- ===== src/Regalloc/Types.antt =====
-- include/regalloc.h: physical registers, live intervals, the result of the allocation.
use winds.Base.{
  ℕ, suc, ◌≡◌, Bool, true, false, ◌&&◌, Option, none, some, List, [], ◌∷◌, arith, ltb, leb, ◌==◌,
  ◌↔◌, if◌then◌else◌, ◌≢◌,
}

-- `PhysReg` less PHYS_REG_NONE, which is `none` where a register may be missing.
pub data PhysReg : Type 0 where
  rbx r12 r13 r14 r15 r10 r11 : PhysReg

-- The values of the enumeration.
abbrev pub reg_index : PhysReg → ℕ
reg_index rbx = 0
reg_index r12 = 1
reg_index r13 = 2
reg_index r14 = 3
reg_index r15 = 4
reg_index r10 = 5
reg_index r11 = 6

abbrev pub reg_eq : PhysReg → PhysReg → Bool
reg_eq a b = reg_index a == reg_index b

-- The loop `for (r = PHYS_REG_RBX; r <= PHYS_REG_R15; r++)` goes through these.
abbrev pub rbx_to_r15 : List PhysReg
rbx_to_r15 = rbx ∷ r12 ∷ r13 ∷ r14 ∷ r15 ∷ []

-- `regalloc_is_callee_saved`
unfoldable pub is_callee_saved : PhysReg → Bool
is_callee_saved r = leb (reg_index rbx) (reg_index r) && leb (reg_index r) (reg_index r15)

-- An array `T a[PHYS_REG_COUNT]`, indexed by the enumeration, with `a[r] = v`.
abbrev pub set_reg {ℓ} : {A : Type ℓ} → (PhysReg → A) → PhysReg → A → PhysReg → A
set_reg a r v s = if reg_eq s r then v else a s

-- `a[v] = x` on an array indexed by virtual registers.
abbrev pub set_vreg {ℓ} : {A : Type ℓ} → (ℕ → A) → ℕ → A → ℕ → A
set_vreg a v x w = if w == v then x else a w

-- The index of an instruction, or -1.
abbrev pub InstIndex : Type 0
InstIndex = Option ℕ

-- The index plus one, so that -1 comes first; indices are compared by it.
abbrev pub position : InstIndex → ℕ
position none = 0
position (some n) = suc n

abbrev pub inst_lt : InstIndex → InstIndex → Bool
inst_lt a b = ltb (position a) (position b)

-- `LiveInterval`. Its `assigned_reg` is the map `assigned` of the scan, the only part of the source
-- that writes it; nothing reads or writes its `spill_offset`.
pub record LiveInterval : Type 0 where
  pub vreg : ℕ
  pub start_inst : InstIndex
  pub end_inst : InstIndex
  pub crosses_call : Bool

pub reg_eq_iff : (a b : PhysReg) → (reg_eq a b ≡ true) ↔ (a ≡ b)
reg_eq_iff a b = ground arith

pub reg_eq_self : (a : PhysReg) → reg_eq a a ≡ true
reg_eq_self a = ground arith

pub reg_ne : (a b : PhysReg) → a ≢ b → reg_eq a b ≡ false
reg_ne a b h = ground (arith, reg_eq_iff a b)

pub set_vreg_self {ℓ} : {A : Type ℓ} (a : ℕ → A) (v : ℕ) (x : A) → set_vreg a v x v ≡ x
set_vreg_self a v x = ground arith

pub set_vreg_ne {ℓ} : {A : Type ℓ} (a : ℕ → A) (v w : ℕ) (x : A) → w ≢ v → set_vreg a v x w ≡ a w
set_vreg_ne a v w x h = ground arith
