-- ===== src/Opt/Values.antt =====
-- What the passes over stack slots keep: the value of each instruction, over the registers and
-- the slots of the frame. Slots are disjoint and accessed whole.
use winds.Base.{
  Bool, true, false, ◌⊎◌, inl, inr, ap, Bool-cases, ℕ, suc, ◌≡◌, Option, some, List, [], ◌∷◌,
  if◌then◌else◌,
}
use winds.Base.Int.{ℤ, pos, negsuc, int_eq, int_eq_iff}
use winds.Ir.{IrOp, ir_load_stack, IrOperand, IrInst}
use winds.Ir.Value.{Regs, operand_value, op_value}

-- What an instruction computes, a load from the stack included.
abbrev pub value_at : IrOp → Regs → (ℤ → ℕ) → IrInst → Option ℕ
value_at ir_load_stack regs slots inst = some (slots inst.src1.offset)
value_at op regs slots inst = op_value op regs inst

-- The slots after a store.
abbrev pub store_slot : (ℤ → ℕ) → ℤ → ℕ → ℤ → ℕ
store_slot slots offset val o = if int_eq o offset then val else slots o

-- The operand of the store of an incoming argument is no virtual register.
abbrev pub is_incoming : ℤ → Bool
is_incoming (pos v) = false
is_incoming (negsuc v) = true

-- A store changes no other slot, and writes the value of its operand, if it has one.
abbrev pub StoresTo : Regs → (ℤ → ℕ) → (ℤ → ℕ) → ℤ → IrOperand → Type 0
StoresTo regs slots slots' offset o =
    ((p : ℤ) → int_eq p offset ≡ false → slots' p ≡ slots p)
    × ((is_incoming o.vreg ≡ true) ⊎ (slots' offset ≡ operand_value regs o))

pub StoresTo-store_slot :
    (regs : Regs) (slots slots' : ℤ → ℕ) (offset : ℤ) (o : IrOperand)
    → StoresTo regs slots slots' offset o
    → (p : ℤ) → slots' p ≡ store_slot slots offset (slots' offset) p
StoresTo-store_slot regs slots slots' offset o (others, _) p = elim (Bool-cases (int_eq p offset)) [
  | inl h ↦ rw h (ap slots' ((int_eq_iff p offset).0 h))
  | inr h ↦ rw h (others p h)
]

-- Instruction for instruction, the same destination and the same value.
abbrev pub SameValues : Regs → (ℕ → ℤ → ℕ) → ℕ → List IrInst → List IrInst → Type 0
SameValues regs mem k [] [] = Unit
SameValues regs mem k (a ∷ xs) (b ∷ ys) =
    (value_at a.op regs (mem k) a ≡ value_at b.op regs (mem k) b)
    × ((a.dest ≡ b.dest) × SameValues regs mem (suc k) xs ys)
SameValues regs mem k _ _ = ⊥
