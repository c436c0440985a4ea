-- ===== src/Opt/Forward/Describes.antt =====
-- What the table of stored values says of the slots, kept by each update.
use winds.Base.{
  ℕ, ◌≡◌, sym, ◌∙◌, ap, subst, ◌⊎◌, inl, inr, true, false, some, map, arith, if◌then◌else◌,
  Bool-cases, Option-cases,
}
use mathlib.Core.Option
use winds.Base.Int.{ℤ, pos, int_eq, int_eq_iff, is_positive}
use winds.Ir.{IrOp, ir_label, ir_store, ir_store_stack, ir_call, IrInst, IrOperand}
use winds.Ir.Value.{Regs, operand_value}
use winds.Opt.Values.{is_incoming, StoresTo}
use winds.Opt.Forward.Table.{
  StackFwdSlot, StackFwdTable, stack_fwd_get, stack_fwd_get_or_create, with_slot,
}
use winds.Opt.Forward.Table.Lookup.{
  KeepsOffset, stack_fwd_get-map, stack_fwd_get-with_slot, stack_fwd_get_or_create-cases,
}
use winds.Opt.Forward.{stored}

-- A valid slot holds the constant or the register's value.
abbrev pub Describes : Regs → StackFwdSlot → ℕ → Type 0
Describes regs s n = (s.is_const ≡ true → n ≡ s.imm) × (s.is_const ≡ false → n ≡ regs s.vreg)

abbrev pub DescribesAll : Regs → (ℤ → Type 0) → (ℤ → ℕ) → StackFwdTable → Type 0
DescribesAll regs written slots table =
    (o : ℤ) (s : StackFwdSlot)
    → stack_fwd_get table o ≡ some s
    → s.valid ≡ true
    → Describes regs s (slots o) × written o

-- The store of an incoming argument is the first to its slot.
abbrev pub Stores : (ℤ → Type 0) → Regs → (ℤ → ℕ) → (ℤ → ℕ) → ℤ → IrOperand → Type 0
Stores written regs slots slots' offset o =
    StoresTo regs slots slots' offset o × (is_incoming o.vreg ≡ true → ¬ (written offset))

-- The slots after an instruction: a label and a call may change any, a store through a pointer
-- those whose address is taken.
abbrev pub NextSlots :
    (ℤ → Type 0) → (ℤ → Type 0) → IrOp → Regs → (ℤ → ℕ) → (ℤ → ℕ) → IrInst → Type 0
NextSlots taken written ir_label regs slots slots' inst = Unit
NextSlots taken written ir_call regs slots slots' inst = Unit
NextSlots taken written ir_store regs slots slots' inst = (o : ℤ) → ¬ (taken o) → slots' o ≡ slots o
NextSlots taken written ir_store_stack regs slots slots' inst =
    Stores written regs slots slots' inst.dest.offset inst.src1
NextSlots taken written _ regs slots slots' inst = (o : ℤ) → slots' o ≡ slots o

-- The slots that were written, after an instruction.
abbrev pub WrittenAfter : (ℤ → Type 0) → IrOp → IrInst → ℤ → Type 0
WrittenAfter written ir_store_stack inst o = written o ⊎ (inst.dest.offset ≡ o)
WrittenAfter written _ inst o = written o

module _ (regs : Regs) where
  -- An update that at most makes slots invalid, of slots that stay as they were.
  pub map-Describes :
      (written : ℤ → Type 0) (slots slots' : ℤ → ℕ) (f : StackFwdSlot → StackFwdSlot)
      (table : StackFwdTable)
      → KeepsOffset f
      → ((o : ℤ) (s : StackFwdSlot)
          → stack_fwd_get table o ≡ some s
          → (f s).valid ≡ true
          → (f s ≡ s) × (slots' o ≡ slots o))
      → DescribesAll regs written slots table
      → DescribesAll regs written slots' (map f table)
  map-Describes written slots slots' f table k same d o s g v =
      elim (Option-cases (stack_fwd_get table o)) [
        | inl h ↦ cc (stack_fwd_get-map f table o k, h, g)
        | inr (t, h) ↦
            let e : f t ≡ s =
              Option.some-injective (f t) s
                (sym (stack_fwd_get-map f table o k ∙ ap (Option.map f) h) ∙ g) in
            let (kept, slot) = same o t h (ap (λ (x : StackFwdSlot). x.valid) e ∙ v) in
            let t_s : t ≡ s = sym kept ∙ e in
            rw slot (
              subst (λ (x : StackFwdSlot). Describes regs x (slots o) × written o) t_s
                (d o t h (ap (λ (x : StackFwdSlot). x.valid) t_s ∙ v)))
      ]

  pub is_positive-ne_zero : (v : ℤ) → is_positive v ≡ true → int_eq v (pos 0) ≡ false
  is_positive-ne_zero v h = ground arith

  stored-Describes :
      (o : IrOperand) (s : StackFwdSlot)
      → is_incoming o.vreg ≡ false
      → Describes regs (stored o s) (operand_value regs o)
  unfolding stored operand_value
  stored-Describes o s h = (ground arith, ground arith)

  pub stored-offset : (o : IrOperand) → KeepsOffset (stored o)
  unfolding stored
  stored-offset o s = ground arith

  stored-incoming : (o : IrOperand) (s : StackFwdSlot) → is_incoming o.vreg ≡ true → stored o s ≡ s
  unfolding stored
  stored-incoming o s h = ground arith

  int_eq_flip : (a b : ℤ) → int_eq a b ≡ false → int_eq b a ≡ false
  int_eq_flip a b h = ground arith

  -- An entry for another slot than the one that is stored to.
  created-Describes :
      (capacity : ℕ) (written : ℤ → Type 0) (slots : ℤ → ℕ) (table : StackFwdTable) (offset : ℤ)
      → DescribesAll regs written slots table
      → DescribesAll regs written slots (stack_fwd_get_or_create capacity table offset)
  created-Describes capacity written slots table offset d p s g v =
      elim (stack_fwd_get_or_create-cases capacity table offset p s g) [
        | inl n ↦ d p s n v
        | inr (e, _, _, _) ↦ cc (ap (λ (x : StackFwdSlot). x.valid) e, v)
      ]

  pub store-Describes :
      (capacity : ℕ) (written : ℤ → Type 0) (slots slots' : ℤ → ℕ) (table : StackFwdTable)
      (offset : ℤ) (o : IrOperand)
      → Stores written regs slots slots' offset o
      → DescribesAll regs written slots table
      → DescribesAll regs
          (λ p. written p ⊎ (offset ≡ p))
          slots'
          (with_slot (stack_fwd_get_or_create capacity table offset) offset (stored o))
  store-Describes capacity written slots slots' table offset o ((others, here), first) d p s g v =
      elim (Bool-cases (int_eq offset p)) [ inl h ↦ at_offset h | inr h ↦ elsewhere h ]
    where
      created : StackFwdTable
      created = stack_fwd_get_or_create capacity table offset

      known : DescribesAll regs written slots created
      known = created-Describes capacity written slots table offset d

      found : stack_fwd_get (with_slot created offset (stored o)) p ≡ (
          if int_eq offset p
          then Option.map (stored o) (stack_fwd_get created p)
          else stack_fwd_get created p)
      found = stack_fwd_get-with_slot (stored o) created offset p (stored-offset o)

      elsewhere : int_eq offset p ≡ false → Describes regs s (slots' p) × (written p ⊎ (offset ≡ p))
      elsewhere h =
          let (n, w) = known p s (sym (rw h at found) ∙ g) v in
          rw (others p (int_eq_flip offset p h)) (n, inl w)

      describes :
          (t : StackFwdSlot)
          → stored o t ≡ s
          → offset ≡ p
          → stack_fwd_get created p ≡ some t
          → Describes regs s (slots' p)
      describes t e q n = elim (Bool-cases (is_incoming o.vreg)) [
        | inl i ↦
            let same : stored o t ≡ t = stored-incoming o t i in
            let valid : t.valid ≡ true = ap (λ (x : StackFwdSlot). x.valid) (sym same ∙ e) ∙ v in
            absurd (first i (subst written (sym q) (known p t n valid).1))
        | inr i ↦
            let w : slots' p ≡ operand_value regs o = elim here [
              | inl j ↦ cc (i, j)
              | inr k ↦ subst (λ x. slots' x ≡ operand_value regs o) q k
            ] in
            rw w (
              subst (λ (x : StackFwdSlot). Describes regs x (operand_value regs o)) e
                (stored-Describes o t i))
      ]

      at_offset : int_eq offset p ≡ true → Describes regs s (slots' p) × (written p ⊎ (offset ≡ p))
      at_offset h =
          let q : offset ≡ p = (int_eq_iff offset p).0 h in
          elim (Option-cases (stack_fwd_get created p)) [
            | inl n ↦ cc (rw (h, n) at found, g)
            | inr (t, n) ↦ (
              describes t (Option.some-injective (stored o t) s (sym (rw (h, n) at found) ∙ g)) q n,
              inr q,
            )
          ]
