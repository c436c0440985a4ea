-- ===== src/Opt/Forward/Sound.antt =====
-- What instructions compute before and after opt_store_load_forwarding.
use winds.Base.{
  ℕ, suc, ◌≡◌, refl, sym, ◌∙◌, ap, subst, inl, inr, true, false, Option, none, some, List, [], ◌∷◌,
  map, arith, if◌then◌else◌, Bool-cases,
}
use winds.Base.Int.{ℤ, is_positive}
use winds.Ir.{
  IrOp, ir_label, ir_store, ir_load_stack, ir_store_stack, ir_call, IrInst, IrFunction, IrOperand,
}
use winds.Ir.Value.{Regs, operand_value, op_value}
use winds.Opt.Values.{value_at, SameValues}
use winds.Opt.Forward.Table.{
  StackFwdSlot, StackFwdTable, stack_fwd_get, forget, stack_fwd_invalidate_all,
  stack_fwd_invalidate_escaped, stack_fwd_invalidate_vreg,
}
use winds.Opt.Forward.Escapes.{
  Taken, KnowsEscapes, KeepsEscaped, map-KnowsEscapes, with_slot-KnowsEscapes, create-KnowsEscapes,
  record_escapes_all, NoneValid, record_escapes-NoneValid,
}
use winds.Opt.Forward.{
  capacity_of, record_escapes, stored, forward_load, Forwarded, forward_op, forward_loop,
  opt_store_load_forwarding,
}
use winds.Opt.Forward.Describes.{
  Describes, DescribesAll, NextSlots, WrittenAfter, map-Describes, store-Describes, stored-offset,
  is_positive-ne_zero,
}

module _ (regs : Regs) where
  -- The new form of a load has the value of the slot.
  forward_load-value :
      (slots : ℤ → ℕ) (inst : IrInst) (s : Option StackFwdSlot)
      → inst.op ≡ ir_load_stack
      → ((t : StackFwdSlot)
          → s ≡ some t
          → t.valid ≡ true
          → Describes regs t (slots inst.src1.offset))
      → (value_at (forward_load inst s).0.op regs slots (forward_load inst s).0
          ≡ value_at inst.op regs slots inst)
        × ((forward_load inst s).0.dest ≡ inst.dest)
  unfolding forward_load op_value operand_value
  forward_load-value slots inst none op d = (refl, refl)
  forward_load-value slots inst (some s) op d =
      let at_op : value_at inst.op regs slots inst ≡ some (slots inst.src1.offset) =
        subst (λ o. value_at o regs slots inst ≡ some (slots inst.src1.offset)) (sym op) refl in
      elim (Bool-cases s.valid) [
        | inr v ↦ rw v (refl, refl)
        | inl v ↦ elim (Bool-cases s.is_const) [
          | inl c ↦ rw (v, c) (ap some (sym ((d s refl v).0 c)) ∙ sym at_op, refl)
          | inr c ↦ elim (Bool-cases (is_positive s.vreg)) [
            | inr n ↦ rw (v, c, n) (refl, refl)
            | inl n ↦
                rw (v, c, n)
                  (
                    rw (is_positive-ne_zero regs s.vreg n)
                        (ap some (sym ((d s refl v).1 c)) ∙ sym at_op),
                    refl,
                  )
          ]
        ]
      ]

module _ (regs : Regs) (capacity : ℕ) (taken : ℤ → Type 0) where
  -- The new form of an instruction, and the table after it.
  abbrev Sound : (ℤ → Type 0) → (ℤ → ℕ) → (ℤ → ℕ) → IrInst → Forwarded → Type 0
  Sound written slots slots' inst r =
      (value_at r.0.0.op regs slots r.0.0 ≡ value_at inst.op regs slots inst)
      × ((r.0.0.dest ≡ inst.dest)
          × (DescribesAll regs written slots' r.1 × KnowsEscapes capacity taken r.1))

  -- An instruction that leaves the slots alone, and may make some entries invalid.
  invalidate-Sound :
      (written : ℤ → Type 0) (slots slots' : ℤ → ℕ) (inst : IrInst) (table : StackFwdTable)
      (vreg : ℤ)
      → ((o : ℤ) → slots' o ≡ slots o)
      → DescribesAll regs written slots table
      → KnowsEscapes capacity taken table
      → Sound written slots slots' inst
          ((inst, false), if is_positive vreg then stack_fwd_invalidate_vreg table vreg else table)
  unfolding stack_fwd_invalidate_vreg
  invalidate-Sound written slots slots' inst table vreg same d k =
      elim (Bool-cases (is_positive vreg)) [
        | inl h ↦ rw h (
          refl,
          (
            refl,
            (
              map-Describes regs written slots slots' _ table (λ s. ground arith)
                  (λ o s g v. (ground arith, same o)) d,
              map-KnowsEscapes capacity taken _ table (λ s. ground arith) (λ s e. ground arith) k,
            ),
          ),
        )
        | inr h ↦ rw h (refl, (refl, ((λ o s g v. rw (same o) (d o s g v)), k)))
      ]

  forget_all-Describes :
      (written : ℤ → Type 0) (slots slots' : ℤ → ℕ) (table : StackFwdTable)
      → DescribesAll regs written slots table
      → DescribesAll regs written slots' (map forget table)
  forget_all-Describes written slots slots' table d =
      map-Describes regs written slots slots' forget table (λ s. refl) (λ o s g v. cc) d

  stored-escaped : (o : IrOperand) → KeepsEscaped (stored o)
  unfolding stored
  stored-escaped o s e = ground arith

  forward_op-Sound :
      (op : IrOp) (written : ℤ → Type 0) (slots slots' : ℤ → ℕ) (inst : IrInst)
      (table : StackFwdTable)
      → inst.op ≡ op
      → NextSlots taken written op regs slots slots' inst
      → DescribesAll regs written slots table
      → KnowsEscapes capacity taken table
      → Sound (WrittenAfter written op inst) slots slots' inst (forward_op capacity op inst table)
  unfolding forward_op stack_fwd_invalidate_all stack_fwd_invalidate_escaped
  forward_op-Sound ir_label written slots slots' inst table e next d k = (
    refl,
    (
      refl,
      (
        forget_all-Describes written slots slots' table d,
        map-KnowsEscapes capacity taken forget table (λ s. refl) (λ s q. q) k,
      ),
    ),
  )
  forward_op-Sound ir_call written slots slots' inst table e next d k = (
    refl,
    (
      refl,
      (
        forget_all-Describes written slots slots' table d,
        map-KnowsEscapes capacity taken forget table (λ s. refl) (λ s q. q) k,
      ),
    ),
  )
  forward_op-Sound ir_store written slots slots' inst table e next d k = (
    refl,
    (
      refl,
      (
        map-Describes regs written slots slots' _ table (λ s. ground arith)
            (λ o s g v. (ground arith, next o (λ t. ground (arith, k.0 o s t g)))) d,
        map-KnowsEscapes capacity taken _ table (λ s. ground arith) (λ s q. ground arith) k,
      ),
    ),
  )
  forward_op-Sound ir_store_stack written slots slots' inst table e next d k = (
    refl,
    (
      refl,
      (
        store-Describes regs capacity written slots slots' table inst.dest.offset inst.src1 next d,
        with_slot-KnowsEscapes capacity taken (stored inst.src1) _ inst.dest.offset
            (stored-offset regs inst.src1) (stored-escaped inst.src1)
            (create-KnowsEscapes capacity taken table inst.dest.offset k),
      ),
    ),
  )
  forward_op-Sound ir_load_stack written slots slots' inst table e next d k =
      let (same, dest) =
        forward_load-value regs slots inst (stack_fwd_get table inst.src1.offset) e
          (λ t g v. (d inst.src1.offset t g v).0) in
      (same, (dest, ((λ o s g v. rw (next o) (d o s g v)), k)))
  forward_op-Sound _ written slots slots' inst table e next d k =
      invalidate-Sound written slots slots' inst table inst.dest.vreg next d k

  -- `mem k` is what the stack slots hold before the instruction number `k`, and `written` are the
  -- slots that were stored to before.
  abbrev pub SlotsRun : (ℕ → ℤ → ℕ) → ℕ → (ℤ → Type 0) → List IrInst → Type 0
  SlotsRun mem k written [] = Unit
  SlotsRun mem k written (inst ∷ rest) =
      NextSlots taken written inst.op regs (mem k) (mem (suc k)) inst
      × SlotsRun mem (suc k) (WrittenAfter written inst.op inst) rest

  forward_loop-value :
      (mem : ℕ → ℤ → ℕ) (n : ℕ) (written : ℤ → Type 0) (insts : List IrInst) (table : StackFwdTable)
      → SlotsRun mem n written insts
      → DescribesAll regs written (mem n) table
      → KnowsEscapes capacity taken table
      → SameValues regs mem n (forward_loop capacity insts table).0 insts
  unfolding forward_loop
  forward_loop-value mem n written [] table runs d k = tt
  forward_loop-value mem n written (inst ∷ rest) table runs d k =
      let sound =
        forward_op-Sound inst.op written (mem n) (mem (suc n)) inst table refl runs.0 d k in
      (
        sound.0,
        (
          sound.1.0,
          forward_loop-value mem (suc n) (WrittenAfter written inst.op inst) rest
              (forward_op capacity inst.op inst table).1 runs.1 sound.1.1.0 sound.1.1.1,
        ),
      )

-- Let the registers hold one value throughout, and let the stack slots be disjoint and accessed
-- whole: a store to a slot writes the value of its operand there and nothing else, a store
-- through a pointer changes only slots whose address the function takes, a label and a call may
-- change any slot, and the incoming arguments, whose operands are no registers, are stored to
-- slots that were not written. Then every instruction of the result of store-to-load forwarding
-- has the destination and computes the value of the instruction at the same position before.
pub opt_store_load_forwarding-value :
    (regs : Regs) (mem : ℕ → ℤ → ℕ) (fn : IrFunction)
    → SlotsRun regs (capacity_of fn.stack_size) (Taken fn.insts) mem 0 (λ _. ⊥) fn.insts
    → SameValues regs mem 0 (opt_store_load_forwarding fn).0 fn.insts
unfolding opt_store_load_forwarding stack_fwd_get
opt_store_load_forwarding-value regs mem fn runs =
    let capacity = capacity_of fn.stack_size in
    forward_loop-value regs capacity (Taken fn.insts) mem 0 (λ _. ⊥) fn.insts
      (record_escapes capacity fn.insts []) runs (λ o s g v. cc (empty o s g, v))
      (record_escapes_all capacity fn.insts)
  where
    empty : NoneValid (record_escapes (capacity_of fn.stack_size) fn.insts [])
    empty = record_escapes-NoneValid (capacity_of fn.stack_size) fn.insts [] (λ o s g. cc)
