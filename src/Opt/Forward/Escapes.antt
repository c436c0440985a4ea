-- ===== src/Opt/Forward/Escapes.antt =====
-- What the table of stored values knows of the slots whose address is taken.
use winds.Base.{
  ℕ, ◌≤◌, ◌≡◌, refl, sym, ◌∙◌, ap, subst, ◌⊎◌, inl, inr, true, false, none, some, List, [], ◌∷◌,
  map, arith, length, if◌then◌else◌, Bool-cases, Option-cases, Member,
}
use mathlib.Core.Option
use winds.Base.Int.{ℤ, int_eq, int_eq_iff}
use winds.Ir.{ir_addr_stack, IrInst, is_op}
use winds.Opt.Forward.Table.{
  StackFwdSlot, StackFwdTable, stack_fwd_get, stack_fwd_get_or_create, with_slot,
}
use winds.Opt.Forward.Table.Lookup.{
  KeepsOffset, stack_fwd_get-map, stack_fwd_get-with_slot, stack_fwd_get_or_create-cases,
  stack_fwd_get_or_create-none, length-map_slots, length-with_slot, length-le-get_or_create,
}
use winds.Opt.Forward.{escape, record_escapes}

-- The address of the slot at `o` is taken.
abbrev pub Taken : List IrInst → ℤ → Type 0
Taken insts o =
    (inst : IrInst) × Member inst insts
    × (is_op inst.op ir_addr_stack ≡ true)
    × (inst.src1.offset ≡ o)

-- What the table knows of the offsets in `P`.
abbrev pub KnowsEscapes : ℕ → (ℤ → Type 0) → StackFwdTable → Type 0
KnowsEscapes capacity P table =
    ((o : ℤ) (s : StackFwdSlot) → P o → stack_fwd_get table o ≡ some s → s.addr_escaped ≡ true)
    × ((o : ℤ) → P o → stack_fwd_get table o ≡ none → capacity ≤ length table)

abbrev pub KeepsEscaped : (StackFwdSlot → StackFwdSlot) → Type 0
KeepsEscaped f = (s : StackFwdSlot) → s.addr_escaped ≡ true → (f s).addr_escaped ≡ true

module _ (capacity : ℕ) (P : ℤ → Type 0) where
  pub map-KnowsEscapes :
      (f : StackFwdSlot → StackFwdSlot) (table : StackFwdTable)
      → KeepsOffset f
      → KeepsEscaped f
      → KnowsEscapes capacity P table
      → KnowsEscapes capacity P (map f table)
  map-KnowsEscapes f table k e (known, full) = (
    (λ o s p g. elim (Option-cases (stack_fwd_get table o)) [
      | inl h ↦ cc (stack_fwd_get-map f table o k, h, g)
      | inr (t, h) ↦
          subst (λ (x : StackFwdSlot). x.addr_escaped ≡ true)
            (Option.some-injective (f t) s
              (sym (stack_fwd_get-map f table o k ∙ ap (Option.map f) h) ∙ g))
            (e t (known o t p h))
    ]),
    λ o p g. elim (Option-cases (stack_fwd_get table o)) [
      | inl h ↦ omega (arith, length-map_slots f table, full o p h)
      | inr (t, h) ↦ cc (stack_fwd_get-map f table o k, h, g)
    ],
  )

  pub with_slot-KnowsEscapes :
      (f : StackFwdSlot → StackFwdSlot) (table : StackFwdTable) (offset : ℤ)
      → KeepsOffset f
      → KeepsEscaped f
      → KnowsEscapes capacity P table
      → KnowsEscapes capacity P (with_slot table offset f)
  with_slot-KnowsEscapes f table offset k e (known, full) = (
    (λ o s p g. elim (Option-cases (stack_fwd_get table o)) [
      | inl h ↦ ground (arith, stack_fwd_get-with_slot f table offset o k, h, g)
      | inr (t, h) ↦
          ground (arith, stack_fwd_get-with_slot f table offset o k, h, g, known o t p h, e t)
    ]),
    λ o p g. elim (Option-cases (stack_fwd_get table o)) [
      | inl h ↦ omega (arith, length-with_slot f table offset, full o p h)
      | inr (t, h) ↦ ground (arith, stack_fwd_get-with_slot f table offset o k, h, g)
    ],
  )

  -- Creating a slot that is not in `P`, or that is marked at once.
  pub create-KnowsEscapes :
      (table : StackFwdTable) (offset : ℤ)
      → KnowsEscapes capacity P table
      → KnowsEscapes capacity P (stack_fwd_get_or_create capacity table offset)
  create-KnowsEscapes table offset (known, full) = (
    (λ o s p g. elim (stack_fwd_get_or_create-cases capacity table offset o s g) [
      | inl h ↦ known o s p h
      | inr (_, _, h, room) ↦ absurd (omega (arith, full o p h, room))
    ]),
    λ o p g. omega (
      arith,
      length-le-get_or_create capacity table offset,
      full o p (stack_fwd_get_or_create-none capacity table offset o g).0,
    ),
  )

-- The slots of `P` and the one that is marked now.
mark-KnowsEscapes :
    (capacity : ℕ) (P : ℤ → Type 0) (table : StackFwdTable) (offset : ℤ)
    → KnowsEscapes capacity P table
    → KnowsEscapes capacity
        (λ o. P o ⊎ (offset ≡ o))
        (with_slot (stack_fwd_get_or_create capacity table offset) offset escape)
mark-KnowsEscapes capacity P table offset k =
    let created = stack_fwd_get_or_create capacity table offset in
    let old =
      with_slot-KnowsEscapes capacity P escape created offset (λ s. refl) (λ s e. refl)
        (create-KnowsEscapes capacity P table offset k) in
    (
      (λ o s p g. elim p [
        | inl q ↦ old.0 o s q g
        | inr e ↦ elim (Option-cases (stack_fwd_get created o)) [
          | inl h ↦ ground (
            arith,
            stack_fwd_get-with_slot escape created offset o (λ s. refl),
            h,
            g,
            int_eq_iff offset o,
          )
          | inr (t, h) ↦ ground (
            arith,
            stack_fwd_get-with_slot escape created offset o (λ s. refl),
            h,
            g,
            int_eq_iff offset o,
          )
        ]
      ]),
      λ o p g. elim p [
        | inl q ↦ old.1 o q g
        | inr e ↦ elim (Option-cases (stack_fwd_get created o)) [
          | inl h ↦ omega (
            arith,
            length-with_slot escape created offset,
            (stack_fwd_get_or_create-none capacity table offset o h).1 e,
          )
          | inr (t, h) ↦
              ground (arith, stack_fwd_get-with_slot escape created offset o (λ s. refl), h, g)
        ]
      ],
    )

KnowsEscapes-imp :
    (capacity : ℕ) (P Q : ℤ → Type 0) (table : StackFwdTable)
    → ((o : ℤ) → Q o → P o)
    → KnowsEscapes capacity P table
    → KnowsEscapes capacity Q table
KnowsEscapes-imp capacity P Q table f (known, full) =
    ((λ o s q g. known o s (f o q) g), λ o q g. full o (f o q) g)

record_escapes-KnowsEscapes :
    (capacity : ℕ) (P : ℤ → Type 0) (insts : List IrInst) (table : StackFwdTable)
    → KnowsEscapes capacity P table
    → KnowsEscapes capacity (λ o. P o ⊎ Taken insts o) (record_escapes capacity insts table)
unfolding record_escapes
record_escapes-KnowsEscapes capacity P [] table k =
    KnowsEscapes-imp capacity P _ table (λ o. elim [ inl p ↦ p | inr (_, m, _, _) ↦ absurd m ]) k
record_escapes-KnowsEscapes capacity P (inst ∷ rest) table k =
    elim (Bool-cases (is_op inst.op ir_addr_stack)) [
      | inl a ↦ rw a (
          KnowsEscapes-imp capacity _ _ _
            (λ o. elim [
              | inl p ↦ inl (inl p)
              | inr (x, inl q, b, e) ↦ inl (inr (ap (λ (y : IrInst). y.src1.offset) (sym q) ∙ e))
              | inr (x, inr m, b, e) ↦ inr (x, m, b, e)
            ])
            (record_escapes-KnowsEscapes capacity (λ o. P o ⊎ (inst.src1.offset ≡ o)) rest _
              (mark-KnowsEscapes capacity P table inst.src1.offset k)))
      | inr a ↦ rw a (
          KnowsEscapes-imp capacity _ _ _
            (λ o. elim [
              | inl p ↦ inl p
              | inr (x, inl q, b, e) ↦ cc (a, b, ap (λ (y : IrInst). is_op y.op ir_addr_stack) q)
              | inr (x, inr m, b, e) ↦ inr (x, m, b, e)
            ])
            (record_escapes-KnowsEscapes capacity P rest table k))
    ]

pub record_escapes_all :
    (capacity : ℕ) (insts : List IrInst)
    → KnowsEscapes capacity (Taken insts) (record_escapes capacity insts [])
record_escapes_all capacity insts =
    KnowsEscapes-imp capacity _ _ _ (λ o t. inr t)
      (record_escapes-KnowsEscapes capacity (λ _. ⊥) insts []
        ((λ o s p g. absurd p), λ o p g. absurd p))

-- Before the loop no slot is valid.
abbrev pub NoneValid : StackFwdTable → Type 0
NoneValid table = (o : ℤ) (s : StackFwdSlot) → stack_fwd_get table o ≡ some s → s.valid ≡ false

mark-NoneValid :
    (capacity : ℕ) (table : StackFwdTable) (offset : ℤ)
    → NoneValid table
    → NoneValid (with_slot (stack_fwd_get_or_create capacity table offset) offset escape)
mark-NoneValid capacity table offset none_valid o s g =
    elim (Option-cases (stack_fwd_get created o)) [
      | inl h ↦ ground (arith, found, h, g)
      | inr (t, h) ↦ ground (arith, found, h, g, created-NoneValid t h)
    ]
  where
    created : StackFwdTable
    created = stack_fwd_get_or_create capacity table offset

    found : stack_fwd_get (with_slot created offset escape) o ≡ (
        if int_eq offset o
        then Option.map escape (stack_fwd_get created o)
        else stack_fwd_get created o)
    found = stack_fwd_get-with_slot escape created offset o (λ s. refl)

    created-NoneValid : (t : StackFwdSlot) → stack_fwd_get created o ≡ some t → t.valid ≡ false
    created-NoneValid t h = elim (stack_fwd_get_or_create-cases capacity table offset o t h) [
      | inl q ↦ none_valid o t q
      | inr (e, _, _, _) ↦ ap (λ (x : StackFwdSlot). x.valid) e
    ]

pub record_escapes-NoneValid :
    (capacity : ℕ) (insts : List IrInst) (table : StackFwdTable)
    → NoneValid table
    → NoneValid (record_escapes capacity insts table)
unfolding record_escapes
record_escapes-NoneValid capacity [] table none_valid = none_valid
record_escapes-NoneValid capacity (inst ∷ rest) table none_valid =
    elim (Bool-cases (is_op inst.op ir_addr_stack)) [
      | inl a ↦ rw a (
          record_escapes-NoneValid capacity rest _
            (mark-NoneValid capacity table inst.src1.offset none_valid))
      | inr a ↦ rw a (record_escapes-NoneValid capacity rest table none_valid)
    ]
