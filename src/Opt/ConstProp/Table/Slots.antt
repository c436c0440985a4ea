-- ===== src/Opt/ConstProp/Table/Slots.antt =====
-- The table against the contents of the stack slots.
use winds.Base.{
  ℕ, ◌≡◌, refl, ◌∙◌, Bool, true, false, inl, inr, some, [], ◌∷◌, arith, Bool-cases, subst,
}
use winds.Base.Int.{ℤ, int_eq, int_eq_iff}
use winds.Opt.Values.{store_slot}
use winds.Opt.ConstProp.Table.{
  StackConstEntry, StackConstTable, set_entry, stack_const_invalidate, stack_const_get,
}

-- No entry is for the offset.
abbrev pub Absent : ℤ → StackConstTable → Type 0
Absent offset [] = Unit
Absent offset (e ∷ rest) = (int_eq e.offset offset ≡ false) × Absent offset rest

-- The constants of the table are what the slots hold, and no offset has two entries.
abbrev pub Matches : (ℤ → ℕ) → StackConstTable → Type 0
Matches slots [] = Unit
Matches slots (e ∷ rest) =
    (e.is_const ≡ true → slots e.offset ≡ e.val) × (Absent e.offset rest × Matches slots rest)

pub stack_const_get-value :
    (slots : ℤ → ℕ) (table : StackConstTable) (offset : ℤ) (val : ℕ)
    → Matches slots table
    → stack_const_get table offset ≡ some val
    → slots offset ≡ val
unfolding stack_const_get
stack_const_get-value slots [] offset val m h = cc
stack_const_get-value slots (e ∷ rest) offset val m h =
    ground
      (arith, m.0, int_eq_iff e.offset offset, stack_const_get-value slots rest offset val m.1.1)

pub Matches-same :
    (slots slots' : ℤ → ℕ) (table : StackConstTable)
    → ((o : ℤ) → slots' o ≡ slots o)
    → Matches slots table
    → Matches slots' table
Matches-same slots slots' [] same m = tt
Matches-same slots slots' (e ∷ rest) same m =
    ((λ c. same e.offset ∙ m.0 c), (m.1.0, Matches-same slots slots' rest same m.1.1))

module _ (offset : ℤ) where
  stack_const_invalidate-Absent :
      (table : StackConstTable) (o : ℤ)
      → Absent o table
      → Absent o (stack_const_invalidate table offset)
  unfolding stack_const_invalidate
  stack_const_invalidate-Absent [] o a = tt
  stack_const_invalidate-Absent (e ∷ rest) o a = elim (Bool-cases (int_eq e.offset offset)) [
    | inl h ↦ rw h a
    | inr h ↦ rw h (a.0, stack_const_invalidate-Absent rest o a.1)
  ]

  pub stack_const_invalidate-Matches :
      (slots : ℤ → ℕ) (table : StackConstTable)
      → Matches slots table
      → Matches slots (stack_const_invalidate table offset)
  unfolding stack_const_invalidate
  stack_const_invalidate-Matches slots [] m = tt
  stack_const_invalidate-Matches slots (e ∷ rest) m = elim (Bool-cases (int_eq e.offset offset)) [
    | inl h ↦ rw h ((λ c. cc), m.1)
    | inr h ↦ rw h (
      m.0,
      (
        stack_const_invalidate-Absent rest e.offset m.1.0,
        stack_const_invalidate-Matches slots rest m.1.1,
      ),
    )
  ]

  module _ (val : ℕ) where
    Matches-Absent :
        (slots : ℤ → ℕ) (table : StackConstTable)
        → Absent offset table
        → Matches slots table
        → Matches (store_slot slots offset val) table
    Matches-Absent slots [] a m = tt
    Matches-Absent slots (e ∷ rest) a m =
        ((λ c. rw a.0 (m.0 c)), (m.1.0, Matches-Absent slots rest a.1 m.1.1))

    -- An entry for the offset of a store is the only one.
    Absent-here :
        (e : StackConstEntry) (rest : StackConstTable)
        → int_eq e.offset offset ≡ true
        → Absent e.offset rest
        → Absent offset rest
    Absent-here e rest h a = subst (λ o. Absent o rest) ((int_eq_iff e.offset offset).0 h) a

    set_entry-Absent :
        (full : Bool) (table : StackConstTable) (o : ℤ)
        → int_eq offset o ≡ false
        → Absent o table
        → Absent o (set_entry full table offset val)
    unfolding set_entry
    set_entry-Absent true [] o ne a = tt
    set_entry-Absent false [] o ne a = (ne, tt)
    set_entry-Absent full (e ∷ rest) o ne a = elim (Bool-cases (int_eq e.offset offset)) [
      | inl h ↦ rw h a
      | inr h ↦ rw h (a.0, set_entry-Absent full rest o ne a.1)
    ]

    int_eq_sym : (a b : ℤ) → int_eq a b ≡ false → int_eq b a ≡ false
    int_eq_sym a b h = ground arith

    pub set_entry-Matches :
        (full : Bool) (slots : ℤ → ℕ) (table : StackConstTable)
        → Matches slots table
        → Matches (store_slot slots offset val) (set_entry full table offset val)
    unfolding set_entry
    set_entry-Matches true slots [] m = tt
    set_entry-Matches false slots [] m =
        ((λ c. rw ((int_eq_iff offset offset).1 refl) refl), (tt, tt))
    set_entry-Matches full slots (e ∷ rest) m = elim (Bool-cases (int_eq e.offset offset)) [
      | inl h ↦
          rw h (
            (λ c. rw h refl),
            (m.1.0, Matches-Absent slots rest (Absent-here e rest h m.1.0) m.1.1),
          )
      | inr h ↦ rw h (
        (λ c. rw h (m.0 c)),
        (
          set_entry-Absent full rest e.offset (int_eq_sym e.offset offset h) m.1.0,
          set_entry-Matches full slots rest m.1.1,
        ),
      )
    ]

    pub stack_const_invalidate-store :
        (slots : ℤ → ℕ) (table : StackConstTable)
        → Matches slots table
        → Matches (store_slot slots offset val) (stack_const_invalidate table offset)
    unfolding stack_const_invalidate
    stack_const_invalidate-store slots [] m = tt
    stack_const_invalidate-store slots (e ∷ rest) m = elim (Bool-cases (int_eq e.offset offset)) [
      | inl h ↦
          rw h ((λ c. cc), (m.1.0, Matches-Absent slots rest (Absent-here e rest h m.1.0) m.1.1))
      | inr h ↦ rw h (
        (λ c. rw h (m.0 c)),
        (
          stack_const_invalidate-Absent rest e.offset m.1.0,
          stack_const_invalidate-store slots rest m.1.1,
        ),
      )
    ]
