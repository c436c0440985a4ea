-- ===== src/Opt/Forward/Table/Lookup.antt =====
-- What a lookup finds after each operation on the table.
use winds.Base.{
  ℕ, suc, ◌≤◌, ◌<◌, ◌≡◌, refl, sym, ◌∙◌, ap, ◌⊎◌, inl, inr, none, some, [], ◌∷◌, ◌++◌, map, arith,
  length, if◌then◌else◌, Bool-cases,
}
use mathlib.Core.Option
use winds.Base.Int.{ℤ, int_eq, int_eq_iff}
use winds.Opt.Forward.Table.{
  StackFwdSlot, StackFwdTable, stack_fwd_get, empty_slot, stack_fwd_get_or_create, with_slot,
}

-- An update that leaves the offset alone.
abbrev pub KeepsOffset : (StackFwdSlot → StackFwdSlot) → Type 0
KeepsOffset f = (s : StackFwdSlot) → (f s).offset ≡ s.offset

pub stack_fwd_get-offset :
    (table : StackFwdTable) (o : ℤ) (s : StackFwdSlot)
    → stack_fwd_get table o ≡ some s
    → s.offset ≡ o
unfolding stack_fwd_get
stack_fwd_get-offset [] o s e = cc
stack_fwd_get-offset (t ∷ rest) o s e = elim (Bool-cases (int_eq t.offset o)) [
  | inl h ↦
      ap (λ (x : StackFwdSlot). x.offset) (Option.some-injective s t (sym (rw h at e)))
      ∙ (int_eq_iff t.offset o).0 h
  | inr h ↦ stack_fwd_get-offset rest o s (rw h at e)
]

pub stack_fwd_get-map :
    (f : StackFwdSlot → StackFwdSlot) (table : StackFwdTable) (o : ℤ)
    → KeepsOffset f
    → stack_fwd_get (map f table) o ≡ Option.map f (stack_fwd_get table o)
unfolding stack_fwd_get
stack_fwd_get-map f [] o k = refl
stack_fwd_get-map f (t ∷ rest) o k = ground (arith, k t, stack_fwd_get-map f rest o k)

pub stack_fwd_get-with_slot :
    (f : StackFwdSlot → StackFwdSlot) (table : StackFwdTable) (offset o : ℤ)
    → KeepsOffset f
    → stack_fwd_get (with_slot table offset f) o
      ≡ (if int_eq offset o then Option.map f (stack_fwd_get table o) else stack_fwd_get table o)
unfolding stack_fwd_get with_slot
stack_fwd_get-with_slot f [] offset o k = ground arith
stack_fwd_get-with_slot f (t ∷ rest) offset o k = ground (
  arith,
  k t,
  int_eq_iff t.offset offset,
  int_eq_iff t.offset o,
  int_eq_iff offset o,
  stack_fwd_get-with_slot f rest offset o k,
)

pub stack_fwd_get-append :
    (table : StackFwdTable) (s : StackFwdSlot) (o : ℤ)
    → stack_fwd_get (table ++ (s ∷ [])) o ≡ elim (stack_fwd_get table o) [
      | some t ↦ some t
      | none ↦ if int_eq s.offset o then some s else none
    ]
unfolding stack_fwd_get
stack_fwd_get-append [] s o = ground arith
stack_fwd_get-append (t ∷ rest) s o = elim (Bool-cases (int_eq t.offset o)) [
  | inl h ↦ rw h refl
  | inr h ↦ rw h (stack_fwd_get-append rest s o)
]

-- A slot found after the creation was there, or is the new one.
pub stack_fwd_get_or_create-cases :
    (capacity : ℕ) (table : StackFwdTable) (offset o : ℤ) (s : StackFwdSlot)
    → stack_fwd_get (stack_fwd_get_or_create capacity table offset) o ≡ some s
    → (stack_fwd_get table o ≡ some s)
      ⊎ ((s ≡ empty_slot offset)
          × (offset ≡ o)
          × (stack_fwd_get table o ≡ none)
          × (length table < capacity))
unfolding stack_fwd_get_or_create
stack_fwd_get_or_create-cases capacity table offset o s e =
    ground (arith, stack_fwd_get-append table (empty_slot offset) o, int_eq_iff offset o)

pub length-append_one :
    (table : StackFwdTable) (s : StackFwdSlot) → length (table ++ (s ∷ [])) ≡ suc (length table)
length-append_one [] s = omega arith
length-append_one (t ∷ rest) s = omega (arith, length-append_one rest s)

pub length-map_slots :
    (f : StackFwdSlot → StackFwdSlot) (table : StackFwdTable) → length (map f table) ≡ length table
length-map_slots f [] = refl
length-map_slots f (t ∷ rest) = omega (arith, length-map_slots f rest)

pub length-with_slot :
    (f : StackFwdSlot → StackFwdSlot) (table : StackFwdTable) (offset : ℤ)
    → length (with_slot table offset f) ≡ length table
unfolding with_slot
length-with_slot f [] offset = refl
length-with_slot f (t ∷ rest) offset = ground (arith, length-with_slot f rest offset)

pub length-le-get_or_create :
    (capacity : ℕ) (table : StackFwdTable) (offset : ℤ)
    → length table ≤ length (stack_fwd_get_or_create capacity table offset)
unfolding stack_fwd_get_or_create
length-le-get_or_create capacity table offset =
    ground (arith, length-append_one table (empty_slot offset))

-- A slot stays, and one for the offset is missing afterwards only in a full table.
pub stack_fwd_get_or_create-none :
    (capacity : ℕ) (table : StackFwdTable) (offset o : ℤ)
    → stack_fwd_get (stack_fwd_get_or_create capacity table offset) o ≡ none
    → (stack_fwd_get table o ≡ none)
      × (offset ≡ o → capacity ≤ length (stack_fwd_get_or_create capacity table offset))
unfolding stack_fwd_get_or_create
stack_fwd_get_or_create-none capacity table offset o e = ground (
  arith,
  stack_fwd_get-append table (empty_slot offset) o,
  int_eq_iff offset o,
  length-append_one table (empty_slot offset),
)
