-- ===== src/Regalloc/Slots/Saved.antt =====
-- The loop over the callee-saved registers, and the slots that it gives.
use winds.Base.{
  ℕ, suc, ◌≤◌, ◌<◌, ◌≡◌, refl, sym, ◌∙◌, subst, ◌≢◌, inl, inr, Bool, true, false, List, [], ◌∷◌,
  arith, Bool-cases, Member, All,
}
use winds.Regalloc.Types.{PhysReg, rbx_to_r15, reg_eq, reg_eq_iff, reg_ne, reg_eq_self}
use winds.Regalloc.Slots.{SaveState, save_reg, save_regs}
use winds.Regalloc.Slots.Disjoint.{slot}

abbrev pub DistinctList : List PhysReg → Type 0
DistinctList [] = Unit
DistinctList (r ∷ rs) = All (λ q. r ≢ q) rs × DistinctList rs

pub rbx_to_r15-DistinctList : DistinctList rbx_to_r15
rbx_to_r15-DistinctList = (
  (ne _ _ refl, (ne _ _ refl, (ne _ _ refl, (ne _ _ refl, tt)))),
  (
    (ne _ _ refl, (ne _ _ refl, (ne _ _ refl, tt))),
    ((ne _ _ refl, (ne _ _ refl, tt)), ((ne _ _ refl, tt), (tt, tt))),
  ),
)
  where
    ne : (a b : PhysReg) → reg_eq a b ≡ false → a ≢ b
    ne a b h e = cc ((reg_eq_iff a b).1 e)

module _ (base : ℕ) (used : PhysReg → Bool) where
  save_reg_other :
      (r : PhysReg) (s : SaveState) (q : PhysReg)
      → q ≢ r
      → (save_reg base used r s).offsets q ≡ s.offsets q
  unfolding save_reg
  save_reg_other r s q ne = elim (Bool-cases (used r)) [
    | inl b ↦ rw (b, save_reg) (rw (reg_ne q r ne))
    | inr b ↦ rw (b, save_reg)
  ]

  save_reg_here :
      (r : PhysReg) (s : SaveState)
      → used r ≡ true
      → ((save_reg base used r s).offsets r ≡ slot base (suc s.count))
        × ((save_reg base used r s).count ≡ suc s.count)
  unfolding save_reg
  save_reg_here r s b = rw (b, save_reg) (rw (reg_eq_self r), refl)

  save_reg_grows : (r : PhysReg) (s : SaveState) → s.count ≤ (save_reg base used r s).count
  unfolding save_reg
  save_reg_grows r s = ground arith

  save_regs_other :
      (rs : List PhysReg) (s : SaveState) (q : PhysReg)
      → All (λ r. q ≢ r) rs
      → (save_regs base used rs s).offsets q ≡ s.offsets q
  unfolding save_regs
  save_regs_other [] s q h = refl
  save_regs_other (r ∷ rs) s q h =
      save_regs_other rs (save_reg base used r s) q h.1 ∙ save_reg_other r s q h.0

  save_regs_grows : (rs : List PhysReg) (s : SaveState) → s.count ≤ (save_regs base used rs s).count
  unfolding save_regs
  save_regs_grows [] s = omega arith
  save_regs_grows (r ∷ rs) s =
      omega (arith, save_reg_grows r s, save_regs_grows rs (save_reg base used r s))

  abbrev pub IsSaved : SaveState → SaveState → PhysReg → ℕ → Type 0
  IsSaved s out r i = (out.offsets r ≡ slot base i) × (s.count < i) × (i ≤ out.count)

  head-IsSaved :
      (r : PhysReg) (rs : List PhysReg) (s : SaveState)
      → All (λ q. r ≢ q) rs
      → used r ≡ true
      → IsSaved s (save_regs base used (r ∷ rs) s) r (suc s.count)
  unfolding save_regs
  head-IsSaved r rs s new b =
      let (at, next) = save_reg_here r s b in
      (
        save_regs_other rs (save_reg base used r s) r new ∙ at,
        omega arith,
        omega (arith, save_regs_grows rs (save_reg base used r s), next),
      )

  pub save_regs-IsSaved :
      (rs : List PhysReg) (s : SaveState) (r : PhysReg)
      → DistinctList rs
      → Member r rs
      → used r ≡ true
      → (i : ℕ) × IsSaved s (save_regs base used rs s) r i
  unfolding save_regs
  save_regs-IsSaved [] s r h m b = absurd m
  save_regs-IsSaved (q ∷ rs) s r h (inl e) b = (
    suc s.count,
    subst (λ x. IsSaved s (save_regs base used (q ∷ rs) s) x (suc s.count)) (sym e)
        (head-IsSaved q rs s h.0 (subst (λ x. used x ≡ true) e b)),
  )
  save_regs-IsSaved (q ∷ rs) s r h (inr m) b =
      let (i, k) = save_regs-IsSaved rs (save_reg base used q s) r h.1 m b in
      (i, (k.0, omega (arith, save_reg_grows q s), k.2))

  -- Two registers of the list, with two slots.
  pub save_regs-distinct :
      (rs : List PhysReg) (s : SaveState) (p r : PhysReg)
      → DistinctList rs
      → Member p rs
      → Member r rs
      → p ≢ r
      → used p ≡ true
      → used r ≡ true
      → (i : ℕ) × (j : ℕ) × (i ≢ j)
        × IsSaved s (save_regs base used rs s) p i
        × IsSaved s (save_regs base used rs s) r j
  unfolding save_regs
  save_regs-distinct [] s p r h m n ne b c = absurd m
  save_regs-distinct (q ∷ rs) s p r h (inl e) (inl e') ne b c = absurd (ne (e ∙ sym e'))
  save_regs-distinct (q ∷ rs) s p r h (inl e) (inr n) ne b c =
      let b' : used q ≡ true = subst (λ x. used x ≡ true) e b in
      let (j, k) = save_regs-IsSaved rs (save_reg base used q s) r h.1 n c in
      (
        suc s.count,
        j,
        omega (arith, (save_reg_here q s b').1),
        subst (λ x. IsSaved s (save_regs base used (q ∷ rs) s) x (suc s.count)) (sym e)
            (head-IsSaved q rs s h.0 b'),
        (k.0, omega (arith, save_reg_grows q s), k.2),
      )
  save_regs-distinct (q ∷ rs) s p r h (inr m) (inl e) ne b c =
      let c' : used q ≡ true = subst (λ x. used x ≡ true) e c in
      let (i, k) = save_regs-IsSaved rs (save_reg base used q s) p h.1 m b in
      (
        i,
        suc s.count,
        omega (arith, (save_reg_here q s c').1),
        (k.0, omega (arith, save_reg_grows q s), k.2),
        subst (λ x. IsSaved s (save_regs base used (q ∷ rs) s) x (suc s.count)) (sym e)
            (head-IsSaved q rs s h.0 c'),
      )
  save_regs-distinct (q ∷ rs) s p r h (inr m) (inr n) ne b c =
      let (i, j, d, k, l) = save_regs-distinct rs (save_reg base used q s) p r h.1 m n ne b c in
      (
        i,
        j,
        d,
        (k.0, omega (arith, save_reg_grows q s), k.2),
        (l.0, omega (arith, save_reg_grows q s), l.2),
      )
