-- ===== src/Regalloc/Slots/Disjoint.antt =====
-- Spill slots in the order of the registers, and where they lie.
use winds.Base.{
  ℕ, zero, suc, ◌+◌, ◌*◌, ◌≤◌, ◌<◌, ◌≡◌, refl, sym, ◌∙◌, subst, ◌≢◌, inl, inr, true, Option, none,
  some, arith, Bool-cases,
}
use winds.Base.Int.{ℤ, neg}
use native.Mathlib.Decide.{ℕ_discrete}
use winds.Regalloc.Types.{PhysReg, LiveInterval, position, set_vreg_self, set_vreg_ne}
use winds.Regalloc.Ranges.{Intervals}
use winds.Regalloc.Slots.{SpillState, is_spilled, spill_vreg, spill_vregs}

-- The slot number `i` below `frame`, counted from 1.
abbrev pub slot : ℕ → ℕ → ℤ
slot frame i = neg (frame + i * 8)

-- A live register with no physical one is spilled.
pub is_spilled_live :
    (o : Option PhysReg) (c : LiveInterval)
    → o ≡ none
    → 0 < position c.start_inst
    → is_spilled o c.start_inst ≡ true
unfolding is_spilled
is_spilled_live none c e h = ground arith
is_spilled_live (some r) c e h = cc

module _ (frame : ℕ) (regs : ℕ → Option PhysReg) (iv : Intervals) where
  -- The register is live and has no physical register.
  abbrev pub IsSpilled : ℕ → Type 0
  IsSpilled v = is_spilled (regs v) (iv v).start_inst ≡ true

  spill_vreg_here :
      (v : ℕ) (s : SpillState)
      → IsSpilled v
      → ((spill_vreg frame regs iv v s).slots v ≡ slot frame (suc s.spill_idx))
        × ((spill_vreg frame regs iv v s).spill_idx ≡ suc s.spill_idx)
  unfolding spill_vreg
  spill_vreg_here v s b =
      rw (b, spill_vreg) (set_vreg_self s.slots v (slot frame (suc s.spill_idx)), refl)

  spill_vreg_other :
      (v : ℕ) (s : SpillState) (w : ℕ) → w ≢ v → (spill_vreg frame regs iv v s).slots w ≡ s.slots w
  unfolding spill_vreg
  spill_vreg_other v s w ne = elim (Bool-cases (is_spilled (regs v) (iv v).start_inst)) [
    | inl b ↦ rw (b, spill_vreg) (set_vreg_ne s.slots v w (slot frame (suc s.spill_idx)) ne)
    | inr b ↦ rw (b, spill_vreg)
  ]

  spill_vreg_grows :
      (v : ℕ) (s : SpillState) → s.spill_idx ≤ (spill_vreg frame regs iv v s).spill_idx
  unfolding spill_vreg
  spill_vreg_grows v s = ground arith

  -- The loop leaves the registers below `v` as they are.
  spill_vregs_before :
      (v k : ℕ) (s : SpillState) (w : ℕ)
      → w < v
      → (spill_vregs frame regs iv v k s).slots w ≡ s.slots w
  unfolding spill_vregs
  spill_vregs_before v zero s w h = refl
  spill_vregs_before v (suc k) s w h =
      spill_vregs_before (suc v) k (spill_vreg frame regs iv v s) w (omega arith)
      ∙ spill_vreg_other v s w (omega arith)

  spill_idx_grows :
      (v k : ℕ) (s : SpillState) → s.spill_idx ≤ (spill_vregs frame regs iv v k s).spill_idx
  unfolding spill_vregs
  spill_idx_grows v zero s = omega arith
  spill_idx_grows v (suc k) s =
      omega (arith, spill_vreg_grows v s, spill_idx_grows (suc v) k (spill_vreg frame regs iv v s))

  -- `w` has the slot number `i`, which lies above the numbers given before.
  abbrev pub HasSlot : SpillState → SpillState → ℕ → ℕ → Type 0
  HasSlot s out w i = (out.slots w ≡ slot frame i) × (s.spill_idx < i) × (i ≤ out.spill_idx)

  first-HasSlot :
      (v k : ℕ) (s : SpillState)
      → IsSpilled v
      → HasSlot s (spill_vregs frame regs iv v (suc k) s) v (suc s.spill_idx)
  unfolding spill_vregs
  first-HasSlot v k s b =
      let s' = spill_vreg frame regs iv v s in
      let (at, next) = spill_vreg_here v s b in
      (
        spill_vregs_before (suc v) k s' v (omega arith) ∙ at,
        omega arith,
        omega (arith, spill_idx_grows (suc v) k s', next),
      )

  pub spill_vregs-HasSlot :
      (v k : ℕ) (s : SpillState) (w : ℕ)
      → v ≤ w
      → w < v + k
      → IsSpilled w
      → (i : ℕ) × HasSlot s (spill_vregs frame regs iv v k s) w i
  unfolding spill_vregs
  spill_vregs-HasSlot v zero s w lo hi b = absurd (omega arith)
  spill_vregs-HasSlot v (suc k) s w lo hi b = elim (ℕ_discrete v w) [
    | yes e ↦ (
      suc s.spill_idx,
      subst (λ x. HasSlot s (spill_vregs frame regs iv v (suc k) s) x (suc s.spill_idx)) e
          (first-HasSlot v k s (subst IsSpilled (sym e) b)),
    )
    | no ne ↦
        let s' = spill_vreg frame regs iv v s in
        let (i, h) = spill_vregs-HasSlot (suc v) k s' w (omega arith) (omega arith) b in
        (i, (h.0, omega (arith, spill_vreg_grows v s), h.2))
  ]

  -- The slots of two registers, in the order of the registers.
  abbrev pub InOrder : SpillState → SpillState → ℕ → ℕ → Type 0
  InOrder s out w x =
      (i : ℕ) × (j : ℕ) × (out.slots w ≡ slot frame i)
      × (out.slots x ≡ slot frame j)
      × (s.spill_idx < i)
      × (i < j)
      × (j ≤ out.spill_idx)

  pub spill_vregs-InOrder :
      (v k : ℕ) (s : SpillState) (w x : ℕ)
      → v ≤ w
      → w < x
      → x < v + k
      → IsSpilled w
      → IsSpilled x
      → InOrder s (spill_vregs frame regs iv v k s) w x
  unfolding spill_vregs
  spill_vregs-InOrder v zero s w x lo lt hi b c = absurd (omega arith)
  spill_vregs-InOrder v (suc k) s w x lo lt hi b c = elim (ℕ_discrete v w) [
    | yes e ↦
        let b' : IsSpilled v = subst IsSpilled (sym e) b in
        let (at, above, _) = first-HasSlot v k s b' in
        let (j, h) =
          spill_vregs-HasSlot (suc v) k (spill_vreg frame regs iv v s) x (omega arith) (omega arith)
            c in
        (
          suc s.spill_idx,
          j,
          subst
              (λ y. (spill_vregs frame regs iv v (suc k) s).slots y ≡ slot frame (suc s.spill_idx))
              e at,
          h.0,
          omega arith,
          omega (arith, (spill_vreg_here v s b').1),
          h.2,
        )
    | no ne ↦
        let (i, j, at_i, at_j, above, order, below) =
          spill_vregs-InOrder (suc v) k (spill_vreg frame regs iv v s) w x (omega arith) lt
            (omega arith) b c in
        (i, j, at_i, at_j, omega (arith, spill_vreg_grows v s), order, below)
  ]
