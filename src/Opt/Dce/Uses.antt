-- ===== src/Opt/Dce/Uses.antt =====
-- The registers that opt_dead_code_elimination counts as used.
use winds.Base.{
  ℕ, ◌≡◌, refl, ◌∙◌, ◌≢◌, ◌⊎◌, inl, inr, ◌↔◌, Bool, true, false, Option, none, some, List, [], ◌∷◌,
  ◌==◌, arith, Bool-cases, Member, ==_iff, &&-both, ap, subst,
}
use mathlib.Core.Option.{some-injective}
use winds.Ir.{ir_load, ir_store, ir_cmp_ge, ir_call, IrOperand, IrInst, is_op, op_between}
use winds.Opt.Vreg.{reg_below}
use winds.Opt.Dce.{
  UseCount, count_reg, count_if, count_args, uses_src1, is_indirect, count_inst, count_uses,
  is_pure, is_unused, is_dead,
}

module _ (max_vreg : ℕ) (v : ℕ) where
  -- The operand is the register `v`.
  abbrev Is : IrOperand → Type 0
  Is o = reg_below max_vreg o.vreg ≡ some v

  -- The instruction reads the register `v`.
  abbrev pub Reads : IrInst → Type 0
  Reads inst =
      ((uses_src1 max_vreg inst.op ≡ true) × Is inst.src1)
      ⊎ (((op_between ir_load ir_cmp_ge inst.op ≡ true) × Is inst.src2)
          ⊎ (((is_op inst.op ir_store ≡ true) × Is inst.dest)
              ⊎ (((is_op inst.op ir_call ≡ true)
                  × ((o : IrOperand) × Member o inst.call_args × Is o)))))

  count_reg-zero :
      (c : UseCount) (r : Option ℕ) → (count_reg c r v ≡ 0) ↔ ((c v ≡ 0) × (r ≢ some v))
  unfolding count_reg
  count_reg-zero c none = ((λ h. (h, λ e. cc)), λ h. h.0)
  count_reg-zero c (some r) = elim (Bool-cases (v == r)) [
    | inl e ↦ ((λ h. absurd (ground arith)), λ h. absurd (h.1 (ap some (ground arith))))
    | inr e ↦
        let ne : some r ≢ some v = λ q. ground (arith, some-injective r v q) in
        ((λ h. (ground arith, ne)), λ h. ground arith)
  ]

  count_if-zero :
      (when : Bool) (o : IrOperand) (c : UseCount)
      → (count_if max_vreg when o c v ≡ 0) ↔ ((c v ≡ 0) × ((when ≡ true) → ¬ (Is o)))
  unfolding count_if
  count_if-zero false o c = ((λ h. (h, λ e i. cc)), λ h. h.0)
  count_if-zero true o c =
      let both = count_reg-zero c (reg_below max_vreg o.vreg) in
      ((λ h. ((both.0 h).0, λ e. (both.0 h).1)), λ h. both.1 (h.0, h.1 refl))

  count_args-zero :
      (when : Bool) (os : List IrOperand) (c : UseCount)
      → (count_args max_vreg when os c v ≡ 0)
        ↔ ((c v ≡ 0) × ((when ≡ true) → (o : IrOperand) → Member o os → ¬ (Is o)))
  unfolding count_args
  count_args-zero when [] c = ((λ h. (h, λ e o m. absurd m)), λ h. h.0)
  count_args-zero when (o ∷ os) c =
      let rest = count_args-zero when os (count_if max_vreg when o c) in
      let head = count_if-zero when o c in
      (
        (λ h.
            let (z, none_of) = rest.0 h in
            let (y, not_o) = head.0 z in
            (y, λ e p m. elim m [ inl q ↦ λ i. not_o e (subst Is q i) | inr n ↦ none_of e p n ])),
        λ h. rest.1 (head.1 (h.0, λ e. h.1 e o (inl refl)), λ e p m. h.1 e p (inr m)),
      )

  count_inst-zero :
      (inst : IrInst) (c : UseCount)
      → (count_inst max_vreg inst c v ≡ 0) ↔ ((c v ≡ 0) × ¬ (Reads inst))
  unfolding count_inst
  count_inst-zero inst c = (unread, unread_zero)
    where
      after_src1 : UseCount
      after_src1 = count_if max_vreg (uses_src1 max_vreg inst.op) inst.src1 c

      after_src2 : UseCount
      after_src2 = count_if max_vreg (op_between ir_load ir_cmp_ge inst.op) inst.src2 after_src1

      after_dest : UseCount
      after_dest = count_if max_vreg (is_op inst.op ir_store) inst.dest after_src2

      after_target : UseCount
      after_target = count_if max_vreg (is_indirect max_vreg inst) inst.src1 after_dest

      unread : count_inst max_vreg inst c v ≡ 0 → (c v ≡ 0) × ¬ (Reads inst)
      unread h =
          let (z4, args) =
            (count_args-zero (is_op inst.op ir_call) inst.call_args after_target).0 h in
          let (z3, _) = (count_if-zero (is_indirect max_vreg inst) inst.src1 after_dest).0 z4 in
          let (z2, dest) = (count_if-zero (is_op inst.op ir_store) inst.dest after_src2).0 z3 in
          let (z1, src2) =
            (count_if-zero (op_between ir_load ir_cmp_ge inst.op) inst.src2 after_src1).0 z2 in
          let (z0, src1) = (count_if-zero (uses_src1 max_vreg inst.op) inst.src1 c).0 z1 in
          (
            z0,
            elim [
              | inl r ↦ src1 r.0 r.1
              | inr (inl r) ↦ src2 r.0 r.1
              | inr (inr (inl r)) ↦ dest r.0 r.1
              | inr (inr (inr (e, (o, m, i)))) ↦ args e o m i
            ],
          )

      target_read : is_indirect max_vreg inst ≡ true → uses_src1 max_vreg inst.op ≡ true
      target_read e = ground arith

      unread_zero : (c v ≡ 0) × ¬ (Reads inst) → count_inst max_vreg inst c v ≡ 0
      unread_zero (z, unread_by) =
          (count_args-zero (is_op inst.op ir_call) inst.call_args after_target).1 (
            (count_if-zero (is_indirect max_vreg inst) inst.src1 after_dest).1 (
              (count_if-zero (is_op inst.op ir_store) inst.dest after_src2).1 (
                (count_if-zero (op_between ir_load ir_cmp_ge inst.op) inst.src2 after_src1).1 (
                  (count_if-zero (uses_src1 max_vreg inst.op) inst.src1 c).1
                      (z, λ e i. unread_by (inl (e, i))),
                  λ e i. unread_by (inr (inl (e, i))),
                ),
                λ e i. unread_by (inr (inr (inl (e, i)))),
              ),
              λ e i. unread_by (inl (target_read e, i)),
            ),
            λ e o m i. unread_by (inr (inr (inr (e, (o, m, i))))),
          )

  count_uses-zero :
      (insts : List IrInst) (c : UseCount)
      → (count_uses max_vreg insts c v ≡ 0)
        ↔ ((c v ≡ 0) × ((inst : IrInst) → Member inst insts → ¬ (Reads inst)))
  unfolding count_uses
  count_uses-zero [] c = ((λ h. (h, λ inst m. absurd m)), λ h. h.0)
  count_uses-zero (i ∷ rest) c =
      let later = count_uses-zero rest (count_inst max_vreg i c) in
      let now = count_inst-zero i c in
      (
        (λ h.
            let (z, none_of) = later.0 h in
            let (y, not_i) = now.0 z in
            (
              y,
              λ inst m. elim m [ inl q ↦ λ r. not_i (subst Reads q r) | inr n ↦ none_of inst n ],
            )),
        λ h. later.1 (now.1 (h.0, h.1 i (inl refl)), λ inst m. h.1 inst (inr m)),
      )

is_unused-zero :
    (c : UseCount) (max_vreg : ℕ) (r : Option ℕ)
    → (is_unused max_vreg c r ≡ true) ↔ ((v : ℕ) × (r ≡ some v) × (c v ≡ 0))
unfolding is_unused
is_unused-zero c max_vreg none = ((λ h. cc), λ h. cc (h.1))
is_unused-zero c max_vreg (some v) = (
  (λ h. (v, refl, (==_iff (c v) 0).0 h)),
  λ h. (==_iff (c v) 0).1 (ap c (some-injective v h.0 h.1) ∙ h.2),
)

-- A removed instruction is pure, and no instruction reads its destination.
pub is_dead-unread :
    (max_vreg : ℕ) (insts : List IrInst) (inst : IrInst)
    → is_dead max_vreg (count_uses max_vreg insts (λ _. 0)) inst ≡ true
    → (is_pure max_vreg inst.op ≡ true)
      × ((v : ℕ) × (reg_below max_vreg inst.dest.vreg ≡ some v)
          × ((other : IrInst) → Member other insts → ¬ (Reads max_vreg v other)))
unfolding is_dead
is_dead-unread max_vreg insts inst h =
    let c = count_uses max_vreg insts (λ _. 0) in
    let (pure, u) = &&-both _ _ h in
    let (v, e, z) = (is_unused-zero c max_vreg (reg_below max_vreg inst.dest.vreg)).0 u in
    (pure, (v, e, ((count_uses-zero max_vreg v insts (λ _. 0)).0 z).1))
