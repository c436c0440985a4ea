-- ===== src/Opt/ConstProp/Consts.antt =====
-- The constants that opt_constant_propagation knows, against what registers hold.
use winds.Base.{ℕ, ◌≡◌, refl, sym, ◌⊎◌, inl, inr, Option, none, some, arith, Option-cases, true}
use mathlib.Core.Option.{some-injective}
use winds.Base.Int.{ℤ, pos}
use winds.Ir.{ir_add, ir_cmp_ge, IrOperand, IrInst, op_between}
use winds.Ir.Value.{Regs, operand_value}
use winds.Opt.Values.{value_at}
use winds.Opt.Vreg.{reg_below, reg_below-pos}
use winds.Opt.ConstProp.Table.Slots.{Matches}
use winds.Opt.ConstProp.Step.{
  ConstState, Stepped, set_const, defined_once, const_of, replace, replace_const, record_once,
}
use winds.Opt.ConstProp.Values.{HoldsConsts}

module _ (regs regs' : Regs) (max_vreg : ℕ) (def_count : ℕ → ℕ) where
  -- The destination holds what the instruction computes in `regs`, also in `regs'`, if it is
  -- defined once or the instruction is arithmetic.
  abbrev pub HoldsResult : (ℤ → ℕ) → IrInst → Type 0
  HoldsResult slots inst =
      (d n : ℕ)
      → reg_below max_vreg inst.dest.vreg ≡ some d
      → (def_count d ≡ 1) ⊎ (op_between ir_add ir_cmp_ge inst.op ≡ true)
      → value_at inst.op regs slots inst ≡ some n
      → regs' (pos d) ≡ n

  abbrev pub Knows : (ℕ → Option ℕ) → Type 0
  Knows consts = HoldsConsts regs consts × HoldsConsts regs' consts

  -- The new form of an instruction, and the state after it.
  abbrev pub Sound : (ℤ → ℕ) → (ℤ → ℕ) → IrInst → Stepped → Type 0
  Sound slots slots' inst r =
      (value_at r.0.op regs slots r.0 ≡ value_at inst.op regs slots inst)
      × ((r.0.dest ≡ inst.dest) × (HoldsConsts regs' r.1.0.consts × Matches slots' r.1.0.table))

  pub set_const-HoldsConsts :
      (consts : ℕ → Option ℕ) (d : Option ℕ) (val : ℕ)
      → HoldsConsts regs' consts
      → ((v : ℕ) → d ≡ some v → regs' (pos v) ≡ val)
      → HoldsConsts regs' (set_const consts d val)
  unfolding set_const
  set_const-HoldsConsts consts none val holds h v n e = holds v n e
  set_const-HoldsConsts consts (some d) val holds h v n e =
      ground (arith, holds v n, h d refl, some-injective val n)

  pub record_once-HoldsConsts :
      (s : ConstState) (inst : IrInst) (val : ℕ)
      → HoldsConsts regs' s.consts
      → ((v : ℕ)
          → reg_below max_vreg inst.dest.vreg ≡ some v
          → def_count v ≡ 1
          → regs' (pos v) ≡ val)
      → HoldsConsts regs' (record_once max_vreg def_count s inst val).consts
  unfolding record_once defined_once
  record_once-HoldsConsts s inst val holds h =
      set_const-HoldsConsts s.consts _ val holds
        (λ v e. let o = once (reg_below max_vreg inst.dest.vreg) v e in h v o.0 o.1)
    where
      once :
          (d : Option ℕ) (v : ℕ)
          → defined_once def_count d ≡ some v
          → (d ≡ some v) × (def_count v ≡ 1)
      once none v e = cc
      once (some d) v e = ground arith

  pub const_of-value :
      (consts : ℕ → Option ℕ) (o : IrOperand) (n : ℕ)
      → HoldsConsts regs consts
      → const_of consts (reg_below max_vreg o.vreg) ≡ some n
      → operand_value regs o ≡ n
  unfolding const_of operand_value
  const_of-value consts o n holds h = elim (Option-cases (reg_below max_vreg o.vreg)) [
    | inl e ↦ cc (rw e at h)
    | inr (r, e) ↦
        let (q, lo) = reg_below-pos max_vreg o.vreg r e in
        rw q (ground (arith, holds r n (rw e at h)))
  ]

  -- Replacing an operand by the constant in its register keeps its value.
  pub replace_const-value :
      (consts : ℕ → Option ℕ) (o : IrOperand)
      → HoldsConsts regs consts
      → operand_value regs (replace_const max_vreg def_count consts o).0 ≡ operand_value regs o
  unfolding replace_const replace operand_value
  replace_const-value consts o holds =
      elim (Option-cases (const_of consts (reg_below max_vreg o.vreg))) [
        | inl e ↦ rw e refl
        | inr (n, e) ↦ rw e (sym (const_of-value consts o n holds e))
      ]

  pub replace_const-fp_size :
      (consts : ℕ → Option ℕ) (o : IrOperand)
      → (replace_const max_vreg def_count consts o).0.fp_size ≡ o.fp_size
  unfolding replace_const replace
  replace_const-fp_size consts o = ground arith
