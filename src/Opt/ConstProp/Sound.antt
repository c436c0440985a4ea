-- ===== src/Opt/ConstProp/Sound.antt =====
-- Instructions before and after opt_constant_propagation: their operands, and what they compute.
use winds.Base.{
  ℕ, suc, ◌+◌, ◌≡◌, refl, ◌∙◌, ap, Bool, true, false, inl, inr, none, some, List, [], ◌∷◌, subst,
  Option-cases, Bool-cases, sym, ◌<◌, ◌⊎◌, ◌||◌, ◌≤◌, arith, if◌then◌else◌, ◌==◌,
}
use mathlib.Core.Option.{some-injective}
use winds.Base.Int.{ℤ}
use winds.Ir.{
  IrOp, ir_label, ir_imm, ir_mov, ir_store, ir_load_stack, ir_store_stack, ir_addr_stack, ir_add,
  ir_cmp_ge, ir_jmp_if_zero, ir_jmp_if_not_zero, ir_call, ir_ret, IrInst, IrFunction, op_between,
}
use winds.Ir.Value.{Regs, op_value}
use winds.Opt.Values.{value_at}
use winds.Opt.Vreg.{reg_below}
use winds.Opt.ConstProp.Operands.{SameOperation, step_op-Kept}
use winds.Opt.ConstProp.Total.{NoOverflow, step_op-runs}
use winds.Opt.ConstProp.Table.Slots.{Matches, Matches-same, stack_const_invalidate-Matches}
use winds.Opt.ConstProp.Step.{ConstState, Stepped, step_rest, step_op, const_step}
use winds.Opt.ConstProp.{count_def, count_defs, const_loop, opt_constant_propagation}
use winds.Opt.ConstProp.Values.{Next, IsSigned, HoldsConsts, has_no_value, value_at-same}
use winds.Opt.ConstProp.Consts.{HoldsResult, Knows, Sound}
use winds.Opt.ConstProp.Steps.{
  step_imm-Sound, step_load_stack-Sound, step_store_stack-Sound, step_mov-Sound, step_src1-Sound,
}
use winds.Opt.ConstProp.Arith.{step_arith-Sound}

module _ (regs regs' : Regs) (max_vreg : ℕ) (def_count : ℕ → ℕ) where
  step_rest-Sound :
      (arithmetic : Bool) (op : IrOp) (slots slots' : ℤ → ℕ) (s : ConstState) (inst : IrInst)
      → inst.op ≡ op
      → op_between ir_add ir_cmp_ge op ≡ arithmetic
      → IsSigned inst
      → Knows regs regs' max_vreg def_count s.consts
      → Matches slots' s.table
      → HoldsResult regs regs' max_vreg def_count slots inst
      → (r : Stepped) → step_rest max_vreg def_count arithmetic op s inst ≡ some r
      → Sound regs regs' max_vreg def_count slots slots' inst r
  unfolding step_rest
  step_rest-Sound true op slots slots' s inst e b signed holds m result r h =
      let (u, f) = signed (ap (op_between ir_add ir_cmp_ge) e ∙ b) in
      step_arith-Sound regs regs' max_vreg def_count op slots slots' s inst e b u f holds m result r
        h
  step_rest-Sound false op slots slots' s inst e b signed holds m result r h =
      subst (Sound regs regs' max_vreg def_count slots slots' inst) (some-injective _ r h)
        (refl, (refl, (holds.1, m)))

  -- A step gives a sound result, if it gives one.
  step_op-Sound :
      (op : IrOp) (slots slots' : ℤ → ℕ) (s : ConstState) (inst : IrInst)
      → inst.op ≡ op
      → Next op regs slots slots' inst
      → IsSigned inst
      → Knows regs regs' max_vreg def_count s.consts
      → Matches slots s.table
      → HoldsResult regs regs' max_vreg def_count slots inst
      → (r : Stepped) → step_op max_vreg def_count op s inst ≡ some r
      → Sound regs regs' max_vreg def_count slots slots' inst r
  unfolding step_op op_value
  step_op-Sound ir_label slots slots' s inst e next signed holds m result r h =
      subst (Sound regs regs' max_vreg def_count slots slots' inst) (some-injective _ r h)
        (refl, (refl, (holds.1, tt)))
  step_op-Sound ir_call slots slots' s inst e next signed holds m result r h =
      subst (Sound regs regs' max_vreg def_count slots slots' inst) (some-injective _ r h)
        (value_at-same inst.op regs slots _ _ (ap has_no_value e), (refl, (holds.1, tt)))
  step_op-Sound ir_store slots slots' s inst e next signed holds m result r h =
      subst (Sound regs regs' max_vreg def_count slots slots' inst) (some-injective _ r h) (
        step_src1-Sound regs regs' max_vreg def_count slots slots' (record s { table = [] }) inst
          (ap has_no_value e) holds tt)
  step_op-Sound ir_addr_stack slots slots' s inst e next signed holds m result r h =
      subst (Sound regs regs' max_vreg def_count slots slots' inst) (some-injective _ r h) (
        refl,
        (
          refl,
          (
            holds.1,
            Matches-same slots slots' _ next
                (stack_const_invalidate-Matches inst.src1.offset slots s.table m),
          ),
        ),
      )
  step_op-Sound ir_store_stack slots slots' s inst e next signed holds m result r h =
      subst (Sound regs regs' max_vreg def_count slots slots' inst) (some-injective _ r h)
        (step_store_stack-Sound regs regs' max_vreg def_count slots slots' s inst e holds m next)
  step_op-Sound ir_load_stack slots slots' s inst e next signed holds m result r h =
      subst (Sound regs regs' max_vreg def_count slots slots' inst) (some-injective _ r h) (
        step_load_stack-Sound regs regs' max_vreg def_count slots slots' s inst e holds m result
          next)
  step_op-Sound ir_imm slots slots' s inst e next signed holds m result r h =
      subst (Sound regs regs' max_vreg def_count slots slots' inst) (some-injective _ r h)
        (step_imm-Sound regs regs' max_vreg def_count slots slots' s inst e holds m result next)
  step_op-Sound ir_mov slots slots' s inst e next signed holds m result r h =
      subst (Sound regs regs' max_vreg def_count slots slots' inst) (some-injective _ r h)
        (step_mov-Sound regs regs' max_vreg def_count slots slots' s inst e holds m result next)
  step_op-Sound ir_ret slots slots' s inst e next signed holds m result r h =
      subst (Sound regs regs' max_vreg def_count slots slots' inst) (some-injective _ r h) (
        step_src1-Sound regs regs' max_vreg def_count slots slots' s inst (ap has_no_value e) holds
          (Matches-same slots slots' s.table next m))
  step_op-Sound ir_jmp_if_zero slots slots' s inst e next signed holds m result r h =
      subst (Sound regs regs' max_vreg def_count slots slots' inst) (some-injective _ r h) (
        step_src1-Sound regs regs' max_vreg def_count slots slots' s inst (ap has_no_value e) holds
          (Matches-same slots slots' s.table next m))
  step_op-Sound ir_jmp_if_not_zero slots slots' s inst e next signed holds m result r h =
      subst (Sound regs regs' max_vreg def_count slots slots' inst) (some-injective _ r h) (
        step_src1-Sound regs regs' max_vreg def_count slots slots' s inst (ap has_no_value e) holds
          (Matches-same slots slots' s.table next m))
  step_op-Sound op slots slots' s inst e next signed holds m result r h =
      step_rest-Sound (op_between ir_add ir_cmp_ge op) op slots slots' s inst e refl signed holds
        (Matches-same slots slots' s.table next m) result r h

-- What an instruction becomes: the same operation with operands of the same values, or the
-- constant that it computes.
abbrev pub IsPropagated : Regs → (ℤ → ℕ) → IrInst → IrInst → Type 0
IsPropagated regs slots inst' inst =
    (inst'.dest ≡ inst.dest)
    × (inst'.size ≡ inst.size)
    × (SameOperation regs inst' inst
        ⊎ ((inst'.op ≡ ir_imm) × (value_at inst.op regs slots inst ≡ some inst'.src1.imm)))

-- One for one, over what the registers and the slots hold before each instruction.
abbrev pub AllPropagated : (ℕ → Regs) → (ℕ → ℤ → ℕ) → ℕ → List IrInst → List IrInst → Type 0
AllPropagated regs mem k [] [] = Unit
AllPropagated regs mem k (inst' ∷ out) (inst ∷ rest) =
    IsPropagated (regs k) (mem k) inst' inst × AllPropagated regs mem (suc k) out rest
AllPropagated regs mem k _ _ = ⊥

module _ (max_vreg : ℕ) (def_count : ℕ → ℕ) where
  -- The instructions from number `k` on run with `regs k` in the registers and `mem k` in the
  -- stack slots: a result stays in its register, if that is defined once or by arithmetic; the
  -- slots change by stores; arithmetic is signed and does not overflow in a division.
  abbrev pub Runs : (ℕ → Regs) → (ℕ → ℤ → ℕ) → ℕ → List IrInst → Type 0
  Runs regs mem k [] = Unit
  Runs regs mem k (inst ∷ rest) =
      ((later : ℕ) → k < later → HoldsResult (regs k) (regs later) max_vreg def_count (mem k) inst)
      × (Next inst.op (regs k) (mem k) (mem (suc k)) inst
          × (IsSigned inst × (NoOverflow (regs k) inst × Runs regs mem (suc k) rest)))

  step_op-IsPropagated :
      (regs regs' : Regs) (slots slots' : ℤ → ℕ) (s : ConstState) (inst : IrInst) (r : Stepped)
      → HoldsConsts regs s.consts
      → step_op max_vreg def_count inst.op s inst ≡ some r
      → Sound regs regs' max_vreg def_count slots slots' inst r
      → IsPropagated regs slots r.0 inst
  unfolding op_value
  step_op-IsPropagated regs regs' slots slots' s inst r holds h sound =
      let (size, kept) = step_op-Kept regs max_vreg def_count inst.op s inst holds r h in
      (
        sound.1.0,
        size,
        elim kept [
          | inl same ↦ inl same
          | inr e ↦ inr (
            e,
            sym sound.0 ∙ subst (λ o. value_at o regs slots r.0 ≡ some r.0.src1.imm) (sym e) refl,
          )
        ],
      )

  const_loop-AllPropagated :
      (regs : ℕ → Regs) (mem : ℕ → ℤ → ℕ) (k : ℕ) (s : ConstState) (insts : List IrInst)
      → Runs regs mem k insts
      → ((later : ℕ) → k ≤ later → HoldsConsts (regs later) s.consts)
      → Matches (mem k) s.table
      → (out : List IrInst × Bool) × (const_loop max_vreg def_count s insts ≡ some out)
        × AllPropagated regs mem k out.0 insts
  unfolding const_loop const_step
  const_loop-AllPropagated regs mem k s [] runs holds m = (([], false), refl, tt)
  const_loop-AllPropagated regs mem k s (inst ∷ rest) (result, (next, (signed, (fits, runs)))) holds
        m =
      let now = holds k (omega arith) in
      let (r, e) = step_op-runs (regs k) max_vreg def_count inst.op s inst refl now fits in
      let sound = λ (later : ℕ) (lt : k < later).
        step_op-Sound (regs k) (regs later) max_vreg def_count inst.op (mem k) (mem (suc k)) s inst
          refl next signed (now, holds later (omega (arith, lt))) m (result later lt) r e in
      let here = sound (suc k) (omega arith) in
      let (t, f, all) =
        const_loop-AllPropagated regs mem (suc k) r.1.0 rest runs
          (λ later le. (sound later (omega (arith, le))).1.1.0) here.1.1.1 in
      (
        (r.0 ∷ t.0, r.1.1 || t.1),
        rw (e, f, const_loop) refl,
        (
          step_op-IsPropagated (regs k) (regs (suc k)) (mem k) (mem (suc k)) s inst r now e here,
          all,
        ),
      )

-- The number of instructions with the register `v` in `dest`.
abbrev pub writers : ℕ → List IrInst → ℕ → ℕ
writers max_vreg [] v = 0
writers max_vreg (inst ∷ rest) v = elim (reg_below max_vreg inst.dest.vreg) [
  | none ↦ writers max_vreg rest v
  | some d ↦ if v == d then suc (writers max_vreg rest v) else writers max_vreg rest v
]

count_defs-from :
    (max_vreg : ℕ) (insts : List IrInst) (c : ℕ → ℕ) (v : ℕ)
    → count_defs max_vreg insts c v ≡ c v + writers max_vreg insts v
unfolding count_defs count_def
count_defs-from max_vreg [] c v = omega arith
count_defs-from max_vreg (inst ∷ rest) c v =
    let later = count_defs-from max_vreg rest (count_def c (reg_below max_vreg inst.dest.vreg)) v in
    elim (Option-cases (reg_below max_vreg inst.dest.vreg)) [
      | inl e ↦ rw (e, writers) (rw e at later)
      | inr (d, e) ↦ elim (Bool-cases (v == d)) [
        | inl h ↦ rw (e, h, writers) (rw (e, h) at later ∙ omega arith)
        | inr h ↦ rw (e, h, writers) (rw (e, h) at later)
      ]
    ]

zero_add : (n : ℕ) → 0 + n ≡ n
zero_add n = omega arith

count_defs-writers :
    (max_vreg : ℕ) (insts : List IrInst)
    → count_defs max_vreg insts (λ _. 0) ≡ writers max_vreg insts
count_defs-writers max_vreg insts =
    λ i v. (count_defs-from max_vreg insts (λ _. 0) v ∙ zero_add (writers max_vreg insts v)) i

-- Take what the registers and the stack slots hold before each instruction. Let the result of an
-- instruction stay in its register from the next one on, if the register is the destination of no
-- other instruction or the instruction is arithmetic; let slots be disjoint, accessed whole and
-- changed by stores, and anything in them after a label, a call or a store through a pointer; let
-- all arithmetic be on signed integers, and no division have the operands INT64_MIN and -1. Then
-- constant propagation returns, and each instruction, at its position, keeps its destination and
-- its size and either is the same operation, with as many operands, which have the values of
-- before and differ in nothing but register and immediate, or is IR_IMM with the value that the
-- instruction computed.
pub opt_constant_propagation-AllPropagated :
    (regs : ℕ → Regs) (mem : ℕ → ℤ → ℕ) (fn : IrFunction)
    → Runs (fn.vreg_count + 32) (writers (fn.vreg_count + 32) fn.insts) regs mem 0 fn.insts
    → (out : List IrInst × Bool) × (opt_constant_propagation fn ≡ some out)
      × AllPropagated regs mem 0 out.0 fn.insts
unfolding opt_constant_propagation
opt_constant_propagation-AllPropagated regs mem fn runs =
    let m = fn.vreg_count + 32 in
    const_loop-AllPropagated m (count_defs m fn.insts (λ _. 0)) regs mem 0
      (record { consts = λ _. none; table = [] }) fn.insts
      (subst (λ c. Runs m c regs mem 0 fn.insts) (sym (count_defs-writers m fn.insts)) runs)
      (λ later le v n e. cc) tt
