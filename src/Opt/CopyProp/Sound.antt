-- ===== src/Opt/CopyProp/Sound.antt =====
-- Instructions before and after opt_copy_propagation: their operands, and what they compute.
use winds.Base.{
  ℕ, zero, suc, ◌+◌, ◌<◌, ◌≡◌, refl, ◌∙◌, ap, Bool, true, false, inl, inr, Option, none, some, List,
  [], ◌∷◌, arith, Bool-cases, length, get_elem?, All, Option-cases,
}
use mathlib.Core.Option.{some-injective}
use winds.Base.Int.{pos}
use winds.Ir.{IrOp, ir_imm, ir_mov, ir_store, IrOperand, IrInst, IrFunction, is_op}
use winds.Ir.Value.{Regs, operand_value, op_value, inst_value}
use winds.Opt.Vreg.{reg_below, reg_below-pos}
use winds.Opt.CopyProp.Links.{
  Chain, Copied, AllCopied, Copied-trans, copies_of-Linked, rewrite_if-Copied,
  rewrite_args-AllCopied,
}
use winds.Opt.CopyProp.{
  CopyMap, has_next, find_copy_root, record_copy, record_move, build_copies, copies_of,
  is_self_move, rewrite_reg, rewrite_if, rewrite_inst, rewrite_insts, remove_self_moves,
  opt_copy_propagation,
}

-- Linked registers hold one value.
abbrev pub Agrees : Regs → CopyMap → Type 0
Agrees regs copy_map = (v : ℕ) → regs (pos (copy_map v)) ≡ regs (pos v)

-- The destination of a move holds the value of its source.
abbrev pub HoldsCopy : Regs → ℕ → IrInst → Type 0
HoldsCopy regs max_vreg inst =
    is_op inst.op ir_mov ≡ true
    → (d s : ℕ) → reg_below max_vreg inst.dest.vreg ≡ some d
    → reg_below max_vreg inst.src1.vreg ≡ some s
    → regs (pos d) ≡ regs (pos s)

find_copy_root-value :
    (regs : Regs) (fuel : ℕ) (copy_map : CopyMap) (v : ℕ)
    → Agrees regs copy_map
    → regs (pos (find_copy_root fuel copy_map v)) ≡ regs (pos v)
unfolding find_copy_root
find_copy_root-value regs zero copy_map v agrees = refl
find_copy_root-value regs (suc fuel) copy_map v agrees = elim (Bool-cases (has_next copy_map v)) [
  | inl h ↦ rw h (find_copy_root-value regs fuel copy_map (copy_map v) agrees ∙ agrees v)
  | inr h ↦ rw h refl
]

record_copy-Agrees :
    (regs : Regs) (fuel : ℕ) (copy_map : CopyMap) (d s : Option ℕ)
    → Agrees regs copy_map
    → ((a b : ℕ) → d ≡ some a → s ≡ some b → regs (pos a) ≡ regs (pos b))
    → Agrees regs (record_copy fuel copy_map d s)
unfolding record_copy
record_copy-Agrees regs fuel copy_map none s agrees h v = agrees v
record_copy-Agrees regs fuel copy_map (some d) none agrees h v = agrees v
record_copy-Agrees regs fuel copy_map (some d) (some s) agrees h v =
    ground (arith, agrees v, h d s refl refl, find_copy_root-value regs fuel copy_map s agrees)

record_move-Agrees :
    (regs : Regs) (fuel max_vreg : ℕ) (copy_map : CopyMap) (inst : IrInst)
    → Agrees regs copy_map
    → HoldsCopy regs max_vreg inst
    → Agrees regs (record_move fuel max_vreg copy_map inst)
unfolding record_move
record_move-Agrees regs fuel max_vreg copy_map inst agrees holds =
    elim (Bool-cases (is_op inst.op ir_mov)) [
      | inl m ↦ elim (Bool-cases (is_self_move max_vreg inst)) [
        | inl q ↦ rw (m, q) agrees
        | inr q ↦ rw (m, q) (record_copy-Agrees regs fuel copy_map _ _ agrees (holds m))
      ]
      | inr m ↦ rw m agrees
    ]

build_copies-Agrees :
    (regs : Regs) (fuel max_vreg : ℕ) (copy_map : CopyMap) (insts : List IrInst)
    → Agrees regs copy_map
    → All (HoldsCopy regs max_vreg) insts
    → Agrees regs (build_copies fuel max_vreg copy_map insts)
unfolding build_copies
build_copies-Agrees regs fuel max_vreg copy_map [] agrees holds = agrees
build_copies-Agrees regs fuel max_vreg copy_map (inst ∷ rest) agrees holds =
    build_copies-Agrees regs fuel max_vreg (record_move fuel max_vreg copy_map inst) rest
      (record_move-Agrees regs fuel max_vreg copy_map inst agrees holds.0) holds.1

op_value_cong :
    (op : IrOp) (regs : Regs) (a b : IrInst)
    → a.is_unsigned ≡ b.is_unsigned
    → a.src1.imm ≡ b.src1.imm
    → a.src1.fp_size ≡ b.src1.fp_size
    → operand_value regs a.src1 ≡ operand_value regs b.src1
    → operand_value regs a.src2 ≡ operand_value regs b.src2
    → op_value op regs a ≡ op_value op regs b
unfolding op_value
op_value_cong ir_imm regs a b u i f x y = rw i refl
op_value_cong ir_mov regs a b u i f x y = rw x refl
op_value_cong _ regs a b u i f x y = rw (x, y, u, f) refl

module _ (regs : Regs) (fuel max_vreg : ℕ) (copy_map : CopyMap)
    (agrees : Agrees regs copy_map) where
  rewrite_reg-value :
      (o : IrOperand) (r : ℕ)
      → o.vreg ≡ pos r
      → 0 < r
      → operand_value regs (rewrite_reg fuel copy_map o (some r)).0 ≡ operand_value regs o
  unfolding rewrite_reg operand_value
  rewrite_reg-value o r e lo =
      rw e (ground (arith, find_copy_root-value regs fuel copy_map r agrees))

  rewrite_if-value :
      (when : Bool) (o : IrOperand)
      → operand_value regs (rewrite_if fuel max_vreg copy_map when o).0 ≡ operand_value regs o
  unfolding rewrite_if rewrite_reg
  rewrite_if-value false o = refl
  rewrite_if-value true o = elim (Option-cases (reg_below max_vreg o.vreg)) [
    | inl h ↦ rw h refl
    | inr (r, h) ↦ rw h (
        rewrite_reg-value o r (reg_below-pos max_vreg o.vreg r h).0
          (reg_below-pos max_vreg o.vreg r h).1)
  ]

  -- Everything of an operand but its register.
  rewrite_if-same :
      (when : Bool) (o : IrOperand)
      → ((rewrite_if fuel max_vreg copy_map when o).0.imm ≡ o.imm)
        × ((rewrite_if fuel max_vreg copy_map when o).0.fp_size ≡ o.fp_size)
  unfolding rewrite_if rewrite_reg
  rewrite_if-same when o = ground arith

  rewrite_inst-value :
      (inst : IrInst)
      → inst_value regs (rewrite_inst fuel max_vreg copy_map inst).0 ≡ inst_value regs inst
  unfolding rewrite_inst inst_value
  rewrite_inst-value inst =
      op_value_cong inst.op regs (rewrite_inst fuel max_vreg copy_map inst).0 inst refl
        ((rewrite_if-same _ _).0 ∙ (rewrite_if-same _ _).0)
        ((rewrite_if-same _ _).1 ∙ (rewrite_if-same _ _).1)
        (rewrite_if-value _ _ ∙ rewrite_if-value _ _) (rewrite_if-value _ _)

  rewrite_insts-value :
      (insts : List IrInst) (k : ℕ) (inst : IrInst)
      → get_elem? insts k ≡ some inst
      → get_elem? (rewrite_insts fuel max_vreg copy_map insts).0 k
        ≡ some (rewrite_inst fuel max_vreg copy_map inst).0
  unfolding rewrite_insts
  rewrite_insts-value [] k inst e = cc
  rewrite_insts-value (i ∷ rest) zero inst e =
      ap (λ (y : IrInst). some (rewrite_inst fuel max_vreg copy_map y).0) (some-injective i inst e)
  rewrite_insts-value (i ∷ rest) (suc k) inst e = rewrite_insts-value rest k inst e

-- An instruction with its registers replaced by what they are copies of: the operation, the size,
-- the signedness and, of each operand, everything but the register.
abbrev pub IsRewritten : ℕ → List IrInst → IrInst → IrInst → Type 0
IsRewritten max_vreg insts inst' inst =
    (inst'.op ≡ inst.op)
    × (inst'.size ≡ inst.size)
    × (inst'.is_unsigned ≡ inst.is_unsigned)
    × Copied max_vreg insts inst'.src1 inst.src1
    × Copied max_vreg insts inst'.src2 inst.src2
    × AllCopied max_vreg insts inst'.call_args inst.call_args
    × Copied max_vreg insts inst'.dest inst.dest
    × (is_op inst.op ir_store ≡ false → inst'.dest ≡ inst.dest)

rewrite_inst-IsRewritten :
    (fuel max_vreg : ℕ) (insts : List IrInst) (copy_map : CopyMap) (inst : IrInst)
    → ((v : ℕ) → Chain max_vreg insts v (copy_map v))
    → IsRewritten max_vreg insts (rewrite_inst fuel max_vreg copy_map inst).0 inst
unfolding rewrite_inst rewrite_if
rewrite_inst-IsRewritten fuel max_vreg insts copy_map inst l =
    let copied = rewrite_if-Copied max_vreg insts fuel copy_map l in
    (
      refl,
      refl,
      refl,
      Copied-trans max_vreg insts _ _ _ (copied _ _) (copied _ _),
      copied _ _,
      rewrite_args-AllCopied max_vreg insts fuel copy_map l _ inst.call_args,
      copied _ _,
      λ h. rw h refl,
    )

-- Let the destination of every move between registers in range hold the value of its source. Each
-- instruction that is left when the moves of a register to itself are removed stands at its
-- position in the result of the pass, with the same operation, size and signedness. Each of its
-- operands, every argument of a call included, is as before or has another register, of which the
-- old one is a copy through moves of the function, each from its source to its destination, and
-- everything else as before; the destination is as before but in a store through a pointer. The
-- instruction computes the same integer value.
pub opt_copy_propagation-IsRewritten :
    (regs : Regs) (fn : IrFunction) (k : ℕ) (inst : IrInst)
    → All (HoldsCopy regs (fn.vreg_count + 32)) fn.insts
    → get_elem? (remove_self_moves (fn.vreg_count + 32) fn.insts).0 k ≡ some inst
    → (inst' : IrInst) × (get_elem? (opt_copy_propagation fn).0 k ≡ some inst')
      × IsRewritten (fn.vreg_count + 32) fn.insts inst' inst
      × (inst_value regs inst' ≡ inst_value regs inst)
unfolding opt_copy_propagation copies_of
opt_copy_propagation-IsRewritten regs fn k inst holds e =
    let m = fn.vreg_count + 32 in
    let fuel = length fn.insts in
    (
      (rewrite_inst fuel m (copies_of m fn.insts) inst).0,
      rewrite_insts-value regs fuel m (copies_of m fn.insts) agrees _ k inst e,
      rewrite_inst-IsRewritten fuel m fn.insts (copies_of m fn.insts) inst
          (copies_of-Linked m fn.insts),
      rewrite_inst-value regs fuel m (copies_of m fn.insts) agrees inst,
    )
  where
    agrees : Agrees regs (copies_of (fn.vreg_count + 32) fn.insts)
    agrees =
        build_copies-Agrees regs (length fn.insts) (fn.vreg_count + 32) (λ v. v) fn.insts
          (λ v. refl) holds
