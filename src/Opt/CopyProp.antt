-- ===== src/Opt/CopyProp.antt =====
-- src/opt.c: opt_copy_propagation, which replaces a copied register by the root of its copies.
pub mod Chains
pub mod Links
pub mod Sound
use winds.Base.{
  ℕ, zero, suc, ◌+◌, Bool, true, false, not, ◌&&◌, ◌||◌, Option, none, some, List, [], ◌∷◌,
  if◌then◌else◌, ltb, ◌==◌, length,
}
use winds.Base.Int.{pos}
use winds.Ir.{
  IrOp, ir_label, ir_str, ir_mov, ir_load, ir_store, ir_addr_stack, ir_cmp_ge, ir_call, IrOperand,
  IrInst, IrFunction, is_op, op_between,
}
use winds.Opt.Vreg.{reg_below}

-- `copy_map`
abbrev pub CopyMap : Type 0
CopyMap = ℕ → ℕ

-- `copy_map[d] = root`
abbrev pub set_copy : CopyMap → ℕ → ℕ → CopyMap
set_copy copy_map d root v = if v == d then root else copy_map v

-- `curr > 0 && copy_map[curr] > 0 && copy_map[curr] != curr`
abbrev pub has_next : CopyMap → ℕ → Bool
has_next copy_map curr = ltb 0 curr && ltb 0 (copy_map curr) && not (copy_map curr == curr)

-- The loop of `find_copy_root`, a round for each unit of fuel.
unfoldable pub find_copy_root : ℕ → CopyMap → ℕ → ℕ
find_copy_root zero copy_map curr = curr
find_copy_root (suc fuel) copy_map curr =
    let rest = find_copy_root fuel copy_map (copy_map curr) in
    if has_next copy_map curr then rest else curr

-- `IR_MOV` from a register in range to itself.
abbrev pub is_self_copy : Option ℕ → Option ℕ → Bool
is_self_copy (some d) (some s) = d == s
is_self_copy _ _ = false

unfoldable pub is_self_move : ℕ → IrInst → Bool
is_self_move max_vreg inst =
    is_op inst.op ir_mov
    && is_self_copy (reg_below max_vreg inst.dest.vreg) (reg_below max_vreg inst.src1.vreg)

-- The map after a copy from `s` to `d`.
unfoldable pub record_copy : ℕ → CopyMap → Option ℕ → Option ℕ → CopyMap
record_copy fuel copy_map (some d) (some s) =
    let root = find_copy_root fuel copy_map s in
    if ltb 0 root && not (root == d) then set_copy copy_map d root else copy_map
record_copy fuel copy_map _ _ = copy_map

-- One instruction of pass 1.
unfoldable pub record_move : ℕ → ℕ → CopyMap → IrInst → CopyMap
record_move fuel max_vreg copy_map inst =
    if is_op inst.op ir_mov && not (is_self_move max_vreg inst)
    then record_copy fuel copy_map (reg_below max_vreg inst.dest.vreg)
        (reg_below max_vreg inst.src1.vreg)
    else copy_map

-- `copy_map` after pass 1.
unfoldable pub build_copies : ℕ → ℕ → CopyMap → List IrInst → CopyMap
build_copies fuel max_vreg copy_map [] = copy_map
build_copies fuel max_vreg copy_map (inst ∷ rest) =
    build_copies fuel max_vreg (record_move fuel max_vreg copy_map inst) rest

-- The instructions after pass 1, and whether one was removed.
unfoldable pub remove_self_moves : ℕ → List IrInst → List IrInst × Bool
remove_self_moves max_vreg [] = ([], false)
remove_self_moves max_vreg (inst ∷ rest) =
    let (kept, changed) = remove_self_moves max_vreg rest in
    if is_self_move max_vreg inst then (kept, true) else (inst ∷ kept, changed)

-- An operand, and whether it was rewritten, for the register that it holds.
unfoldable pub rewrite_reg : ℕ → CopyMap → IrOperand → Option ℕ → IrOperand × Bool
rewrite_reg fuel copy_map o none = (o, false)
rewrite_reg fuel copy_map o (some r) =
    let root = find_copy_root fuel copy_map r in
    if ltb 0 root && not (root == r) then (record o { vreg = pos root }, true) else (o, false)

module _ (fuel max_vreg : ℕ) (copy_map : CopyMap) where
  -- The operand is rewritten if the condition holds.
  unfoldable pub rewrite_if : Bool → IrOperand → IrOperand × Bool
  rewrite_if true o = rewrite_reg fuel copy_map o (reg_below max_vreg o.vreg)
  rewrite_if false o = (o, false)

  unfoldable pub rewrite_args : Bool → List IrOperand → List IrOperand × Bool
  rewrite_args when [] = ([], false)
  rewrite_args when (o ∷ os) =
      let (o', c) = rewrite_if when o in let (os', d) = rewrite_args when os in (o' ∷ os', c || d)

  -- `label == NULL`
  abbrev pub no_label : IrOperand → Bool
  no_label o = elim o.label [ none ↦ true | some _ ↦ false ]

  -- One instruction of pass 2. The target of an indirect call is looked at twice.
  unfoldable pub rewrite_inst : IrInst → IrInst × Bool
  rewrite_inst inst =
      let plain =
        not (is_op inst.op ir_label || is_op inst.op ir_str || is_op inst.op ir_addr_stack) in
      let a = rewrite_if plain inst.src1 in
      let b = rewrite_if (op_between ir_load ir_cmp_ge inst.op) inst.src2 in
      let t = rewrite_if (is_op inst.op ir_call && no_label a.0) a.0 in
      let args = rewrite_args (is_op inst.op ir_call) inst.call_args in
      let d = rewrite_if (is_op inst.op ir_store) inst.dest in
      (
        record inst { dest = d.0; src1 = t.0; src2 = b.0; call_args = args.0 },
        a.1 || b.1 || t.1 || args.1 || d.1,
      )

  unfoldable pub rewrite_insts : List IrInst → List IrInst × Bool
  rewrite_insts [] = ([], false)
  rewrite_insts (inst ∷ rest) =
      let (inst', c) = rewrite_inst inst in
      let (rest', d) = rewrite_insts rest in (inst' ∷ rest', c || d)

-- `copy_map` at the end of pass 1; it starts as the identity.
unfoldable pub copies_of : ℕ → List IrInst → CopyMap
copies_of max_vreg insts = build_copies (length insts) max_vreg (λ v. v) insts

-- The pass: the new instructions, and whether something changed. A chain of copies has at most
-- one link for each instruction, which is the fuel.
unfoldable pub opt_copy_propagation : IrFunction → List IrInst × Bool
opt_copy_propagation fn =
    let max_vreg = fn.vreg_count + 32 in
    let (kept, removed) = remove_self_moves max_vreg fn.insts in
    let (insts, changed) =
      rewrite_insts (length fn.insts) max_vreg (copies_of max_vreg fn.insts) kept in
    (insts, removed || changed)
