-- ===== src/Opt/Flow/Ops.antt =====
-- What the operations exclude of one another, for the proofs about control flow.
use winds.Base.{◌≡◌, Bool, true, false, arith}
use winds.Ir.{IrOp, ir_label, ir_jmp, ir_ret, is_op}
use winds.Opt.Flow.{takes, skips, is_plain, is_conditional, is_branch}

pub branch-label : (op : IrOp) → is_branch op ≡ true → is_op op ir_label ≡ false
branch-label op h = ground (arith, h)

pub branch-plain : (op : IrOp) → is_branch op ≡ true → is_plain op ≡ true → ⊥
branch-plain op b h = ground (arith, b, h)

pub branch-ret : (op : IrOp) → is_branch op ≡ true → is_op op ir_ret ≡ true → ⊥
branch-ret op b h = ground (arith, b, h)

pub jmp-skips : (op : IrOp) (z : Bool) → is_op op ir_jmp ≡ true → skips op z ≡ true → ⊥
jmp-skips op z j h = ground (arith, j, h)

pub jmp-branch : (op : IrOp) → is_op op ir_jmp ≡ true → is_branch op ≡ true
jmp-branch op h = ground (arith, h)

pub jmp-takes : (op : IrOp) (z : Bool) → is_op op ir_jmp ≡ true → takes op z ≡ true
jmp-takes op z h = ground (arith, h)

pub takes-branch : (op : IrOp) (z : Bool) → takes op z ≡ true → is_branch op ≡ true
takes-branch op z h = ground (arith, h)

pub label-branch : (op : IrOp) → is_op op ir_label ≡ true → is_branch op ≡ true → ⊥
label-branch op l h = ground (arith, l, h)

pub label-skips : (op : IrOp) (z : Bool) → is_op op ir_label ≡ true → skips op z ≡ true
label-skips op z h = ground (arith, h)

pub label-plain : (op : IrOp) → is_op op ir_label ≡ true → is_plain op ≡ true → ⊥
label-plain op l h = ground (arith, l, h)

pub label-ret : (op : IrOp) → is_op op ir_label ≡ true → is_op op ir_ret ≡ true → ⊥
label-ret op l h = ground (arith, l, h)

pub label-takes : (op : IrOp) (z : Bool) → is_op op ir_label ≡ true → takes op z ≡ true → ⊥
label-takes op z l h = ground (arith, l, h)

pub conditional-branch : (op : IrOp) → is_conditional op ≡ true → is_branch op ≡ true
conditional-branch op h = ground (arith, h)

pub conditional-jmp : (op : IrOp) → is_conditional op ≡ true → is_op op ir_jmp ≡ true → ⊥
conditional-jmp op c h = ground (arith, c, h)
