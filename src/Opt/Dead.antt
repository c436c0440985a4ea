-- ===== src/Opt/Dead.antt =====
-- src/opt.c: the loop, shared by two passes, that removes what follows an unconditional jump or a
-- return up to the next label.
use winds.Base.{Bool, true, false, not, ◌&&◌, ◌||◌, List, [], ◌∷◌, if◌then◌else◌}
use winds.Ir.{IrOp, ir_jmp, ir_ret, IrInst, is_label, is_op}

-- `op == IR_RET || op == IR_JMP`
abbrev pub ends_flow : IrOp → Bool
ends_flow op = is_op op ir_ret || is_op op ir_jmp

-- The instructions that stay, `dead` after a jump or a return, and whether one was removed.
unfoldable pub strip_dead : Bool → List IrInst → List IrInst × Bool
strip_dead dead [] = ([], false)
strip_dead dead (inst ∷ rest) =
    let skipped = dead && not (is_label inst.op) in
    let (kept, changed) = strip_dead (skipped || ends_flow inst.op) rest in
    if skipped then (kept, true) else (inst ∷ kept, changed)
