-- ===== src/Opt/ConstProp.antt =====
-- src/opt.c: opt_constant_propagation, which replaces registers and stack slots of known value and
-- folds operations on constants.
pub mod Table
pub mod Fold
pub mod Step
pub mod Values
pub mod Consts
pub mod Steps
pub mod Arith
pub mod Operands
pub mod Sound
pub mod Total
use winds.Base.{
  ℕ, zero, suc, ◌+◌, Bool, false, ◌||◌, Option, none, some, List, [], ◌∷◌, if◌then◌else◌, ◌==◌,
}
use winds.Ir.{IrInst, IrFunction}
use winds.Opt.Vreg.{reg_below}
use Step.{ConstState, const_step}

-- `def_count`
unfoldable pub count_def : (ℕ → ℕ) → Option ℕ → ℕ → ℕ
count_def def_count none v = def_count v
count_def def_count (some d) v = if v == d then suc (def_count v) else def_count v

unfoldable pub count_defs : ℕ → List IrInst → (ℕ → ℕ) → ℕ → ℕ
count_defs max_vreg [] def_count = def_count
count_defs max_vreg (inst ∷ rest) def_count =
    count_defs max_vreg rest (count_def def_count (reg_below max_vreg inst.dest.vreg))

-- The loop over the instructions; `none` is a trap of the compiler itself.
unfoldable pub const_loop : ℕ → (ℕ → ℕ) → ConstState → List IrInst → Option (List IrInst × Bool)
const_loop max_vreg def_count s [] = some ([], false)
const_loop max_vreg def_count s (inst ∷ rest) = elim (const_step max_vreg def_count s inst) [
  | none ↦ none
  | some (inst', (s', changed)) ↦ elim (const_loop max_vreg def_count s' rest) [
    | none ↦ none
    | some (rest', changed') ↦ some (inst' ∷ rest', changed || changed')
  ]
]

unfoldable pub opt_constant_propagation : IrFunction → Option (List IrInst × Bool)
opt_constant_propagation fn =
    let max_vreg = fn.vreg_count + 32 in
    const_loop max_vreg (count_defs max_vreg fn.insts (λ _. 0))
      (record { consts = λ _. none; table = [] }) fn.insts
