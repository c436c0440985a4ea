-- ===== src/Opt/Tests.antt =====
-- Small functions, optimised; the optimiser's theorems at them.
pub mod Passes
pub mod Control
use winds.Base.{
  false, Bool, All, ◌+◌, ◌==◌, if◌then◌else◌, List, ℕ, ◌-◌, ◌≡◌, refl, true, some, [], ◌∷◌, arith,
  get_elem?,
}
use mathlib.Core.Option.{some-injective}
use winds.Base.Int.{ℤ, pos, int_eq}
use winds.Base.Word.{word_mod, minus_one, mul64}
use winds.Ir.{
  ir_imm, ir_mov, IrFunction, IrOperand, IrInst, zero_operand, make_inst, ir_mul, ir_div, ir_ret,
}
use winds.Ir.Value.{Regs, operand_value, binary_value, op_value, inst_value}
use winds.Opt.Algebraic.{simplify_op, opt_algebraic_simplification}
use winds.Opt.Algebraic.Sound.{opt_algebraic_simplification-value, simplify_div-unsigned}
use winds.Opt.ConstProp.{opt_constant_propagation}
use winds.Opt.ConstProp.Sound.{Runs, writers, AllPropagated, opt_constant_propagation-AllPropagated}
use winds.Opt.CopyProp.{
  has_next, find_copy_root, is_self_move, remove_self_moves, copies_of, opt_copy_propagation,
}
use winds.Opt.CopyProp.Chains.{copies_of-root}
use winds.Opt.CopyProp.Sound.{HoldsCopy, IsRewritten, opt_copy_propagation-IsRewritten}
use winds.Opt.Dce.{opt_dead_code_elimination}
use winds.Opt.Dce.Runs.{opt_dead_code_elimination-Exec}
use winds.Opt.Flow.{Exec, returns, acts}
use winds.Opt.Machine.{Contents, act, branch_test}

abbrev pub vreg : ℕ → IrOperand
vreg v = record zero_operand { vreg = pos v }

abbrev pub imm : ℕ → IrOperand
imm n = record zero_operand { imm = n }

-- Every register holds 5.
abbrev pub fives : Regs
fives v = 5

-- v3 = v1 * 8
abbrev times_eight : IrInst
times_eight = record (make_inst ir_mul) { dest = vreg 3; src1 = vreg 1; src2 = imm 8 }

times_eight-40 : inst_value fives times_eight ≡ some 40
unfolding inst_value op_value binary_value operand_value mul64
times_eight-40 = refl

opt_algebraic_simplification-value_example :
    (inst' : IrInst) × (get_elem? (opt_algebraic_simplification (times_eight ∷ [])).0 0
      ≡ some inst')
    × (inst'.dest ≡ vreg 3)
    × (inst_value fives inst' ≡ some 40)
unfolding operand_value
opt_algebraic_simplification-value_example =
    opt_algebraic_simplification-value fives (times_eight ∷ []) 0 times_eight 40 refl (omega arith)
      (omega arith) (λ e u. refl) times_eight-40

-- v3 = v1 / 0xFFFFFFFFFFFFFFFF, unsigned
abbrev unsigned_quotient : IrInst
unsigned_quotient = record (make_inst ir_div) {
  dest = vreg 3;
  src1 = vreg 1;
  src2 = imm minus_one;
  is_unsigned = true;
}

simplify_div-unsigned_example :
    (inst_value fives unsigned_quotient ≡ some 0)
    × (inst_value fives (simplify_op ir_div unsigned_quotient).0 ≡ some (word_mod - 5))
unfolding operand_value
simplify_div-unsigned_example =
    simplify_div-unsigned fives unsigned_quotient refl refl refl refl (omega arith) (omega arith)

abbrev pub function_of : List IrInst → ℕ → IrFunction
function_of insts vreg_count = record {
  name = "f";
  mangled_name = "f";
  stack_size = 16;
  is_global = true;
  va_save_offset = pos 0;
  named_arg_count = 0;
  insts = insts;
  vreg_count = vreg_count;
}

-- v1 = 6; v2 = v1 * 7
abbrev six_by_seven : IrFunction
six_by_seven =
    function_of
      (record (make_inst ir_imm) { dest = vreg 1; src1 = imm 6 }
        ∷ record (make_inst ir_mul) { dest = vreg 2; src1 = vreg 1; src2 = imm 7 }
        ∷ [])
      3

-- 6 in v1 and 42 in every other register.
abbrev answers : Regs
answers v = if int_eq v (pos 1) then 6 else 42

abbrev no_slots : ℕ → ℤ → ℕ
no_slots k o = 0

six_by_seven-Runs :
    Runs 35 (writers 35 six_by_seven.insts) (λ k. answers) no_slots 0 six_by_seven.insts
unfolding op_value binary_value operand_value mul64
six_by_seven-Runs = (
  (λ later lt d n e o h. ground (arith, some-injective 1 d, some-injective 6 n)),
  (
    (λ o. refl),
    (
      (λ e. (refl, refl)),
      (
        (λ d. cc),
        (
          (λ later lt d n e o h. ground (arith, some-injective 2 d, some-injective 42 n)),
          ((λ o. refl), ((λ e. (refl, refl)), ((λ d. cc), tt))),
        ),
      ),
    ),
  ),
)

opt_constant_propagation-AllPropagated_example :
    (out : List IrInst × Bool) × (opt_constant_propagation six_by_seven ≡ some out)
    × AllPropagated (λ k. answers) no_slots 0 out.0 six_by_seven.insts
opt_constant_propagation-AllPropagated_example =
    opt_constant_propagation-AllPropagated (λ k. answers) no_slots six_by_seven six_by_seven-Runs

-- v2 = v1; v3 = v2 * 8
abbrev copied : IrFunction
copied =
    function_of
      (record (make_inst ir_mov) { dest = vreg 2; src1 = vreg 1 }
        ∷ record (make_inst ir_mul) { dest = vreg 3; src1 = vreg 2; src2 = imm 8 }
        ∷ [])
      4

copied-All : All (HoldsCopy fives 36) copied.insts
copied-All = ((λ m d s e h. refl), ((λ m d s e h. refl), tt))

opt_copy_propagation-IsRewritten_example :
    (inst' : IrInst) × (get_elem? (opt_copy_propagation copied).0 1 ≡ some inst')
    × IsRewritten 36 copied.insts inst'
        (record (make_inst ir_mul) { dest = vreg 3; src1 = vreg 2; src2 = imm 8 })
    × (inst_value fives inst'
        ≡ inst_value fives
            (record (make_inst ir_mul) { dest = vreg 3; src1 = vreg 2; src2 = imm 8 }))
unfolding remove_self_moves is_self_move
opt_copy_propagation-IsRewritten_example =
    opt_copy_propagation-IsRewritten fives copied 1
      (record (make_inst ir_mul) { dest = vreg 3; src1 = vreg 2; src2 = imm 8 }) copied-All refl

copies_of-root_example :
    has_next (copies_of 36 copied.insts) (find_copy_root 2 (copies_of 36 copied.insts) 2) ≡ false
copies_of-root_example = copies_of-root 36 copied.insts 2

-- v3 = v1 * 8; return v1
abbrev unused_product : IrFunction
unused_product = function_of (times_eight ∷ record (make_inst ir_ret) { src1 = vreg 1 } ∷ []) 4

-- What an instruction read.
abbrev total : IrInst → List ℕ → ℕ → ℕ
total inst [] w = w
total inst (x ∷ xs) w = x + total inst xs w

abbrev ones : Contents
ones v = 1

abbrev is_zero : IrOperand → ℕ → Bool
is_zero o n = n == 0

abbrev after_product : Contents × ℕ
after_product = act total total times_eight (ones, 0)

-- The product is removed; the return reads the same.
opt_dead_code_elimination-Exec_example :
    (regs' : Contents) × Exec
      (act total total)
      (branch_test is_zero)
      (opt_dead_code_elimination unused_product).0
      (opt_dead_code_elimination unused_product).0
      (ones, 0)
      (regs', (act total total (record (make_inst ir_ret) { src1 = vreg 1 }) after_product).1)
opt_dead_code_elimination-Exec_example =
    opt_dead_code_elimination-Exec total total is_zero unused_product ones 0
      (act total total (record (make_inst ir_ret) { src1 = vreg 1 }) after_product)
      (acts refl (returns refl))
