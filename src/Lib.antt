-- ===== src/Lib.antt =====
-- winds is a compiler from C and a part of C++ to x86-64 assembly. A file is lexed and parsed into
-- a syntax tree, checked, lowered to three-address code, optimised, given registers and printed.
-- This library is about the middle of that path, from the three-address code to the registers, and
-- the arena and the table of strings that all parts share.
--
-- - Base: native numbers, 64-bit words with their wrap-around, bit masks, integers, lists.
-- - Arena: src/arena.c. A pointer is the number of a block and an offset into it. A block knows how
--   many bytes malloc was asked for, and malloc never fails.
-- - Intern: src/str.c. A pointer to an interned string is the number of its allocation, and memory
--   is the list of the strings that were allocated, with their terminators. Valid is the invariant
--   of the table, Content what the comparison of bytes finds, Added a new
--   string.
-- - Diag: diag_levenshtein and diag_find_closest of src/diag.c. The array is a function of its two
--   indices. Least has the edits that the distance counts.
-- - Ir: the instructions of include/ir.h. A doubly linked list of them is a List, an `int64_t` is
--   its bit pattern, a number below 2 ^ 64. Ir/Value.antt says what an integer instruction
--   computes, as the machine code that src/codegen_x86.c emits for it does.
-- - Opt/Algebraic: opt_algebraic_simplification of src/opt.c, one function for each case of its
--   switch. The loop that counts the shift has 64 rounds of fuel, one for each bit of the word.
-- - Opt/ConstProp: opt_constant_propagation. Table is the table of constant stack slots, Fold the
--   switch that folds, Step the body of the loop. Signed overflow of the compiler's own arithmetic
--   wraps around, as it does on the machines it is built for; a division of INT64_MIN by -1 stops
--   the compiler, and the pass is `none`.
-- - Opt/CopyProp: opt_copy_propagation. find_copy_root has a round of fuel for each instruction,
--   since an instruction makes a chain longer by one at most.
-- - Opt/Forward: opt_store_load_forwarding. Opt/Values says what a pass over stack slots keeps, for
--   this pass and for Opt/ConstProp.
-- - Opt/Flow: what a run of a function is, over states and actions of which nothing is known: the
--   meaning that the passes over branches keep. Opt/Cfg is opt_cfg_optimization, with a file for
--   the proof of each of its four steps, and Opt/Simplify is opt_cfg_simplify, in the same way. Its
--   loop over labels has a round of fuel for each instruction and one more, since each round
--   either goes on to the next instruction or removes one.
-- - Opt/Unreachable: opt_unreachable_block_removal. A basic block is the list of its instructions,
--   and the field `reachable` is a function from the number of a block. The loop has a round of
--   fuel for each block and one more: every round but the last marks a block. Opt/Dead is its
--   first step, which is the last one of opt_cfg_simplify too.
-- - Opt/Dce: opt_dead_code_elimination. It is judged on the machine of Opt/Machine, which has tables
--   of what the code for each operation reads and writes; a trap of a division is no part of it.
--   Opt/Vreg has the test of a register that these share.
-- - Regalloc: regalloc_run of src/regalloc.c. Its passes stand in Ranges (pass 1), Extend
--   (the labels and pass 2), CrossCalls (pass 3), Scan (pass 4) and Slots (the stack frame), and
--   Run composes them. An index into the instructions that is -1 in C is `none`, an array is a
--   function from its index. `while (loop_changed)` runs on fuel, one round for each register and
--   instruction and one more: every round but the last moves the end of an interval. `qsort` is
--   a parameter, which the theorems ask to sort by starts and to permute.
--
-- Not modelled: the lexer, the parser, semantic analysis, the lowering to three-address code, the
-- printing of assembly, the driver, and the printing of diagnostics, which are long and whose
-- meaning rests on the types that semantic analysis computes, or are input and output; the freeing
-- of memory, and failure of its allocation, which ends the compiler. Of the optimiser, dead store
-- elimination and the pipeline. An `int` of the compiler itself (an index or an offset in the
-- frame) is unbounded.
pub mod Base
pub mod Arena
pub mod Intern
pub mod Diag
pub mod Ir
pub mod Opt
pub mod Regalloc
