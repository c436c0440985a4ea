-- ===== src/Opt/Unreachable/Kept.antt =====
-- What opt_unreachable_block_removal keeps.
use winds.Base.{ℕ, suc, ◌≡◌, inl, inr, ◌↔◌, Bool, true, List, [], ◌∷◌, ◌++◌, Bool-cases}
use winds.Ir.{IrInst}
use winds.Opt.Unreachable.{BasicBlockInfo, keep_blocks}
use winds.Opt.Unreachable.Reaches.{Reaches}

-- The instructions of the reached blocks, in order; the first block of the list has number `b`.
pub data Keeps (blocks : List BasicBlockInfo) : ℕ → List BasicBlockInfo → List IrInst → Type 0 where
  done : (b : ℕ) → Keeps blocks b [] []
  keep :
      (b : ℕ) (block : BasicBlockInfo) (rest : List BasicBlockInfo) (out : List IrInst)
      → Reaches blocks b
      → Keeps blocks (suc b) rest out
      → Keeps blocks b (block ∷ rest) (block.insts ++ out)
  drop :
      (b : ℕ) (block : BasicBlockInfo) (rest : List BasicBlockInfo) (out : List IrInst)
      → ¬ (Reaches blocks b)
      → Keeps blocks (suc b) rest out
      → Keeps blocks b (block ∷ rest) out

pub keep_blocks-Keeps :
    (blocks : List BasicBlockInfo) (g : ℕ → Bool) (b : ℕ) (rest : List BasicBlockInfo)
    → ((t : ℕ) → (g t ≡ true) ↔ Reaches blocks t)
    → Keeps blocks b rest (keep_blocks g b rest).0
unfolding keep_blocks
keep_blocks-Keeps blocks g b [] exact = done b
keep_blocks-Keeps blocks g b (block ∷ rest) exact = elim (Bool-cases (g b)) [
  | inl h ↦
      rw h (keep b block rest _ ((exact b).0 h) (keep_blocks-Keeps blocks g (suc b) rest exact))
  | inr h ↦ rw h (
      drop b block rest _ (λ r. cc (h, (exact b).1 r))
        (keep_blocks-Keeps blocks g (suc b) rest exact))
]
