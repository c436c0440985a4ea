-- ===== src/Opt/Unreachable/Reaches.antt =====
-- Reachability over the edges of the control flow, as a relation.
use winds.Base.{ℕ, ◌≡◌, ◌⊎◌, some, List, get_elem?, Member}
use winds.Ir.{IrInst}
use winds.Opt.Unreachable.{BasicBlockInfo, target_of, next_of}

-- A jump of the block `a` goes to `b`, or `a` falls through to it.
abbrev pub Edge : List BasicBlockInfo → ℕ → ℕ → Type 0
Edge blocks a b =
    (block : BasicBlockInfo) × (get_elem? blocks a ≡ some block)
    × (((inst : IrInst) × Member inst block.insts × (target_of blocks inst ≡ some b))
        ⊎ (next_of blocks a block.insts ≡ some b))

pub data Reaches (blocks : List BasicBlockInfo) : ℕ → Type 0 where
  entry : Reaches blocks 0
  edge : {a b : ℕ} → Reaches blocks a → Edge blocks a b → Reaches blocks b
