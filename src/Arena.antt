-- ===== src/Arena.antt =====
-- src/arena.c: memory handed out from a chain of blocks. Sizes are `size_t`, below 2 ^ 64.
pub mod Regions
mod Tests
use winds.Base.{
  ℕ, suc, ◌+◌, ◌-◌, ◌%◌, Bool, ◌||◌, Option, none, some, List, [], ◌∷◌, ◌++◌, if◌then◌else◌, ltb,
  leb, ◌==◌, map,
}
use winds.Base.Word.{word_mod}

-- `ArenaBlock`, with a number in place of its address, and the size that malloc was asked for. The
-- link `next` is the order of a list.
pub record ArenaBlock : Type 0 where
  pub id : ℕ
  pub capacity : ℕ
  pub used : ℕ
  pub malloced : ℕ

-- `Arena`: the blocks of the chain before `current`, from the nearest on, that block, and those
-- after it. `next_id` numbers the blocks that malloc gives.
pub record Arena : Type 0 where
  pub before : List ArenaBlock
  pub current : ArenaBlock
  pub after : List ArenaBlock
  pub default_block_size : ℕ
  pub total_allocated : ℕ
  pub next_id : ℕ

-- A pointer into the data of a block.
pub record Pointer : Type 0 where
  pub block : ℕ
  pub offset : ℕ

abbrev pub default_arena_block_size : ℕ
default_arena_block_size = 65536

-- `align_up` to ARENA_ALIGNMENT, which is 8: the low three bits of the wrapped sum are cleared.
unfoldable pub align_up : ℕ → ℕ
align_up n = (n + 7) % word_mod - (n + 7) % word_mod % 8

-- `sizeof(ArenaBlock)`: a pointer and two sizes.
abbrev pub block_header : ℕ
block_header = 24

-- `arena_new_block`; the sum that malloc is given wraps around.
unfoldable pub arena_new_block : ℕ → ℕ → ArenaBlock
arena_new_block id min_capacity =
    let cap =
      if ltb min_capacity default_arena_block_size
      then default_arena_block_size
      else min_capacity in
    record { id = id; capacity = cap; used = 0; malloced = (block_header + cap) % word_mod }

unfoldable pub arena_create : ℕ → Arena
arena_create block_size =
    let default_size = if ltb 0 block_size then block_size else default_arena_block_size in
    record {
      before = [];
      current = arena_new_block 0 default_size;
      after = [];
      default_block_size = default_size;
      total_allocated = 0;
      next_id = 1;
    }

-- `arena_alloc` of a size that is aligned already.
unfoldable pub alloc_aligned : Arena → ℕ → Pointer × Arena
alloc_aligned arena size =
    if leb ((arena.current.used + size) % word_mod) arena.current.capacity
    then (
      record { block = arena.current.id; offset = arena.current.used },
      record arena {
        current = record (arena.current) { used = (arena.current.used + size) % word_mod };
        total_allocated = (arena.total_allocated + size) % word_mod;
      },
    )
    else let req = if ltb arena.default_block_size size then size else arena.default_block_size in
      (
        record { block = arena.next_id; offset = 0 },
        record arena {
          before = arena.current ∷ arena.before;
          current = record (arena_new_block arena.next_id req) { used = size };
          after = [];
          total_allocated = (arena.total_allocated + size) % word_mod;
          next_id = suc arena.next_id;
        },
      )

-- `arena_alloc`; `none` is the null pointer.
unfoldable pub arena_alloc : Arena → ℕ → Option Pointer × Arena
arena_alloc arena size =
    let (p, arena') = alloc_aligned arena (align_up size) in
    if size == 0 then (none, arena) else (some p, arena')

-- `used = 0`
unfoldable pub clear_block : ArenaBlock → ArenaBlock
clear_block b = record b { used = 0 }

-- The chain from its first block on: `xs` is the part before, from the nearest on.
unfoldable pub chain : List ArenaBlock → List ArenaBlock → List ArenaBlock
chain [] ys = ys
chain (x ∷ xs) ys = chain xs (x ∷ ys)

-- The arena whose chain is the block and the list.
unfoldable pub reset_to : Arena → List ArenaBlock → Arena
reset_to arena [] = arena
reset_to arena (first ∷ rest) = record arena {
  before = [];
  current = clear_block first;
  after = map clear_block rest;
  total_allocated = 0;
}

unfoldable pub arena_reset : Arena → Arena
arena_reset arena = reset_to arena (chain arena.before (arena.current ∷ arena.after))
