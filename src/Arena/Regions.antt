-- ===== src/Arena/Regions.antt =====
-- The regions that arena_alloc hands out, in their blocks.
use winds.Base.{
  ℕ, suc, ◌+◌, ◌%◌, ◌≤◌, ◌<◌, ◌≡◌, refl, sym, ◌≢◌, ◌⊎◌, inl, inr, false, some, ◌∷◌, leb, ◌==◌,
  arith, Member, All, All-Member, All-map_imp, Bool-cases, ap, subst, ◌∙◌,
}
use winds.Base.Word.{word_mod}
use winds.Arena.{
  block_header, ArenaBlock, Arena, Pointer, align_up, arena_new_block, alloc_aligned, arena_alloc,
}

-- A block of an arena with `next_id` blocks, filled to a multiple of 8 within its capacity, which
-- fits into the memory that malloc gave.
abbrev pub IsFilled : ℕ → ArenaBlock → Type 0
IsFilled next_id b =
    (b.id < next_id)
    × (b.used ≤ b.capacity)
    × (b.used % 8 ≡ 0)
    × (b.capacity < word_mod)
    × (block_header + b.capacity ≤ b.malloced)

-- The current block is none of those before it.
abbrev pub IsValid : Arena → Type 0
IsValid a =
    IsFilled a.next_id a.current
    × (All (IsFilled a.next_id) a.before × All (λ (b : ArenaBlock). b.id ≢ a.current.id) a.before)

-- `size` bytes at the pointer are in use, in the current block or in one before it.
abbrev pub InUse : Arena → Pointer → ℕ → Type 0
InUse a p size =
    (b : ArenaBlock) × Member b (a.current ∷ a.before)
    × (b.id ≡ p.block)
    × (p.offset + size ≤ b.used)

-- `size` bytes at the pointer lie in the used part of the block and in its memory.
abbrev pub IsInside : ArenaBlock → Pointer → ℕ → Type 0
IsInside b p size =
    (b.id ≡ p.block) × (p.offset + size ≤ b.used) × (block_header + (p.offset + size) ≤ b.malloced)

abbrev pub Disjoint : Pointer → ℕ → Pointer → ℕ → Type 0
Disjoint p n q m = (p.block ≢ q.block) ⊎ ((p.offset + n ≤ q.offset) ⊎ (q.offset + m ≤ p.offset))

pub align_up-least :
    (n : ℕ) → n + 7 < word_mod → (n ≤ align_up n) × (align_up n < n + 8) × (align_up n % 8 ≡ 0)
unfolding align_up
align_up-least n h = (omega arith, omega arith, omega arith)

later : (next_id : ℕ) (b : ArenaBlock) → IsFilled next_id b → IsFilled (suc next_id) b
later next_id b f = (omega (arith, f.0), f.1, f.2, f.3, f.4)

alloc_aligned-IsValid :
    (a : Arena) (size : ℕ)
    → IsValid a
    → size % 8 ≡ 0
    → block_header + a.default_block_size < word_mod
    → block_header + size < word_mod
    → a.current.capacity + size < word_mod
    → IsValid (alloc_aligned a size).1
unfolding alloc_aligned arena_new_block
alloc_aligned-IsValid a size v al d room fits =
    elim (Bool-cases (leb ((a.current.used + size) % word_mod) a.current.capacity)) [
      | inl h ↦ rw h ((v.0.0, ground arith, ground arith, v.0.3, v.0.4), (v.1.0, v.1.1))
      | inr h ↦ rw h (
        (omega arith, ground arith, al, ground arith, ground arith),
        (
          (later a.next_id a.current v.0, All-map_imp _ _ a.before (later a.next_id) v.1.0),
          (
            (λ e. ground (arith, v.0.0, e)),
            All-map_imp _ _ a.before (λ b f e. ground (arith, f.0, e)) v.1.0,
          ),
        ),
      )
    ]

alloc_aligned-IsInside :
    (a : Arena) (size : ℕ)
    → IsValid a
    → block_header + a.default_block_size < word_mod
    → block_header + size < word_mod
    → a.current.capacity + size < word_mod
    → IsInside (alloc_aligned a size).1.current (alloc_aligned a size).0 size
unfolding alloc_aligned arena_new_block
alloc_aligned-IsInside a size v d room fits =
    elim (Bool-cases (leb ((a.current.used + size) % word_mod) a.current.capacity)) [
      | inl h ↦ rw h (refl, ground arith, ground (arith, h, v.0.1, v.0.4))
      | inr h ↦ rw h (refl, ground arith, ground arith)
    ]

alloc_aligned-Disjoint :
    (a : Arena) (size : ℕ) (q : Pointer) (n : ℕ)
    → IsValid a
    → InUse a q n
    → Disjoint (alloc_aligned a size).0 size q n
unfolding alloc_aligned
alloc_aligned-Disjoint a size q n v u =
    elim (Bool-cases (leb ((a.current.used + size) % word_mod) a.current.capacity)) [
      | inl h ↦ rw h (apart u)
      | inr h ↦ rw h (inl (λ e. elsewhere u e))
    ]
  where
    apart :
        InUse a q n
        → (a.current.id ≢ q.block)
          ⊎ ((a.current.used + size ≤ q.offset) ⊎ (q.offset + n ≤ a.current.used))
    apart (b, inl m, e, le) = inr (inr (subst (λ (x : ArenaBlock). q.offset + n ≤ x.used) m le))
    apart (b, inr m, e, le) =
        inl
          (λ f. All-Member (λ (x : ArenaBlock). x.id ≢ a.current.id) a.before v.1.1 b m (e ∙ sym f))

    elsewhere : InUse a q n → a.next_id ≢ q.block
    elsewhere (b, inl m, e, le) f = ground (arith, v.0.0, ap (λ (x : ArenaBlock). x.id) m, e, f)
    elsewhere (b, inr m, e, le) f =
        ground (arith, (All-Member (IsFilled a.next_id) a.before v.1.0 b m).0, e, f)

alloc_aligned-keeps :
    (a : Arena) (size : ℕ) (q : Pointer) (n : ℕ)
    → IsValid a
    → a.current.capacity + size < word_mod
    → InUse a q n
    → InUse (alloc_aligned a size).1 q n
unfolding alloc_aligned
alloc_aligned-keeps a size q n v fits (b, m, e, le) =
    elim (Bool-cases (leb ((a.current.used + size) % word_mod) a.current.capacity)) [
      | inl h ↦ rw h (grown m)
      | inr h ↦ rw h (b, inr m, e, le)
    ]
  where
    grown :
        Member b (a.current ∷ a.before)
        → (c : ArenaBlock) × Member c
            (record (a.current) { used = (a.current.used + size) % word_mod } ∷ a.before)
          × (c.id ≡ q.block)
          × (q.offset + n ≤ c.used)
    grown (inl k) =
        let used : b.used ≡ a.current.used = ap (λ (x : ArenaBlock). x.used) k in
        (
          record (a.current) { used = (a.current.used + size) % word_mod },
          inl refl,
          sym (ap (λ (x : ArenaBlock). x.id) k) ∙ e,
          omega (arith, used, le, v.0.1, fits),
        )
    grown (inr k) = (b, inr k, e, le)

-- Take an arena whose current block and the blocks before it are filled to multiples of 8 within
-- their capacities, which with the header of the block fit the memory that malloc gave. An
-- allocation of a positive size, where no sum reaches 2 ^ 64, that of the header of a new block
-- and its capacity included, returns a region inside the used part of the current block and
-- inside the memory of that block, and it shares no byte with a region in use, in the current
-- block or one before it; every region in use stays so, and the arena stays valid.
pub arena_alloc-region :
    (a : Arena) (size : ℕ)
    → IsValid a
    → 0 < size
    → size + 7 < word_mod
    → block_header + a.default_block_size < word_mod
    → block_header + align_up size < word_mod
    → a.current.capacity + align_up size < word_mod
    → (p : Pointer) × ((arena_alloc a size).0 ≡ some p)
      × IsInside (arena_alloc a size).1.current p size
      × ((q : Pointer) (n : ℕ)
          → InUse a q n
          → Disjoint p size q n × InUse (arena_alloc a size).1 q n)
      × IsValid (arena_alloc a size).1
unfolding arena_alloc
arena_alloc-region a size v lo hi d room fits =
    let (least, _, aligned) = align_up-least size hi in
    let (at, le, mem) = alloc_aligned-IsInside a (align_up size) v d room fits in
    let pos_size : (size == 0) ≡ false = ground arith in
    rw pos_size (
      (alloc_aligned a (align_up size)).0,
      refl,
      (at, omega (arith, le, least), omega (arith, mem, least)),
      (λ q n u. (
        shorter q n (alloc_aligned-Disjoint a (align_up size) q n v u) least,
        alloc_aligned-keeps a (align_up size) q n v fits u,
      )),
      alloc_aligned-IsValid a (align_up size) v aligned d room fits,
    )
  where
    shorter :
        (q : Pointer) (n : ℕ)
        → Disjoint (alloc_aligned a (align_up size)).0 (align_up size) q n
        → size ≤ align_up size
        → Disjoint (alloc_aligned a (align_up size)).0 size q n
    shorter q n (inl x) least = inl x
    shorter q n (inr (inl x)) least = inr (inl (omega (arith, x, least)))
    shorter q n (inr (inr x)) least = inr (inr x)
