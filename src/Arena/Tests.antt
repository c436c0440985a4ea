-- ===== src/Arena/Tests.antt =====
-- An arena of one block; the theorem on its regions.
use winds.Base.{ℕ, ◌≡◌, refl, some, arith}
use winds.Arena.{Pointer, align_up, arena_alloc, arena_new_block, arena_create}
use winds.Arena.Regions.{IsValid, IsInside, InUse, Disjoint, arena_alloc-region}

fresh-IsValid : IsValid (arena_create 0)
unfolding arena_create arena_new_block
fresh-IsValid = ((omega arith, omega arith, refl, omega arith, omega arith), (tt, tt))

arena_alloc-region_example :
    (p : Pointer) × ((arena_alloc (arena_create 0) 5).0 ≡ some p)
    × IsInside (arena_alloc (arena_create 0) 5).1.current p 5
    × ((q : Pointer) (n : ℕ)
        → InUse (arena_create 0) q n
        → Disjoint p 5 q n × InUse (arena_alloc (arena_create 0) 5).1 q n)
    × IsValid (arena_alloc (arena_create 0) 5).1
unfolding arena_create arena_new_block align_up
arena_alloc-region_example =
    arena_alloc-region (arena_create 0) 5 fresh-IsValid (omega arith) (omega arith) (omega arith)
      (omega arith) (omega arith)
