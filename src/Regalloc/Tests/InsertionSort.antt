-- ===== src/Regalloc/Tests/InsertionSort.antt =====
-- A function that does what the allocator relies on in the C library's `qsort`.
use mathlib.Core.List.{Permᴰ}
use mathlib.Core.List.Permᴰ.{nil, cons, swap, trans}
use mathlib.Core.List.Permᴰ as Permutation
use winds.Base.{
  ℕ, ◌≤◌, refl, inl, inr, List, [], ◌∷◌, arith, Bool-cases, All, All-map_imp, if◌then◌else◌, leb,
}
use winds.Regalloc.Types.{position, LiveInterval}
use winds.Regalloc.Scan.Interference.{SortedStarts}
use winds.Regalloc.Run.Sorting.{SortsByStart}

-- Insertion by the start, for the C library's `qsort`.
insert_start : LiveInterval → List LiveInterval → List LiveInterval
insert_start c [] = c ∷ []
insert_start c (d ∷ ds) =
    if leb (position c.start_inst) (position d.start_inst)
    then c ∷ d ∷ ds
    else d ∷ insert_start c ds

unfoldable pub insertion_sort : List LiveInterval → List LiveInterval
unfolding insert_start
insertion_sort [] = []
insertion_sort (c ∷ cs) = insert_start c (insertion_sort cs)

insert_start-permutes :
    (c : LiveInterval) (ds : List LiveInterval) → Permᴰ (c ∷ ds) (insert_start c ds)
unfolding insert_start
insert_start-permutes c [] = Permutation.refl (c ∷ [])
insert_start-permutes c (d ∷ ds) =
    elim (Bool-cases (leb (position c.start_inst) (position d.start_inst))) [
      | inl b ↦ rw b (Permutation.refl (c ∷ d ∷ ds))
      | inr b ↦ rw b (trans (swap refl refl) (cons refl (insert_start-permutes c ds)))
    ]

insertion_sort-permutes : (cs : List LiveInterval) → Permᴰ cs (insertion_sort cs)
unfolding insertion_sort
insertion_sort-permutes [] = nil
insertion_sort-permutes (c ∷ cs) =
    trans (cons refl (insertion_sort-permutes cs)) (insert_start-permutes c (insertion_sort cs))

insert_start-All :
    (c : LiveInterval) (n : ℕ) (ds : List LiveInterval)
    → n ≤ position c.start_inst
    → All (λ d. n ≤ position d.start_inst) ds
    → All (λ d. n ≤ position d.start_inst) (insert_start c ds)
unfolding insert_start
insert_start-All c n [] h k = (h, tt)
insert_start-All c n (d ∷ ds) h k =
    elim (Bool-cases (leb (position c.start_inst) (position d.start_inst))) [
      | inl b ↦ rw b (h, k)
      | inr b ↦ rw b (k.0, insert_start-All c n ds h k.1)
    ]

insert_start-SortedStarts :
    (c : LiveInterval) (ds : List LiveInterval) → SortedStarts ds → SortedStarts (insert_start c ds)
unfolding insert_start
insert_start-SortedStarts c [] h = (tt, tt)
insert_start-SortedStarts c (d ∷ ds) h =
    elim (Bool-cases (leb (position c.start_inst) (position d.start_inst))) [
      | inl b ↦
          let le : position c.start_inst ≤ position d.start_inst = ground arith in
          rw b (
            (
              le,
              All-map_imp (λ y. position d.start_inst ≤ position y.start_inst) _ ds
                  (λ y q. omega arith) h.0,
            ),
            h,
          )
      | inr b ↦
          let le : position d.start_inst ≤ position c.start_inst = ground arith in
          rw b (insert_start-All c _ ds le h.0, insert_start-SortedStarts c ds h.1)
    ]

insertion_sort-SortedStarts : (cs : List LiveInterval) → SortedStarts (insertion_sort cs)
unfolding insertion_sort
insertion_sort-SortedStarts [] = tt
insertion_sort-SortedStarts (c ∷ cs) =
    insert_start-SortedStarts c (insertion_sort cs) (insertion_sort-SortedStarts cs)

pub insertion_sort-SortsByStart : SortsByStart insertion_sort
insertion_sort-SortsByStart = record {
  sorted = insertion_sort-SortedStarts;
  permutes = insertion_sort-permutes;
}
