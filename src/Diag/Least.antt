-- ===== src/Diag/Least.antt =====
-- The result of diag_levenshtein against edits of the first string.
use winds.Base.{
  ℕ, zero, suc, ◌+◌, ◌≤◌, ◌≡◌, refl, sym, ◌∙◌, ap, subst, ◌⊎◌, inl, inr, false, ◌||◌, some, List,
  if◌then◌else◌, ltb, ◌==◌, length, get_or, arith, Bool-cases,
}
use winds.Diag.{
  Table, set_cell, first_column, first_row, smaller, cost_at, fill_cell, fill_row, fill_rows,
  diag_levenshtein,
}

set_cell-here : (d : Table) (i j value : ℕ) → set_cell d i j value i j ≡ value
unfolding set_cell
set_cell-here d i j value = ground arith

set_cell-row : (d : Table) (i j value a b : ℕ) → (a ≡ i → ⊥) → set_cell d i j value a b ≡ d a b
unfolding set_cell
set_cell-row d i j value a b h = ground (arith, h)

set_cell-column : (d : Table) (i j value a b : ℕ) → (b ≡ j → ⊥) → set_cell d i j value a b ≡ d a b
unfolding set_cell
set_cell-column d i j value a b h = ground (arith, h)

first_column-at : (d : Table) (m i : ℕ) → i ≤ m → first_column m d i 0 ≡ i
unfolding first_column set_cell
first_column-at d zero i h = ground (arith, h)
first_column-at d (suc m) i h = ground (arith, h, first_column-at d m i)

first_row-at : (d : Table) (n j : ℕ) → j ≤ n → first_row n d 0 j ≡ j
unfolding first_row set_cell
first_row-at d zero j h = ground (arith, h)
first_row-at d (suc n) j h = ground (arith, h, first_row-at d n j)

first_row-other : (d : Table) (n i j : ℕ) → first_row n d (suc i) j ≡ d (suc i) j
unfolding first_row set_cell
first_row-other d zero i j = ground arith
first_row-other d (suc n) i j = ground (arith, first_row-other d n i j)

module _ (tolower : ℕ → ℕ) (s1 s2 : List ℕ) where
  -- `n` edits make the first `j` characters of `s2` of the first `i` of `s1`, up to case.
  pub data Edits : ℕ → ℕ → ℕ → Type 0 where
    done : Edits 0 0 0
    delete : {i j n : ℕ} → Edits i j n → Edits (suc i) j (suc n)
    insert : {i j n : ℕ} → Edits i j n → Edits i (suc j) (suc n)
    keep :
        {i j n : ℕ}
        → tolower (get_or s1 i 0) ≡ tolower (get_or s2 j 0)
        → Edits i j n
        → Edits (suc i) (suc j) n
    replace : {i j n : ℕ} → Edits i j n → Edits (suc i) (suc j) (suc n)

  -- The number is that of the fewest edits.
  abbrev pub IsLeast : ℕ → ℕ → ℕ → Type 0
  IsLeast i j v = Edits i j v × ((n : ℕ) → Edits i j n → v ≤ n)

  delete_all : (i : ℕ) → Edits i 0 i
  delete_all zero = done
  delete_all (suc i) = delete (delete_all i)

  insert_all : (j : ℕ) → Edits 0 j j
  insert_all zero = done
  insert_all (suc j) = insert (insert_all j)

  Edits-column : {i n : ℕ} → Edits i 0 n → i ≤ n
  Edits-column done = omega arith
  Edits-column (delete e) = omega (arith, Edits-column e)

  Edits-row : {j n : ℕ} → Edits 0 j n → j ≤ n
  Edits-row done = omega arith
  Edits-row (insert e) = omega (arith, Edits-row e)

  substitute : {i j v : ℕ} → Edits i j v → Edits (suc i) (suc j) (v + cost_at tolower s1 s2 i j)
  unfolding cost_at
  substitute {i} {j} {v} e =
      elim (Bool-cases (tolower (get_or s1 i 0) == tolower (get_or s2 j 0))) [
        | inl h ↦ rw h (subst (Edits (suc i) (suc j)) (omega arith) (keep (ground (arith, h)) e))
        | inr h ↦ rw h (subst (Edits (suc i) (suc j)) (omega arith) (replace e))
      ]

  cost_at-le : (i j : ℕ) → cost_at tolower s1 s2 i j ≤ 1
  unfolding cost_at
  cost_at-le i j = ground arith

  cost_at-same :
      (i j : ℕ) → tolower (get_or s1 i 0) ≡ tolower (get_or s2 j 0) → cost_at tolower s1 s2 i j ≡ 0
  unfolding cost_at
  cost_at-same i j h = ground (arith, h)

  abbrev cell : ℕ → ℕ → ℕ → ℕ → ℕ → ℕ
  cell i j above left diagonal =
      smaller (smaller (above + 1) (left + 1)) (diagonal + cost_at tolower s1 s2 i j)

  smaller-cases : (a b : ℕ) → (smaller a b ≡ a) ⊎ (smaller a b ≡ b)
  smaller-cases a b = ground arith

  smaller-le : (a b : ℕ) → (smaller a b ≤ a) × (smaller a b ≤ b)
  smaller-le a b = (ground arith, ground arith)

  -- The least of the three ways to end is the least of all.
  cell-IsLeast :
      (i j above left diagonal : ℕ)
      → IsLeast i (suc j) above
      → IsLeast (suc i) j left
      → IsLeast i j diagonal
      → IsLeast (suc i) (suc j) (cell i j above left diagonal)
  cell-IsLeast i j above left diagonal a l g = (reached, least)
    where
      reached : Edits (suc i) (suc j) (cell i j above left diagonal)
      reached =
          elim (smaller-cases (smaller (above + 1) (left + 1))
            (diagonal + cost_at tolower s1 s2 i j)) [
              | inr e ↦ subst (Edits (suc i) (suc j)) (sym e) (substitute g.0)
              | inl e ↦ elim (smaller-cases (above + 1) (left + 1)) [
                | inl q ↦ subst (Edits (suc i) (suc j)) (omega (arith, e, q)) (delete a.0)
                | inr q ↦ subst (Edits (suc i) (suc j)) (omega (arith, e, q)) (insert l.0)
              ]
            ]

      le_del : cell i j above left diagonal ≤ above + 1
      le_del = omega (
        arith,
        (smaller-le (smaller (above + 1) (left + 1)) (diagonal + cost_at tolower s1 s2 i j)).0,
        (smaller-le (above + 1) (left + 1)).0,
      )

      le_ins : cell i j above left diagonal ≤ left + 1
      le_ins = omega (
        arith,
        (smaller-le (smaller (above + 1) (left + 1)) (diagonal + cost_at tolower s1 s2 i j)).0,
        (smaller-le (above + 1) (left + 1)).1,
      )

      le_sub : cell i j above left diagonal ≤ diagonal + cost_at tolower s1 s2 i j
      le_sub =
          (smaller-le (smaller (above + 1) (left + 1)) (diagonal + cost_at tolower s1 s2 i j)).1

      least : (n : ℕ) → Edits (suc i) (suc j) n → cell i j above left diagonal ≤ n
      least _ (delete {n = n} e) = omega (arith, le_del, a.1 n e)
      least _ (insert {n = n} e) = omega (arith, le_ins, l.1 n e)
      least n (keep h e) = omega (arith, le_sub, cost_at-same i j h, g.1 n e)
      least _ (replace {n = n} e) = omega (arith, le_sub, cost_at-le i j, g.1 n e)

  -- A row whose numbers are right up to `n`.
  abbrev RowIsLeast : Table → ℕ → ℕ → Type 0
  RowIsLeast d i n = (j : ℕ) → j ≤ n → IsLeast i j (d i j)

  fill_row-row :
      (i k : ℕ) (d : Table) (a b : ℕ) → (a ≡ suc i → ⊥) → fill_row tolower s1 s2 i k d a b ≡ d a b
  unfolding fill_row fill_cell
  fill_row-row i zero d a b h = refl
  fill_row-row i (suc k) d a b h =
      set_cell-row (fill_row tolower s1 s2 i k d) (suc i) (suc k) _ a b h ∙ fill_row-row i k d a b h

  fill_row-column : (i k : ℕ) (d : Table) (a : ℕ) → fill_row tolower s1 s2 i k d a 0 ≡ d a 0
  unfolding fill_row fill_cell
  fill_row-column i zero d a = refl
  fill_row-column i (suc k) d a =
      set_cell-column (fill_row tolower s1 s2 i k d) (suc i) (suc k) _ a 0 (λ e. cc e)
      ∙ fill_row-column i k d a

  fill_row-RowIsLeast :
      (i k : ℕ) (d : Table)
      → RowIsLeast d i k
      → IsLeast (suc i) 0 (d (suc i) 0)
      → RowIsLeast (fill_row tolower s1 s2 i k d) (suc i) k
  unfolding fill_row fill_cell
  fill_row-RowIsLeast i zero d above first j le =
      subst (λ j. IsLeast (suc i) j (d (suc i) j)) (omega (arith, le)) first
  fill_row-RowIsLeast i (suc k) d above first j le =
      let before = fill_row tolower s1 s2 i k d in
      let left = fill_row-RowIsLeast i k d (λ j h. above j (omega (arith, h))) first in
      let row = λ (b : ℕ) (h : b ≤ suc k).
        subst (IsLeast i b) (sym (fill_row-row i k d i b (λ e. omega (arith, e)))) (above b h) in
      elim (Bool-cases (j == suc k)) [
        | inl h ↦
            let here : j ≡ suc k = ground (arith, h) in
            subst (λ b. IsLeast (suc i) b (fill_row tolower s1 s2 i (suc k) d (suc i) b)) (sym here)
              (subst (IsLeast (suc i) (suc k)) (sym (set_cell-here before (suc i) (suc k) _)) (
                cell-IsLeast i k (before i (suc k)) (before (suc i) k) (before i k)
                  (row (suc k) (omega arith)) (left k (omega arith)) (row k (omega arith))))
        | inr h ↦
            let other : j ≡ suc k → ⊥ = λ e. ground (arith, h, e) in
            subst (IsLeast (suc i) j)
              (sym (set_cell-column before (suc i) (suc k) _ (suc i) j other))
              (left j (ground (arith, le, h)))
      ]

  fill_rows-column : (m n : ℕ) (d : Table) (a : ℕ) → fill_rows tolower s1 s2 m n d a 0 ≡ d a 0
  unfolding fill_rows
  fill_rows-column zero n d a = refl
  fill_rows-column (suc m) n d a =
      fill_row-column m n (fill_rows tolower s1 s2 m n d) a ∙ fill_rows-column m n d a

  fill_rows-RowIsLeast :
      (m n : ℕ) (d : Table)
      → RowIsLeast d 0 n
      → ((i : ℕ) → i ≤ m → IsLeast i 0 (d i 0))
      → RowIsLeast (fill_rows tolower s1 s2 m n d) m n
  unfolding fill_rows
  fill_rows-RowIsLeast zero n d row column = row
  fill_rows-RowIsLeast (suc m) n d row column =
      fill_row-RowIsLeast m n (fill_rows tolower s1 s2 m n d)
        (fill_rows-RowIsLeast m n d row (λ i h. column i (omega (arith, h))))
        (subst (IsLeast (suc m) 0) (sym (fill_rows-column m n d (suc m)))
          (column (suc m) (omega arith)))

  -- The table before the loops.
  started : Table → Table
  started d = first_row (length s2) (first_column (length s1) d)

  started-column : (d : Table) (i : ℕ) → i ≤ length s1 → started d i 0 ≡ i
  unfolding started
  started-column d zero h = first_row-at (first_column (length s1) d) (length s2) 0 (omega arith)
  started-column d (suc i) h =
      first_row-other (first_column (length s1) d) (length s2) i 0
      ∙ first_column-at d (length s1) (suc i) h

  -- For two strings of at most 128 characters each, the distance is the least number of
  -- insertions, deletions and replacements of a character that make the second string of the
  -- first, where characters that tolower makes equal count as the same, whatever the array
  -- holds at first.
  pub diag_levenshtein-IsLeast :
      (d : Table)
      → length s1 ≤ 128
      → length s2 ≤ 128
      → IsLeast (length s1) (length s2) (diag_levenshtein tolower d (some s1) (some s2))
  unfolding diag_levenshtein started
  diag_levenshtein-IsLeast d h1 h2 =
      let small : (ltb 128 (length s1) || ltb 128 (length s2)) ≡ false = ground (arith, h1, h2) in
      let filled =
        fill_rows-RowIsLeast (length s1) (length s2) (started d)
          (λ j h.
            subst (IsLeast 0 j) (sym (first_row-at (first_column (length s1) d) (length s2) j h))
              (insert_all j, λ n e. Edits-row e))
          (λ i h.
            subst (IsLeast i 0) (sym (started-column d i h)) (delete_all i, λ n e. Edits-column e))
          (length s2) (omega arith) in
      let value =
        fill_rows tolower s1 s2 (length s1) (length s2) (started d) (length s1) (length s2) in
      subst (IsLeast (length s1) (length s2)) (sym (ap (λ b. if b then 999 else value) small))
        filled
