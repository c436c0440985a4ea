-- ===== src/Diag.antt =====
-- src/diag.c: the edit distance of two names, and the candidate closest to a name. `tolower` is the
-- function of the C library, of which nothing is assumed.
pub mod Least
pub mod Closest
mod Tests
use winds.Base.{
  ℕ, zero, suc, ◌+◌, Bool, true, false, ◌&&◌, ◌||◌, Option, none, some, List, [], ◌∷◌,
  if◌then◌else◌, ltb, leb, ◌==◌, length, get_or,
}

-- `int d[130][130]`
abbrev pub Table : Type 0
Table = ℕ → ℕ → ℕ

-- `d[i][j] = value`
unfoldable pub set_cell : Table → ℕ → ℕ → ℕ → Table
set_cell d i j value a b = if (a == i) && (b == j) then value else d a b

-- `for (int i = 0; i <= len1; i++) d[i][0] = i;`
unfoldable pub first_column : ℕ → Table → Table
first_column zero d = set_cell d 0 0 0
first_column (suc i) d = set_cell (first_column i d) (suc i) 0 (suc i)

-- `for (int j = 0; j <= len2; j++) d[0][j] = j;`
unfoldable pub first_row : ℕ → Table → Table
first_row zero d = set_cell d 0 0 0
first_row (suc j) d = set_cell (first_row j d) 0 (suc j) (suc j)

-- `a < b ? a : b`
abbrev pub smaller : ℕ → ℕ → ℕ
smaller a b = if ltb a b then a else b

module _ (tolower : ℕ → ℕ) (s1 s2 : List ℕ) where
  -- The cost of a substitution of the characters with these indices.
  unfoldable pub cost_at : ℕ → ℕ → ℕ
  cost_at i j = if tolower (get_or s1 i 0) == tolower (get_or s2 j 0) then 0 else 1

  -- The body of the loops, for `i + 1` and `j + 1`.
  unfoldable pub fill_cell : ℕ → ℕ → Table → Table
  fill_cell i j d =
      let del = d i (suc j) + 1 in
      let ins = d (suc i) j + 1 in
      let sub = d i j + cost_at i j in set_cell d (suc i) (suc j) (smaller (smaller del ins) sub)

  -- The inner loop, up to `n`.
  unfoldable pub fill_row : ℕ → ℕ → Table → Table
  fill_row i zero d = d
  fill_row i (suc n) d = fill_cell i n (fill_row i n d)

  -- The outer loop, up to `m`; `n` is `len2`.
  unfoldable pub fill_rows : ℕ → ℕ → Table → Table
  fill_rows zero n d = d
  fill_rows (suc m) n d = fill_row m n (fill_rows m n d)

-- The distance of two strings, without their terminators. `d` is what the array holds at first.
unfoldable pub diag_levenshtein : (ℕ → ℕ) → Table → Option (List ℕ) → Option (List ℕ) → ℕ
diag_levenshtein tolower d none s2 = 999
diag_levenshtein tolower d (some s1) none = 999
diag_levenshtein tolower d (some s1) (some s2) =
    if ltb 128 (length s1) || ltb 128 (length s2)
    then 999
    else fill_rows tolower s1 s2 (length s1) (length s2)
        (first_row (length s2) (first_column (length s1) d)) (length s1) (length s2)

-- The best distance and match so far; no match is a null pointer.
abbrev pub Best : Type 0
Best = ℕ × Option (List ℕ)

abbrev pub threshold_of : List ℕ → ℕ
threshold_of target = if leb (length target) 4 then 2 else 3

module _ (tolower : ℕ → ℕ) (d : Table) (target : List ℕ) where
  -- The body of the loop.
  unfoldable pub consider : Best → Option (List ℕ) → Best
  consider best none = best
  consider best (some candidate) =
      let dist = diag_levenshtein tolower d (some target) (some candidate) in
      if leb dist (threshold_of target) && ltb dist best.0 then (dist, some candidate) else best

  unfoldable pub consider_all : Best → List (Option (List ℕ)) → Best
  consider_all best [] = best
  consider_all best (candidate ∷ rest) = consider_all (consider best candidate) rest

-- The loop runs over `count` candidates, the length of the list.
unfoldable pub diag_find_closest :
    (ℕ → ℕ) → Table → Option (List ℕ) → List (Option (List ℕ)) → Option (List ℕ)
diag_find_closest tolower d none candidates = none
diag_find_closest tolower d (some target) candidates =
    (consider_all tolower d target (999, none) candidates).1
