-- ===== src/Diag/Tests.antt =====
-- Short names, compared.
use winds.Base.{if◌then◌else◌, ◌==◌, ℕ, ◌≡◌, refl, none, some, List, [], ◌∷◌, arith}
use winds.Diag.{
  Table, set_cell, first_column, first_row, cost_at, fill_cell, fill_row, fill_rows,
  diag_levenshtein, diag_find_closest,
}
use winds.Diag.Least.{IsLeast, diag_levenshtein-IsLeast}
use winds.Diag.Closest.{IsClosest, diag_find_closest-IsClosest}

-- Upper case letters to lower case.
abbrev lower : ℕ → ℕ
lower c = if c == 67 then 99 else c

-- "Cat" and "cut"
abbrev cat : List ℕ
cat = 67 ∷ 97 ∷ 116 ∷ []

abbrev cut : List ℕ
cut = 99 ∷ 117 ∷ 116 ∷ []

abbrev zeros : Table
zeros i j = 0

cat-cut : diag_levenshtein lower zeros (some cat) (some cut) ≡ 1
unfolding set_cell first_column first_row cost_at fill_cell fill_row fill_rows diag_levenshtein
cat-cut = refl

diag_levenshtein-IsLeast_example :
    IsLeast lower cat cut 3 3 (diag_levenshtein lower zeros (some cat) (some cut))
diag_levenshtein-IsLeast_example =
    diag_levenshtein-IsLeast lower cat cut zeros (omega arith) (omega arith)

diag_find_closest-IsClosest_example :
    IsClosest lower zeros cat
      (none ∷ some cut ∷ some [] ∷ [])
      (diag_find_closest lower zeros (some cat) (none ∷ some cut ∷ some [] ∷ []))
diag_find_closest-IsClosest_example =
    diag_find_closest-IsClosest lower zeros cat (none ∷ some cut ∷ some [] ∷ [])
