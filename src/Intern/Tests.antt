-- ===== src/Intern/Tests.antt =====
-- A few strings, interned.
use winds.Base.{ℕ, ◌≡◌, refl, ◌↔◌, false, List, [], ◌∷◌, length}
use winds.Intern.{
  empty_literal, allocated, Interner, fnv1a_step, fnv1a_hash, bucket_of, str_intern_init,
  ensure_init, memcmp_eq, is_entry_of, find_entry, add_entry, intern_nonempty, str_intern_range,
  str_intern_destroy, intern_all,
}
use winds.Intern.Valid.{PointsTo}
use winds.Intern.Unique.{intern_all_unique}

abbrev letter_a : List ℕ
letter_a = 97 ∷ []

-- "a", "", "b", "a"
abbrev words : List (List ℕ)
words = (97 ∷ []) ∷ [] ∷ (98 ∷ []) ∷ (97 ∷ []) ∷ []

abbrev nothing_interned : Interner
nothing_interned = record { created = false; strings = []; hash_table = λ b. [] }

words-pointers :
    (intern_all words (str_intern_destroy nothing_interned)).0
    ≡ allocated 0 ∷ empty_literal ∷ allocated 1 ∷ allocated 0 ∷ []
unfolding fnv1a_step fnv1a_hash bucket_of str_intern_init ensure_init memcmp_eq is_entry_of
    find_entry add_entry intern_nonempty str_intern_range str_intern_destroy intern_all
words-pointers = refl

intern_all_unique_example :
    (length (intern_all words (str_intern_destroy nothing_interned)).0 ≡ 4)
    × PointsTo (intern_all words (str_intern_destroy nothing_interned)).1 (allocated 0) letter_a
    × ((allocated 0 ≡ allocated 0) ↔ (letter_a ≡ letter_a))
unfolding fnv1a_step fnv1a_hash bucket_of str_intern_init ensure_init memcmp_eq is_entry_of
    find_entry add_entry intern_nonempty str_intern_range str_intern_destroy intern_all
intern_all_unique_example =
    intern_all_unique nothing_interned words 0 3 letter_a letter_a (allocated 0) (allocated 0) refl
      refl refl refl
