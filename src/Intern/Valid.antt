-- ===== src/Intern/Valid.antt =====
-- The invariant of the table of strings, and the table at its start.
use winds.Base.{
  ℕ, zero, suc, ◌≡◌, refl, sym, ap, subst, ◌≢◌, ◌⊎◌, inl, inr, true, false, some, List, [], ◌∷◌,
  ◌++◌, if◌then◌else◌, length, get_elem?, Member, Bool-cases,
}
use mathlib.Core.Option.{some-injective}
use winds.Intern.{
  StrPtr, empty_literal, allocated, InternEntry, Interner, str_intern_init, ensure_init, bucket_of,
  str_intern_destroy,
}
use winds.Intern.Content.{terminated, HasText}

-- What a pointer points to.
abbrev pub PointsTo : Interner → StrPtr → List ℕ → Type 0
PointsTo s empty_literal text = text ≡ []
PointsTo s (allocated n) text = get_elem? s.strings n ≡ some (terminated text)

-- The strings of the table.
abbrev pub IsString : Interner → ℕ → List ℕ → Type 0
IsString s n text = get_elem? s.strings n ≡ some (terminated text)

-- Each entry has its string, each string is not empty and has an entry in its bucket, and no text
-- has two strings; before the arena is created there is no string.
pub record IsValid (s : Interner) : Type 0 where
  pub empty : s.created ≡ false → s.strings ≡ []
  pub entries :
      (b : ℕ) (e : InternEntry)
      → Member e (s.hash_table b)
      → (text : List ℕ) × HasText s.strings e text
  pub stored :
      (n : ℕ) (content : List ℕ)
      → get_elem? s.strings n ≡ some content
      → (text : List ℕ) × (content ≡ terminated text)
        × (text ≢ [])
        × Member (record { str = n; len = length text }) (s.hash_table (bucket_of text))
  pub unique : (m n : ℕ) (text : List ℕ) → IsString s m text → IsString s n text → m ≡ n

-- The strings stay.
abbrev pub Extends : Interner → Interner → Type 0
Extends s s' =
    (n : ℕ) (content : List ℕ)
    → get_elem? s.strings n ≡ some content
    → get_elem? s'.strings n ≡ some content

pub get_elem?-append :
    (xs ys : List (List ℕ)) (n : ℕ) (x : List ℕ)
    → get_elem? xs n ≡ some x
    → get_elem? (xs ++ ys) n ≡ some x
get_elem?-append [] ys n x h = cc
get_elem?-append (y ∷ xs) ys zero x h = h
get_elem?-append (y ∷ xs) ys (suc n) x h = get_elem?-append xs ys n x h

pub get_elem?-last :
    (xs : List (List ℕ)) (y : List ℕ) → get_elem? (xs ++ (y ∷ [])) (length xs) ≡ some y
get_elem?-last [] y = refl
get_elem?-last (x ∷ xs) y = get_elem?-last xs y

pub get_elem?-snoc :
    (xs : List (List ℕ)) (y : List ℕ) (n : ℕ) (x : List ℕ)
    → get_elem? (xs ++ (y ∷ [])) n ≡ some x
    → (get_elem? xs n ≡ some x) ⊎ ((n ≡ length xs) × (x ≡ y))
get_elem?-snoc [] y zero x h = inr (refl, sym (some-injective y x h))
get_elem?-snoc [] y (suc n) x h = cc
get_elem?-snoc (z ∷ xs) y zero x h = inl h
get_elem?-snoc (z ∷ xs) y (suc n) x h = elim (get_elem?-snoc xs y n x h) [
  | inl g ↦ inl g
  | inr (e, q) ↦ inr (ap suc e, q)
]

pub str_intern_destroy-IsValid : (s : Interner) → IsValid (str_intern_destroy s)
unfolding str_intern_destroy
str_intern_destroy-IsValid s = record {
  empty = λ h. refl;
  entries = λ b e m. absurd m;
  stored = λ n c h. cc;
  unique = λ m n t h g. cc;
}

pub ensure_init-IsValid : (s : Interner) → IsValid s → IsValid (ensure_init s)
unfolding ensure_init str_intern_init
ensure_init-IsValid s v = elim (Bool-cases s.created) [
  | inl h ↦ subst (λ b. IsValid (if b then s else str_intern_init s)) (sym h) v
  | inr h ↦
      let none_left = v.empty h in
      subst (λ b. IsValid (if b then s else str_intern_init s)) (sym h)
        (record {
          empty = λ q. none_left;
          entries = λ b e m. absurd m;
          stored = λ n c g. cc (none_left, g);
          unique = λ m n t g q. v.unique m n t g q;
        })
]

pub ensure_init-strings : (s : Interner) → (ensure_init s).strings ≡ s.strings
unfolding ensure_init str_intern_init
ensure_init-strings s = elim (Bool-cases s.created) [ inl h ↦ rw h refl | inr h ↦ rw h refl ]

pub ensure_init-created : (s : Interner) → (ensure_init s).created ≡ true
unfolding ensure_init str_intern_init
ensure_init-created s = elim (Bool-cases s.created) [
  | inl h ↦ subst (λ b. (if b then s else str_intern_init s).created ≡ true) (sym h) h
  | inr h ↦ subst (λ b. (if b then s else str_intern_init s).created ≡ true) (sym h) refl
]
