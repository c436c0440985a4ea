-- ===== src/Intern/Content.antt =====
-- What the bytes of a string and its entry say of one another.
use winds.Base.{
  ℕ, ◌≡◌, refl, sym, ◌∙◌, ap, subst, ◌≢◌, inl, inr, ◌↔◌, Bool, true, ◌&&◌, none, some, List, [],
  ◌∷◌, ◌++◌, ◌==◌, ==_iff, &&-both, length, get_elem?, Member, Bool-cases, arith,
}
use mathlib.Core.Option.{some-injective}
use winds.Intern.{InternEntry, memcmp_eq, is_entry_of, find_entry}

-- The bytes with their terminator.
abbrev pub terminated : List ℕ → List ℕ
terminated bytes = bytes ++ (0 ∷ [])

pub terminated-injective : (a b : List ℕ) → terminated a ≡ terminated b → a ≡ b
terminated-injective [] [] h = refl
terminated-injective [] (y ∷ []) h = cc
terminated-injective [] (y ∷ z ∷ b) h = cc
terminated-injective (x ∷ []) [] h = cc
terminated-injective (x ∷ z ∷ a) [] h = cc
terminated-injective (x ∷ a) (y ∷ b) h =
    let later : terminated a ≡ terminated b = cc in cc (h, terminated-injective a b later)

memcmp_eq-terminated :
    (a b : List ℕ) → length a ≡ length b → memcmp_eq (length b) (terminated a) b ≡ true → a ≡ b
unfolding memcmp_eq
memcmp_eq-terminated [] [] l h = refl
memcmp_eq-terminated [] (y ∷ b) l h = absurd (omega (arith, l))
memcmp_eq-terminated (x ∷ a) [] l h = absurd (omega (arith, l))
memcmp_eq-terminated (x ∷ a) (y ∷ b) l h =
    let both = &&-both (x == y) _ h in
    let same : x ≡ y = (==_iff x y).0 both.0 in
    cc (same, memcmp_eq-terminated a b (omega (arith, l)) both.1)

memcmp_eq_self : (a rest : List ℕ) → memcmp_eq (length a) (a ++ rest) a ≡ true
unfolding memcmp_eq
memcmp_eq_self [] rest = refl
memcmp_eq_self (x ∷ a) rest = ground (arith, memcmp_eq_self a rest)

both_true : (a b : Bool) → a ≡ true → b ≡ true → (a && b) ≡ true
both_true a b h k = ground (arith, h, k)

module _ (strings : List (List ℕ)) where
  -- The string of the entry, with its length.
  abbrev pub HasText : InternEntry → List ℕ → Type 0
  HasText e text = (get_elem? strings e.str ≡ some (terminated text)) × (e.len ≡ length text)

  is_entry_of-at :
      (bytes content : List ℕ) (e : InternEntry)
      → get_elem? strings e.str ≡ some content
      → is_entry_of strings bytes e
        ≡ ((e.len == length bytes) && memcmp_eq (length bytes) content bytes)
  unfolding is_entry_of
  is_entry_of-at bytes content e at = rw (at, is_entry_of) refl

  is_entry_of-text :
      (bytes text : List ℕ) (e : InternEntry)
      → HasText e text
      → (is_entry_of strings bytes e ≡ true) ↔ (text ≡ bytes)
  is_entry_of-text bytes text e (at, len) = (
    (λ h.
        let (l, m) = &&-both _ _ (sym (is_entry_of-at bytes (terminated text) e at) ∙ h) in
        memcmp_eq-terminated text bytes (sym len ∙ (==_iff e.len (length bytes)).0 l) m),
    λ q.
        let same_len = (==_iff e.len (length bytes)).1 (len ∙ ap length q) in
        let same : memcmp_eq (length bytes) (terminated text) bytes ≡ true =
          ap (λ t. memcmp_eq (length bytes) (terminated t) bytes) q
          ∙ memcmp_eq_self bytes (0 ∷ []) in
        is_entry_of-at bytes (terminated text) e at ∙ both_true _ _ same_len same,
  )

  -- What is found is a string of the bytes, and a string of the bytes with an entry is found.
  pub find_entry-text :
      (bytes : List ℕ) (chain : List InternEntry) (n : ℕ)
      → ((e : InternEntry) → Member e chain → (text : List ℕ) × HasText e text)
      → find_entry strings bytes chain ≡ some n
      → get_elem? strings n ≡ some (terminated bytes)
  unfolding find_entry
  find_entry-text bytes [] n texts h = cc
  find_entry-text bytes (e ∷ rest) n texts h = elim (Bool-cases (is_entry_of strings bytes e)) [
    | inr b ↦ find_entry-text bytes rest n (λ x m. texts x (inr m)) (ground (arith, h, b))
    | inl b ↦
        let (text, has) = texts e (inl refl) in
        let same = (is_entry_of-text bytes text e has).0 b in
        let here : e.str ≡ n = some-injective e.str n (ground (arith, h, b)) in
        subst (λ k. get_elem? strings k ≡ some (terminated bytes)) here
          (has.0 ∙ ap (λ t. some (terminated t)) same)
  ]

  pub find_entry-found :
      (bytes : List ℕ) (chain : List InternEntry) (e : InternEntry)
      → Member e chain
      → HasText e bytes
      → find_entry strings bytes chain ≢ none
  unfolding find_entry
  find_entry-found bytes [] e m has h = absurd m
  find_entry-found bytes (x ∷ rest) e m has h = elim (Bool-cases (is_entry_of strings bytes x)) [
    | inl b ↦ absurd (ground (arith, h, b))
    | inr b ↦ elim m [
      | inl q ↦ cc (b, (is_entry_of-text bytes bytes x (subst (λ y. HasText y bytes) q has)).1 refl)
      | inr later ↦ find_entry-found bytes rest e later has (ground (arith, h, b))
    ]
  ]
