-- ===== src/Intern/Added.antt =====
-- The table after a new string.
use winds.Base.{
  ℕ, ◌≡◌, refl, sym, ◌∙◌, ap, subst, ◌≢◌, ◌⊎◌, inl, inr, true, none, some, List, [], ◌∷◌, ◌==◌,
  ==_iff, length, get_elem?, Member, Bool-cases,
}
use winds.Intern.{InternEntry, Interner, find_entry, bucket_of, add_entry}
use winds.Intern.Content.{terminated, terminated-injective, HasText, find_entry-found}
use winds.Intern.Valid.{
  PointsTo, IsString, IsValid, Extends, get_elem?-append, get_elem?-last, get_elem?-snoc,
}

-- A new entry comes to the chain of its bucket, and the other entries stay.
add_entry-Member :
    (bytes : List ℕ) (s : Interner) (b : ℕ) (e : InternEntry)
    → Member e (s.hash_table b)
    → Member e ((add_entry bytes s).1.hash_table b)
unfolding add_entry
add_entry-Member bytes s b e m = elim (Bool-cases (b == bucket_of bytes)) [
  | inl h ↦ rw h (inr m)
  | inr h ↦ rw h m
]

new_entry : List ℕ → Interner → InternEntry
new_entry bytes s = record { str = length s.strings; len = length bytes }

add_entry-new :
    (bytes : List ℕ) (s : Interner)
    → Member (new_entry bytes s) ((add_entry bytes s).1.hash_table (bucket_of bytes))
unfolding add_entry new_entry
add_entry-new bytes s = rw ((==_iff (bucket_of bytes) (bucket_of bytes)).1 refl) (inl refl)

add_entry-old :
    (bytes : List ℕ) (s : Interner) (b : ℕ) (e : InternEntry)
    → Member e ((add_entry bytes s).1.hash_table b)
    → Member e (s.hash_table b) ⊎ (e ≡ new_entry bytes s)
unfolding add_entry new_entry
add_entry-old bytes s b e m = elim (Bool-cases (b == bucket_of bytes)) [
  | inr h ↦ inl (rw h at m)
  | inl h ↦ elim (rw h at m) [ inl q ↦ inr q | inr old ↦ inl old ]
]

pub add_entry-Extends : (bytes : List ℕ) (s : Interner) → Extends s (add_entry bytes s).1
unfolding add_entry
add_entry-Extends bytes s n c h = get_elem?-append s.strings (terminated bytes ∷ []) n c h

module _ (bytes : List ℕ) (s : Interner) (v : IsValid s) (created : s.created ≡ true)
    (nonempty : bytes ≢ [])
    (missing : find_entry s.strings bytes (s.hash_table (bucket_of bytes)) ≡ none) where
  after_add : Interner
  after_add = (add_entry bytes s).1

  -- No string of the table has these bytes yet.
  no-IsString : (n : ℕ) → ¬ (IsString s n bytes)
  no-IsString n h =
      let (text, same, _, m) = v.stored n (terminated bytes) h in
      let eq : text ≡ bytes = sym (terminated-injective bytes text same) in
      find_entry-found s.strings bytes (s.hash_table (bucket_of bytes))
        (record { str = n; len = length bytes })
        (subst (λ t. Member (record { str = n; len = length t }) (s.hash_table (bucket_of t))) eq m)
        (h, refl) missing

  add_entry-entries :
      (b : ℕ) (e : InternEntry)
      → Member e (after_add.hash_table b)
      → (text : List ℕ) × HasText after_add.strings e text
  unfolding after_add add_entry new_entry
  add_entry-entries b e m = elim (add_entry-old bytes s b e m) [
    | inl old ↦
        let (text, (at, len)) = v.entries b e old in
        (text, (add_entry-Extends bytes s e.str (terminated text) at, len))
    | inr q ↦ (
      bytes,
      subst (λ (x : InternEntry). HasText (after_add.strings) x bytes) (sym q)
          (get_elem?-last s.strings (terminated bytes), refl),
    )
  ]

  add_entry-stored :
      (n : ℕ) (content : List ℕ)
      → get_elem? after_add.strings n ≡ some content
      → (text : List ℕ) × (content ≡ terminated text)
        × (text ≢ [])
        × Member (record { str = n; len = length text }) (after_add.hash_table (bucket_of text))
  unfolding after_add add_entry new_entry
  add_entry-stored n content h = elim (get_elem?-snoc s.strings (terminated bytes) n content h) [
    | inl old ↦
        let (text, same, ne, m) = v.stored n content old in
        (text, same, ne, add_entry-Member bytes s (bucket_of text) _ m)
    | inr (e, same) ↦ (
      bytes,
      same,
      nonempty,
      subst
          (λ k.
            Member (record { str = k; len = length bytes })
              (after_add.hash_table (bucket_of bytes)))
          (sym e) (add_entry-new bytes s),
    )
  ]

  add_entry_unique :
      (m n : ℕ) (text : List ℕ) → IsString after_add m text → IsString after_add n text → m ≡ n
  unfolding after_add add_entry
  add_entry_unique m n text h g =
      let new = terminated bytes in
      elim (get_elem?-snoc s.strings new m (terminated text) h) [
        | inl old ↦ elim (get_elem?-snoc s.strings new n (terminated text) g) [
          | inl old' ↦ v.unique m n text old old'
          | inr (e, q) ↦ absurd (no-IsString m (old ∙ ap some q))
        ]
        | inr (e, q) ↦ elim (get_elem?-snoc s.strings new n (terminated text) g) [
          | inl old' ↦ absurd (no-IsString n (old' ∙ ap some q))
          | inr (e', q') ↦ e ∙ sym e'
        ]
      ]

  pub add_entry-IsValid : IsValid (add_entry bytes s).1
  unfolding after_add add_entry
  add_entry-IsValid = record {
    empty = λ h. cc (h, created);
    entries = add_entry-entries;
    stored = add_entry-stored;
    unique = add_entry_unique;
  }

pub add_entry-PointsTo :
    (bytes : List ℕ) (s : Interner) → PointsTo (add_entry bytes s).1 (add_entry bytes s).0 bytes
unfolding add_entry
add_entry-PointsTo bytes s = get_elem?-last s.strings (terminated bytes)
