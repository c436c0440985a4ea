-- ===== src/Intern/Unique.antt =====
-- Pointers to interned strings, and the texts that they point to.
use winds.Base.{
  ℕ, zero, suc, ◌≡◌, refl, sym, ◌∙◌, ap, subst, ◌≢◌, inl, inr, ◌↔◌, true, some, List, [], ◌∷◌,
  length, get_elem?, Option-cases,
}
use mathlib.Core.Option.{some-injective}
use winds.Intern.{
  StrPtr, empty_literal, allocated, Interner, ensure_init, find_entry, bucket_of, intern_nonempty,
  str_intern_range, str_intern_destroy, intern_all,
}
use winds.Intern.Content.{terminated, terminated-injective, find_entry-text}
use winds.Intern.Valid.{
  PointsTo, IsString, IsValid, Extends, str_intern_destroy-IsValid, ensure_init-IsValid,
  ensure_init-strings, ensure_init-created,
}
use winds.Intern.Added.{add_entry-Extends, add_entry-IsValid, add_entry-PointsTo}

-- What interning promises.
abbrev Interned : Interner → List ℕ → StrPtr × Interner → Type 0
Interned s bytes r = IsValid r.1 × Extends s r.1 × PointsTo r.1 r.0 bytes

intern_nonempty-Interned :
    (bytes : List ℕ) (s : Interner)
    → IsValid s
    → s.created ≡ true
    → bytes ≢ []
    → Interned s bytes (intern_nonempty bytes s)
unfolding intern_nonempty
intern_nonempty-Interned bytes s v created ne =
    let chain = s.hash_table (bucket_of bytes) in
    elim (Option-cases (find_entry s.strings bytes chain)) [
      | inl h ↦
          rw (h, intern_nonempty)
            (
              add_entry-IsValid bytes s v created ne h,
              add_entry-Extends bytes s,
              add_entry-PointsTo bytes s,
            )
      | inr (n, h) ↦
          rw (h, intern_nonempty)
            (
              v,
              (λ k c g. g),
              find_entry-text s.strings bytes chain n (v.entries (bucket_of bytes)) h,
            )
    ]

-- Interning keeps the table valid and the strings that there are, and points to the bytes.
pub str_intern_range-Interned :
    (bytes : List ℕ) (s : Interner) → IsValid s → Interned s bytes (str_intern_range bytes s)
unfolding str_intern_range
str_intern_range-Interned [] s v = (v, (λ n c h. h), refl)
str_intern_range-Interned (byte ∷ rest) s v =
    let (v', more, points) =
      intern_nonempty-Interned (byte ∷ rest) (ensure_init s) (ensure_init-IsValid s v)
        (ensure_init-created s) (λ e. cc e) in
    (v', (λ n c h. more n c (ap (λ xs. get_elem? xs n) (ensure_init-strings s) ∙ h)), points)

PointsTo-Extends :
    (s s' : Interner) (p : StrPtr) (text : List ℕ)
    → Extends s s'
    → PointsTo s p text
    → PointsTo s' p text
PointsTo-Extends s s' empty_literal text more h = h
PointsTo-Extends s s' (allocated n) text more h = more n (terminated text) h

allocated-nonempty :
    (s : Interner) (n : ℕ) (text : List ℕ) → IsValid s → IsString s n text → text ≢ []
allocated-nonempty s n text v h =
    let (other, same, ne, _) = v.stored n (terminated text) h in
    λ e. ne (sym (terminated-injective text other same) ∙ e)

-- In a valid table, pointers are the same exactly if they point to the same text.
PointsTo-unique :
    (s : Interner) (p q : StrPtr) (x y : List ℕ)
    → IsValid s
    → PointsTo s p x
    → PointsTo s q y
    → (p ≡ q) ↔ (x ≡ y)
PointsTo-unique s empty_literal empty_literal x y v h g = ((λ e. h ∙ sym g), λ e. refl)
PointsTo-unique s empty_literal (allocated n) x y v h g =
    ((λ e. cc), λ e. absurd (allocated-nonempty s n y v g (sym e ∙ h)))
PointsTo-unique s (allocated m) empty_literal x y v h g =
    ((λ e. cc), λ e. absurd (allocated-nonempty s m x v h (e ∙ g)))
PointsTo-unique s (allocated m) (allocated n) x y v h g = (
  (λ e.
      let same : m ≡ n = cc in
      terminated-injective x y
        (some-injective (terminated x) (terminated y) (sym h ∙ ap (get_elem? s.strings) same ∙ g))),
  λ e. ap allocated (v.unique m n y (h ∙ ap (λ t. some (terminated t)) e) g),
)

-- What interning a list of strings promises.
abbrev AllInterned : Interner → List (List ℕ) → List StrPtr × Interner → Type 0
AllInterned s xs r =
    IsValid r.1
    × Extends s r.1
    × ((i : ℕ) (x : List ℕ) (p : StrPtr)
        → get_elem? xs i ≡ some x
        → get_elem? r.0 i ≡ some p
        → PointsTo r.1 p x)

intern_all-AllInterned :
    (xs : List (List ℕ)) (s : Interner) → IsValid s → AllInterned s xs (intern_all xs s)
unfolding intern_all
intern_all-AllInterned [] s v = (v, (λ n c h. h), (λ i x p h g. cc))
intern_all-AllInterned (bytes ∷ rest) s v =
    let (v1, more1, points1) = str_intern_range-Interned bytes s v in
    let first = str_intern_range bytes s in
    let (v2, more2, points2) = intern_all-AllInterned rest first.1 v1 in
    (v2, (λ n c h. more2 n c (more1 n c h)), at first more2 points1 points2)
  where
    at :
        (first : StrPtr × Interner)
        → Extends first.1 (intern_all rest first.1).1
        → PointsTo first.1 first.0 bytes
        → ((i : ℕ) (x : List ℕ) (p : StrPtr)
            → get_elem? rest i ≡ some x
            → get_elem? (intern_all rest first.1).0 i ≡ some p
            → PointsTo (intern_all rest first.1).1 p x)
        → (i : ℕ) (x : List ℕ) (p : StrPtr) → get_elem? (bytes ∷ rest) i ≡ some x
        → get_elem? (first.0 ∷ (intern_all rest first.1).0) i ≡ some p
        → PointsTo (intern_all rest first.1).1 p x
    at first more points later zero x p h g =
        let final = (intern_all rest first.1).1 in
        subst (λ q. PointsTo final q x) (some-injective first.0 p g)
          (subst (PointsTo final first.0) (some-injective bytes x h)
            (PointsTo-Extends first.1 final first.0 bytes more points))
    at first more points later (suc i) x p h g = later i x p h g

length-intern_all : (xs : List (List ℕ)) (s : Interner) → length (intern_all xs s).0 ≡ length xs
unfolding intern_all
length-intern_all [] s = refl
length-intern_all (bytes ∷ rest) s = ap suc (length-intern_all rest (str_intern_range bytes s).1)

-- Let any strings be interned in turn, from a table that was just destroyed. Each of them gets a
-- pointer; at the end a pointer still points to the bytes of its string; and the pointers of two
-- of the strings are the same exactly if the strings have the same bytes.
pub intern_all_unique :
    (s : Interner) (xs : List (List ℕ)) (i j : ℕ) (x y : List ℕ) (p q : StrPtr)
    → get_elem? xs i ≡ some x
    → get_elem? xs j ≡ some y
    → get_elem? (intern_all xs (str_intern_destroy s)).0 i ≡ some p
    → get_elem? (intern_all xs (str_intern_destroy s)).0 j ≡ some q
    → (length (intern_all xs (str_intern_destroy s)).0 ≡ length xs)
      × PointsTo (intern_all xs (str_intern_destroy s)).1 p x
      × ((p ≡ q) ↔ (x ≡ y))
intern_all_unique s xs i j x y p q at_x at_y at_p at_q =
    let start = str_intern_destroy s in
    let (v, _, points) = intern_all-AllInterned xs start (str_intern_destroy-IsValid s) in
    let to_x = points i x p at_x at_p in
    (
      length-intern_all xs start,
      to_x,
      PointsTo-unique (intern_all xs start).1 p q x y v to_x (points j y q at_y at_q),
    )
