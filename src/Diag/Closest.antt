-- ===== src/Diag/Closest.antt =====
-- The result of diag_find_closest against all candidates.
use winds.Base.{
  ℕ, ◌≤◌, ◌<◌, ◌≡◌, refl, sym, ap, subst, ◌⊎◌, inl, inr, false, ◌&&◌, Option, none, some, List, [],
  ◌∷◌, if◌then◌else◌, ltb, leb, arith, Bool-cases, Member, &&-both, leb→le, ltb→lt,
}
use mathlib.Core.Option.{some-injective}
use winds.Diag.{
  Table, Best, threshold_of, diag_levenshtein, consider, consider_all, diag_find_closest,
}

far_or_near :
    (c new threshold n : ℕ)
    → c ≡ new
    → n ≡ 999
    → threshold ≤ 3
    → (leb new threshold && ltb new n) ≡ false
    → threshold < c
far_or_near c new threshold n e k t h = ground (arith, e, k, t, h)

not_nearer :
    (old c new threshold n : ℕ)
    → c ≡ new
    → n ≡ old
    → old ≤ threshold
    → (leb new threshold && ltb new n) ≡ false
    → old ≤ c
not_nearer old c new threshold n e k t h = ground (arith, e, k, t, h)

module _ (tolower : ℕ → ℕ) (d : Table) (target : List ℕ) where
  abbrev pub distance_to : List ℕ → ℕ
  distance_to candidate = diag_levenshtein tolower d (some target) (some candidate)

  -- Of the candidates in `P`, every one is too far, or one is near enough and none is nearer.
  abbrev IsClosestOf : (Option (List ℕ) → Type 0) → Option (List ℕ) → Type 0
  IsClosestOf P none = (c : List ℕ) → P (some c) → threshold_of target < distance_to c
  IsClosestOf P (some best) =
      P (some best)
      × (distance_to best ≤ threshold_of target)
      × ((c : List ℕ) → P (some c) → distance_to best ≤ distance_to c)

  abbrev pub IsClosest : List (Option (List ℕ)) → Option (List ℕ) → Type 0
  IsClosest candidates = IsClosestOf (λ x. Member x candidates)

  -- The distance that is kept is that of the match.
  abbrev IsKept : ℕ → Option (List ℕ) → Type 0
  IsKept n none = n ≡ 999
  IsKept n (some c) = n ≡ distance_to c

  abbrev IsBest : (Option (List ℕ) → Type 0) → Best → Type 0
  IsBest P best = IsKept best.0 best.1 × IsClosestOf P best.1

  IsClosestOf-imp :
      (P Q : Option (List ℕ) → Type 0) (best : Option (List ℕ))
      → ((x : Option (List ℕ)) → P x → Q x)
      → ((x : Option (List ℕ)) → Q x → P x)
      → IsClosestOf P best
      → IsClosestOf Q best
  IsClosestOf-imp P Q none f g h = λ c q. h c (g (some c) q)
  IsClosestOf-imp P Q (some b) f g (m, near, least) =
      (f (some b) m, near, λ c q. least c (g (some c) q))

  threshold_of-le : threshold_of target ≤ 3
  threshold_of-le = ground arith

  abbrev And : (Option (List ℕ) → Type 0) → Option (List ℕ) → Option (List ℕ) → Type 0
  And P new x = P x ⊎ (x ≡ new)

  abbrev Or : (Option (List ℕ) → Type 0) → List (Option (List ℕ)) → Option (List ℕ) → Type 0
  Or P rest x = P x ⊎ Member x rest

  same_distance : (c e : List ℕ) → some c ≡ some e → distance_to c ≡ distance_to e
  same_distance c e h = ap distance_to (some-injective c e h)

  -- No string is a null pointer.
  IsClosestOf-null :
      (P : Option (List ℕ) → Type 0) (best : Option (List ℕ))
      → IsClosestOf P best
      → IsClosestOf (And P none) best
  IsClosestOf-null P none h = λ c p. elim p [ inl q ↦ h c q | inr e ↦ cc ]
  IsClosestOf-null P (some b) (m, near, least) =
      (inl m, near, λ c p. elim p [ inl q ↦ least c q | inr e ↦ cc ])

  -- A nearer candidate.
  closer-IsBest :
      (P : Option (List ℕ) → Type 0) (n : ℕ) (best : Option (List ℕ)) (new : List ℕ)
      → distance_to new ≤ threshold_of target
      → distance_to new < n
      → IsBest P (n, best)
      → IsBest (And P (some new)) (distance_to new, some new)
  closer-IsBest P n none new near lt (k, far) = (
    refl,
    (
      inr refl,
      near,
      λ c p. elim p [
        | inl q ↦ omega (arith, near, far c q)
        | inr e ↦ omega (arith, same_distance c new e)
      ],
    ),
  )
  closer-IsBest P n (some old) new near lt (k, (m, near', least)) = (
    refl,
    (
      inr refl,
      near,
      λ c p. elim p [
        | inl q ↦ omega (arith, k, lt, least c q)
        | inr e ↦ omega (arith, same_distance c new e)
      ],
    ),
  )

  -- A candidate that is too far, or no nearer.
  farther-IsBest :
      (P : Option (List ℕ) → Type 0) (n : ℕ) (best : Option (List ℕ)) (new : List ℕ)
      → (leb (distance_to new) (threshold_of target) && ltb (distance_to new) n) ≡ false
      → IsBest P (n, best)
      → IsBest (And P (some new)) (n, best)
  farther-IsBest P n none new h (k, far) = (
    k,
    λ c p. elim p [
      | inl q ↦ far c q
      | inr e ↦
          far_or_near (distance_to c) (distance_to new) (threshold_of target) n
            (same_distance c new e) k threshold_of-le h
    ],
  )
  farther-IsBest P n (some old) new h (k, (m, near, least)) = (
    k,
    (
      inl m,
      near,
      λ c p. elim p [
        | inl q ↦ least c q
        | inr e ↦
            not_nearer (distance_to old) (distance_to c) (distance_to new) (threshold_of target) n
              (same_distance c new e) k near h
      ],
    ),
  )

  consider-IsBest :
      (P : Option (List ℕ) → Type 0) (best : Best) (new : Option (List ℕ))
      → IsBest P best
      → IsBest (And P new) (consider tolower d target best new)
  unfolding consider
  consider-IsBest P (n, best) none (k, h) = (k, IsClosestOf-null P best h)
  consider-IsBest P (n, best) (some new) h =
      elim (Bool-cases (leb (distance_to new) (threshold_of target) && ltb (distance_to new) n)) [
        | inl b ↦
            let (near, nearer) = &&-both _ _ b in
            subst
              (λ x.
                IsBest (And P (some new)) (if x then (distance_to new, some new) else (n, best)))
              (sym b) (closer-IsBest P n best new (leb→le _ _ near) (ltb→lt _ _ nearer) h)
        | inr b ↦
            subst
              (λ x.
                IsBest (And P (some new)) (if x then (distance_to new, some new) else (n, best)))
              (sym b) (farther-IsBest P n best new b h)
      ]

  consider_all-IsBest :
      (P : Option (List ℕ) → Type 0) (best : Best) (rest : List (Option (List ℕ)))
      → IsBest P best
      → IsBest (Or P rest) (consider_all tolower d target best rest)
  unfolding consider_all
  consider_all-IsBest P best [] (k, h) = (
    k,
    IsClosestOf-imp P (Or P []) best.1 (λ x p. inl p) (λ x. elim [ inl p ↦ p | inr m ↦ absurd m ])
        h,
  )
  consider_all-IsBest P best (new ∷ rest) h =
      let (k, later) =
        consider_all-IsBest (And P new) (consider tolower d target best new) rest
          (consider-IsBest P best new h) in
      (
        k,
        IsClosestOf-imp (Or (And P new) rest) (Or P (new ∷ rest))
            (consider_all tolower d target best (new ∷ rest)).1
            (λ x. elim [ inl (inl p) ↦ inl p | inl (inr e) ↦ inr (inl e) | inr m ↦ inr (inr m) ])
            (λ x. elim [ inl p ↦ inl (inl p) | inr (inl e) ↦ inl (inr e) | inr (inr m) ↦ inr m ])
            later,
      )

  -- For a target and any candidates, some of which may be null pointers, the result is a null
  -- pointer only if the distance of every candidate is above the threshold; otherwise it is a
  -- candidate whose distance is not above the threshold and not above that of any other
  -- candidate.
  pub diag_find_closest-IsClosest :
      (candidates : List (Option (List ℕ)))
      → IsClosest candidates (diag_find_closest tolower d (some target) candidates)
  unfolding diag_find_closest
  diag_find_closest-IsClosest candidates =
      let (_, h) = consider_all-IsBest (λ x. ⊥) (999, none) candidates (refl, λ c p. absurd p) in
      IsClosestOf-imp (Or (λ x. ⊥) candidates) (λ x. Member x candidates)
        (diag_find_closest tolower d (some target) candidates)
        (λ x. elim [ inl p ↦ absurd p | inr m ↦ m ]) (λ x m. inr m) h
