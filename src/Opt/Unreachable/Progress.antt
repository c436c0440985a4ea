-- ===== src/Opt/Unreachable/Progress.antt =====
-- What marking adds, and when it says that something changed.
use winds.Base.{
  ℕ, zero, suc, ◌+◌, ◌≤◌, ◌<◌, ◌≡◌, refl, ◌∙◌, ◌⊎◌, inl, inr, Bool, true, false, Option, none, some,
  arith, if◌then◌else◌, ◌==◌, Bool-cases,
}
use winds.Opt.Unreachable.{ReachState, mark, mark_found}

-- Below `n` a block was added.
abbrev pub Added : ℕ → (ℕ → Bool) → (ℕ → Bool) → Type 0
Added n f g = (t : ℕ) × (t < n) × (f t ≡ false) × (g t ≡ true)

pub record Progress (n : ℕ) (s s' : ReachState) : Type 0 where
  pub grows : (t : ℕ) → s.0 t ≡ true → s'.0 t ≡ true
  pub same : s'.1 ≡ false → (s.1 ≡ false) × ((t : ℕ) → s'.0 t ≡ s.0 t)
  pub added : s'.1 ≡ true → (s.1 ≡ true) ⊎ Added n s.0 s'.0

module _ (n : ℕ) where
  pub Progress-refl : (s : ReachState) → Progress n s s
  Progress-refl s = record { grows = λ t h. h; same = λ h. (h, λ t. refl); added = λ h. inl h }

  pub Progress-trans :
      (s s' s'' : ReachState) → Progress n s s' → Progress n s' s'' → Progress n s s''
  Progress-trans s s' s'' p q = record {
    grows = λ t h. q.grows t (p.grows t h);
    same = λ h. let (b, e) = q.same h in let (a, d) = p.same b in (a, λ t. e t ∙ d t);
    added = λ h. elim (q.added h) [
      | inr (t, lt, a, b) ↦ inr (t, lt, earlier t a, b)
      | inl c ↦ elim (p.added c) [ inl d ↦ inl d | inr (t, lt, a, b) ↦ inr (t, lt, a, q.grows t b) ]
    ];
  }
    where
      earlier : (t : ℕ) → s'.0 t ≡ false → s.0 t ≡ false
      earlier t a = elim (Bool-cases (s.0 t)) [ inl h ↦ cc (p.grows t h, a) | inr h ↦ h ]

  pub mark-Progress : (t : ℕ) (s : ReachState) → t < n → Progress n s (mark t s)
  unfolding mark
  mark-Progress t s lt = elim (Bool-cases (s.0 t)) [
    | inl h ↦ rw h (Progress-refl s)
    | inr h ↦ rw h (record {
      grows = λ b g. ground arith;
      same = λ e. cc;
      added = λ e. inr (t, lt, h, ground arith);
    })
  ]

  pub mark_found-Progress :
      (o : Option ℕ) (s : ReachState)
      → ((t : ℕ) → o ≡ some t → t < n)
      → Progress n s (mark_found o s)
  unfolding mark_found
  mark_found-Progress none s h = Progress-refl s
  mark_found-Progress (some t) s h = mark-Progress t s (h t refl)

-- The number of marked blocks below `n`.
abbrev pub count_marked : (ℕ → Bool) → ℕ → ℕ
count_marked f zero = 0
count_marked f (suc n) = (if f n then 1 else 0) + count_marked f n

pub count_marked-le : (f : ℕ → Bool) (n : ℕ) → count_marked f n ≤ n
count_marked-le f zero = omega arith
count_marked-le f (suc n) = ground (arith, count_marked-le f n)

count_marked_mono :
    (f g : ℕ → Bool) (n : ℕ)
    → ((t : ℕ) → f t ≡ true → g t ≡ true)
    → count_marked f n ≤ count_marked g n
count_marked_mono f g zero h = omega arith
count_marked_mono f g (suc n) h = ground (arith, h n, count_marked_mono f g n h)

pub count_marked-Added :
    (f g : ℕ → Bool) (n : ℕ)
    → ((t : ℕ) → f t ≡ true → g t ≡ true)
    → Added n f g
    → count_marked f n < count_marked g n
count_marked-Added f g zero h (t, lt, a, b) = absurd (omega arith)
count_marked-Added f g (suc n) h (t, lt, a, b) = elim (Bool-cases (t == n)) [
  | inl e ↦ let q : t ≡ n = ground arith in ground (arith, count_marked_mono f g n h)
  | inr e ↦ ground (arith, h n, count_marked-Added f g n h (t, ground arith, a, b))
]
