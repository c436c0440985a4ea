-- ===== src/Regalloc/Extend/Terminates.antt =====
-- The rounds of pass 2, counted by the lengths of the ranges.
use winds.Base.{
  ℕ, zero, suc, ◌+◌, ◌*◌, ◌≤◌, ◌<◌, ◌≡◌, refl, sym, subst, ◌⊎◌, inl, inr, true, false, Option, none,
  some, List, [], ◌∷◌, arith, Bool-cases, ltb, length,
}
use native.Mathlib.Decide.{ℕ_discrete}
use winds.Ir.{IrInst, is_jump}
use winds.Regalloc.Types.{LiveInterval, position}
use winds.Regalloc.Ranges.{Intervals}
use winds.Regalloc.Extend.{
  LabelPos, find_label_pos, ExtendState, extend_vreg, extend_vregs, extend_at, extend_inst,
  extend_pass, extend_loop,
}

-- f v + f (v + 1) + … over `k` terms.
total : (ℕ → ℕ) → ℕ → ℕ → ℕ
total f v zero = 0
total f v (suc k) = f v + total f (suc v) k

total_mono : (f g : ℕ → ℕ) (v k : ℕ) → ((w : ℕ) → f w ≤ g w) → total f v k ≤ total g v k
unfolding total
total_mono f g v zero h = omega arith
total_mono f g v (suc k) h = omega (arith, h v, total_mono f g (suc v) k h)

total_strict :
    (f g : ℕ → ℕ) (v k w : ℕ)
    → ((x : ℕ) → f x ≤ g x)
    → v ≤ w
    → w < v + k
    → f w < g w
    → total f v k < total g v k
unfolding total
total_strict f g v zero w h lo hi lt = absurd (omega arith)
total_strict f g v (suc k) w h lo hi lt = elim (ℕ_discrete v w) [
  | yes e ↦ omega (arith, subst (λ x. f x < g x) (sym e) lt, total_mono f g (suc v) k h)
  | no ne ↦ omega (arith, h v, total_strict f g (suc v) k w h (omega arith) (omega arith) lt)
]

total-le : (f : ℕ → ℕ) (v k n : ℕ) → ((w : ℕ) → f w ≤ n) → total f v k ≤ k * n
unfolding total
total-le f v zero n h = omega arith
total-le f v (suc k) n h = omega (arith, h v, total-le f (suc v) k n h)

abbrev ends : Intervals → ℕ → ℕ
ends iv w = position (iv w).end_inst

-- `b` is `a` with its end moved on, if at all.
abbrev pub Extended : LiveInterval → LiveInterval → Type 0
Extended a b =
    (b.vreg ≡ a.vreg)
    × (b.start_inst ≡ a.start_inst)
    × (position a.end_inst ≤ position b.end_inst)
    × (b.crosses_call ≡ a.crosses_call)

module _ (count n : ℕ) where
  -- A part of the pass lengthens ranges within the function, and marks every change.
  record Progress (s s' : ExtendState) : Type 0 where
    extends : (w : ℕ) → Extended (s.0 w) (s'.0 w)
    bounded : ((w : ℕ) → ends s.0 w ≤ n) → (w : ℕ) → ends s'.0 w ≤ n
    grown : s'.1 ≡ true → (s.1 ≡ true) ⊎ (total (ends s.0) 1 count < total (ends s'.0) 1 count)

  Progress-refl : (s : ExtendState) → Progress s s
  Progress-refl s = record {
    extends = λ w. (refl, refl, omega arith, refl);
    bounded = λ h. h;
    grown = λ h. inl h;
  }

  Progress-trans : (s t u : ExtendState) → Progress s t → Progress t u → Progress s u
  Progress-trans s t u p q = record {
    extends = λ w. ground (arith, p.extends w, q.extends w);
    bounded = λ h. q.bounded (p.bounded h);
    grown = λ h. elim (q.grown h) [
      | inl h' ↦ elim (p.grown h') [ inl h'' ↦ inl h'' | inr lt ↦ inr (omega (arith, lt, later)) ]
      | inr lt ↦ inr (omega (arith, lt, sooner))
    ];
  }
    where
      later : total (ends t.0) 1 count ≤ total (ends u.0) 1 count
      later = total_mono _ _ 1 count (λ w. (q.extends w).2)

      sooner : total (ends s.0) 1 count ≤ total (ends t.0) 1 count
      sooner = total_mono _ _ 1 count (λ w. (p.extends w).2)

  extend_vreg-Extended :
      (t j : ℕ) (s : ExtendState) (v w : ℕ) → Extended (s.0 w) ((extend_vreg t j s v).0 w)
  unfolding extend_vreg
  extend_vreg-Extended t j s v w = ground arith

  extend_vreg-Progress :
      (t j : ℕ) (s : ExtendState) (v : ℕ)
      → j < n
      → 0 < v
      → v ≤ count
      → Progress s (extend_vreg t j s v)
  extend_vreg-Progress t j s v lt lo hi = record {
    extends = λ w. extend_vreg-Extended t j s v w;
    bounded = λ h w. within w (h w);
    grown = λ h. elim (changed h) [
      | inl q ↦ inl q
      | inr l ↦
          inr (
            total_strict _ _ 1 count v (λ w. (extend_vreg-Extended t j s v w).2) lo (omega arith) l)
    ];
  }
    where
      within : (w : ℕ) → ends s.0 w ≤ n → ends (extend_vreg t j s v).0 w ≤ n
      within w h = unfold extend_vreg in ground arith

      changed :
          (extend_vreg t j s v).1 ≡ true
          → (s.1 ≡ true) ⊎ (ends s.0 v < ends (extend_vreg t j s v).0 v)
      changed h = unfold extend_vreg in ground arith

  extend_vregs-Progress :
      (t j : ℕ) (s : ExtendState) (v k : ℕ)
      → j < n
      → 0 < v
      → v + k ≤ suc count
      → Progress s (extend_vregs t j s v k)
  unfolding extend_vregs
  extend_vregs-Progress t j s v zero lt lo hi = Progress-refl s
  extend_vregs-Progress t j s v (suc k) lt lo hi =
      Progress-trans s (extend_vreg t j s v) (extend_vregs t j (extend_vreg t j s v) (suc v) k)
        (extend_vreg-Progress t j s v lt lo (omega arith))
        (extend_vregs-Progress t j (extend_vreg t j s v) (suc v) k lt (omega arith) (omega arith))

  extend_at-Progress :
      (o : Option ℕ) (j : ℕ) (s : ExtendState) → j < n → Progress s (extend_at o count j s)
  unfolding extend_at
  extend_at-Progress none j s lt = Progress-refl s
  extend_at-Progress (some t) j s lt = elim (Bool-cases (ltb t j)) [
    | inl b ↦ rw b (extend_vregs-Progress t j s 1 count lt (omega arith) (omega arith))
    | inr b ↦ rw b (Progress-refl s)
  ]

  extend_inst-Progress :
      (labels : List LabelPos) (j : ℕ) (inst : IrInst) (s : ExtendState)
      → j < n
      → Progress s (extend_inst labels count j inst s)
  unfolding extend_inst
  extend_inst-Progress labels j inst s lt = elim (Bool-cases (is_jump inst.op)) [
    | inl b ↦ rw b (extend_at-Progress (find_label_pos labels inst.dest.label) j s lt)
    | inr b ↦ rw b (Progress-refl s)
  ]

  extend_pass-Progress :
      (labels : List LabelPos) (j : ℕ) (insts : List IrInst) (s : ExtendState)
      → j + length insts ≤ n
      → Progress s (extend_pass labels count j insts s)
  unfolding extend_pass
  extend_pass-Progress labels j [] s le = Progress-refl s
  extend_pass-Progress labels j (x ∷ xs) s le =
      Progress-trans s (extend_inst labels count j x s)
        (extend_pass labels count (suc j) xs (extend_inst labels count j x s))
        (extend_inst-Progress labels j x s (omega arith))
        (extend_pass-Progress labels (suc j) xs (extend_inst labels count j x s) (omega arith))

  -- The loop ends with fuel `fuel`, and only moves ends on within the function.
  abbrev pub Ends : ℕ → List LabelPos → List IrInst → Intervals → Type 0
  Ends fuel labels insts iv =
      (out : Intervals) × (extend_loop fuel labels count insts iv ≡ some out)
      × ((w : ℕ) → Extended (iv w) (out w))
      × ((w : ℕ) → position (out w).end_inst ≤ n)

  loop-Ends :
      (fuel : ℕ) (labels : List LabelPos) (insts : List IrInst) (iv : Intervals)
      → length insts ≤ n
      → ((w : ℕ) → ends iv w ≤ n)
      → count * n < fuel + total (ends iv) 1 count
      → Ends fuel labels insts iv
  unfolding extend_loop
  loop-Ends zero labels insts iv le bound enough =
      absurd (omega (arith, total-le (ends iv) 1 count n bound))
  loop-Ends (suc fuel) labels insts iv le bound enough =
      elim (Bool-cases (extend_pass labels count 0 insts (iv, false)).1) [
        | inl c ↦
            let (out, e, longer, within) =
              loop-Ends fuel labels insts (extend_pass labels count 0 insts (iv, false)).0 le
                (pass.bounded bound) (omega (arith, again c)) in
            (out, rw c e, (λ w. ground (arith, pass.extends w, longer w)), within)
        | inr c ↦ (
          (extend_pass labels count 0 insts (iv, false)).0,
          rw c,
          pass.extends,
          pass.bounded bound,
        )
      ]
    where
      pass : Progress (iv, false) (extend_pass labels count 0 insts (iv, false))
      pass = extend_pass-Progress labels 0 insts (iv, false) (omega arith)

      again :
          (extend_pass labels count 0 insts (iv, false)).1 ≡ true
          → total (ends iv) 1 count
            < total (ends (extend_pass labels count 0 insts (iv, false)).0) 1 count
      again c = elim (pass.grown c) [ inl q ↦ cc | inr lt ↦ lt ]

  pub extend_loop-Ends :
      (labels : List LabelPos) (insts : List IrInst) (iv : Intervals)
      → length insts ≤ n
      → ((w : ℕ) → position (iv w).end_inst ≤ n)
      → Ends (suc (count * n)) labels insts iv
  extend_loop-Ends labels insts iv le bound =
      loop-Ends (suc (count * n)) labels insts iv le bound (omega arith)
