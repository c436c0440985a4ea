-- ===== src/Regalloc/Run/Sorting.antt =====
-- What the allocator relies on in the C library's `qsort`, and the list that it hands to it.
use mathlib.Core.List.{Permᴰ}
use mathlib.Core.List.Permᴰ.{nil, cons, swap, trans}
use winds.Base.{
  ℕ, zero, suc, ◌+◌, ◌≤◌, ◌<◌, ◌≡◌, refl, sym, ◌∙◌, ap, subst, ◌≢◌, inl, inr, true, List, arith,
  Bool-cases, Member, All, ltb,
}
use native.Mathlib.Decide.{ℕ_discrete}
use winds.Regalloc.Types.{LiveInterval, position}
use winds.Regalloc.Ranges.{Intervals}
use winds.Regalloc.Scan.Interference.{SortedStarts, DistinctVregs}
use winds.Regalloc.Run.{valid_intervals}

-- The array comes back as a permutation of itself, by `compare_interval_start`.
pub record SortsByStart (qsort : List LiveInterval → List LiveInterval) : Type 0 where
  pub sorted : (xs : List LiveInterval) → SortedStarts (qsort xs)
  pub permutes : (xs : List LiveInterval) → Permᴰ xs (qsort xs)

pub Permᴰ-Member :
    {xs ys : List LiveInterval} (c : LiveInterval) → Permᴰ xs ys → Member c xs → Member c ys
Permᴰ-Member c nil m = m
Permᴰ-Member c (cons e d) (inl q) = inl (q ∙ e)
Permᴰ-Member c (cons e d) (inr m) = inr (Permᴰ-Member c d m)
Permᴰ-Member c (swap e f) (inl q) = inr (inl (q ∙ e))
Permᴰ-Member c (swap e f) (inr (inl q)) = inl (q ∙ f)
Permᴰ-Member c (swap e f) (inr (inr m)) = inr (inr m)
Permᴰ-Member c (trans d d') m = Permᴰ-Member c d' (Permᴰ-Member c d m)

Permᴰ-All :
    {xs ys : List LiveInterval} (P : LiveInterval → Type 0) → Permᴰ xs ys → All P xs → All P ys
Permᴰ-All P nil h = h
Permᴰ-All P (cons e d) h = (subst P e h.0, Permᴰ-All P d h.1)
Permᴰ-All P (swap e f) h = (subst P f h.1.0, (subst P e h.0, h.1.1))
Permᴰ-All P (trans d d') h = Permᴰ-All P d' (Permᴰ-All P d h)

pub Permᴰ-DistinctVregs :
    {xs ys : List LiveInterval} → Permᴰ xs ys → DistinctVregs xs → DistinctVregs ys
Permᴰ-DistinctVregs nil h = h
Permᴰ-DistinctVregs (cons {l₂ = l} e d) h = (
  subst (λ (a : LiveInterval). All (λ y. a.vreg ≢ y.vreg) l) e (Permᴰ-All _ d h.0),
  Permᴰ-DistinctVregs d h.1,
)
Permᴰ-DistinctVregs (swap {l = l} e f) h = (
  (
    λ q.
        h.0.0
          (ap (λ (x : LiveInterval). x.vreg) e ∙ sym q ∙ sym (ap (λ (x : LiveInterval). x.vreg) f)),
    subst (λ (a : LiveInterval). All (λ y. a.vreg ≢ y.vreg) l) f h.1.0,
  ),
  (subst (λ (a : LiveInterval). All (λ y. a.vreg ≢ y.vreg) l) e h.0.1, h.1.1),
)
Permᴰ-DistinctVregs (trans d d') h = Permᴰ-DistinctVregs d' (Permᴰ-DistinctVregs d h)

module _ (iv : Intervals) where
  pub valid_intervals-Member :
      (v k w : ℕ)
      → v ≤ w
      → w < v + k
      → 0 < position (iv w).start_inst
      → Member (iv w) (valid_intervals iv v k)
  unfolding valid_intervals
  valid_intervals-Member v zero w lo hi h = absurd (omega arith)
  valid_intervals-Member v (suc k) w lo hi h = elim (ℕ_discrete v w) [
    | yes e ↦
        subst (λ x. Member (iv x) (valid_intervals iv v (suc k))) e
          (rw (ltb_of (subst (λ x. 0 < position (iv x).start_inst) (sym e) h)) (inl refl))
    | no ne ↦ add (valid_intervals-Member (suc v) k w (omega arith) (omega arith) h)
  ]
    where
      ltb_of : 0 < position (iv v).start_inst → ltb 0 (position (iv v).start_inst) ≡ true
      ltb_of p = ground arith

      add :
          Member (iv w) (valid_intervals iv (suc v) k)
          → Member (iv w) (valid_intervals iv v (suc k))
      add m = elim (Bool-cases (ltb 0 (position (iv v).start_inst))) [
        | inl b ↦ rw b (inr m)
        | inr b ↦ rw b m
      ]

  module _ (own : (v : ℕ) → (iv v).vreg ≡ v) where
    valid_intervals_above :
        (v k : ℕ) (u : ℕ) → u < v → All (λ y. u ≢ y.vreg) (valid_intervals iv v k)
    unfolding valid_intervals
    valid_intervals_above v zero u h = tt
    valid_intervals_above v (suc k) u h = elim (Bool-cases (ltb 0 (position (iv v).start_inst))) [
      | inl b ↦ rw b (omega (arith, own v), valid_intervals_above (suc v) k u (omega arith))
      | inr b ↦ rw b (valid_intervals_above (suc v) k u (omega arith))
    ]

    pub valid_intervals-DistinctVregs : (v k : ℕ) → DistinctVregs (valid_intervals iv v k)
    unfolding valid_intervals
    valid_intervals-DistinctVregs v zero = tt
    valid_intervals-DistinctVregs v (suc k) =
        elim (Bool-cases (ltb 0 (position (iv v).start_inst))) [
          | inl b ↦ rw b (
            subst (λ x. All (λ y. x ≢ y.vreg) (valid_intervals iv (suc v) k)) (sym (own v))
                (valid_intervals_above (suc v) k v (omega arith)),
            valid_intervals-DistinctVregs (suc v) k,
          )
          | inr b ↦ rw b (valid_intervals-DistinctVregs (suc v) k)
        ]
