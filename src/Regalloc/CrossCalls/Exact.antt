-- ===== src/Regalloc/CrossCalls/Exact.antt =====
-- The intervals that pass 3 marks, against the calls.
use winds.Base.{
  ℕ, zero, suc, ◌+◌, ◌≤◌, ◌<◌, ◌≡◌, refl, sym, ◌∙◌, ap, subst, inl, inr, ◌↔◌, true, false, none,
  some, List, [], ◌∷◌, arith, Bool-cases, get_elem?, get_or, length, if◌then◌else◌, ltb,
}
use native.Mathlib.Decide.{ℕ_discrete}
use winds.Ir.{IrInst, is_call}
use winds.Regalloc.Types.{LiveInterval, InstIndex, set_vreg, set_vreg_self, set_vreg_ne}
use winds.Regalloc.Ranges.{Intervals}
use winds.Regalloc.CrossCalls.{has_calls, call_prefix, mark_interval, mark_from, mark_calls}

-- How many of the first `k` instructions are calls.
calls_below : List IrInst → ℕ → ℕ
calls_below xs zero = 0
calls_below [] (suc k) = 0
calls_below (x ∷ xs) (suc k) = (if is_call x.op then 1 else 0) + calls_below xs k

-- The instruction `i` is a call.
abbrev pub IsCallAt : List IrInst → ℕ → Type 0
IsCallAt xs i = (inst : IrInst) × (get_elem? xs i ≡ some inst) × (is_call inst.op ≡ true)

call_prefix-calls_below :
    (n : ℕ) (xs : List IrInst) (k : ℕ)
    → k ≤ length xs
    → get_or (call_prefix n xs) k 0 ≡ n + calls_below xs k
unfolding call_prefix calls_below
call_prefix-calls_below n [] zero h = omega arith
call_prefix-calls_below n [] (suc k) h = absurd (omega arith)
call_prefix-calls_below n (x ∷ xs) zero h = omega arith
call_prefix-calls_below n (x ∷ xs) (suc k) h =
    omega (arith, call_prefix-calls_below (n + (if is_call x.op then 1 else 0)) xs k)

-- More calls below `b` than below `a`: one of them stands between.
calls_between :
    (xs : List IrInst) (a b : ℕ)
    → calls_below xs a < calls_below xs b
    → (i : ℕ) × (a ≤ i) × (i < b) × IsCallAt xs i
unfolding calls_below
calls_between [] zero zero h = absurd (omega arith)
calls_between [] zero (suc b) h = absurd (omega arith)
calls_between [] (suc a) zero h = absurd (omega arith)
calls_between [] (suc a) (suc b) h = absurd (omega arith)
calls_between (x ∷ xs) a zero h = absurd (omega arith)
calls_between (x ∷ xs) zero (suc b) h = elim (Bool-cases (is_call x.op)) [
  | inl c ↦ (0, omega arith, omega arith, (x, refl, c))
  | inr c ↦
      let (i, lo, hi, at) = calls_between xs zero b (ground arith) in
      (suc i, omega arith, omega arith, at)
]
calls_between (x ∷ xs) (suc a) (suc b) h =
    let (i, lo, hi, at) = calls_between xs a b (ground arith) in
    (suc i, omega arith, omega arith, at)

calls_below_mono : (xs : List IrInst) (a b : ℕ) → a ≤ b → calls_below xs a ≤ calls_below xs b
unfolding calls_below
calls_below_mono xs zero b h = omega arith
calls_below_mono [] (suc a) b h = omega arith
calls_below_mono (x ∷ xs) (suc a) zero h = absurd (omega arith)
calls_below_mono (x ∷ xs) (suc a) (suc b) h = omega (arith, calls_below_mono xs a b (omega arith))

calls_below_strict :
    (xs : List IrInst) (a b i : ℕ)
    → a ≤ i
    → i < b
    → IsCallAt xs i
    → calls_below xs a < calls_below xs b
unfolding calls_below
calls_below_strict [] a b i lo hi (inst, e, c) = cc
calls_below_strict (x ∷ xs) a zero i lo hi at = absurd (omega arith)
calls_below_strict (x ∷ xs) (suc a) (suc b) zero lo hi at = absurd (omega arith)
calls_below_strict (x ∷ xs) zero (suc b) zero lo hi (inst, e, c) = ground arith
calls_below_strict (x ∷ xs) zero (suc b) (suc i) lo hi at =
    omega (arith, calls_below_strict xs zero b i (omega arith) (omega arith) at)
calls_below_strict (x ∷ xs) (suc a) (suc b) (suc i) lo hi at =
    omega (arith, calls_below_strict xs a b i (omega arith) (omega arith) at)

mark_from_outside :
    (prefix : List ℕ) (iv : Intervals) (v k w : ℕ) → w < v → mark_from prefix iv v k w ≡ iv w
unfolding mark_from
mark_from_outside prefix iv v zero w h = refl
mark_from_outside prefix iv v (suc k) w h =
    mark_from_outside prefix (set_vreg iv v (mark_interval prefix (iv v) (iv v).start_inst)) (suc v)
      k w (omega arith)
    ∙ set_vreg_ne iv v w _ (ground arith)

mark_from_inside :
    (prefix : List ℕ) (iv : Intervals) (v k w : ℕ)
    → v ≤ w
    → w < v + k
    → mark_from prefix iv v k w ≡ mark_interval prefix (iv w) (iv w).start_inst
unfolding mark_from
mark_from_inside prefix iv v zero w lo hi = absurd (omega arith)
mark_from_inside prefix iv v (suc k) w lo hi = elim (ℕ_discrete v w) [
  | yes e ↦
      subst
        (λ x. mark_from prefix marked (suc v) k x ≡ mark_interval prefix (iv x) (iv x).start_inst) e
        (mark_from_outside prefix marked (suc v) k v (omega arith) ∙ set_vreg_self iv v _)
  | no ne ↦
      mark_from_inside prefix marked (suc v) k w (omega arith) (omega arith)
      ∙ ap (λ (c : LiveInterval). mark_interval prefix c c.start_inst)
          (set_vreg_ne iv v w _ (λ q. ne (sym q)))
]
  where
    marked : Intervals
    marked = set_vreg iv v (mark_interval prefix (iv v) (iv v).start_inst)

has_calls_found : (xs : List IrInst) (i : ℕ) → IsCallAt xs i → has_calls xs ≡ true
unfolding has_calls
has_calls_found [] i (inst, e, c) = cc
has_calls_found (x ∷ xs) zero (inst, e, c) = ground arith
has_calls_found (x ∷ xs) (suc i) at = ground (arith, has_calls_found xs i at)

-- The same register and range.
abbrev pub SameRange : LiveInterval → LiveInterval → Type 0
SameRange a b = (b.vreg ≡ a.vreg) × (b.start_inst ≡ a.start_inst) × (b.end_inst ≡ a.end_inst)

mark_interval-SameRange :
    (prefix : List ℕ) (c : LiveInterval) (s : InstIndex) → SameRange c (mark_interval prefix c s)
unfolding mark_interval
mark_interval-SameRange prefix c none = (refl, refl, refl)
mark_interval-SameRange prefix c (some s) = (refl, refl, refl)

mark_from-SameRange :
    (prefix : List ℕ) (iv : Intervals) (v k w : ℕ) → SameRange (iv w) (mark_from prefix iv v k w)
unfolding mark_from
mark_from-SameRange prefix iv v zero w = (refl, refl, refl)
mark_from-SameRange prefix iv v (suc k) w = elim (ℕ_discrete v w) [
  | yes e ↦
      subst (λ x. SameRange (iv x) (mark_from prefix marked (suc v) k x)) e
        (rw (mark_from_outside prefix marked (suc v) k v (omega arith), set_vreg_self iv v mine)
          (mark_interval-SameRange prefix (iv v) (iv v).start_inst))
  | no ne ↦
      subst (λ c. SameRange c (mark_from prefix marked (suc v) k w))
        (set_vreg_ne iv v w mine (λ q. ne (sym q))) (mark_from-SameRange prefix marked (suc v) k w)
]
  where
    mine : LiveInterval
    mine = mark_interval prefix (iv v) (iv v).start_inst

    marked : Intervals
    marked = set_vreg iv v mine

-- Marking changes nothing of an interval but its mark.
pub mark_calls-SameRange :
    (xs : List IrInst) (count : ℕ) (iv : Intervals) (w : ℕ)
    → SameRange (iv w) (mark_calls xs count iv w)
unfolding mark_calls
mark_calls-SameRange xs count iv w = elim (Bool-cases (has_calls xs)) [
  | inl c ↦ rw c (mark_from-SameRange (call_prefix 0 xs) iv 1 count w)
  | inr c ↦ rw c (refl, refl, refl)
]

-- Some instruction of the interval from `a` to `b` is a call.
abbrev pub CallWithin : List IrInst → ℕ → ℕ → Type 0
CallWithin xs a b = (i : ℕ) × (a ≤ i) × (i ≤ b) × IsCallAt xs i

mark_interval-crosses_call :
    (xs : List IrInst) (c : LiveInterval) (a b : ℕ)
    → c.end_inst ≡ some b
    → a ≤ b
    → b < length xs
    → ((mark_interval (call_prefix 0 xs) c (some a)).crosses_call ≡ true) ↔ CallWithin xs a b
unfolding mark_interval
mark_interval-crosses_call xs c a b eb le lt =
    rw (eb, call_prefix-calls_below 0 xs a (omega arith), call_prefix-calls_below 0 xs (suc b) lt)
      (between, λ (i, lo, hi, at). crossed (calls_below_strict xs a (suc b) i lo (omega arith) at))
  where
    between : ltb (0 + calls_below xs a) (0 + calls_below xs (suc b)) ≡ true → CallWithin xs a b
    between h =
        let (i, lo, hi, at) = calls_between xs a (suc b) (ground arith) in (i, lo, omega arith, at)

    crossed :
        calls_below xs a < calls_below xs (suc b)
        → ltb (0 + calls_below xs a) (0 + calls_below xs (suc b)) ≡ true
    crossed h = ground arith

-- A range is marked exactly when one of its instructions is a call, its ends included.
pub mark_calls-crosses_call :
    (xs : List IrInst) (count : ℕ) (iv : Intervals) (v a b : ℕ)
    → 0 < v
    → v ≤ count
    → (iv v).start_inst ≡ some a
    → (iv v).end_inst ≡ some b
    → a ≤ b
    → b < length xs
    → (iv v).crosses_call ≡ false
    → ((mark_calls xs count iv v).crosses_call ≡ true) ↔ CallWithin xs a b
unfolding mark_calls mark_interval
mark_calls-crosses_call xs count iv v a b lo hi sa eb le lt off = elim (Bool-cases (has_calls xs)) [
  | inl c ↦
      rw (c, mark_from_inside (call_prefix 0 xs) iv 1 count v lo (omega arith), sa)
        (mark_interval-crosses_call xs (iv v) a b eb le lt)
  | inr c ↦ rw c (λ h. cc, λ (i, _, _, at). cc (has_calls_found xs i at))
]
