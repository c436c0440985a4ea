-- ===== src/Regalloc/Extend/Closed.antt =====
-- The ranges after a round of pass 2 that changes nothing, against the backward jumps.
use winds.Base.{
  ℕ, zero, suc, ◌+◌, ◌≤◌, ◌<◌, ◌≡◌, refl, sym, ◌∙◌, ap, subst, inl, inr, true, false, Option, none,
  some, List, [], ◌∷◌, arith, Bool-cases, get_elem?, ltb,
}
use mathlib.Core.Option.{some-injective}
use native.Mathlib.Decide.{ℕ_discrete}
use winds.Ir.{IrInst, is_jump}
use winds.Regalloc.Types.{LiveInterval, position}
use winds.Regalloc.Extend.{
  LabelPos, find_label_pos, ExtendState, extend_vreg, extend_vregs, extend_at, extend_inst,
  extend_pass, extend_loop,
}
use winds.Regalloc.Ranges.{Intervals}

-- A range that is live at the jump's target, or begins inside the loop, reaches the jump `j`.
abbrev pub ClosedAt : LiveInterval → ℕ → ℕ → Type 0
ClosedAt c target j =
    0 < position c.start_inst
    → position c.start_inst ≤ suc j
    → suc target ≤ position c.end_inst
    → suc j ≤ position c.end_inst

extend_vreg_quiet :
    (t j : ℕ) (s : ExtendState) (v : ℕ)
    → (extend_vreg t j s v).1 ≡ false
    → (extend_vreg t j s v ≡ s) × ClosedAt (s.0 v) t j
unfolding extend_vreg
extend_vreg_quiet t j s v h = ground arith

extend_vregs_quiet :
    (t j : ℕ) (s : ExtendState) (v k : ℕ)
    → (extend_vregs t j s v k).1 ≡ false
    → (extend_vregs t j s v k ≡ s) × ((w : ℕ) → v ≤ w → w < v + k → ClosedAt (s.0 w) t j)
unfolding extend_vregs
extend_vregs_quiet t j s v zero h = (refl, λ w lo hi. absurd (omega arith))
extend_vregs_quiet t j s v (suc k) h =
    let (same_rest, rest) = extend_vregs_quiet t j (extend_vreg t j s v) (suc v) k h in
    let (same, here) = extend_vreg_quiet t j s v (sym (ap (λ x. x.1) same_rest) ∙ h) in
    (same_rest ∙ same, λ w lo hi. closed same rest here w lo hi)
  where
    closed :
        extend_vreg t j s v ≡ s
        → ((w : ℕ) → suc v ≤ w → w < suc v + k → ClosedAt ((extend_vreg t j s v).0 w) t j)
        → ClosedAt (s.0 v) t j
        → (w : ℕ) → v ≤ w
        → w < v + suc k
        → ClosedAt (s.0 w) t j
    closed same rest here w lo hi = elim (ℕ_discrete v w) [
      | yes e ↦ subst (λ x. ClosedAt (s.0 x) t j) e here
      | no ne ↦
          subst (λ (x : ExtendState). ClosedAt (x.0 w) t j) same
            (rest w (omega arith) (omega arith))
    ]

-- What a backward jump to `o` asks of the registers up to `vreg_count`.
abbrev pub ClosedFor : Intervals → ℕ → ℕ → Option ℕ → Type 0
ClosedFor iv vreg_count j o =
    (t w : ℕ) → o ≡ some t → t < j → 0 < w → w ≤ vreg_count → ClosedAt (iv w) t j

extend_at_quiet :
    (o : Option ℕ) (n j : ℕ) (s : ExtendState)
    → (extend_at o n j s).1 ≡ false
    → (extend_at o n j s ≡ s) × ClosedFor s.0 n j o
unfolding extend_at
extend_at_quiet none n j s h = (refl, λ t w e. cc)
extend_at_quiet (some target) n j s h = elim (Bool-cases (ltb target j)) [
  | inl b ↦ backward (rw b at h) (rw b)
  | inr b ↦ (rw b, λ t w e lt. absurd (omega (arith, some-injective target t e, not_below b)))
]
  where
    not_below : ltb target j ≡ false → j ≤ target
    not_below b = ground arith

    backward :
        (extend_vregs target j s 1 n).1 ≡ false
        → extend_at (some target) n j s ≡ extend_vregs target j s 1 n
        → (extend_at (some target) n j s ≡ s) × ClosedFor s.0 n j (some target)
    backward q same =
        let (e, c) = extend_vregs_quiet target j s 1 n q in
        (
          same ∙ e,
          λ t w eq lt lo hi.
              subst (λ x. ClosedAt (s.0 w) x j) (some-injective target t eq) (c w lo (omega arith)),
        )

extend_inst_quiet :
    (labels : List LabelPos) (n j : ℕ) (inst : IrInst) (s : ExtendState)
    → (extend_inst labels n j inst s).1 ≡ false
    → (extend_inst labels n j inst s ≡ s)
      × (is_jump inst.op ≡ true → ClosedFor s.0 n j (find_label_pos labels inst.dest.label))
unfolding extend_inst
extend_inst_quiet labels n j inst s h = elim (Bool-cases (is_jump inst.op)) [
  | inl b ↦
      let (e, c) = extend_at_quiet (find_label_pos labels inst.dest.label) n j s (rw b at h) in
      (rw b e, λ _. c)
  | inr b ↦ (rw b, λ q. cc)
]

extend_pass_quiet :
    (labels : List LabelPos) (n j : ℕ) (insts : List IrInst) (s : ExtendState)
    → (extend_pass labels n j insts s).1 ≡ false
    → (extend_pass labels n j insts s ≡ s)
      × ((m : ℕ) (inst : IrInst)
          → get_elem? insts m ≡ some inst
          → is_jump inst.op ≡ true
          → ClosedFor s.0 n (j + m) (find_label_pos labels inst.dest.label))
unfolding extend_pass
extend_pass_quiet labels n j [] s h = (refl, λ m inst e. cc)
extend_pass_quiet labels n j (x ∷ xs) s h =
    let (same_rest, rest) = extend_pass_quiet labels n (suc j) xs (extend_inst labels n j x s) h in
    let (same, here) = extend_inst_quiet labels n j x s (sym (ap (λ y. y.1) same_rest) ∙ h) in
    (same_rest ∙ same, closed same rest here)
  where
    closed :
        extend_inst labels n j x s ≡ s
        → ((m : ℕ) (inst : IrInst)
            → get_elem? xs m ≡ some inst
            → is_jump inst.op ≡ true
            → ClosedFor
                (extend_inst labels n j x s).0
                n
                (suc j + m)
                (find_label_pos labels inst.dest.label))
        → (is_jump x.op ≡ true → ClosedFor s.0 n j (find_label_pos labels x.dest.label))
        → (m : ℕ) (inst : IrInst) → get_elem? (x ∷ xs) m ≡ some inst
        → is_jump inst.op ≡ true
        → ClosedFor s.0 n (j + m) (find_label_pos labels inst.dest.label)
    closed same rest here zero inst e b =
        let q = some-injective x inst e in
        subst (λ k. ClosedFor s.0 n k (find_label_pos labels inst.dest.label)) (omega arith)
          (subst (λ (y : IrInst). ClosedFor s.0 n j (find_label_pos labels y.dest.label)) q
            (here (subst (λ (y : IrInst). is_jump y.op ≡ true) (sym q) b)))
    closed same rest here (suc m) inst e b =
        subst (λ k. ClosedFor s.0 n k (find_label_pos labels inst.dest.label)) (omega arith)
          (subst
            (λ (y : ExtendState).
              ClosedFor y.0 n (suc j + m) (find_label_pos labels inst.dest.label))
            same (rest m inst e b))

-- When the loop ends, a range that meets a loop's body reaches the loop's backward jump.
pub extend_loop-Closed :
    (fuel : ℕ) (labels : List LabelPos) (n : ℕ) (insts : List IrInst) (iv out : Intervals)
    → extend_loop fuel labels n insts iv ≡ some out
    → (m : ℕ) (inst : IrInst) → get_elem? insts m ≡ some inst
    → is_jump inst.op ≡ true
    → ClosedFor out n m (find_label_pos labels inst.dest.label)
unfolding extend_loop
extend_loop-Closed zero labels n insts iv out h m inst e b = cc
extend_loop-Closed (suc fuel) labels n insts iv out h m inst e b =
    elim (Bool-cases (extend_pass labels n 0 insts (iv, false)).1) [
      | inl c ↦ extend_loop-Closed fuel labels n insts _ out (rw c at h) m inst e b
      | inr c ↦ finished c (some-injective _ _ (rw c at h))
    ]
  where
    finished :
        (extend_pass labels n 0 insts (iv, false)).1 ≡ false
        → (extend_pass labels n 0 insts (iv, false)).0 ≡ out
        → ClosedFor out n m (find_label_pos labels inst.dest.label)
    finished c q =
        let (same, closed) = extend_pass_quiet labels n 0 insts (iv, false) c in
        subst (λ k. ClosedFor out n k (find_label_pos labels inst.dest.label)) (omega arith)
          (subst (λ (y : Intervals). ClosedFor y n (0 + m) (find_label_pos labels inst.dest.label))
            (sym (ap (λ y. y.0) same) ∙ q) (closed m inst e b))
