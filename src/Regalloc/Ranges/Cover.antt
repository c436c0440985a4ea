-- ===== src/Regalloc/Ranges/Cover.antt =====
-- The intervals of pass 1, against the instructions that mention the register.
use winds.Base.{
  ℕ, zero, suc, ◌+◌, ◌≤◌, ◌<◌, ◌≡◌, refl, sym, ◌∙◌, subst, length, ◌⊎◌, inl, inr, true, false, some,
  List, [], ◌∷◌, arith, Bool-cases, get_elem?, if◌then◌else◌,
}
use mathlib.Core.Option.{some-injective}
use native.Mathlib.Nat.{add-zero}
use winds.Base.Int.{ℤ, pos, negsuc, is_positive}
use winds.Ir.{IrOperand, IrInst, is_call}
use winds.Regalloc.Types.{LiveInterval, position}
use winds.Regalloc.Ranges.{
  Intervals, init_interval, touch, update_vreg_range, record_operand, record_args, record_inst,
  live_ranges,
}

-- The interval is live at the instruction `i`.
abbrev pub Covers : LiveInterval → ℕ → Type 0
Covers c i =
    (0 < position c.start_inst) × (position c.start_inst ≤ suc i) × (suc i ≤ position c.end_inst)

-- `b` is `a` touched at the instruction `i`.
abbrev Touched : LiveInterval → LiveInterval → ℕ → Type 0
Touched a b i =
    (((0 < position a.start_inst) × (position b.start_inst ≡ position a.start_inst))
      ⊎ ((position a.start_inst ≡ 0) × (position b.start_inst ≡ suc i)))
    × (((suc i ≤ position a.end_inst) × (position b.end_inst ≡ position a.end_inst))
        ⊎ ((position a.end_inst ≤ suc i) × (position b.end_inst ≡ suc i)))

-- `b` is `a` after mentions at the instruction `i`, if any.
abbrev pub Grows : LiveInterval → LiveInterval → ℕ → Type 0
Grows a b i =
    (b.vreg ≡ a.vreg)
    × (((position b.start_inst ≡ position a.start_inst)
          × (position b.end_inst ≡ position a.end_inst))
        ⊎ Touched a b i)
    × (b.crosses_call ≡ a.crosses_call)

Grows-refl : (a : LiveInterval) (i : ℕ) → Grows a a i
Grows-refl a i = (refl, inl (refl, refl), refl)

Grows-trans : (a b c : LiveInterval) (i : ℕ) → Grows a b i → Grows b c i → Grows a c i
Grows-trans a b c i g h = ground arith

touch-Grows : (a : LiveInterval) (i : ℕ) → Grows a (touch a i) i
touch-Grows a i = ground arith

update_vreg_range-Grows :
    (iv : Intervals) (v : ℤ) (max i w : ℕ) → Grows (iv w) (update_vreg_range iv v max i w) i
unfolding update_vreg_range
update_vreg_range-Grows iv (pos v) max i w = ground (arith, touch-Grows (iv w) i)
update_vreg_range-Grows iv (negsuc v) max i w = Grows-refl (iv w) i

record_operand-Grows :
    (iv : Intervals) (o : IrOperand) (max i w : ℕ) → Grows (iv w) (record_operand iv o max i w) i
unfolding record_operand
record_operand-Grows iv o max i w = elim (Bool-cases (is_positive o.vreg)) [
  | inl p ↦ rw p (update_vreg_range-Grows iv o.vreg max i w)
  | inr p ↦ rw p (Grows-refl (iv w) i)
]

record_args-Grows :
    (iv : Intervals) (os : List IrOperand) (max i w : ℕ)
    → Grows (iv w) (record_args iv os max i w) i
unfolding record_args
record_args-Grows iv [] max i w = Grows-refl (iv w) i
record_args-Grows iv (o ∷ os) max i w =
    Grows-trans (iv w) (record_operand iv o max i w)
      (record_args (record_operand iv o max i) os max i w) i (record_operand-Grows iv o max i w)
      (record_args-Grows (record_operand iv o max i) os max i w)

-- Some operand of the list is the register `v`.
abbrev pub AnyVreg : List IrOperand → ℕ → Type 0
AnyVreg [] v = ⊥
AnyVreg (o ∷ os) v = (o.vreg ≡ pos v) ⊎ AnyVreg os v

-- The instruction defines or uses the register `v`.
abbrev pub Mentions : IrInst → ℕ → Type 0
Mentions inst v =
    (inst.dest.vreg ≡ pos v)
    ⊎ (inst.src1.vreg ≡ pos v)
    ⊎ (inst.src2.vreg ≡ pos v)
    ⊎ ((is_call inst.op ≡ true) × AnyVreg inst.call_args v)

Covers-Grows : (a b : LiveInterval) (i j : ℕ) → Covers a i → Grows a b j → Covers b i
Covers-Grows a b i j c g = ground arith

record_operand-Covers :
    (iv : Intervals) (o : IrOperand) (max i v : ℕ)
    → position (iv v).start_inst ≤ suc i
    → 0 < v
    → v ≤ max
    → o.vreg ≡ pos v
    → Covers (record_operand iv o max i v) i
unfolding record_operand update_vreg_range
record_operand-Covers iv o max i v s lo hi e = rw (e, record_operand) (ground arith)

record_args-Covers :
    (iv : Intervals) (os : List IrOperand) (max i v : ℕ)
    → position (iv v).start_inst ≤ suc i
    → 0 < v
    → v ≤ max
    → AnyVreg os v
    → Covers (record_args iv os max i v) i
unfolding record_args
record_args-Covers iv [] max i v s lo hi m = absurd m
record_args-Covers iv (o ∷ os) max i v s lo hi (inl e) =
    Covers-Grows (record_operand iv o max i v) (record_args (record_operand iv o max i) os max i v)
      i i (record_operand-Covers iv o max i v s lo hi e)
      (record_args-Grows (record_operand iv o max i) os max i v)
record_args-Covers iv (o ∷ os) max i v s lo hi (inr m) =
    record_args-Covers (record_operand iv o max i) os max i v
      (ground (arith, record_operand-Grows iv o max i v)) lo hi m

module _ (iv : Intervals) (inst : IrInst) (max i : ℕ) where
  after_dest : Intervals
  after_dest = record_operand iv inst.dest max i

  after_src1 : Intervals
  after_src1 = record_operand after_dest inst.src1 max i

  after_src2 : Intervals
  after_src2 = record_operand after_src1 inst.src2 max i

  unfolding_record_inst :
      record_inst iv inst max i
      ≡ (if is_call inst.op then record_args after_src2 inst.call_args max i else after_src2)
  unfolding record_inst after_dest after_src1 after_src2
  unfolding_record_inst = refl

  dest-Grows : (w : ℕ) → Grows (iv w) (after_dest w) i
  unfolding after_dest
  dest-Grows w = record_operand-Grows iv inst.dest max i w

  src1-Grows : (w : ℕ) → Grows (after_dest w) (after_src1 w) i
  unfolding after_src1
  src1-Grows w = record_operand-Grows after_dest inst.src1 max i w

  src2-Grows : (w : ℕ) → Grows (after_src1 w) (after_src2 w) i
  unfolding after_src2
  src2-Grows w = record_operand-Grows after_src1 inst.src2 max i w

  call-Grows : (w : ℕ) → Grows (after_src2 w) (record_inst iv inst max i w) i
  call-Grows w = rw unfolding_record_inst (elim (Bool-cases (is_call inst.op)) [
    | inl c ↦ rw c (record_args-Grows after_src2 inst.call_args max i w)
    | inr c ↦ rw c (Grows-refl (after_src2 w) i)
  ])

  src-Grows : (w : ℕ) → Grows (after_dest w) (record_inst iv inst max i w) i
  src-Grows w =
      Grows-trans (after_dest w) (after_src1 w) (record_inst iv inst max i w) i (src1-Grows w) (
        Grows-trans (after_src1 w) (after_src2 w) (record_inst iv inst max i w) i (src2-Grows w)
          (call-Grows w))

  pub record_inst-Grows : (w : ℕ) → Grows (iv w) (record_inst iv inst max i w) i
  record_inst-Grows w =
      Grows-trans (iv w) (after_dest w) (record_inst iv inst max i w) i (dest-Grows w) (src-Grows w)

  -- The instruction covers itself in the interval of each register that it mentions.
  record_inst-Covers :
      (v : ℕ)
      → position (iv v).start_inst ≤ suc i
      → 0 < v
      → v ≤ max
      → Mentions inst v
      → Covers (record_inst iv inst max i v) i
  unfolding after_dest after_src1 after_src2
  record_inst-Covers v s lo hi (inl e) =
      Covers-Grows (after_dest v) (record_inst iv inst max i v) i i
        (record_operand-Covers iv inst.dest max i v s lo hi e) (src-Grows v)
  record_inst-Covers v s lo hi (inr (inl e)) =
      Covers-Grows (after_src1 v) (record_inst iv inst max i v) i i
        (record_operand-Covers after_dest inst.src1 max i v (ground (arith, dest-Grows v)) lo hi e)
        (Grows-trans (after_src1 v) (after_src2 v) (record_inst iv inst max i v) i (src2-Grows v)
          (call-Grows v))
  record_inst-Covers v s lo hi (inr (inr (inl e))) =
      Covers-Grows (after_src2 v) (record_inst iv inst max i v) i i
        (record_operand-Covers after_src1 inst.src2 max i v (before_src2 v s) lo hi e)
        (call-Grows v)
    where
      before_src2 :
          (v : ℕ) → position (iv v).start_inst ≤ suc i → position (after_src1 v).start_inst ≤ suc i
      before_src2 v s = ground (arith, dest-Grows v, src1-Grows v)
  record_inst-Covers v s lo hi (inr (inr (inr (c, m)))) =
      rw (unfolding_record_inst, c)
        (record_args-Covers after_src2 inst.call_args max i v
          (ground (arith, dest-Grows v, src1-Grows v, src2-Grows v)) lo hi m)

pub live_ranges_keep :
    (iv : Intervals) (xs : List IrInst) (max i j v : ℕ)
    → Covers (iv v) j
    → Covers (live_ranges iv xs max i v) j
unfolding live_ranges
live_ranges_keep iv [] max i j v c = c
live_ranges_keep iv (x ∷ xs) max i j v c =
    live_ranges_keep (record_inst iv x max i) xs max (suc i) j v
      (Covers-Grows (iv v) (record_inst iv x max i v) j i c (record_inst-Grows iv x max i v))

live_ranges_from :
    (iv : Intervals) (xs : List IrInst) (max i k v : ℕ) (inst : IrInst)
    → position (iv v).start_inst ≤ suc i
    → 0 < v
    → v ≤ max
    → get_elem? xs k ≡ some inst
    → Mentions inst v
    → Covers (live_ranges iv xs max i v) (i + k)
unfolding live_ranges
live_ranges_from iv [] max i k v inst s lo hi e m = cc
live_ranges_from iv (x ∷ xs) max i zero v inst s lo hi e m =
    live_ranges_keep (record_inst iv x max i) xs max (suc i) (i + zero) v (
      rw (add-zero i) (
        record_inst-Covers iv x max i v s lo hi
          (subst (λ y. Mentions y v) (sym (some-injective _ _ e)) m)))
live_ranges_from iv (x ∷ xs) max i (suc k) v inst s lo hi e m =
    subst (Covers (live_ranges (record_inst iv x max i) xs max (suc i) v)) (omega arith) (
      live_ranges_from (record_inst iv x max i) xs max (suc i) k v inst
        (ground (arith, record_inst-Grows iv x max i v)) lo hi e m)

-- An interval of pass 1: empty, or from its start to an end among the first `n` instructions.
abbrev pub IsRange : LiveInterval → ℕ → Type 0
IsRange c n =
    ((position c.start_inst ≡ 0) × (position c.end_inst ≡ 0))
    ⊎ ((0 < position c.start_inst)
        × (position c.start_inst ≤ position c.end_inst)
        × (position c.end_inst ≤ n))

live_ranges_from-IsRange :
    (iv : Intervals) (xs : List IrInst) (max i v : ℕ)
    → IsRange (iv v) i
    → IsRange (live_ranges iv xs max i v) (i + length xs)
unfolding live_ranges
live_ranges_from-IsRange iv [] max i v h = rw (add-zero i) h
live_ranges_from-IsRange iv (x ∷ xs) max i v h =
    subst (IsRange (live_ranges (record_inst iv x max i) xs max (suc i) v)) (omega arith) (
      live_ranges_from-IsRange (record_inst iv x max i) xs max (suc i) v
        (ground (arith, record_inst-Grows iv x max i v)))

-- The array keeps each interval under its own register.
pub live_ranges-vreg :
    (iv : Intervals) (xs : List IrInst) (max i v : ℕ)
    → (iv v).vreg ≡ v
    → (live_ranges iv xs max i v).vreg ≡ v
unfolding live_ranges
live_ranges-vreg iv [] max i v h = h
live_ranges-vreg iv (x ∷ xs) max i v h =
    live_ranges-vreg (record_inst iv x max i) xs max (suc i) v
      ((record_inst-Grows iv x max i v).0 ∙ h)

pub live_ranges-crosses_call :
    (iv : Intervals) (xs : List IrInst) (max i v : ℕ)
    → (iv v).crosses_call ≡ false
    → (live_ranges iv xs max i v).crosses_call ≡ false
unfolding live_ranges
live_ranges-crosses_call iv [] max i v h = h
live_ranges-crosses_call iv (x ∷ xs) max i v h =
    live_ranges-crosses_call (record_inst iv x max i) xs max (suc i) v
      ((record_inst-Grows iv x max i v).2 ∙ h)

-- After pass 1 every register in range is live at each instruction that defines or uses it.
pub live_ranges-Covers :
    (xs : List IrInst) (max k v : ℕ) (inst : IrInst)
    → 0 < v
    → v ≤ max
    → get_elem? xs k ≡ some inst
    → Mentions inst v
    → Covers (live_ranges init_interval xs max 0 v) k
live_ranges-Covers xs max k v inst lo hi e m =
    subst (Covers (live_ranges init_interval xs max 0 v)) (omega arith)
      (live_ranges_from init_interval xs max 0 k v inst (omega arith) lo hi e m)

pub live_ranges-IsRange :
    (xs : List IrInst) (max v : ℕ) → IsRange (live_ranges init_interval xs max 0 v) (length xs)
live_ranges-IsRange xs max v =
    subst (IsRange (live_ranges init_interval xs max 0 v)) (omega arith)
      (live_ranges_from-IsRange init_interval xs max 0 v (inl (refl, refl)))
