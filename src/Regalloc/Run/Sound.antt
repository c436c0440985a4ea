-- ===== src/Regalloc/Run/Sound.antt =====
-- What the code generator may rely on in a finished allocation.
use winds.Base.{
  ℕ, ◌≤◌, ◌<◌, ◌≡◌, refl, sym, ◌∙◌, ap, subst, ◌≢◌, ◌⊎◌, inl, inr, true, ◌||◌, none, some, List,
  arith, Bool-cases, Option-cases, Member, length, get_elem?, get_elem?-lt, ◌==◌,
}
use mathlib.Core.Option.{some-injective}
use winds.Ir.{IrInst, IrFunction}
use winds.Regalloc.Types.{PhysReg, InstIndex, position, LiveInterval, is_callee_saved}
use winds.Regalloc.Ranges.{Intervals}
use winds.Regalloc.Ranges.Cover.{Covers, Mentions}
use winds.Regalloc.Scan.{scan, scan_init}
use winds.Regalloc.Scan.Interference.{SortedStarts, DistinctVregs, scan-Apart}
use winds.Regalloc.Scan.Calls.{Placed, scan-Placed, scan_init-Placed}
use winds.Regalloc.CrossCalls.Exact.{IsCallAt}
use winds.Regalloc.Run.{
  RegAlloc, empty_alloc, intervals_of, valid_intervals, transfer, result_of, regalloc_run,
}
use winds.Regalloc.Run.LiveRanges.{IsLive, intervals_of-IsLive}
use winds.Regalloc.Run.Frame.{SpillSlot, result_of-SpillSlot}
use winds.Regalloc.Run.Sorting.{
  SortsByStart, Permᴰ-Member, Permᴰ-DistinctVregs, valid_intervals-Member,
  valid_intervals-DistinctVregs,
}

position-some : (o : InstIndex) → 0 < position o → (n : ℕ) × (o ≡ some n)
position-some none h = absurd (omega arith)
position-some (some n) h = (n, refl)

-- The allocator returns a result for every function: the fuel of the loop over backward jumps is
-- never used up.
pub regalloc_run-total :
    (qsort : List LiveInterval → List LiveInterval) (fn : IrFunction) (base : ℕ)
    → (ra : RegAlloc) × (regalloc_run qsort fn base ≡ some ra)
unfolding regalloc_run
regalloc_run-total qsort fn base = elim (Bool-cases (length fn.insts == 0 || fn.vreg_count == 0)) [
  | inl b ↦ (empty_alloc fn.vreg_count, rw b)
  | inr b ↦
      let (iv, e, live) = intervals_of-IsLive fn.insts fn.vreg_count in
      (
        result_of fn.vreg_count base iv
            (scan scan_init (qsort (valid_intervals iv 1 fn.vreg_count))),
        rw (b, e),
      )
]

module _ (qsort : List LiveInterval → List LiveInterval) (sorts : SortsByStart qsort)
    (fn : IrFunction) (base : ℕ) where
  -- The intervals in the order of the scan.
  placed : Intervals → List LiveInterval
  placed iv = qsort (valid_intervals iv 1 fn.vreg_count)

  module _ (iv : Intervals) (computed : intervals_of fn.insts fn.vreg_count ≡ some iv)
      (ra : RegAlloc) (ran : regalloc_run qsort fn base ≡ some ra) where
    live : IsLive fn.insts fn.vreg_count iv
    live =
        let (iv', e, l) = intervals_of-IsLive fn.insts fn.vreg_count in
        subst (IsLive fn.insts fn.vreg_count) (some-injective _ _ (sym e ∙ computed)) l

    -- The allocation is the empty one, or the result of a scan.
    run-cases :
        ((ra ≡ empty_alloc fn.vreg_count) × ((length fn.insts ≡ 0) ⊎ (fn.vreg_count ≡ 0)))
        ⊎ (ra ≡ result_of fn.vreg_count base iv (scan scan_init (placed iv)))
    unfolding regalloc_run placed
    run-cases = elim (Bool-cases (length fn.insts == 0 || fn.vreg_count == 0)) [
      | inl b ↦ inl (sym (some-injective _ _ (rw b at ran)), ground arith)
      | inr b ↦ inr (sym (some-injective _ _ (rw (b, computed) at ran)))
    ]

    placed-DistinctVregs : DistinctVregs (placed iv)
    unfolding placed
    placed-DistinctVregs =
        Permᴰ-DistinctVregs (sorts.permutes _)
          (valid_intervals-DistinctVregs iv live.own 1 fn.vreg_count)

    placed-SortedStarts : SortedStarts (placed iv)
    unfolding placed
    placed-SortedStarts = sorts.sorted _

    placed-Member :
        (v : ℕ)
        → 0 < v
        → v ≤ fn.vreg_count
        → 0 < position (iv v).start_inst
        → Member (iv v) (placed iv)
    unfolding placed
    placed-Member v lo hi h =
        Permᴰ-Member (iv v) (sorts.permutes _)
          (valid_intervals-Member iv 1 fn.vreg_count v lo (omega arith) h)

    -- A register that was given to `v` was given by the scan.
    given :
        (v : ℕ) (r : PhysReg)
        → ra.vreg_to_reg v ≡ some r
        → (0 < v)
          × (v ≤ fn.vreg_count)
          × ((scan scan_init (placed iv)).assigned (iv v).vreg ≡ some r)
          × (ra.used_regs ≡ (scan scan_init (placed iv)).used_regs)
    unfolding result_of empty_alloc transfer
    given v r h = elim run-cases [
      | inl (e, _) ↦ cc (ap (λ (x : RegAlloc). x.vreg_to_reg v) e, h)
      | inr e ↦
          in_range (sym (ap (λ (x : RegAlloc). x.vreg_to_reg v) e) ∙ h)
            (ap (λ (x : RegAlloc). x.used_regs) e)
    ]
      where
        in_range :
            transfer fn.vreg_count (scan scan_init (placed iv)).assigned v ≡ some r
            → ra.used_regs ≡ (scan scan_init (placed iv)).used_regs
            → (0 < v)
              × (v ≤ fn.vreg_count)
              × ((scan scan_init (placed iv)).assigned (iv v).vreg ≡ some r)
              × (ra.used_regs ≡ (scan scan_init (placed iv)).used_regs)
        in_range q u = rw (live.own v) (ground arith)

    -- Let the C library's sort put the intervals in the order of their starts and keep each
    -- of them, and let the allocator return a result. Two different virtual registers whose
    -- live intervals both contain one instruction never get the same physical register.
    pub regalloc_run-no_overlap :
        (v w i : ℕ) (r : PhysReg)
        → v ≢ w
        → Covers (iv v) i
        → Covers (iv w) i
        → ra.vreg_to_reg v ≡ some r
        → ra.vreg_to_reg w ≢ some r
    regalloc_run-no_overlap v w i r ne c d p q =
        let (lo, hi, a, _) = given v r p in
        let (lo', hi', b, _) = given w r q in
        elim (scan-Apart (placed iv) placed-SortedStarts placed-DistinctVregs (iv v) (iv w) r
          (placed-Member v lo hi c.0) (placed-Member w lo' hi' d.0)
          (λ e. ne (sym (live.own v) ∙ e ∙ live.own w)) a b) [
            | inl x ↦ omega arith
            | inr x ↦ omega arith
          ]

    found-Placed : Placed (scan scan_init (placed iv)) (λ d. ⊥ ⊎ Member d (placed iv))
    found-Placed =
        scan-Placed scan_init (λ _. ⊥) (placed iv) scan_init-Placed placed-DistinctVregs
          (λ d m. absurd m)

    -- Let the C library's sort put the intervals in the order of their starts and keep each
    -- of them, and let the allocator return a result. A virtual register whose live interval
    -- contains a call is given a physical register only if calls preserve it.
    pub regalloc_run-calls :
        (v i : ℕ) (r : PhysReg)
        → Covers (iv v) i
        → IsCallAt fn.insts i
        → ra.vreg_to_reg v ≡ some r
        → is_callee_saved r ≡ true
    regalloc_run-calls v i r c at p =
        let (lo, hi, a, _) = given v r p in
        let (s, es) = position-some (iv v).start_inst c.0 in
        let (t, et) = position-some (iv v).end_inst (omega arith) in
        found-Placed.callee (iv v) r (inr (placed-Member v lo hi c.0)) a (
          (live.calls v s t lo hi es et).1
            (i, omega (arith, ap position es), omega (arith, ap position et), at))

    -- A register that was given is among those that the prologue saves, if it is callee-saved.
    pub regalloc_run-used :
        (v i : ℕ) (r : PhysReg)
        → Covers (iv v) i
        → ra.vreg_to_reg v ≡ some r
        → ra.used_regs r ≡ true
    regalloc_run-used v i r c p =
        let (lo, hi, a, u) = given v r p in
        subst (λ f. f r ≡ true) (sym u)
          (found-Placed.used (iv v) r (inr (placed-Member v lo hi c.0)) a)

    -- Let the C library's sort put the intervals in the order of their starts and keep each
    -- of them, and let the allocator return a result. A virtual register that an instruction
    -- mentions has a physical register that is marked as used, or a slot of the frame that
    -- lies below the saved registers and inside the spill space.
    pub regalloc_run-home :
        (v k : ℕ) (inst : IrInst)
        → 0 < v
        → v ≤ fn.vreg_count
        → get_elem? fn.insts k ≡ some inst
        → Mentions inst v
        → ((r : PhysReg) × (ra.vreg_to_reg v ≡ some r) × (ra.used_regs r ≡ true))
          ⊎ ((i : ℕ) × SpillSlot base ra v i)
    regalloc_run-home v k inst lo hi e m = elim (Option-cases (ra.vreg_to_reg v)) [
      | inl p ↦ inr (spilled p)
      | inr (r, p) ↦ inl (r, p, regalloc_run-used v k r c p)
    ]
      where
        c : Covers (iv v) k
        c = live.covers k v inst lo hi e m

        spilled : ra.vreg_to_reg v ≡ none → (i : ℕ) × SpillSlot base ra v i
        spilled p = elim run-cases [
          | inl (_, inl z) ↦ absurd (nonempty z)
          | inl (_, inr z) ↦ absurd (omega arith)
          | inr q ↦
              subst (λ x. (i : ℕ) × SpillSlot base x v i) (sym q)
                (result_of-SpillSlot fn.vreg_count base iv _ v lo hi c.0
                  (subst (λ (x : RegAlloc). x.vreg_to_reg v ≡ none) q p))
        ]
          where
            nonempty : length fn.insts ≡ 0 → ⊥
            nonempty z = omega (arith, get_elem?-lt fn.insts k inst e)
