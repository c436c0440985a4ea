-- ===== src/Regalloc/Scan/Invariant.antt =====
-- The invariant of the linear scan, kept by expiry and by the placing of one interval.
use winds.Base.{
  ℕ, ◌≤◌, ◌<◌, ◌≡◌, sym, ◌∙◌, ap, subst, ◌≢◌, ◌⊎◌, inl, inr, Bool, true, false, none, some, arith,
  Bool-cases, Member,
}
use winds.Regalloc.Types.{
  PhysReg, r10, r11, rbx_to_r15, reg_eq_self, reg_ne, set_vreg, set_vreg_self, set_vreg_ne,
  InstIndex, position, LiveInterval,
}
use winds.Regalloc.Scan.{ActiveEntry, ScanState, expire, assign, entry, choose_reg}
use winds.Regalloc.Scan.Active.{
  DistinctRegs, Member-surviving, surviving_or_ended, surviving-DistinctRegs, release-surviving,
  append_entry_cases, Member-append_entry_old, Member-append_entry_new, append_entry-DistinctRegs,
  first_free-free,
}

-- One interval ends before the other starts.
abbrev pub Apart : LiveInterval → LiveInterval → Type 0
Apart a b =
    (position a.end_inst < position b.start_inst) ⊎ (position b.end_inst < position a.start_inst)

-- What holds once the intervals in `Done` are placed and all that start below `now` are expired.
pub record ScanInv (s : ScanState) (Done : LiveInterval → Type 0) (now : ℕ) : Type 0 where
  pub distinct : DistinctRegs s.active
  pub held : (e : ActiveEntry) → Member e s.active → s.reg_in_use e.reg ≡ true
  pub live :
      (d : LiveInterval) (r : PhysReg)
      → Done d
      → s.assigned d.vreg ≡ some r
      → Member (entry d r) s.active ⊎ (position d.end_inst < now)
  pub apart :
      (d e : LiveInterval) (r : PhysReg)
      → Done d
      → Done e
      → d.vreg ≢ e.vreg
      → s.assigned d.vreg ≡ some r
      → s.assigned e.vreg ≡ some r
      → Apart d e

-- A register that is chosen was free.
pub choose_reg-free :
    (crosses : Bool) (in_use : PhysReg → Bool) (r : PhysReg)
    → choose_reg crosses in_use ≡ some r
    → in_use r ≡ false
unfolding choose_reg
choose_reg-free true in_use r h = first_free-free in_use rbx_to_r15 r h
choose_reg-free false in_use r h = elim (Bool-cases (in_use r10)) [
  | inl a ↦ elim (Bool-cases (in_use r11)) [
    | inl b ↦ first_free-free in_use rbx_to_r15 r (rw (a, b) at h)
    | inr b ↦ ground arith
  ]
  | inr a ↦ ground arith
]

pub expire-ScanInv :
    (s : ScanState) (Done : LiveInterval → Type 0) (now : ℕ) (start : InstIndex)
    → now ≤ position start
    → ScanInv s Done now
    → ScanInv (expire s start) Done (position start)
unfolding expire
expire-ScanInv s Done now start le v = record {
  distinct = surviving-DistinctRegs start s.active v.distinct;
  held = λ e m.
      release-surviving start s.active s.reg_in_use e v.distinct m
        (v.held e (Member-surviving start s.active e m));
  live = λ d r m q. elim (v.live d r m q) [
    | inl k ↦ surviving_or_ended start s.active (entry d r) k
    | inr l ↦ inr (omega arith)
  ];
  apart = v.apart;
}

-- The intervals placed after one more.
abbrev pub With : LiveInterval → (LiveInterval → Type 0) → LiveInterval → Type 0
With curr Done d = (d ≡ curr) ⊎ Done d

module _ (s : ScanState) (Done : LiveInterval → Type 0) (curr : LiveInterval)
    (v : ScanInv s Done (position curr.start_inst))
    (fresh : (d : LiveInterval) → Done d → d.vreg ≢ curr.vreg) where
  pub spill-ScanInv : ScanInv (assign s curr none) (With curr Done) (position curr.start_inst)
  unfolding assign
  spill-ScanInv = record {
    distinct = v.distinct;
    held = v.held;
    live = λ d r m q. elim m [
      | inl e ↦ absurd (unplaced d r e q)
      | inr k ↦ v.live d r k (old d r k q)
    ];
    apart = λ d e r m n ne p q. elim m [
      | inl c ↦ absurd (unplaced d r c p)
      | inr k ↦ elim n [
        | inl c ↦ absurd (unplaced e r c q)
        | inr l ↦ v.apart d e r k l ne (old d r k p) (old e r l q)
      ]
    ];
  }
    where
      unplaced :
          (d : LiveInterval) (r : PhysReg)
          → d ≡ curr
          → set_vreg s.assigned curr.vreg none d.vreg ≡ some r
          → ⊥
      unplaced d r e q =
          cc (ap (λ (x : LiveInterval). x.vreg) e, set_vreg_self s.assigned curr.vreg none)

      old :
          (d : LiveInterval) (r : PhysReg)
          → Done d
          → set_vreg s.assigned curr.vreg none d.vreg ≡ some r
          → s.assigned d.vreg ≡ some r
      old d r k q = sym (set_vreg_ne s.assigned curr.vreg d.vreg none (fresh d k)) ∙ q

  module _ (r₀ : PhysReg) (free : s.reg_in_use r₀ ≡ false) where
    -- An interval placed earlier in the same register has ended.
    ended :
        (d : LiveInterval)
        → Done d
        → s.assigned d.vreg ≡ some r₀
        → position d.end_inst < position curr.start_inst
    ended d k q = elim (v.live d r₀ k q) [ inl m ↦ cc (v.held (entry d r₀) m, free) | inr l ↦ l ]

    old :
        (d : LiveInterval) (r : PhysReg)
        → Done d
        → set_vreg s.assigned curr.vreg (some r₀) d.vreg ≡ some r
        → s.assigned d.vreg ≡ some r
    old d r k q = sym (set_vreg_ne s.assigned curr.vreg d.vreg (some r₀) (fresh d k)) ∙ q

    same :
        (d : LiveInterval) (r : PhysReg)
        → d ≡ curr
        → set_vreg s.assigned curr.vreg (some r₀) d.vreg ≡ some r
        → r ≡ r₀
    same d r e q =
        cc (ap (λ (x : LiveInterval). x.vreg) e, set_vreg_self s.assigned curr.vreg (some r₀))

    pub place-ScanInv :
        ScanInv (assign s curr (some r₀)) (With curr Done) (position curr.start_inst)
    unfolding assign
    place-ScanInv = record {
      distinct = append_entry-DistinctRegs s.active (entry curr r₀) v.distinct other;
      held = λ e m. elim (append_entry_cases s.active (entry curr r₀) e m) [
        | inl q ↦ rw (ap (λ (x : ActiveEntry). x.reg) q, reg_eq_self r₀)
        | inr k ↦ rw (reg_ne e.reg r₀ (other e k)) (v.held e k)
      ];
      live = λ d r m q. elim m [
        | inl e ↦ inl (rw (e, same d r e q) (Member-append_entry_new s.active (entry curr r₀)))
        | inr k ↦ elim (v.live d r k (old d r k q)) [
          | inl n ↦ inl (Member-append_entry_old s.active (entry curr r₀) (entry d r) n)
          | inr l ↦ inr l
        ]
      ];
      apart = λ d e r m n ne p q. elim m [
        | inl c ↦ elim n [
          | inl c' ↦ absurd (ne (ap (λ (x : LiveInterval). x.vreg) (c ∙ sym c')))
          | inr l ↦ inr (
              rw c
                (ended e l (subst (λ x. s.assigned e.vreg ≡ some x) (same d r c p) (old e r l q))))
        ]
        | inr k ↦ elim n [
          | inl c ↦ inl (
              rw c
                (ended d k (subst (λ x. s.assigned d.vreg ≡ some x) (same e r c q) (old d r k p))))
          | inr l ↦ v.apart d e r k l ne (old d r k p) (old e r l q)
        ]
      ];
    }
      where
        other : (e : ActiveEntry) → Member e s.active → e.reg ≢ r₀
        other e m q = cc (v.held e m, free, ap s.reg_in_use q)
