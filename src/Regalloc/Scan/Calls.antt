-- ===== src/Regalloc/Scan/Calls.antt =====
-- What the scan promises of the register that it gives: callee-saved across calls, and recorded.
use winds.Base.{
  ◌≡◌, refl, sym, subst, ap, ◌∙◌, ◌≢◌, ◌⊎◌, inl, inr, Bool, true, false, Option, none, some, List,
  [], ◌∷◌, arith, Bool-cases, Member, All,
}
use winds.Regalloc.Types.{
  PhysReg, rbx_to_r15, reg_eq_self, set_vreg_self, set_vreg_ne, LiveInterval, is_callee_saved,
}
use winds.Regalloc.Scan.{
  ScanState, expire, assign, choose_reg, first_free, scan_step, scan, scan_init,
}
use winds.Regalloc.Scan.Invariant.{With}
use winds.Regalloc.Scan.Interference.{DistinctVregs}

first_free-callee :
    (in_use : PhysReg → Bool) (rs : List PhysReg) (r : PhysReg)
    → All (λ x. is_callee_saved x ≡ true) rs
    → first_free in_use rs ≡ some r
    → is_callee_saved r ≡ true
unfolding first_free
first_free-callee in_use [] r h q = cc
first_free-callee in_use (x ∷ rs) r h q = elim (Bool-cases (in_use x)) [
  | inl u ↦ first_free-callee in_use rs r h.1 (rw u at q)
  | inr u ↦ named (rw u at q)
]
  where
    named : some x ≡ some r → is_callee_saved r ≡ true
    named e = ground (arith, h.0)

choose_reg-callee :
    (crosses : Bool) (in_use : PhysReg → Bool) (r : PhysReg)
    → crosses ≡ true
    → choose_reg crosses in_use ≡ some r
    → is_callee_saved r ≡ true
unfolding choose_reg is_callee_saved
choose_reg-callee true in_use r c q =
    first_free-callee in_use rbx_to_r15 r (refl, (refl, (refl, (refl, (refl, tt))))) q
choose_reg-callee false in_use r c q = cc

-- The promise for the intervals in `Done`.
pub record Placed (s : ScanState) (Done : LiveInterval → Type 0) : Type 0 where
  pub callee :
      (d : LiveInterval) (r : PhysReg)
      → Done d
      → s.assigned d.vreg ≡ some r
      → d.crosses_call ≡ true
      → is_callee_saved r ≡ true
  pub used :
      (d : LiveInterval) (r : PhysReg) → Done d → s.assigned d.vreg ≡ some r → s.used_regs r ≡ true

-- An interval that has a register was given it now, or had it already.
assign_cases :
    (s : ScanState) (Done : LiveInterval → Type 0) (curr : LiveInterval) (o : Option PhysReg)
    → ((d : LiveInterval) → Done d → d.vreg ≢ curr.vreg)
    → (d : LiveInterval) (r : PhysReg) → With curr Done d
    → (assign s curr o).assigned d.vreg ≡ some r
    → ((d ≡ curr) × (o ≡ some r)) ⊎ (Done d × (s.assigned d.vreg ≡ some r))
unfolding assign
assign_cases s Done curr none fresh d r (inl e) q =
    cc (ap (λ (x : LiveInterval). x.vreg) e, set_vreg_self s.assigned curr.vreg none)
assign_cases s Done curr none fresh d r (inr k) q =
    inr (k, sym (set_vreg_ne s.assigned curr.vreg d.vreg none (fresh d k)) ∙ q)
assign_cases s Done curr (some x) fresh d r (inl e) q =
    inl (e, cc (ap (λ (x : LiveInterval). x.vreg) e, set_vreg_self s.assigned curr.vreg (some x)))
assign_cases s Done curr (some x) fresh d r (inr k) q =
    inr (k, sym (set_vreg_ne s.assigned curr.vreg d.vreg (some x) (fresh d k)) ∙ q)

assign-used_new :
    (s : ScanState) (curr : LiveInterval) (o : Option PhysReg) (r : PhysReg)
    → o ≡ some r
    → (assign s curr o).used_regs r ≡ true
unfolding assign
assign-used_new s curr none r q = cc
assign-used_new s curr (some x) r q = ground (arith, reg_eq_self r)

assign-used_old :
    (s : ScanState) (curr : LiveInterval) (o : Option PhysReg) (r : PhysReg)
    → s.used_regs r ≡ true
    → (assign s curr o).used_regs r ≡ true
unfolding assign
assign-used_old s curr none r q = q
assign-used_old s curr (some x) r q = ground arith

assign-Placed :
    (s : ScanState) (Done : LiveInterval → Type 0) (curr : LiveInterval) (o : Option PhysReg)
    → Placed s Done
    → ((d : LiveInterval) → Done d → d.vreg ≢ curr.vreg)
    → ((r : PhysReg) → o ≡ some r → curr.crosses_call ≡ true → is_callee_saved r ≡ true)
    → Placed (assign s curr o) (With curr Done)
assign-Placed s Done curr o v fresh good = record {
  callee = λ d r m q c. elim (assign_cases s Done curr o fresh d r m q) [
    | inl (e, p) ↦ good r p (subst (λ x. x.crosses_call ≡ true) e c)
    | inr (k, p) ↦ v.callee d r k p c
  ];
  used = λ d r m q. elim (assign_cases s Done curr o fresh d r m q) [
    | inl (_, p) ↦ assign-used_new s curr o r p
    | inr (k, p) ↦ assign-used_old s curr o r (v.used d r k p)
  ];
}

scan_step-Placed :
    (s : ScanState) (Done : LiveInterval → Type 0) (curr : LiveInterval)
    → Placed s Done
    → ((d : LiveInterval) → Done d → d.vreg ≢ curr.vreg)
    → Placed (scan_step s curr) (With curr Done)
unfolding scan_step expire
scan_step-Placed s Done curr v fresh =
    assign-Placed (expire s curr.start_inst) Done curr _
      (record { callee = v.callee; used = v.used }) fresh
      (λ r p c. choose_reg-callee curr.crosses_call _ r c p)

pub scan-Placed :
    (s : ScanState) (Done : LiveInterval → Type 0) (xs : List LiveInterval)
    → Placed s Done
    → DistinctVregs xs
    → ((d : LiveInterval) → Done d → All (λ y. d.vreg ≢ y.vreg) xs)
    → Placed (scan s xs) (λ d. Done d ⊎ Member d xs)
unfolding scan
scan-Placed s Done [] v distinct fresh = record {
  callee = λ d r m q c. elim m [ inl k ↦ v.callee d r k q c | inr e ↦ absurd e ];
  used = λ d r m q. elim m [ inl k ↦ v.used d r k q | inr e ↦ absurd e ];
}
scan-Placed s Done (curr ∷ rest) v distinct fresh =
    let w =
      scan-Placed (scan_step s curr) (With curr Done) rest
        (scan_step-Placed s Done curr v (λ d k. (fresh d k).0)) distinct.1 placed in
    record {
      callee = λ d r m q c. w.callee d r (onward d m) q c;
      used = λ d r m q. w.used d r (onward d m) q;
    }
  where
    placed : (d : LiveInterval) → With curr Done d → All (λ y. d.vreg ≢ y.vreg) rest
    placed d = elim [ inl q ↦ rw q distinct.0 | inr k ↦ (fresh d k).1 ]

    onward : (d : LiveInterval) → Done d ⊎ Member d (curr ∷ rest) → With curr Done d ⊎ Member d rest
    onward d = elim [ inl k ↦ inl (inr k) | inr (inl q) ↦ inl (inl q) | inr (inr m) ↦ inr m ]

pub scan_init-Placed : Placed scan_init (λ _. ⊥)
scan_init-Placed = record { callee = λ d r m q c. absurd m; used = λ d r m q. absurd m }
