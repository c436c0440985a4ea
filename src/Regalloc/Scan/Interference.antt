-- ===== src/Regalloc/Scan/Interference.antt =====
-- Registers and overlapping intervals in the linear scan.
use winds.Base.{
  ℕ, ◌≤◌, ◌≡◌, refl, ◌≢◌, ◌⊎◌, inl, inr, false, Option, none, some, List, [], ◌∷◌, arith, Member,
  All, All-map_imp, length,
}
use winds.Regalloc.Types.{PhysReg, position, LiveInterval}
use winds.Regalloc.Scan.{ScanState, expire, assign, scan_step, scan, scan_init}
use winds.Regalloc.Scan.Bound.{length-le-count}
use winds.Regalloc.Scan.Invariant.{
  Apart, ScanInv, With, expire-ScanInv, spill-ScanInv, place-ScanInv, choose_reg-free,
}

-- No interval starts before one that stands ahead of it.
abbrev pub SortedStarts : List LiveInterval → Type 0
SortedStarts [] = Unit
SortedStarts (x ∷ xs) =
    All (λ y. position x.start_inst ≤ position y.start_inst) xs × SortedStarts xs

-- The intervals belong to different virtual registers.
abbrev pub DistinctVregs : List LiveInterval → Type 0
DistinctVregs [] = Unit
DistinctVregs (x ∷ xs) = All (λ y. x.vreg ≢ y.vreg) xs × DistinctVregs xs

assign-ScanInv :
    (s : ScanState) (Done : LiveInterval → Type 0) (curr : LiveInterval) (o : Option PhysReg)
    → ScanInv s Done (position curr.start_inst)
    → ((d : LiveInterval) → Done d → d.vreg ≢ curr.vreg)
    → ((r : PhysReg) → o ≡ some r → s.reg_in_use r ≡ false)
    → ScanInv (assign s curr o) (With curr Done) (position curr.start_inst)
assign-ScanInv s Done curr none v fresh free = spill-ScanInv s Done curr v fresh
assign-ScanInv s Done curr (some r) v fresh free = place-ScanInv s Done curr v fresh r (free r refl)

scan_step-ScanInv :
    (s : ScanState) (Done : LiveInterval → Type 0) (now : ℕ) (curr : LiveInterval)
    → ScanInv s Done now
    → now ≤ position curr.start_inst
    → ((d : LiveInterval) → Done d → d.vreg ≢ curr.vreg)
    → ScanInv (scan_step s curr) (With curr Done) (position curr.start_inst)
unfolding scan_step
scan_step-ScanInv s Done now curr v le fresh =
    assign-ScanInv (expire s curr.start_inst) Done curr _
      (expire-ScanInv s Done now curr.start_inst le v) fresh (λ r h. choose_reg-free _ _ r h)

scan_init-ScanInv : ScanInv scan_init (λ _. ⊥) 0
unfolding scan_init
scan_init-ScanInv = record {
  distinct = tt;
  held = λ e m. absurd m;
  live = λ d r m q. absurd m;
  apart = λ d e r m n ne p q. absurd m;
}

-- The invariant says less of fewer intervals.
weaken :
    (s : ScanState) (P Q : LiveInterval → Type 0) (now : ℕ)
    → ((d : LiveInterval) → Q d → P d)
    → ScanInv s P now
    → ScanInv s Q now
weaken s P Q now f v = record {
  distinct = v.distinct;
  held = v.held;
  live = λ d r m q. v.live d r (f d m) q;
  apart = λ d e r m n ne p q. v.apart d e r (f d m) (f e n) ne p q;
}

-- An interval that is already placed, or is still in the list.
abbrev Either : (LiveInterval → Type 0) → List LiveInterval → LiveInterval → Type 0
Either Done xs d = Done d ⊎ Member d xs

advance :
    (Done : LiveInterval → Type 0) (curr : LiveInterval) (rest : List LiveInterval)
    (d : LiveInterval)
    → Either Done (curr ∷ rest) d
    → Either (With curr Done) rest d
advance Done curr rest d (inl k) = inl (inr k)
advance Done curr rest d (inr (inl q)) = inl (inl q)
advance Done curr rest d (inr (inr m)) = inr m

pub scan-ScanInv :
    (s : ScanState) (Done : LiveInterval → Type 0) (now : ℕ) (xs : List LiveInterval)
    → ScanInv s Done now
    → All (λ y. now ≤ position y.start_inst) xs
    → SortedStarts xs
    → DistinctVregs xs
    → ((d : LiveInterval) → Done d → All (λ y. d.vreg ≢ y.vreg) xs)
    → (end : ℕ) × ScanInv (scan s xs) (Either Done xs) end
unfolding scan
scan-ScanInv s Done now [] v later sorted distinct fresh =
    (now, weaken s Done (Either Done []) now (λ d. elim [ inl k ↦ k | inr m ↦ absurd m ]) v)
scan-ScanInv s Done now (curr ∷ rest) v later sorted distinct fresh =
    let (end, w) =
      scan-ScanInv (scan_step s curr) (With curr Done) (position curr.start_inst) rest
        (scan_step-ScanInv s Done now curr v later.0 (λ d k. (fresh d k).0)) sorted.0 sorted.1
        distinct.1 placed in
    (
      end,
      weaken _ (Either (With curr Done) rest) (Either Done (curr ∷ rest)) end
          (advance Done curr rest) w,
    )
  where
    placed : (d : LiveInterval) → With curr Done d → All (λ y. d.vreg ≢ y.vreg) rest
    placed d = elim [ inl q ↦ rw q distinct.0 | inr k ↦ (fresh d k).1 ]

module _ (xs : List LiveInterval) (sorted : SortedStarts xs) (distinct : DistinctVregs xs) where
  final : (end : ℕ) × ScanInv (scan scan_init xs) (Either (λ _. ⊥) xs) end
  final =
      scan-ScanInv scan_init (λ _. ⊥) 0 xs scan_init-ScanInv
        (All-map_imp (λ (_ : LiveInterval). Unit {0}) _ xs (λ x _. omega arith) (all_unit xs))
        sorted distinct (λ d m. absurd m)
    where
      all_unit : (ys : List LiveInterval) → All (λ _. Unit {0}) ys
      all_unit [] = tt
      all_unit (y ∷ ys) = (tt, all_unit ys)

  pub scan-Apart :
      (d e : LiveInterval) (r : PhysReg)
      → Member d xs
      → Member e xs
      → d.vreg ≢ e.vreg
      → (scan scan_init xs).assigned d.vreg ≡ some r
      → (scan scan_init xs).assigned e.vreg ≡ some r
      → Apart d e
  scan-Apart d e r m n ne p q = final.1.apart d e r (inr m) (inr n) ne p q

  -- For intervals in the order of their starts, of which no two are for one virtual register,
  -- at most seven entries are active after the scan: as many as the array has.
  pub scan-length : length (scan scan_init xs).active ≤ 7
  scan-length = length-le-count _ final.1.distinct
