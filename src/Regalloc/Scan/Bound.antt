-- ===== src/Regalloc/Scan/Bound.antt =====
-- The number of active entries, against PHYS_REG_COUNT, the length of the array.
use winds.Base.{
  ℕ, ◌+◌, ◌≤◌, ◌≡◌, refl, ◌≢◌, true, List, [], ◌∷◌, arith, Bool-cases, All, length, if◌then◌else◌,
  inl, inr,
}
use winds.Regalloc.Types.{PhysReg, rbx, r12, r13, r14, r15, r10, r11, reg_eq, reg_eq_iff, reg_ne}
use winds.Regalloc.Scan.{ActiveEntry}
use winds.Regalloc.Scan.Active.{DistinctRegs}

-- How many entries hold `r`.
holders : PhysReg → List ActiveEntry → ℕ
holders r [] = 0
holders r (e ∷ es) = (if reg_eq r e.reg then 1 else 0) + holders r es

holders_none : (r : PhysReg) (es : List ActiveEntry) → All (λ x. r ≢ x.reg) es → holders r es ≡ 0
unfolding holders
holders_none r [] h = refl
holders_none r (e ∷ es) h = rw (reg_ne r e.reg h.0) (omega (arith, holders_none r es h.1))

holders-le-one : (r : PhysReg) (es : List ActiveEntry) → DistinctRegs es → holders r es ≤ 1
unfolding holders
holders-le-one r [] h = omega arith
holders-le-one r (e ∷ es) h = elim (Bool-cases (reg_eq r e.reg)) [
  | inl q ↦ rw q (omega (arith, none_left q))
  | inr q ↦ rw q (omega (arith, holders-le-one r es h.1))
]
  where
    none_left : reg_eq r e.reg ≡ true → holders r es ≡ 0
    none_left q = rw ((reg_eq_iff r e.reg).0 q) (holders_none e.reg es h.0)

-- Every entry is counted for one register.
length-holders :
    (es : List ActiveEntry)
    → length es
      ≡ holders rbx es
        + holders r12 es
        + holders r13 es
        + holders r14 es
        + holders r15 es
        + holders r10 es
        + holders r11 es
unfolding holders
length-holders [] = refl
length-holders (e ∷ es) = ground (arith, length-holders es)

pub length-le-count : (es : List ActiveEntry) → DistinctRegs es → length es ≤ 7
length-le-count es h = omega (
  arith,
  length-holders es,
  holders-le-one rbx es h,
  holders-le-one r12 es h,
  holders-le-one r13 es h,
  holders-le-one r14 es h,
  holders-le-one r15 es h,
  holders-le-one r10 es h,
  holders-le-one r11 es h,
)
