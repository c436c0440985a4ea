-- ===== src/Regalloc/Scan/Active.antt =====
-- The active list of the linear scan: expiry, appending, and its bound.
use winds.Base.{
  ◌<◌, ◌≡◌, refl, sym, subst, ◌∙◌, ◌≢◌, ◌⊎◌, inl, inr, Bool, true, false, some, List, [], ◌∷◌,
  arith, Bool-cases, Member, All, All-Member, All-of_Member, if◌then◌else◌, ltb→lt,
}
use winds.Regalloc.Types.{PhysReg, reg_ne, InstIndex, position, inst_lt, set_reg}
use winds.Regalloc.Scan.{ActiveEntry, surviving, release, append_entry, first_free}

-- No two entries hold one register.
abbrev pub DistinctRegs : List ActiveEntry → Type 0
DistinctRegs [] = Unit
DistinctRegs (e ∷ es) = All (λ x. e.reg ≢ x.reg) es × DistinctRegs es

-- What is kept of a longer list is its head, if that does not end before the start, or is kept of
-- the rest.
surviving_cases :
    (start : InstIndex) (x : ActiveEntry) (es : List ActiveEntry) (e : ActiveEntry)
    → Member e (surviving start (x ∷ es))
    → ((e ≡ x) × (inst_lt x.end_inst start ≡ false)) ⊎ Member e (surviving start es)
unfolding surviving
surviving_cases start x es e m = elim (Bool-cases (inst_lt x.end_inst start)) [
  | inl d ↦ inr (rw d at m)
  | inr d ↦ head_or_rest d (rw d at m)
]
  where
    head_or_rest :
        inst_lt x.end_inst start ≡ false
        → Member e (x ∷ surviving start es)
        → ((e ≡ x) × (inst_lt x.end_inst start ≡ false)) ⊎ Member e (surviving start es)
    head_or_rest d = elim [ inl q ↦ inl (q, d) | inr k ↦ inr k ]

pub Member-surviving :
    (start : InstIndex) (es : List ActiveEntry) (e : ActiveEntry)
    → Member e (surviving start es)
    → Member e es
unfolding surviving
Member-surviving start [] e m = m
Member-surviving start (x ∷ es) e m = elim (surviving_cases start x es e m) [
  | inl (q, _) ↦ inl q
  | inr k ↦ inr (Member-surviving start es e k)
]

-- An entry is kept unless it ends before the start.
pub surviving_or_ended :
    (start : InstIndex) (es : List ActiveEntry) (e : ActiveEntry)
    → Member e es
    → Member e (surviving start es) ⊎ (position e.end_inst < position start)
unfolding surviving
surviving_or_ended start [] e m = absurd m
surviving_or_ended start (x ∷ es) e (inl q) = elim (Bool-cases (inst_lt x.end_inst start)) [
  | inl d ↦ inr (rw q (ltb→lt _ _ d))
  | inr d ↦ rw d (inl (inl q))
]
surviving_or_ended start (x ∷ es) e (inr m) = elim (surviving_or_ended start es e m) [
  | inl k ↦ elim (Bool-cases (inst_lt x.end_inst start)) [
    | inl d ↦ rw d (inl k)
    | inr d ↦ rw d (inl (inr k))
  ]
  | inr l ↦ inr l
]

pub surviving-DistinctRegs :
    (start : InstIndex) (es : List ActiveEntry)
    → DistinctRegs es
    → DistinctRegs (surviving start es)
unfolding surviving
surviving-DistinctRegs start [] h = tt
surviving-DistinctRegs start (x ∷ es) h = elim (Bool-cases (inst_lt x.end_inst start)) [
  | inl d ↦ rw d (surviving-DistinctRegs start es h.1)
  | inr d ↦ rw d (kept, surviving-DistinctRegs start es h.1)
]
  where
    kept : All (λ y. x.reg ≢ y.reg) (surviving start es)
    kept =
        All-of_Member _ (surviving start es)
          (λ y m. All-Member (λ y. x.reg ≢ y.reg) es h.0 y (Member-surviving start es y m))

-- Expiry touches no register but those of the list.
release_other :
    (start : InstIndex) (es : List ActiveEntry) (in_use : PhysReg → Bool) (r : PhysReg)
    → All (λ x. r ≢ x.reg) es
    → release start es in_use r ≡ in_use r
unfolding release
release_other start [] in_use r h = refl
release_other start (x ∷ es) in_use r h = elim (Bool-cases (inst_lt x.end_inst start)) [
  | inl d ↦ rw d (release_other start es _ r h.1 ∙ rw (reg_ne r x.reg h.0))
  | inr d ↦ rw d (release_other start es _ r h.1)
]

-- The register of an entry that is kept stays in use.
pub release-surviving :
    (start : InstIndex) (es : List ActiveEntry) (in_use : PhysReg → Bool) (e : ActiveEntry)
    → DistinctRegs es
    → Member e (surviving start es)
    → in_use e.reg ≡ true
    → release start es in_use e.reg ≡ true
unfolding release
release-surviving start [] in_use e h m u = u
release-surviving start (x ∷ es) in_use e h m u = elim (surviving_cases start x es e m) [
  | inl (q, alive) ↦
      rw (alive, q) (release_other start es in_use x.reg h.0 ∙ subst (λ y. in_use y.reg ≡ true) q u)
  | inr k ↦ release-surviving start es _ e h.1 k (still k)
]
  where
    still :
        Member e (surviving start es)
        → (if inst_lt x.end_inst start then set_reg in_use x.reg false else in_use) e.reg ≡ true
    still k = elim (Bool-cases (inst_lt x.end_inst start)) [
      | inl d ↦ rw (d, reg_ne e.reg x.reg (λ q. ne (sym q))) u
      | inr d ↦ rw d u
    ]
      where
        ne : x.reg ≢ e.reg
        ne = All-Member (λ y. x.reg ≢ y.reg) es h.0 e (Member-surviving start es e k)

-- Appending keeps the members and adds one.
pub append_entry_cases :
    (es : List ActiveEntry) (a e : ActiveEntry)
    → Member e (append_entry es a)
    → (e ≡ a) ⊎ Member e es
unfolding append_entry
append_entry_cases [] a e (inl q) = inl q
append_entry_cases [] a e (inr m) = absurd m
append_entry_cases (x ∷ es) a e (inl q) = inr (inl q)
append_entry_cases (x ∷ es) a e (inr m) = elim (append_entry_cases es a e m) [
  | inl q ↦ inl q
  | inr k ↦ inr (inr k)
]

pub Member-append_entry_old :
    (es : List ActiveEntry) (a e : ActiveEntry) → Member e es → Member e (append_entry es a)
unfolding append_entry
Member-append_entry_old [] a e m = absurd m
Member-append_entry_old (x ∷ es) a e (inl q) = inl q
Member-append_entry_old (x ∷ es) a e (inr m) = inr (Member-append_entry_old es a e m)

pub Member-append_entry_new :
    (es : List ActiveEntry) (a : ActiveEntry) → Member a (append_entry es a)
unfolding append_entry
Member-append_entry_new [] a = inl refl
Member-append_entry_new (x ∷ es) a = inr (Member-append_entry_new es a)

pub append_entry-DistinctRegs :
    (es : List ActiveEntry) (a : ActiveEntry)
    → DistinctRegs es
    → ((e : ActiveEntry) → Member e es → e.reg ≢ a.reg)
    → DistinctRegs (append_entry es a)
unfolding append_entry
append_entry-DistinctRegs [] a h new = (tt, tt)
append_entry-DistinctRegs (x ∷ es) a h new = (
  All-of_Member _ (append_entry es a) differs,
  append_entry-DistinctRegs es a h.1 (λ e m. new e (inr m)),
)
  where
    differs : (y : ActiveEntry) → Member y (append_entry es a) → x.reg ≢ y.reg
    differs y m = elim (append_entry_cases es a y m) [
      | inl q ↦ rw q (new x (inl refl))
      | inr k ↦ All-Member (λ z. x.reg ≢ z.reg) es h.0 y k
    ]

-- A register that is found was not in use.
pub first_free-free :
    (in_use : PhysReg → Bool) (rs : List PhysReg) (r : PhysReg)
    → first_free in_use rs ≡ some r
    → in_use r ≡ false
unfolding first_free
first_free-free in_use [] r h = cc
first_free-free in_use (s ∷ rs) r h = elim (Bool-cases (in_use s)) [
  | inl u ↦ first_free-free in_use rs r (rw u at h)
  | inr u ↦ ground arith
]
