-- ===== src/Opt/Dce/Agrees.antt =====
-- opt_dead_code_elimination: registers that agree where some instruction reads them.
use winds.Base.{
  ℕ, String, ◌≡◌, refl, sym, ◌∙◌, ap, subst, ◌⊎◌, inl, inr, Bool, true, false, ◌&&◌, Option, none,
  some, List, [], ◌∷◌, ◌++◌, map, if◌then◌else◌, Bool-cases, arith, Member,
}
use mathlib.Core.Option
use mathlib.Core.Option.{some-injective}
use winds.Base.Int.{ℤ, int_eq, int_eq_iff, is_positive}
use winds.Ir.{IrOp, ir_label, ir_jmp_if_zero, ir_jmp_if_not_zero, IrOperand, IrInst, is_op}
use winds.Opt.Vreg.{reg_below}
use winds.Opt.Machine.{
  operands_read, writes_dest, has_effect, Contents, content_of, read_all, write_dest, act,
  branch_test,
}
use winds.Opt.Flow.{after_label, goto, takes, skips, is_plain, is_conditional}
use winds.Opt.Flow.Labels.{IsSuffix, after_label-other, after_label-cons}
use winds.Opt.Dce.{UseCount, count_uses, is_dead, remove_dead}
use winds.Opt.Dce.Uses.{Reads, is_dead-unread}
use winds.Opt.Dce.Operands.{is_pure-computes, is_pure-is_plain, operands_read-Reads}

plain-label : (op : IrOp) → is_plain op ≡ true → is_op op ir_label ≡ false
plain-label op h = ground (arith, h)

pub takes-plain : (op : IrOp) (z : Bool) → takes op z ≡ true → is_plain op ≡ true → false ≡ true
takes-plain op z h p = ground (arith, h, p)

conditional-reads :
    (inst : IrInst) (op : IrOp)
    → is_conditional op ≡ true
    → Member inst.src1 (operands_read op inst)
unfolding operands_read
conditional-reads inst ir_jmp_if_zero h = inl refl
conditional-reads inst ir_jmp_if_not_zero h = inl refl
conditional-reads inst _ h = cc

pub takes-test :
    (op : IrOp) (y z : Bool) → (is_conditional op ≡ true → y ≡ z) → takes op y ≡ takes op z
takes-test op y z e = elim (Bool-cases (is_conditional op)) [
  | inl c ↦ ap (takes op) (e c)
  | inr c ↦ ground (arith, c)
]

pub skips-test :
    (op : IrOp) (y z : Bool) → (is_conditional op ≡ true → y ≡ z) → skips op y ≡ skips op z
skips-test op y z e = elim (Bool-cases (is_conditional op)) [
  | inl c ↦ ap (skips op) (e c)
  | inr c ↦ ground (arith, c)
]

pub suffix-Member :
    (code : List IrInst) (inst : IrInst) (rest : List IrInst)
    → IsSuffix code (inst ∷ rest)
    → Member inst code
suffix-Member code inst rest (before, e) = subst (Member inst) (sym e) (inside before)
  where
    inside : (xs : List IrInst) → Member inst (xs ++ (inst ∷ rest))
    inside [] = inl refl
    inside (x ∷ xs) = inr (inside xs)

module _ (max_vreg : ℕ) (code : List IrInst) where
  abbrev pub counts : UseCount
  counts = count_uses max_vreg code (λ _. 0)

  abbrev pub kept : List IrInst → List IrInst
  kept insts = (remove_dead max_vreg counts insts).0

  -- The register is in range, and no instruction reads it.
  abbrev Unread : ℤ → Type 0
  Unread z =
      (v : ℕ) × (reg_below max_vreg z ≡ some v)
      × ((other : IrInst) → Member other code → ¬ (Reads max_vreg v other))

  -- The registers differ at most where no instruction reads.
  abbrev Agrees : Contents → Contents → Type 0
  Agrees regs regs' = (z : ℤ) → (regs z ≡ regs' z) ⊎ Unread z

  pub kept-dead :
      (inst : IrInst) (rest : List IrInst)
      → is_dead max_vreg counts inst ≡ true
      → kept (inst ∷ rest) ≡ kept rest
  unfolding remove_dead
  kept-dead inst rest h = rw (h, remove_dead, kept) refl

  pub kept-live :
      (inst : IrInst) (rest : List IrInst)
      → is_dead max_vreg counts inst ≡ false
      → kept (inst ∷ rest) ≡ inst ∷ kept rest
  unfolding remove_dead
  kept-live inst rest h = rw (h, remove_dead, kept) refl

  pub dead-plain : (inst : IrInst) → is_dead max_vreg counts inst ≡ true → is_plain inst.op ≡ true
  dead-plain inst h = is_pure-is_plain max_vreg inst.op (is_dead-unread max_vreg code inst h).0

  after_label-kept :
      (insts : List IrInst) (name : String)
      → after_label (kept insts) name ≡ Option.map kept (after_label insts name)
  unfolding after_label remove_dead
  after_label-kept [] name = refl
  after_label-kept (inst ∷ rest) name =
      let later = after_label-kept rest name in
      elim (Bool-cases (is_dead max_vreg counts inst)) [
        | inl h ↦
            ap (λ xs. after_label xs name) (kept-dead inst rest h)
            ∙ later
            ∙ ap (Option.map kept)
                (sym (after_label-other inst rest name (plain-label inst.op (dead-plain inst h))))
        | inr h ↦
            ap (λ xs. after_label xs name) (kept-live inst rest h)
            ∙ after_label-cons kept inst rest name later
      ]

  pub goto-kept :
      (l : Option String) (target : List IrInst)
      → goto code l ≡ some target
      → goto (kept code) l ≡ some (kept target)
  goto-kept none target h = cc
  goto-kept (some name) target h = after_label-kept code name ∙ ap (Option.map kept) h

  content_of-Agrees :
      (regs regs' : Contents) (inst : IrInst) (o : IrOperand)
      → Agrees regs regs'
      → Member inst code
      → Member o (operands_read inst.op inst)
      → content_of regs o ≡ content_of regs' o
  unfolding content_of
  content_of-Agrees regs regs' inst o a m n = elim (a o.vreg) [
    | inl e ↦ ap (λ x. if is_positive o.vreg then x else 0) e
    | inr (v, r, none_of) ↦ absurd (none_of inst m (operands_read-Reads max_vreg v inst o r n))
  ]

  map-same :
      (f g : IrOperand → ℕ) (os : List IrOperand)
      → ((o : IrOperand) → Member o os → f o ≡ g o)
      → map f os ≡ map g os
  map-same f g [] h = refl
  map-same f g (o ∷ os) h =
      let e = h o (inl refl) in let es = map-same f g os (λ p m. h p (inr m)) in cc

  read_all-Agrees :
      (regs regs' : Contents) (inst : IrInst)
      → Agrees regs regs'
      → Member inst code
      → read_all regs (operands_read inst.op inst) ≡ read_all regs' (operands_read inst.op inst)
  unfolding read_all
  read_all-Agrees regs regs' inst a m =
      map-same (content_of regs) (content_of regs') (operands_read inst.op inst)
        (λ o n. content_of-Agrees regs regs' inst o a m n)

  write-Agrees :
      (inst : IrInst) (n : ℕ) (regs regs' : Contents)
      → Agrees regs regs'
      → Agrees (write_dest inst n regs) (write_dest inst n regs')
  unfolding write_dest
  write-Agrees inst n regs regs' a z = elim (a z) [
    | inl e ↦ inl (
        ap (λ x. if writes_dest inst.op && (is_positive z && int_eq z inst.dest.vreg) then n else x)
          e)
    | inr u ↦ inr u
  ]

  -- A result that no instruction reads.
  write_dest-Unread :
      (inst : IrInst) (n : ℕ) (regs regs' : Contents)
      → Agrees regs regs'
      → Unread inst.dest.vreg
      → Agrees (write_dest inst n regs) regs'
  unfolding write_dest
  write_dest-Unread inst n regs regs' a u z = elim (Bool-cases (int_eq z inst.dest.vreg)) [
    | inl e ↦ inr (subst Unread (sym ((int_eq_iff z inst.dest.vreg).0 e)) u)
    | inr e ↦ elim (a z) [ inl q ↦ inl (ground (arith, e, q)) | inr v ↦ inr v ]
  ]

  unfoldable pub Same : {W : Type 0} → Contents × W → Contents × W → Type 0
  Same s s' = Agrees s.0 s'.0 × (s.1 ≡ s'.1)

  pub test-Same :
      {W : Type 0} (test : IrOperand → ℕ → Bool) (inst : IrInst) (s s' : Contents × W)
      → Same s s'
      → Member inst code
      → is_conditional inst.op ≡ true
      → branch_test test inst.src1 s ≡ branch_test test inst.src1 s'
  unfolding branch_test Same
  test-Same test inst s s' (a, _) m c =
      ap (test inst.src1)
        (content_of-Agrees s.0 s'.0 inst inst.src1 a m (conditional-reads inst inst.op c))

  module _ {W : Type 0} (value : IrInst → List ℕ → W → ℕ) (effect : IrInst → List ℕ → W → W) where
    pub act-Same :
        (inst : IrInst) (s s' : Contents × W)
        → Same s s'
        → Member inst code
        → Same (act value effect inst s) (act value effect inst s')
    unfolding act Same
    act-Same inst (regs, w) (regs', w') (a, e) m =
        let xs = read_all-Agrees regs regs' inst a m in
        (
          subst
              (λ n.
                Agrees
                  (write_dest inst (value inst (read_all regs (operands_read inst.op inst)) w) regs)
                  (write_dest inst n regs'))
              (ap (λ ys. value inst ys w) xs
                ∙ ap (value inst (read_all regs' (operands_read inst.op inst))) e)
              (write-Agrees inst _ regs regs' a),
          ap (λ ys. if has_effect inst.op then effect inst ys w else w) xs
              ∙ ap
                  (λ u.
                    if has_effect inst.op
                    then effect inst (read_all regs' (operands_read inst.op inst)) u
                    else u)
                  e,
        )

    pub act-dead :
        (inst : IrInst) (s s' : Contents × W)
        → Same s s'
        → is_dead max_vreg counts inst ≡ true
        → Same (act value effect inst s) s'
    unfolding act Same
    act-dead inst (regs, w) (regs', w') (a, e) h =
        let (pure, (v, r, none_of)) = is_dead-unread max_vreg code inst h in
        (
          write_dest-Unread inst _ regs regs' a (v, r, none_of),
          rw (is_pure-computes max_vreg inst.op pure) e,
        )
