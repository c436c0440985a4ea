-- ===== src/Opt/Dce/Runs.antt =====
-- opt_dead_code_elimination: runs of a function before and after it.
use winds.Base.{
  ℕ, ◌+◌, ◌≡◌, refl, sym, ◌∙◌, subst, inl, inr, Bool, true, List, ◌∷◌, Bool-cases, arith,
}
use winds.Ir.{IrOperand, IrInst, IrFunction}
use winds.Opt.Machine.{Contents, act, branch_test}
use winds.Opt.Flow.{Exec, ends, returns, acts, skip, jump}
use winds.Opt.Flow.Labels.{IsSuffix, IsSuffix-self, IsSuffix-tail, goto-IsSuffix}
use winds.Opt.Dce.{is_dead, remove_dead, opt_dead_code_elimination}
use winds.Opt.Dce.Agrees.{
  takes-plain, takes-test, skips-test, suffix-Member, counts, kept, Same, kept-dead, kept-live,
  dead-plain, goto-kept, test-Same, act-Same, act-dead,
}

module _ (max_vreg : ℕ) (code : List IrInst) {W : Type 0} (value : IrInst → List ℕ → W → ℕ)
    (effect : IrInst → List ℕ → W → W) (test : IrOperand → ℕ → Bool) where
  abbrev Runs : List IrInst → List IrInst → Contents × W → Contents × W → Type 0
  Runs = Exec (act value effect) (branch_test test)

  -- A run of the code from here, in a state that agrees with `s'`, is one of the code
  -- that stays.
  abbrev Follows : List IrInst → Contents × W → Contents × W → Type 0
  Follows insts s' t =
      (t' : Contents × W) × Same max_vreg code t t'
      × Runs (kept max_vreg code code) (kept max_vreg code insts) s' t'

  keep-Follows :
      (inst : IrInst) (rest : List IrInst) (s s' t : Contents × W)
      → Same max_vreg code s s'
      → IsSuffix code (inst ∷ rest)
      → (is_dead max_vreg (counts max_vreg code) inst ≡ true → Follows rest s' t)
      → ((t' : Contents × W) × Same max_vreg code t t'
          × Runs (kept max_vreg code code) (inst ∷ kept max_vreg code rest) s' t')
      → Follows (inst ∷ rest) s' t
  keep-Follows inst rest s s' t same suffix gone stays =
      elim (Bool-cases (is_dead max_vreg (counts max_vreg code) inst)) [
        | inl h ↦
            let (t', same', run) = gone h in
            (
              t',
              same',
              subst (λ xs. Runs (kept max_vreg code code) xs s' t')
                  (sym (kept-dead max_vreg code inst rest h)) run,
            )
        | inr h ↦
            let (t', same', run) = stays in
            (
              t',
              same',
              subst (λ xs. Runs (kept max_vreg code code) xs s' t')
                  (sym (kept-live max_vreg code inst rest h)) run,
            )
      ]

  kept-Follows :
      {insts : List IrInst} {s t : Contents × W} (s' : Contents × W)
      → IsSuffix code insts
      → Same max_vreg code s s'
      → Runs code insts s t
      → Follows insts s' t
  unfolding remove_dead
  kept-Follows s' suffix same ends = (s', same, ends)
  kept-Follows s' suffix same (returns {inst} {rest} {s} h) =
      let m = suffix-Member code inst rest suffix in
      keep-Follows inst rest s s' _ same suffix
        (λ e. absurd (ground (arith, h, dead-plain max_vreg code inst e)))
        (act value effect inst s', act-Same max_vreg code value effect inst s s' same m, returns h)
  kept-Follows s' suffix same (acts {inst} {rest} {s} h run) =
      let m = suffix-Member code inst rest suffix in
      let after = IsSuffix-tail code inst rest suffix in
      let (t', same', run') =
        kept-Follows (act value effect inst s') after
          (act-Same max_vreg code value effect inst s s' same m) run in
      keep-Follows inst rest s s' _ same suffix
        (λ e. kept-Follows s' after (act-dead max_vreg code value effect inst s s' same e) run)
        (t', same', acts h run')
  kept-Follows s' suffix same (skip {inst} {rest} {s} h run) =
      let m = suffix-Member code inst rest suffix in
      let (t', same', run') = kept-Follows s' (IsSuffix-tail code inst rest suffix) same run in
      keep-Follows inst rest s s' _ same suffix (λ e. (t', same', run'))
        (
          t',
          same',
          skip (sym (skips-test inst.op _ _ (test-Same max_vreg code test inst s s' same m)) ∙ h)
              run',
        )
  kept-Follows s' suffix same (jump {inst} {rest} {target} {s} h g run) =
      let m = suffix-Member code inst rest suffix in
      let (t', same', run') =
        kept-Follows s' (goto-IsSuffix code inst.dest.label target g) same run in
      keep-Follows inst rest s s' _ same suffix
        (λ e. cc (takes-plain inst.op _ h (dead-plain max_vreg code inst e)))
        (
          t',
          same',
          jump (sym (takes-test inst.op _ _ (test-Same max_vreg code test inst s s' same m)) ∙ h)
              (goto-kept max_vreg code inst.dest.label target g) run',
        )

-- On a machine where an instruction reads the operands, and writes the destination, that the code
-- for it does, and where only stores, calls and returns change more than a register, whatever the
-- values and the changes are, as functions of what is read and of the rest of the state, and
-- whatever test a branch makes: if the function returns from some registers and some rest of the
-- state, then the result of dead code elimination, started in the same, returns with the same
-- rest of the state.
pub opt_dead_code_elimination-Exec :
    {W : Type 0} (value : IrInst → List ℕ → W → ℕ) (effect : IrInst → List ℕ → W → W)
    (test : IrOperand → ℕ → Bool) (fn : IrFunction) (regs : Contents) (w : W) (t : Contents × W)
    → Exec (act value effect) (branch_test test) fn.insts fn.insts (regs, w) t
    → (regs' : Contents) × Exec
        (act value effect)
        (branch_test test)
        (opt_dead_code_elimination fn).0
        (opt_dead_code_elimination fn).0
        (regs, w)
        (regs', t.1)
unfolding opt_dead_code_elimination Same
opt_dead_code_elimination-Exec value effect test fn regs w t run =
    let (t', same, run') =
      kept-Follows (fn.vreg_count + 32) fn.insts value effect test (regs, w)
        (IsSuffix-self fn.insts) ((λ z. inl refl), refl) run in
    (
      t'.0,
      subst
          (λ u.
            Exec (act value effect) (branch_test test) (opt_dead_code_elimination fn).0
              (opt_dead_code_elimination fn).0 (regs, w) (t'.0, u))
          (sym same.1) run',
    )
