-- ===== src/Opt/Cfg/Threading.antt =====
-- Step 3 of opt_cfg_optimization: runs of a function before and after it.
use winds.Base.{
  ℕ, zero, suc, String, ◌≡◌, refl, sym, ◌∙◌, ap, subst, inl, inr, Bool, true, false, Option, none,
  some, List, [], ◌∷◌, ◌++◌, if◌then◌else◌, Bool-cases, Option-cases, arith,
}
use mathlib.Core.Option.{some-injective}
use mathlib.Core.List.{append-nil, append_assoc}
use text.Mathlib.Text.{◌==◌ as str_eq}
use winds.Ir.{IrInst, IrOperand, ir_jmp, is_op}
use winds.Opt.Flow.Ops.{branch-label, branch-plain, branch-ret, jmp-skips, jmp-branch}
use winds.Opt.Flow.{
  same_label, label_of, after_label, goto, is_branch, Exec, ends, returns, acts, skip, jump,
}
use winds.Opt.Flow.Labels.{after_label-other}
use winds.Opt.Cfg.{
  jump_from, other_label, thread_hops, thread_jump_target, with_label, thread_to, thread_inst,
  thread_jumps,
}

-- The jumps between the two labels.
pub data Hops (code : List IrInst) : String → String → Type 0 where
  arrive : (l : String) → Hops code l l
  hop : {l m n : String} → jump_from l (after_label code l) ≡ some m → Hops code m n → Hops code l n

-- The same instructions, some branches of them threaded through `code`.
pub data Threads (code : List IrInst) : List IrInst → List IrInst → Type 0 where
  nothing : Threads code [] []
  kept :
      {xs ys : List IrInst} (inst : IrInst)
      → Threads code xs ys
      → Threads code (inst ∷ xs) (inst ∷ ys)
  moved :
      {xs ys : List IrInst} (inst : IrInst) (l n : String)
      → is_branch inst.op ≡ true
      → inst.dest.label ≡ some l
      → Hops code l n
      → Threads code xs ys
      → Threads code (inst ∷ xs) (with_label inst (some n) ∷ ys)

thread_hops-Hops : (n : ℕ) (code : List IrInst) (l : String) → Hops code l (thread_hops n code l)
unfolding thread_hops
thread_hops-Hops zero code l = arrive l
thread_hops-Hops (suc n) code l = elim (Option-cases (jump_from l (after_label code l))) [
  | inl e ↦ rw (e, thread_hops) (arrive l)
  | inr (m, e) ↦ rw (e, thread_hops) (hop e (thread_hops-Hops n code m))
]

other_label-some : (l m : String) (o : Option String) → other_label l o ≡ some m → o ≡ some m
unfolding other_label
other_label-some l m none h = h
other_label-some l m (some k) h = elim (Bool-cases (str_eq k l)) [
  | inl e ↦ absurd (ground (arith, h, e))
  | inr e ↦ ground (arith, h, e)
]

jump_from-jump :
    (l m : String) (inst : IrInst) (rest : List IrInst)
    → jump_from l (some (inst ∷ rest)) ≡ some m
    → (is_op inst.op ir_jmp ≡ true) × (inst.dest.label ≡ some m)
unfolding jump_from
jump_from-jump l m inst rest h = elim (Bool-cases (is_op inst.op ir_jmp)) [
  | inl e ↦ (e, other_label-some l m inst.dest.label (ground (arith, h, e)))
  | inr e ↦ absurd (ground (arith, h, e))
]

after_label-Threads :
    (code : List IrInst) {insts insts' : List IrInst} (name : String) (rest : List IrInst)
    → Threads code insts insts'
    → after_label insts name ≡ some rest
    → (rest' : List IrInst) × (after_label insts' name ≡ some rest') × Threads code rest rest'
unfolding after_label
after_label-Threads code name rest nothing h = cc
after_label-Threads code name rest (kept {xs} {ys} inst th) h =
    elim (Bool-cases (same_label (label_of inst) (some name))) [
      | inl e ↦ (
        ys,
        rw e refl,
        subst (λ x. Threads code x ys) (some-injective xs rest (ground (arith, h, e))) th,
      )
      | inr e ↦
          let (rest', found, th') = after_label-Threads code name rest th (ground (arith, h, e)) in
          (rest', rw e found, th')
    ]
after_label-Threads code name rest (moved {xs} {ys} inst l n b e hops th) h =
    rw (branch-label inst.op b) (
      after_label-Threads code name rest th
        (sym (after_label-other inst xs name (branch-label inst.op b)) ∙ h))

jump_from-end : (l m : String) → jump_from l (some []) ≡ some m → ⊥
unfolding jump_from
jump_from-end l m h = cc

goto-Threads :
    (code : List IrInst) {code' : List IrInst} (l : Option String) (target : List IrInst)
    → Threads code code code'
    → goto code l ≡ some target
    → (target' : List IrInst) × (goto code' l ≡ some target') × Threads code target target'
goto-Threads code none target th h = cc
goto-Threads code (some name) target th h = after_label-Threads code name target th h

module _ {S : Type 0} (act : IrInst → S → S) (is_zero : IrOperand → S → Bool)
    (code code' : List IrInst) where
  -- A run of `code'` from the label.
  From : String → S → S → Type 0
  From l s t =
      (rest : List IrInst) × (after_label code' l ≡ some rest) × Exec act is_zero code' rest s t

  -- A run of `code` from `rest` is one of `code'`, from the same place or after the jumps there.
  abbrev Follows : List IrInst → S → S → Type 0
  Follows rest s t =
      ((rest' : List IrInst) → Threads code rest rest' → Exec act is_zero code' rest' s t)
      × ((l n : String) → after_label code l ≡ some rest → Hops code l n → From n s t)

  -- What follows the first instruction, threaded or not.
  threads-next :
      (inst : IrInst) (rest rest' : List IrInst) (s t : S)
      → Threads code (inst ∷ rest) rest'
      → ((later : List IrInst)
          → Threads code rest later
          → Exec act is_zero code' (inst ∷ later) s t)
      → ((later : List IrInst) (l n : String)
          → Threads code rest later
          → is_branch inst.op ≡ true
          → inst.dest.label ≡ some l
          → Hops code l n
          → Exec act is_zero code' (with_label inst (some n) ∷ later) s t)
      → Exec act is_zero code' rest' s t
  threads-next inst rest rest' s t (kept {ys = ys} _ th) keep move = keep ys th
  threads-next inst rest rest' s t (moved {ys = ys} _ l n b e hops th) keep move =
      move ys l n th b e hops

  follows :
      (rest : List IrInst) (s t : S)
      → Threads code code code'
      → ((rest' : List IrInst) → Threads code rest rest' → Exec act is_zero code' rest' s t)
      → ((l m n : String) → jump_from l (some rest) ≡ some m → Hops code m n → From n s t)
      → Follows rest s t
  unfolding From
  follows rest s t th here there = (here, λ l n. via l n)
    where
      via : (l n : String) → after_label code l ≡ some rest → Hops code l n → From n s t
      via l n at (arrive _) =
          let (rest', found, th') = after_label-Threads code l rest th at in
          (rest', found, here rest' th')
      via l n at (hop {m = m} e hops) = there l m n (ap (jump_from l) (sym at) ∙ e) hops

  -- What goes on from an instruction that is no branch.
  unthreaded :
      (inst : IrInst) (rest : List IrInst) (s t : S)
      → (is_branch inst.op ≡ true → ⊥)
      → Threads code code code'
      → ((later : List IrInst)
          → Threads code rest later
          → Exec act is_zero code' (inst ∷ later) s t)
      → Follows (inst ∷ rest) s t
  unthreaded inst rest s t no_branch all keep =
      follows (inst ∷ rest) s t all
        (λ rest' th.
          threads-next inst rest rest' s t th keep (λ later l n th' b e hops. absurd (no_branch b)))
        (λ l m n e hops. absurd (no_branch (jmp-branch inst.op (jump_from-jump l m inst rest e).0)))

  Exec-Follows :
      {rest : List IrInst} {s t : S}
      → Threads code code code'
      → Exec act is_zero code rest s t
      → Follows rest s t
  unfolding From
  Exec-Follows all (ends {s}) =
      follows [] s s all ends-nothing (λ l m n e hops. absurd (jump_from-end l m e))
    where
      ends-nothing :
          (rest' : List IrInst) → Threads code [] rest' → Exec act is_zero code' rest' s s
      ends-nothing rest' nothing = ends
  Exec-Follows all (returns {inst} {rest} {s} h) =
      unthreaded inst rest s (act inst s) (λ b. branch-ret inst.op b h) all (λ later th. returns h)
  Exec-Follows all (acts {inst} {rest} {s} {t} h run) =
      let (here, _) = Exec-Follows all run in
      unthreaded inst rest s t (λ b. branch-plain inst.op b h) all
        (λ later th. acts h (here later th))
  Exec-Follows all (skip {inst} {rest} {s} {t} h run) =
      let (here, _) = Exec-Follows all run in
      follows (inst ∷ rest) s t all
        (λ rest' th.
          threads-next inst rest rest' s t th (λ later th'. skip h (here later th'))
            (λ later l n th' b e hops. skip h (here later th')))
        (λ l m n e hops.
          absurd (jmp-skips inst.op (is_zero inst.src1 s) (jump_from-jump l m inst rest e).0 h))
  Exec-Follows all (jump {inst} {rest} {target} {s} {t} h g run) =
      let (here, via) = Exec-Follows all run in
      follows (inst ∷ rest) s t all
        (λ rest' th.
          threads-next inst rest rest' s t th
            (λ later th'.
              let (target', found, to) = goto-Threads code inst.dest.label target all g in
              jump h found (here target' to))
            (λ later l n th' b e hops.
              let (target', found, run') = via l n (sym (ap (goto code) e) ∙ g) hops in
              jump h found run'))
        (λ l m n e hops. via m n (sym (ap (goto code) (jump_from-jump l m inst rest e).1) ∙ g) hops)

-- Replacing one instruction by a threaded one.
Threads-self : (code insts : List IrInst) → Threads code insts insts
Threads-self code [] = nothing
Threads-self code (inst ∷ rest) = kept inst (Threads-self code rest)

pub Threads-append :
    (code before : List IrInst) {xs ys : List IrInst}
    → Threads code xs ys
    → Threads code (before ++ xs) (before ++ ys)
Threads-append code [] th = th
Threads-append code (b ∷ before) th = kept b (Threads-append code before th)

thread_to-Threads :
    (code : List IrInst) (inst : IrInst) (rest : List IrInst) (l : Option String)
    → is_branch inst.op ≡ true
    → inst.dest.label ≡ l
    → Threads code (inst ∷ rest) ((thread_to inst (thread_jump_target code l)).0 ∷ rest)
unfolding thread_to thread_jump_target
thread_to-Threads code inst rest none b e = Threads-self code (inst ∷ rest)
thread_to-Threads code inst rest (some l) b e =
    elim (Bool-cases (same_label (some (thread_hops 8 code l)) inst.dest.label)) [
      | inl h ↦ rw (h, thread_to) (Threads-self code (inst ∷ rest))
      | inr h ↦
          rw (h, thread_to)
            (moved inst l (thread_hops 8 code l) b e (thread_hops-Hops 8 code l)
              (Threads-self code rest))
    ]

pub thread_inst-Threads :
    (code : List IrInst) (inst : IrInst) (rest : List IrInst)
    → Threads code (inst ∷ rest) ((thread_inst code inst).0 ∷ rest)
unfolding thread_inst
thread_inst-Threads code inst rest = elim (Bool-cases (is_branch inst.op)) [
  | inl b ↦
      subst
        (λ c. Threads code (inst ∷ rest) (
          (if c then thread_to inst (thread_jump_target code inst.dest.label) else (inst, false)).0
          ∷ rest))
        (sym b) (thread_to-Threads code inst rest inst.dest.label b refl)
  | inr b ↦
      subst
        (λ c. Threads code (inst ∷ rest) (
          (if c then thread_to inst (thread_jump_target code inst.dest.label) else (inst, false)).0
          ∷ rest))
        (sym b) (Threads-self code (inst ∷ rest))
]

module _ {S : Type 0} (act : IrInst → S → S) (is_zero : IrOperand → S → Bool) where
  abbrev Runs : List IrInst → S → S → Type 0
  Runs code s t = Exec act is_zero code code s t

  pub thread_jumps-Exec :
      (before rest : List IrInst) (s t : S)
      → Runs (before ++ rest) s t
      → Runs (thread_jumps before rest).0 s t
  unfolding thread_jumps
  thread_jumps-Exec before [] s t run = subst (λ c. Runs c s t) (append-nil before) run
  thread_jumps-Exec before (inst ∷ rest) s t run =
      let code = before ++ (inst ∷ rest) in
      let inst' = (thread_inst code inst).0 in
      let th = Threads-append code before (thread_inst-Threads code inst rest) in
      thread_jumps-Exec (before ++ (inst' ∷ [])) rest s t (
        subst (λ c. Runs c s t) (sym (append_assoc before (inst' ∷ []) rest))
          ((Exec-Follows act is_zero code (before ++ (inst' ∷ rest)) th run).0 _ th))
