-- ===== src/Opt/Simplify/MergeLoop.antt =====
-- Step 3 of opt_cfg_simplify: its loop.
use winds.Base.{
  ℕ, zero, suc, ◌<◌, String, ◌≡◌, ◌≢◌, refl, sym, ◌∙◌, ap, subst, inl, inr, Bool, true, false, not,
  Option, none, some, List, [], ◌∷◌, ◌++◌, map, length, Bool-cases, arith,
}
use mathlib.Core.List.{append-nil, append_assoc}
use winds.Ir.{IrInst, IrOperand, ir_label, is_op}
use winds.Opt.Flow.{same_label, Exec}
use winds.Opt.Flow.Ops.{label-branch}
use winds.Opt.Flow.Labels.{Distinct, after_label-own, same_label_self, label_of-label}
use winds.Opt.Simplify.{are_different, are_merged, redirect, merge_labels}
use winds.Opt.Simplify.Merged.{
  Merges, kept, gone, redirect-Merges, Merges-append, Merges-Distinct, Exec-Merges,
}

length-map : (f : IrInst → IrInst) (insts : List IrInst) → length (map f insts) ≡ length insts
length-map f [] = refl
length-map f (inst ∷ rest) = ap suc (length-map f rest)

-- The two labels, by name.
are_merged-labels :
    (inst next : IrInst)
    → are_merged inst next ≡ true
    → (k : String) × (r : String) × (inst.dest.label ≡ some k)
      × (next.dest.label ≡ some r)
      × (k ≢ r)
unfolding are_merged
are_merged-labels inst next h =
    are_different-labels inst.dest.label next.dest.label (ground (arith, h))
  where
    are_different-labels :
        (a b : Option String)
        → are_different a b ≡ true
        → (k : String) × (r : String) × (a ≡ some k) × (b ≡ some r) × (k ≢ r)
    are_different-labels none b d = cc
    are_different-labels (some a) none d = cc
    are_different-labels (some a) (some b) d = (
      a,
      b,
      refl,
      refl,
      λ e. cc (d, ap not (subst (λ n. same_label (some a) (some n) ≡ true) e (same_label_self a))),
    )

are_merged-are_labels :
    (inst next : IrInst)
    → are_merged inst next ≡ true
    → (is_op inst.op ir_label ≡ true) × (is_op next.op ir_label ≡ true)
unfolding are_merged
are_merged-are_labels inst next h = ground (arith, h)

merge_labels-merged :
    (fuel : ℕ) (before : List IrInst) (inst next : IrInst) (rest : List IrInst)
    (out : List IrInst × Bool)
    → are_merged inst next ≡ true
    → let redirected = redirect inst.dest.label next.dest.label in
      merge_labels fuel (map redirected before) (inst ∷ map redirected rest) ≡ some out
      → merge_labels (suc fuel) before (inst ∷ next ∷ rest) ≡ some (out.0, true)
unfolding merge_labels
merge_labels-merged fuel before inst next rest out h e = rw (h, merge_labels) (rw e refl)

-- The same, by the names of the labels.
merge_labels-named :
    (fuel : ℕ) (before : List IrInst) (inst next : IrInst) (rest : List IrInst)
    (out : List IrInst × Bool) (k r : String)
    → are_merged inst next ≡ true
    → inst.dest.label ≡ some k
    → next.dest.label ≡ some r
    → let redirected = redirect (some k) (some r) in
      merge_labels fuel (map redirected before) (inst ∷ map redirected rest) ≡ some out
      → merge_labels (suc fuel) before (inst ∷ next ∷ rest) ≡ some (out.0, true)
merge_labels-named fuel before inst next rest out k r h at_k at_r e =
    merge_labels-merged fuel before inst next rest out h (
      ap (λ f. merge_labels fuel (map f before) (inst ∷ map f rest))
        (ap (λ l. redirect l next.dest.label) at_k ∙ ap (redirect (some k)) at_r)
      ∙ e)

module _ {S : Type 0} (act : IrInst → S → S) (is_zero : IrOperand → S → Bool) where
  -- A run of the second function for each of the first.
  abbrev pub KeepsRuns : List IrInst → List IrInst → Type 0
  KeepsRuns code out = (s t : S) → Exec act is_zero code code s t → Exec act is_zero out out s t

  -- One merge.
  merge-KeepsRuns :
      (k r : String) (before : List IrInst) (inst next : IrInst) (rest : List IrInst)
      → Distinct (before ++ (inst ∷ next ∷ rest))
      → are_merged inst next ≡ true
      → inst.dest.label ≡ some k
      → next.dest.label ≡ some r
      → k ≢ r
      → let code = before ++ (inst ∷ next ∷ rest) in
        let redirected = redirect (some k) (some r) in
        let code' = map redirected before ++ (inst ∷ map redirected rest) in
        Distinct code' × KeepsRuns code code'
  merge-KeepsRuns k r before inst next rest d h at_k at_r ne =
      let (is_lbl, next_is_lbl) = are_merged-are_labels inst next h in
      let code = before ++ (inst ∷ next ∷ rest) in
      let all : Merges k r code (
          map (redirect (some k) (some r)) before
          ++ (inst ∷ map (redirect (some k) (some r)) rest)) =
        Merges-append k r before (
          kept inst (λ b e. absurd (label-branch inst.op is_lbl b))
            (gone next next_is_lbl at_r (redirect-Merges k r rest))) in
      (
        Merges-Distinct k r all d,
        λ s t run.
            Exec-Merges act is_zero k r code _ next rest all ne next_is_lbl
              (after_label-own code inst (next ∷ rest) k d (before, refl)
                (label_of-label inst (some k) is_lbl at_k))
              (after_label-own code next rest r d
                (before ++ (inst ∷ []), sym (append_assoc before (inst ∷ []) (next ∷ rest)))
                (label_of-label next (some r) next_is_lbl at_r))
              _ all run,
      )

  abbrev pub Merged : ℕ → List IrInst → List IrInst → Type 0
  Merged fuel before rest =
      (out : List IrInst × Bool) × (merge_labels fuel before rest ≡ some out)
      × Distinct out.0
      × KeepsRuns (before ++ rest) out.0

  pub merge_labels-Merged :
      (fuel : ℕ) (before rest : List IrInst)
      → length rest < fuel
      → Distinct (before ++ rest)
      → Merged fuel before rest
  unfolding merge_labels
  merge_labels-Merged zero before rest lt d = absurd (omega (arith, lt))
  merge_labels-Merged (suc fuel) before [] lt d = (
    (before, false),
    refl,
    subst Distinct (append-nil before) d,
    λ s t run. subst (λ c. Exec act is_zero c c s t) (append-nil before) run,
  )
  merge_labels-Merged (suc fuel) before (inst ∷ []) lt d =
      ((before ++ (inst ∷ []), false), refl, d, λ s t run. run)
  merge_labels-Merged (suc fuel) before (inst ∷ next ∷ rest) lt d =
      elim (Bool-cases (are_merged inst next)) [
        | inr h ↦
            let assoc = append_assoc before (inst ∷ []) (next ∷ rest) in
            let (out, e, dout, keeps) =
              merge_labels-Merged fuel (before ++ (inst ∷ [])) (next ∷ rest) (omega (arith, lt))
                (subst Distinct (sym assoc) d) in
            (out, rw (h, merge_labels) e, dout, subst (λ c. KeepsRuns c out.0) assoc keeps)
        | inl h ↦
            let (k, r, at_k, at_r, ne) = are_merged-labels inst next h in
            let redirected = redirect (some k) (some r) in
            let (d', step) = merge-KeepsRuns k r before inst next rest d h at_k at_r ne in
            let (out, e, dout, keeps) =
              merge_labels-Merged fuel (map redirected before) (inst ∷ map redirected rest)
                (omega (arith, lt, length-map redirected rest)) d' in
            (
              (out.0, true),
              merge_labels-named fuel before inst next rest out k r h at_k at_r e,
              dout,
              λ s t run. keeps s t (step s t run),
            )
      ]
