-- ===== src/Opt/Flow/Labels.antt =====
-- Labels that are distinct, and the places in a function that they name.
use winds.Base.{
  String, ◌≡◌, refl, sym, ◌∙◌, ap, subst, inl, inr, true, false, Option, none, some, List, [], ◌∷◌,
  ◌++◌, if◌then◌else◌, Bool-cases, arith,
}
use mathlib.Core.Option
use mathlib.Core.Option.{some-injective}
use text.Mathlib.TextEquality.{eq_iff}
use winds.Ir.{IrInst, ir_label, is_op}
use winds.Opt.Flow.{same_label, label_of, after_label, goto}

-- A label does not come again after it.
abbrev pub Distinct : List IrInst → Type 0
Distinct [] = Unit
Distinct (inst ∷ rest) =
    ((name : String) → label_of inst ≡ some name → after_label rest name ≡ none) × Distinct rest

-- The instructions are the end of the function.
abbrev pub IsSuffix : List IrInst → List IrInst → Type 0
IsSuffix code rest = (before : List IrInst) × (code ≡ before ++ rest)

pub IsSuffix-self : (code : List IrInst) → IsSuffix code code
IsSuffix-self code = ([], refl)

pub IsSuffix-tail :
    (code : List IrInst) (inst : IrInst) (rest : List IrInst)
    → IsSuffix code (inst ∷ rest)
    → IsSuffix code rest
IsSuffix-tail code inst rest (before, e) = (before ++ (inst ∷ []), e ∙ sym (snoc before))
  where
    snoc : (xs : List IrInst) → (xs ++ (inst ∷ [])) ++ rest ≡ xs ++ (inst ∷ rest)
    snoc [] = refl
    snoc (x ∷ xs) = ap (λ ys. x ∷ ys) (snoc xs)

pub same_label-eq :
    (a b : Option String)
    → same_label a b ≡ true
    → (name : String) × (a ≡ some name) × (b ≡ some name)
same_label-eq none none h = cc
same_label-eq none (some b) h = cc
same_label-eq (some a) none h = cc
same_label-eq (some a) (some b) h = (b, ap some ((eq_iff a b).0 h), refl)

pub same_label_self : (name : String) → same_label (some name) (some name) ≡ true
same_label_self name = (eq_iff name name).1 refl

pub after_label-IsSuffix :
    (code : List IrInst) (name : String) (rest : List IrInst)
    → after_label code name ≡ some rest
    → IsSuffix code rest
unfolding after_label
after_label-IsSuffix [] name rest h = cc
after_label-IsSuffix (inst ∷ later) name rest h =
    elim (Bool-cases (same_label (label_of inst) (some name))) [
      | inl e ↦ (inst ∷ [], ap (λ xs. inst ∷ xs) (some-injective later rest (ground (arith, h, e))))
      | inr e ↦
          let (before, q) = after_label-IsSuffix later name rest (ground (arith, h, e)) in
          (inst ∷ before, ap (λ xs. inst ∷ xs) q)
    ]

pub goto-IsSuffix :
    (code : List IrInst) (l : Option String) (rest : List IrInst)
    → goto code l ≡ some rest
    → IsSuffix code rest
goto-IsSuffix code none rest h = cc
goto-IsSuffix code (some name) rest h = after_label-IsSuffix code name rest h

after_label-append :
    (before : List IrInst) (inst : IrInst) (rest : List IrInst) (name : String)
    → Distinct (before ++ (inst ∷ rest))
    → label_of inst ≡ some name
    → after_label (before ++ (inst ∷ rest)) name ≡ some rest
unfolding after_label
after_label-append [] inst rest name d e = rw (e, same_label_self name) refl
after_label-append (b ∷ before) inst rest name d e =
    let found = after_label-append before inst rest name d.1 e in
    elim (Bool-cases (same_label (label_of b) (some name))) [
      | inr h ↦ rw h found
      | inl h ↦
          let (n, p, q) = same_label-eq (label_of b) (some name) h in
          cc (found, d.0 name (p ∙ sym q))
    ]

-- With distinct labels, a label names its own place.
pub after_label-own :
    (code : List IrInst) (inst : IrInst) (rest : List IrInst) (name : String)
    → Distinct code
    → IsSuffix code (inst ∷ rest)
    → label_of inst ≡ some name
    → after_label code name ≡ some rest
after_label-own code inst rest name d (before, e) l =
    subst (λ c. after_label c name ≡ some rest) (sym e)
      (after_label-append before inst rest name (subst Distinct e d) l)

pub label_of-label :
    (inst : IrInst) (l : Option String)
    → is_op inst.op ir_label ≡ true
    → inst.dest.label ≡ l
    → label_of inst ≡ l
label_of-label inst l h e = subst (λ b. (if b then inst.dest.label else none) ≡ l) (sym h) e

pub after_label-other :
    (inst : IrInst) (rest : List IrInst) (name : String)
    → is_op inst.op ir_label ≡ false
    → after_label (inst ∷ rest) name ≡ after_label rest name
unfolding after_label
after_label-other inst rest name h = rw (h, after_label) refl

-- What follows a label, in a function whose rest was changed.
pub after_label-cons :
    (f : List IrInst → List IrInst) (inst : IrInst) (rest : List IrInst) (name : String)
    → after_label (f rest) name ≡ Option.map f (after_label rest name)
    → after_label (inst ∷ f rest) name ≡ Option.map f (after_label (inst ∷ rest) name)
unfolding after_label
after_label-cons f inst rest name later =
    elim (Bool-cases (same_label (label_of inst) (some name))) [
      | inl e ↦ rw e refl
      | inr e ↦ rw e later
    ]
