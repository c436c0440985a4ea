-- ===== src/Base/Lists.antt =====
-- Lists measured and indexed by native numbers, and predicates on lists by recursion.
use Prim.Native.Nat.{ℕ, zero, suc, ◌<◌}
use mathlib.Core.Path.{◌≡◌, refl}
use mathlib.Core.Logic.{◌⊎◌, inl, inr}
use mathlib.Core.List.{List, [], ◌∷◌}
use mathlib.Core.Option.{Option, none, some}
use native.Mathlib.Omega.{arith}

module _ {ℓ} {A : Type ℓ} where
  abbrev pub length : List A → ℕ
  length [] = 0
  length (x ∷ xs) = suc (length xs)

  abbrev pub get_elem? : List A → ℕ → Option A
  get_elem? [] i = none
  get_elem? (x ∷ xs) zero = some x
  get_elem? (x ∷ xs) (suc i) = get_elem? xs i

  abbrev pub get_or : List A → ℕ → A → A
  get_or [] i d = d
  get_or (x ∷ xs) zero d = x
  get_or (x ∷ xs) (suc i) d = get_or xs i d

  pub get_elem?-lt : (xs : List A) (i : ℕ) (x : A) → get_elem? xs i ≡ some x → i < length xs
  get_elem?-lt [] i x h = cc
  get_elem?-lt (y ∷ ys) zero x h = omega arith
  get_elem?-lt (y ∷ ys) (suc i) x h = omega (arith, get_elem?-lt ys i x h)

module _ {A : Type 0} where
  -- `x` stands somewhere in the list; matched by its two injections.
  abbrev pub Member : A → List A → Type 0
  Member x [] = ⊥
  Member x (y ∷ ys) = (x ≡ y) ⊎ Member x ys

  abbrev pub All {κ} : (A → Type κ) → List A → Type κ
  All P [] = Unit
  All P (x ∷ xs) = P x × All P xs

  pub All-Member {κ} : (P : A → Type κ) (xs : List A) → All P xs → (x : A) → Member x xs → P x
  All-Member P [] h x m = absurd m
  All-Member P (y ∷ ys) h x (inl e) = rw e h.0
  All-Member P (y ∷ ys) h x (inr m) = All-Member P ys h.1 x m

  pub All-of_Member {κ} : (P : A → Type κ) (xs : List A) → ((x : A) → Member x xs → P x) → All P xs
  All-of_Member P [] h = tt
  All-of_Member P (y ∷ ys) h = (h y (inl refl), All-of_Member P ys (λ x m. h x (inr m)))

  pub All-map_imp {κ κ'} :
      (P : A → Type κ) (Q : A → Type κ') (xs : List A) → ((x : A) → P x → Q x) → All P xs → All Q xs
  All-map_imp P Q [] f h = tt
  All-map_imp P Q (y ∷ ys) f h = (f y h.0, All-map_imp P Q ys f h.1)
