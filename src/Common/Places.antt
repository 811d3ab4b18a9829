-- ===== src/Common/Places.antt =====
-- The places of a list: what stands in it when one of its elements has changed.
use Prim.Native.Nat.{ℕ, zero, suc, ◌<◌}
use mathlib.Core.Path.{◌≡◌, refl, ap, subst}
use mathlib.Core.List.{List, [], ◌∷◌}
use mathlib.Core.Logic.{◌⊎◌, inl, inr}
use mathlib.Core.Option.{none, some}
use native.Mathlib.Omega.{arith}
use first_server.Common.Lists.{get_elem?, set}

module _ {ℓ} {A : Type ℓ} where
  pub get_elem?-set_self :
      (xs : List A) (i : ℕ) (v : A) {x : A}
      → get_elem? xs i ≡ some x
      → get_elem? (set xs i v) i ≡ some v
  get_elem?-set_self [] i v h = absurd (cc)
  get_elem?-set_self (x ∷ xs) zero v h = refl
  get_elem?-set_self (x ∷ xs) (suc i) v h = get_elem?-set_self xs i v h

  pub get_elem?-set_ne :
      (xs : List A) (i j : ℕ) (v : A) → (i ≡ j → ⊥) → get_elem? (set xs i v) j ≡ get_elem? xs j
  get_elem?-set_ne [] i j v h = refl
  get_elem?-set_ne (x ∷ xs) zero zero v h = absurd (h refl)
  get_elem?-set_ne (x ∷ xs) (suc i) zero v h = refl
  get_elem?-set_ne (x ∷ xs) zero (suc j) v h = refl
  get_elem?-set_ne (x ∷ xs) (suc i) (suc j) v h = get_elem?-set_ne xs i j v (λ e. h (ap suc e))

-- A predicate of every element.
module _ {ℓ ℓ'} {A : Type ℓ} (P : A → Type ℓ') where
  abbrev pub AllOf : List A → Type ℓ'
  AllOf [] = Unit
  AllOf (x ∷ xs) = P x × AllOf xs

  pub AllOf-get : (xs : List A) (i : ℕ) (x : A) → AllOf xs → get_elem? xs i ≡ some x → P x
  AllOf-get [] i y all h = absurd (cc)
  AllOf-get (x ∷ xs) zero y all h = let e : x ≡ y = cc in subst P e all.0
  AllOf-get (x ∷ xs) (suc i) y all h = AllOf-get xs i y all.1 h

  pub AllOf-set : (xs : List A) (i : ℕ) (x : A) → AllOf xs → P x → AllOf (set xs i x)
  AllOf-set [] i y all p = tt
  AllOf-set (x ∷ xs) zero y all p = (p, all.1)
  AllOf-set (x ∷ xs) (suc i) y all p = (all.0, AllOf-set xs i y all.1 p)

module _ {ℓ} {A : Type ℓ} where
  -- What stands in a list in which one element has changed.
  pub get_elem?-set_cases :
      (xs : List A) (i j : ℕ) (v u : A) {x : A}
      → get_elem? xs i ≡ some x
      → get_elem? (set xs i v) j ≡ some u
      → ((i ≡ j) × (v ≡ u)) ⊎ ((i ≡ j → ⊥) × (get_elem? xs j ≡ some u))
  get_elem?-set_cases [] i j v u h g = absurd (cc)
  get_elem?-set_cases (x ∷ xs) zero zero v u h g = inl (refl, cc)
  get_elem?-set_cases (x ∷ xs) zero (suc j) v u h g = inr ((λ e. absurd (omega (arith, e))), g)
  get_elem?-set_cases (x ∷ xs) (suc i) zero v u h g = inr ((λ e. absurd (omega (arith, e))), g)
  get_elem?-set_cases (x ∷ xs) (suc i) (suc j) v u h g = elim (get_elem?-set_cases xs i j v u h g) [
    | inl (same, new) ↦ inl (ap suc same, new)
    | inr (other, old) ↦ inr ((λ e. other (omega (arith, e))), old)
  ]

  -- A place past the end has no element, so the ones that have are before it.
  pub get_elem?-before :
      (xs : List A) (i j : ℕ) (u : A) → get_elem? xs i ≡ none → get_elem? xs j ≡ some u → j < i
  get_elem?-before [] i j u h g = absurd (cc)
  get_elem?-before (x ∷ xs) zero j u h g = absurd (cc)
  get_elem?-before (x ∷ xs) (suc i) zero u h g = omega arith
  get_elem?-before (x ∷ xs) (suc i) (suc j) u h g = omega (arith, get_elem?-before xs i j u h g)

module _ {ℓ} {A : Type ℓ} where
  pub get_elem?-set-none :
      (xs : List A) (i j : ℕ) (v : A) → get_elem? xs j ≡ none → get_elem? (set xs i v) j ≡ none
  get_elem?-set-none [] i j v h = h
  get_elem?-set-none (x ∷ xs) zero zero v h = absurd (cc)
  get_elem?-set-none (x ∷ xs) zero (suc j) v h = h
  get_elem?-set-none (x ∷ xs) (suc i) zero v h = absurd (cc)
  get_elem?-set-none (x ∷ xs) (suc i) (suc j) v h = get_elem?-set-none xs i j v h

module _ {ℓ ℓ'} {A : Type ℓ} (P : A → Type ℓ') where
  pub AllOf-pointwise :
      (xs : List A) → ((i : ℕ) (x : A) → get_elem? xs i ≡ some x → P x) → AllOf P xs
  AllOf-pointwise [] p = tt
  AllOf-pointwise (x ∷ xs) p = (p 0 x refl, AllOf-pointwise xs (λ i. p (suc i)))
