-- ===== src/Prelude/Lists.antt =====
-- Lists measured by native numbers, and membership of numbers as a Boolean test.
use Prim.Native.Nat.{ℕ, suc, ◌+◌}
use mathlib.Core.Path.{◌≡◌, refl}
use mathlib.Core.Logic.{◌⊎◌, inl, inr}
use mathlib.Core.Bool.{Bool, true, false, ◌||◌}
use mathlib.Core.List.{List, [], ◌∷◌, ◌++◌}
use native.Mathlib.Omega.{arith}
use lona_mvm.Prelude.Tests.{◌==◌}

module _ {ℓ} {A : Type ℓ} where
  abbrev pub length : List A → ℕ
  length [] = 0
  length (x ∷ xs) = suc (length xs)

  pub List-cases : (xs : List A) → (xs ≡ []) ⊎ ((x : A) × (rest : List A) × (xs ≡ x ∷ rest))
  List-cases [] = inl refl
  List-cases (x ∷ xs) = inr (x, xs, refl)

  pub length-append : (xs ys : List A) → length (xs ++ ys) ≡ length xs + length ys
  length-append [] ys = omega arith
  length-append (x ∷ xs) ys = omega (arith, length-append xs ys)

abbrev pub has : List ℕ → ℕ → Bool
has [] a = false
has (x ∷ xs) a = (x == a) || has xs a

pub has-append : (xs ys : List ℕ) (a : ℕ) → has (xs ++ ys) a ≡ (has xs a || has ys a)
has-append [] ys a = refl
has-append (x ∷ xs) ys a = ground (arith, has-append xs ys a)

pub has_self : (a : ℕ) (xs : List ℕ) → has (a ∷ xs) a ≡ true
has_self a xs = ground arith

-- No number stands twice.
abbrev pub Distinct : List ℕ → Type 0
Distinct [] = Unit {0}
Distinct (x ∷ xs) = (has xs x ≡ false) × Distinct xs

-- The element is one of the list.
pub data Among {ℓ} {A : Type ℓ} : A → List A → Type ℓ where
  here : {x : A} {xs : List A} → Among x (x ∷ xs)
  there : {x y : A} {xs : List A} → Among x xs → Among x (y ∷ xs)

module _ {ℓ} {A : Type ℓ} where
  pub Among-append_left : {x : A} {xs : List A} (ys : List A) → Among x xs → Among x (xs ++ ys)
  Among-append_left ys here = here
  Among-append_left ys (there m) = there (Among-append_left ys m)

  pub Among-append_right : {y : A} (xs : List A) {ys : List A} → Among y ys → Among y (xs ++ ys)
  Among-append_right [] m = m
  Among-append_right (x ∷ xs) m = there (Among-append_right xs m)

  pub Among-cons_cases : {x y : A} {xs : List A} → Among x (y ∷ xs) → (x ≡ y) ⊎ Among x xs
  Among-cons_cases here = inl refl
  Among-cons_cases (there m) = inr m

  pub Among-append_cases :
      {x : A} (xs : List A) {ys : List A} → Among x (xs ++ ys) → Among x xs ⊎ Among x ys
  Among-append_cases [] m = inr m
  Among-append_cases (z ∷ xs) here = inl here
  Among-append_cases (z ∷ xs) (there m) = elim (Among-append_cases xs m) [
    | inl first ↦ inl (there first)
    | inr second ↦ inr second
  ]

  -- Every element of the first list is one of the second.
  abbrev pub Sublist : List A → List A → Type ℓ
  Sublist xs ys = (x : A) → Among x xs → Among x ys
