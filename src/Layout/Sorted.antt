-- ===== src/Layout/Sorted.antt =====
-- Sorting and dropping repeats keep the elements, and leave them strictly increasing.
use lona_mvm.Prelude.{ℕ, ◌+◌, ◌≤◌, ◌≡◌, refl, List, [], ◌∷◌, leb, ◌==◌, arith, if_both, ==_iff, has}
use lona_mvm.Layout.{insert_sorted, sort, unique}

-- Every element of the list is at least this number, or above it.
abbrev pub AllFrom : ℕ → List ℕ → Type 0
AllFrom a [] = Unit {0}
AllFrom a (x ∷ xs) = (a ≤ x) × AllFrom a xs

abbrev pub Increasing : List ℕ → Type 0
Increasing [] = Unit {0}
Increasing (x ∷ xs) = AllFrom x xs × Increasing xs

abbrev pub StrictlyIncreasing : List ℕ → Type 0
StrictlyIncreasing [] = Unit {0}
StrictlyIncreasing (x ∷ xs) = AllFrom (x + 1) xs × StrictlyIncreasing xs

AllFrom-insert : (a x : ℕ) (xs : List ℕ) → a ≤ x → AllFrom a xs → AllFrom a (insert_sorted x xs)
AllFrom-insert a x [] le h = (le, tt)
AllFrom-insert a x (y ∷ ys) le h =
    if_both (AllFrom a) (leb x y) (λ first. (le, h)) (λ later. (h.0, AllFrom-insert a x ys le h.1))

AllFrom-trans : (a b : ℕ) (xs : List ℕ) → a ≤ b → AllFrom b xs → AllFrom a xs
AllFrom-trans a b [] le h = tt
AllFrom-trans a b (x ∷ xs) le h = (omega (arith, h.0), AllFrom-trans a b xs le h.1)

insert-Increasing : (x : ℕ) (xs : List ℕ) → Increasing xs → Increasing (insert_sorted x xs)
insert-Increasing x [] h = (tt, tt)
insert-Increasing x (y ∷ ys) h =
    if_both Increasing (leb x y)
      (λ first. ((ground arith, AllFrom-trans x y ys (ground arith) h.0), h))
      (λ later. (AllFrom-insert y x ys (ground arith) h.0, insert-Increasing x ys h.1))

pub sort-Increasing : (xs : List ℕ) → Increasing (sort xs)
unfolding sort
sort-Increasing [] = tt
sort-Increasing (x ∷ xs) = insert-Increasing x (sort xs) (sort-Increasing xs)

AllFrom-unique : (a : ℕ) (xs : List ℕ) → AllFrom a xs → AllFrom a (unique xs)
unfolding unique
AllFrom-unique a [] h = tt
AllFrom-unique a (x ∷ []) h = h
AllFrom-unique a (x ∷ y ∷ xs) h =
    if_both (AllFrom a) (x == y) (λ same. AllFrom-unique a (y ∷ xs) h.1)
      (λ other. (h.0, AllFrom-unique a (y ∷ xs) h.1))

pub unique-StrictlyIncreasing : (xs : List ℕ) → Increasing xs → StrictlyIncreasing (unique xs)
unfolding unique
unique-StrictlyIncreasing [] h = tt
unique-StrictlyIncreasing (x ∷ []) h = (tt, tt)
unique-StrictlyIncreasing (x ∷ y ∷ xs) h =
    if_both StrictlyIncreasing (x == y) (λ same. unique-StrictlyIncreasing (y ∷ xs) h.1)
      (λ other. (
        AllFrom-unique (x + 1) (y ∷ xs)
            (ground (arith, h.0.0), AllFrom-trans (x + 1) y xs (ground (arith, h.0.0)) h.1.0),
        unique-StrictlyIncreasing (y ∷ xs) h.1,
      ))

has-insert : (a x : ℕ) (xs : List ℕ) → has (insert_sorted x xs) a ≡ has (x ∷ xs) a
has-insert a x [] = refl
has-insert a x (y ∷ ys) = ground (arith, has-insert a x ys)

pub has-sort : (a : ℕ) (xs : List ℕ) → has (sort xs) a ≡ has xs a
unfolding sort
has-sort a [] = refl
has-sort a (x ∷ xs) = ground (arith, has-insert a x (sort xs), has-sort a xs)

pub has-unique : (a : ℕ) (xs : List ℕ) → has (unique xs) a ≡ has xs a
unfolding unique
has-unique a [] = refl
has-unique a (x ∷ []) = refl
has-unique a (x ∷ y ∷ xs) = ground (arith, has-unique a (y ∷ xs), ==_iff x y)
