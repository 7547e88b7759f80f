-- ===== src/Memory/Mark/Search.antt =====
-- Marking as a search of a graph: marks and a stack of vertices, with the collector's data left out.
-- This is the specification that the mark phase is shown to implement.
use lona_mvm.Prelude.{
  ℕ, zero, suc, ◌+◌, ◌≤◌, ◌≡◌, refl, ◌⊎◌, inl, inr, Bool, true, false, ◌||◌, ◌&&◌, not, List, [],
  ◌∷◌, ◌++◌, if◌then◌else◌, ==_iff, has, update, length, Distinct, Bool-cases, arith, Option, none,
  some,
}

abbrev pub Marks : Type 0
Marks = ℕ → Bool

-- The vertices that a walk from the seeds leads to.
pub data Reach (succ : ℕ → List ℕ) (seeds : List ℕ) : ℕ → Type 0 where
  seed : {p : ℕ} → has seeds p ≡ true → Reach succ seeds p
  edge : {p q : ℕ} → Reach succ seeds p → has (succ p) q ≡ true → Reach succ seeds q

unfoldable pub visit : Marks × List ℕ → ℕ → Marks × List ℕ
visit (m, stack) p = if m p then (m, stack) else (update m p true, p ∷ stack)

unfoldable pub visits : Marks × List ℕ → List ℕ → Marks × List ℕ
visits s [] = s
visits s (p ∷ ps) = visits (visit s p) ps

pub visits-append :
    (s : Marks × List ℕ) (ps qs : List ℕ) → visits s (ps ++ qs) ≡ visits (visits s ps) qs
unfolding visits
visits-append s [] qs = refl
visits-append s (p ∷ ps) qs = visits-append (visit s p) ps qs

-- How many of a list of vertices have no mark.
unfoldable pub unmarked : Marks → List ℕ → ℕ
unmarked m [] = 0
unmarked m (x ∷ xs) = (if m x then 0 else 1) + unmarked m xs

pub unmarked-le : (m : Marks) (xs : List ℕ) → unmarked m xs ≤ length xs
unfolding unmarked
unmarked-le m [] = omega arith
unmarked-le m (x ∷ xs) = ground (arith, unmarked-le m xs)

unmarked-update_absent :
    (m : Marks) (p : ℕ) (xs : List ℕ)
    → has xs p ≡ false
    → unmarked (update m p true) xs ≡ unmarked m xs
unfolding unmarked
unmarked-update_absent m p [] h = refl
unmarked-update_absent m p (x ∷ xs) h = ground (arith, unmarked-update_absent m p xs)

unmarked-update :
    (m : Marks) (p : ℕ) (xs : List ℕ)
    → Distinct xs
    → has xs p ≡ true
    → m p ≡ false
    → suc (unmarked (update m p true) xs) ≡ unmarked m xs
unfolding unmarked
unmarked-update m p [] d h u = cc
unmarked-update m p (x ∷ xs) d h u =
    ground (arith, unmarked-update m p xs d.1, unmarked-update_absent m p xs, ==_iff x p)

pub visits-marks :
    (m : Marks) (stack ps : List ℕ) (q : ℕ) → (visits (m, stack) ps).0 q ≡ (m q || has ps q)
unfolding visits visit
visits-marks m stack [] q = ground arith
visits-marks m stack (p ∷ ps) q =
    ground (
      arith,
      visits-marks m stack ps q,
      visits-marks (update m p true) (p ∷ stack) ps q,
      ==_iff p q,
    )

pub visits-stack :
    (m : Marks) (stack ps : List ℕ) (q : ℕ)
    → has (visits (m, stack) ps).1 q ≡ (has stack q || (not (m q) && has ps q))
unfolding visits visit
visits-stack m stack [] q = ground arith
visits-stack m stack (p ∷ ps) q =
    ground (
      arith,
      visits-stack m stack ps q,
      visits-stack (update m p true) (p ∷ stack) ps q,
      ==_iff p q,
    )

-- Every vertex of `ps` stands in `xs`.
abbrev pub Within : List ℕ → List ℕ → Type 0
Within xs [] = Unit {0}
Within xs (p ∷ ps) = (has xs p ≡ true) × Within xs ps

-- A visit moves a vertex from the unmarked ones to the stack, or does nothing.
pub visits-work :
    (xs : List ℕ)
    → Distinct xs
    → (m : Marks) (stack ps : List ℕ) → Within xs ps
    → unmarked (visits (m, stack) ps).0 xs + length (visits (m, stack) ps).1
      ≡ unmarked m xs + length stack
unfolding visits visit
visits-work xs d m stack [] w = refl
visits-work xs d m stack (p ∷ ps) w = ground (
  arith,
  visits-work xs d m stack ps w.1,
  visits-work xs d (update m p true) (p ∷ stack) ps w.1,
  unmarked-update m p xs d w.0,
)

pub has_of_Within : (xs ps : List ℕ) (q : ℕ) → Within xs ps → has ps q ≡ true → has xs q ≡ true
has_of_Within xs [] q w h = cc
has_of_Within xs (p ∷ ps) q w h = ground (arith, has_of_Within xs ps q w.1, ==_iff p q)

pub visits-Within :
    (xs : List ℕ) (m : Marks) (stack ps : List ℕ)
    → Within xs stack
    → Within xs ps
    → Within xs (visits (m, stack) ps).1
unfolding visits visit
visits-Within xs m stack [] w h = w
visits-Within xs m stack (p ∷ ps) w h =
    elim (m p)
      as (λ b. Within xs (visits (if b then (m, stack) else (update m p true, p ∷ stack)) ps).1) [
        | true ↦ visits-Within xs m stack ps w h.1
        | false ↦ visits-Within xs (update m p true) (p ∷ stack) ps (h.0, w) h.1
      ]

module _ (succ : ℕ → List ℕ) where
  unfoldable pub search : ℕ → Marks × List ℕ → Option Marks
  search fuel (m, []) = some m
  search zero (m, p ∷ stack) = none
  search (suc fuel) (m, p ∷ stack) = search fuel (visits (m, stack) (succ p))

  module _ (seeds : List ℕ) where
    -- What holds between two rounds of the search.
    pub record Inv (m : Marks) (stack : List ℕ) : Type 0 where
      pub seeded : (q : ℕ) → has seeds q ≡ true → m q ≡ true
      pub stacked : (q : ℕ) → has stack q ≡ true → m q ≡ true
      pub sound : (q : ℕ) → m q ≡ true → Reach succ seeds q
      pub closed :
          (p q : ℕ) → m p ≡ true → has (succ p) q ≡ true → (has stack p ≡ true) ⊎ (m q ≡ true)

    Inv-visits :
        (m : Marks) (p : ℕ) (stack : List ℕ)
        → Inv m (p ∷ stack)
        → Inv (visits (m, stack) (succ p)).0 (visits (m, stack) (succ p)).1
    Inv-visits m p stack v =
        let marks = visits-marks m stack (succ p) in
        let stacks = visits-stack m stack (succ p) in
        let at_p : (a q : ℕ) → has (succ a) q ≡ true → a ≡ p → has (succ p) q ≡ true =
          λ a q e same. rw same at e in
        record {
          seeded = λ q h. ground (arith, marks q, v.seeded q);
          stacked = λ q h. ground (arith, marks q, stacks q, v.stacked q);
          sound = λ q h. elim (Bool-cases (m q)) [
            | inl old ↦ v.sound q old
            | inr new ↦ edge (v.sound p (v.stacked p (ground arith))) (ground (arith, marks q))
          ];
          closed = λ a q h e.
              ground (arith, marks a, marks q, stacks a, v.closed a q, ==_iff p a, at_p a q e);
        }

    -- Where every successor of a vertex of `xs` stands in `xs`, fuel for each unmarked vertex and
    -- each stacked one lets the search end, with an empty stack.
    pub search_ends :
        (xs : List ℕ)
        → Distinct xs
        → ((p : ℕ) → has xs p ≡ true → Within xs (succ p))
        → (fuel : ℕ) (m : Marks) (stack : List ℕ) → Within xs stack
        → unmarked m xs + length stack ≤ fuel
        → Inv m stack
        → (m' : Marks) × (search fuel (m, stack) ≡ some m') × Inv m' []
    unfolding search
    search_ends xs d inside zero m [] w h v = (m, refl, v)
    search_ends xs d inside (suc fuel) m [] w h v = (m, refl, v)
    search_ends xs d inside zero m (p ∷ stack) w h v = absurd (omega arith)
    search_ends xs d inside (suc fuel) m (p ∷ stack) w h v =
        let next = visits (m, stack) (succ p) in
        let ps = inside p w.0 in
        let work = visits-work xs d m stack (succ p) ps in
        search_ends xs d inside fuel next.0 next.1 (visits-Within xs m stack (succ p) w.1 ps)
          (omega arith) (Inv-visits m p stack v)

    -- With nothing left on the stack the marks are the vertices that the seeds reach.
    pub complete : (m : Marks) → Inv m [] → {p : ℕ} → Reach succ seeds p → m p ≡ true
    complete m v (seed {p} h) = v.seeded p h
    complete m v (edge {p} {q} r e) = elim (v.closed p q (complete m v r) e) [
      | inl none_left ↦ cc
      | inr marked ↦ marked
    ]
