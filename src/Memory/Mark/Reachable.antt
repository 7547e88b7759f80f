-- ===== src/Memory/Mark/Reachable.antt =====
-- The mark phase marks exactly the allocations that the roots reach: which those are is said by the payloads alone,
-- without the lookup of the code.
use lona_mvm.Prelude.{
  ℕ, ◌+◌, ◌≤◌, ◌≡◌, ◌↔◌, true, List, [], ◌∷◌, map, has, ==_iff, length, arith, Option-cases,
  Bool-cases, inl, inr, ap, ◌∙◌, ◌==◌, ==_refl, has_self, some,
}
use lona_mvm.Memory.Registry.{Registry, done, DenseMapKeys}
use lona_mvm.Memory.Find.{find_owning_allocation}
use lona_mvm.Memory.Find.Exact.{Holds, Mapped, find_owning_allocation_lem}
use lona_mvm.Memory.Invariant.{HeapInv}
use lona_mvm.Memory.Mark.{drain}
use lona_mvm.Memory.Mark.Scan.{mark_addresses, payload_slots}
use lona_mvm.Memory.Mark.Search.{Marks, Reach}
use lona_mvm.Memory.Mark.Refine.{with_marks, owners, targets, marking}
use lona_mvm.Memory.Mark.Correct.{Searched, no_marks, marks-Searched}

-- An active allocation is reachable if a root is the address of a byte of its payload, or a word
-- that the collector reads in the payload of a reachable allocation is.
pub data Reachable (read : ℕ → ℕ) (r : Registry) (xs roots : List ℕ) : ℕ → Type 0 where
  root :
      {p a : ℕ} → has roots a ≡ true → has xs p ≡ true → Holds r p a → Reachable read r xs roots p
  slot :
      {p q a : ℕ}
      → Reachable read r xs roots p
      → has (map read (payload_slots (r.headers p) (p + 80))) a ≡ true
      → has xs q ≡ true
      → Holds r q a
      → Reachable read r xs roots q

pub Reachable-active :
    {read : ℕ → ℕ} {r : Registry} {xs roots : List ℕ} {p : ℕ}
    → Reachable read r xs roots p
    → has xs p ≡ true
Reachable-active (Reachable.root inside active h) = active
Reachable-active (Reachable.slot reach inside active h) = active

module _ (keys : DenseMapKeys) (read : ℕ → ℕ) (r : Registry) (xs : List ℕ) (v : HeapInv r xs)
    (t : Mapped keys r xs) where
  owners-Holds :
      (words : List ℕ) (q : ℕ)
      → has (owners keys r words) q ≡ true
      → (a : ℕ) × (has words a ≡ true) × (has xs q ≡ true) × Holds r q a
  unfolding owners
  owners-Holds [] q h = cc
  owners-Holds (w ∷ rest) q h =
      let later : has (owners keys r rest) q ≡ true
          → (a : ℕ) × (has (w ∷ rest) a ≡ true) × (has xs q ≡ true) × Holds r q a =
        λ e.
          let (a, inside, active, holds) = owners-Holds rest q e in
          (a, ground arith, active, holds) in
      elim (Bool-cases (w == 0)) [
        | inl null ↦ later (ground arith)
        | inr word_there ↦ elim (Option-cases (find_owning_allocation keys r w)) [
          | inl none_here ↦ later (ground arith)
          | inr (p, e) ↦ elim (Bool-cases (p == q)) [
            | inl same ↦
                let (active, holds) =
                  (find_owning_allocation_lem keys r xs v t w q).0
                    (e ∙ ap some ((==_iff p q).0 same)) in
                (w, has_self w rest, active, holds)
            | inr other ↦ later (ground arith)
          ]
        ]
      ]

  Holds-owners :
      (words : List ℕ) (a q : ℕ)
      → has words a ≡ true
      → has xs q ≡ true
      → Holds r q a
      → has (owners keys r words) q ≡ true
  unfolding owners
  Holds-owners [] a q inside active h = cc
  Holds-owners (w ∷ rest) a q inside active h =
      let later : has rest a ≡ true → has (owners keys r rest) q ≡ true =
        λ e. Holds-owners rest a q e active h in
      let from_start = h.from_start in
      elim (Bool-cases (w == a)) [
        | inl same ↦
            let e = (find_owning_allocation_lem keys r xs v t a q).1 (active, h) in
            ground (arith, ==_iff w a, ap (find_owning_allocation keys r), ==_refl q)
        | inr other ↦ elim (Option-cases (find_owning_allocation keys r w)) [
          | inl none_here ↦ ground (arith, later)
          | inr (p, e) ↦ ground (arith, later)
        ]
      ]

  module _ (roots : List ℕ) where
    Searched-Reachable : {p : ℕ} → Searched keys read r roots p → Reachable read r xs roots p
    unfolding targets
    Searched-Reachable (Reach.seed {p} h) =
        let (a, inside, active, holds) = owners-Holds roots p h in
        Reachable.root inside active holds
    Searched-Reachable (Reach.edge {p} {q} reach h) =
        let (a, inside, active, holds) = owners-Holds _ q h in
        Reachable.slot (Searched-Reachable reach) inside active holds

    Reachable-Searched : {p : ℕ} → Reachable read r xs roots p → Searched keys read r roots p
    unfolding targets
    Reachable-Searched (Reachable.root {p} {a} inside active h) =
        Reach.seed (Holds-owners roots a p inside active h)
    Reachable-Searched (Reachable.slot {p} {q} {a} reach inside active h) =
        Reach.edge (Reachable-Searched reach) (Holds-owners _ a q inside active h)

    pub Reachable-iff : (p : ℕ) → Searched keys read r roots p ↔ Reachable read r xs roots p
    Reachable-iff p = (Searched-Reachable, Reachable-Searched)

    -- In a heap that satisfies the invariant and whose page maps lead to the active allocations, on
    -- fuel for the active allocations and from no marks: after the roots are marked the worklist
    -- loop ends, with marks on exactly the allocations that the roots reach, and it changes nothing
    -- but the marks.
    pub marks-Reachable :
        (fuel : ℕ)
        → length xs ≤ fuel
        → (m : Marks) × (drain keys read fuel
              (mark_addresses keys read (marking keys r (no_marks, [])) roots)
            ≡ done (with_marks r m))
          × ((p : ℕ) → m p ≡ true → Reachable read r xs roots p)
          × ((p : ℕ) → Reachable read r xs roots p → m p ≡ true)
    marks-Reachable fuel f =
        let (m, e, sound, complete) = marks-Searched keys read r xs v roots fuel f in
        (
          m,
          e,
          λ p set. Searched-Reachable (sound p set),
          λ p reach. complete p (Reachable-Searched reach),
        )
