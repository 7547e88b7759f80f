-- ===== src/Memory/Mark/Correct.antt =====
-- The mark phase marks what the search over the lookups finds.
use lona_mvm.Prelude.{
  ℕ, ◌≤◌, ◌≡◌, true, false, List, [], ◌∷◌, has, length, arith, ◌∙◌, ap, Option-cases, inl, inr,
}
use lona_mvm.Memory.Registry.{Registry, done, DenseMapKeys}
use lona_mvm.Memory.Find.{find_owning_allocation}
use lona_mvm.Memory.Find.Laws.{find-Owns}
use lona_mvm.Memory.Invariant.{HeapInv}
use lona_mvm.Memory.Mark.{drain}
use lona_mvm.Memory.Mark.Scan.{mark_addresses}
use lona_mvm.Memory.Mark.Search.{
  Marks, Reach, visits, visits-marks, visits-stack, visits-work, visits-Within, unmarked-le, Within,
  has_of_Within, Inv, search_ends, complete,
}
use lona_mvm.Memory.Mark.Refine.{
  with_marks, owners, targets, marking, mark_addresses-visits, drain-search,
}

-- What the search over the lookups of the code comes to.
abbrev pub Searched : DenseMapKeys → (ℕ → ℕ) → Registry → List ℕ → ℕ → Type 0
Searched keys read r roots = Reach (targets keys read r) (owners keys r roots)

abbrev pub no_marks : Marks
no_marks q = false

module _ (keys : DenseMapKeys) (read : ℕ → ℕ) (r : Registry) (xs : List ℕ) (v : HeapInv r xs) where
  -- Whatever a word points into is active.
  owners-Within : (words : List ℕ) → Within xs (owners keys r words)
  unfolding owners
  owners-Within [] = tt
  owners-Within (a ∷ rest) = elim (Option-cases (find_owning_allocation keys r a)) [
    | inl e ↦ ground (arith, owners-Within rest)
    | inr (h, e) ↦ ground (arith, owners-Within rest, v.tracked h ((find-Owns keys r a h e).in_use))
  ]

  targets-Within : (p : ℕ) → Within xs (targets keys read r p)
  unfolding targets
  targets-Within p = owners-Within _

  module _ (roots : List ℕ) where
    abbrev from_roots : Marks × List ℕ
    from_roots = visits (no_marks, []) (owners keys r roots)

    from_roots-Inv : Inv (targets keys read r) (owners keys r roots) from_roots.0 from_roots.1
    from_roots-Inv =
        let marks = visits-marks no_marks [] (owners keys r roots) in
        let stacks = visits-stack no_marks [] (owners keys r roots) in
        record {
          seeded = λ q h. ground (arith, marks q);
          stacked = λ q h. ground (arith, marks q, stacks q);
          sound = λ q h. Reach.seed (ground (arith, marks q));
          closed = λ p q h e. ground (arith, marks p, stacks p);
        }

    -- The worklist loop marks what the search finds.
    pub marks-Searched :
        (fuel : ℕ)
        → length xs ≤ fuel
        → (m : Marks) × (drain keys read fuel
              (mark_addresses keys read (marking keys r (no_marks, [])) roots)
            ≡ done (with_marks r m))
          × ((p : ℕ) → m p ≡ true → Searched keys read r roots p)
          × ((p : ℕ) → Searched keys read r roots p → m p ≡ true)
    marks-Searched fuel f =
        let succ = targets keys read r in
        let seeds = owners keys r roots in
        let inside = owners-Within roots in
        let work = visits-work xs v.active.distinct no_marks [] seeds inside in
        let start = visits-Within xs no_marks [] seeds tt inside in
        let (m, e, inv) =
          search_ends succ seeds xs v.active.distinct (λ p h. targets-Within p) fuel from_roots.0
            from_roots.1 start (omega (arith, work, unmarked-le no_marks xs)) from_roots-Inv in
        (
          m,
          ap (drain keys read fuel) (mark_addresses-visits keys read r no_marks [] roots)
              ∙ drain-search keys read r xs (λ p h. (v.allocated p h, targets-Within p)) fuel
                  from_roots.0 m from_roots.1 start from_roots-Inv.stacked e,
          inv.sound,
          λ p reach. complete succ seeds m inv reach,
        )

    -- What is found is active.
    pub Searched-active : {p : ℕ} → Searched keys read r roots p → has xs p ≡ true
    Searched-active (Reach.seed {p} h) =
        has_of_Within xs (owners keys r roots) p (owners-Within roots) h
    Searched-active (Reach.edge {p} {q} reach h) =
        has_of_Within xs (targets keys read r p) q (targets-Within p) h
