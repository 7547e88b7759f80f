-- ===== src/Memory/Collect/Correct.antt =====
-- A collection keeps what the roots reach and frees the rest.
use lona_mvm.Prelude.{
  ℕ, zero, suc, ◌+◌, ◌-◌, ◌≤◌, ◌≡◌, refl, Bool, true, false, not, List, [], ◌∷◌, has, length, arith,
  ◌∙◌, ap, ap₂, sym, subst, fun_ext, Option-cases, Bool-cases, inl, inr,
}
use lona_mvm.Memory.Header.{AllocationHeader, GcCollectionStats}
use lona_mvm.Memory.Registry.{Registry, done, DenseMapKeys, blank_stats}
use lona_mvm.Memory.Active.Chain.{Chain}
use lona_mvm.Memory.Active.Laws.{nexts, prevs}
use lona_mvm.Memory.Find.{find_owning_allocation}
use lona_mvm.Memory.Find.Laws.{find-relabelled}
use lona_mvm.Memory.Invariant.{HeapInv, HeapInv-marks, body_of}
use lona_mvm.Memory.Mark.{mark_roots, drain}
use lona_mvm.Memory.Mark.Search.{Marks, Reach}
use lona_mvm.Memory.Mark.Scan.{mark_addresses}
use lona_mvm.Memory.Mark.Refine.{with_marks, owners, targets, non_null, mark_roots_lem}
use lona_mvm.Memory.Mark.Correct.{Searched, no_marks, marks-Searched}
use lona_mvm.Memory.Mark.Reachable.{Reachable, Reachable-active, Reachable-iff}
use lona_mvm.Memory.Find.Exact.{Mapped}
use lona_mvm.Memory.Sweep.{sweep}
use lona_mvm.Memory.Sweep.Tally.{
  select, bytes_in, head_of, marks, tallied, length-select, bytes_in-select, has-select,
}
use lona_mvm.Memory.Sweep.Round.{Swept}
use lona_mvm.Memory.Sweep.Correct.{sweep_lem}
use lona_mvm.Memory.Collect.{count_heap, collect_managed_heap}

count_heap_lem :
    (fuel : ℕ) (r : Registry) (xs : List ℕ) (before p o b : ℕ)
    → Chain (nexts r) (prevs r) before p xs
    → length xs ≤ fuel
    → count_heap fuel r p (o, b) ≡ done (o + length xs, b + bytes_in r.headers xs)
unfolding count_heap bytes_in
count_heap_lem fuel r [] before p o b c f = rw c (ground arith)
count_heap_lem fuel r (zero ∷ xs) before p o b c f = absurd (c.1 refl)
count_heap_lem zero r (suc k ∷ xs) before p o b c f = absurd (omega arith)
count_heap_lem (suc fuel) r (suc k ∷ xs) before p o b c f = rw c.0 (
    count_heap_lem fuel r xs (suc k) (nexts r (suc k)) (o + 1)
      (b + (r.headers (suc k)).payload_size) c.3 (omega arith)
    ∙ ground arith)

head-eq : (r : Registry) (xs : List ℕ) → HeapInv r xs → r.active_allocation_head ≡ head_of xs
head-eq r [] v = v.active.chain
head-eq r (x ∷ xs) v = v.active.chain.0

-- The state at the start of a collection.
abbrev counted : Registry → Registry
counted r = record r { collection_count = r.collection_count + 1 }

owners-counted :
    (keys : DenseMapKeys) (r : Registry) (words : List ℕ)
    → owners keys (counted r) words ≡ owners keys r words
unfolding owners
owners-counted keys r [] = refl
owners-counted keys r (a ∷ rest) =
    let same = find-relabelled keys r (marks r) (r.collection_count + 1) a in
    elim (Option-cases (find_owning_allocation keys r a)) [
      | inl e ↦ ground (arith, same, owners-counted keys r rest)
      | inr (h, e) ↦ ground (arith, same, owners-counted keys r rest)
    ]

Searched-counted :
    (keys : DenseMapKeys) (read : ℕ → ℕ) (r : Registry) (roots : List ℕ)
    → Searched keys read (counted r) roots ≡ Searched keys read r roots
unfolding targets
Searched-counted keys read r roots =
    ap₂ Reach (fun_ext λ p. owners-counted keys r _) (owners-counted keys r roots)

-- The statistics of a collection that kept the allocations `live` of `xs`.
unfoldable pub stats_of : Registry → (xs live roots : List ℕ) → GcCollectionStats
stats_of r xs live roots = record {
  collection_count = r.collection_count + 1;
  root_count = non_null roots;
  live_object_count = length live;
  swept_object_count = length xs - length live;
  swept_bytes = bytes_in r.headers xs - bytes_in r.headers live;
  heap_bytes_before = bytes_in r.headers xs;
  heap_bytes_after = bytes_in r.headers live;
  heap_object_count_before = length xs;
  heap_object_count_after = length live;
}

-- The state after a collection that kept the allocations `live`.
pub record Collected (read : ℕ → ℕ) (r r' : Registry) (xs roots live : List ℕ) : Type 0 where
  pub heap : HeapInv r' live
  pub unmarked : (p : ℕ) → marks r' p ≡ false
  pub intact : (p : ℕ) → has live p ≡ true → body_of (r'.headers p) ≡ body_of (r.headers p)
  pub sound : (p : ℕ) → has live p ≡ true → Reachable read r xs roots p
  pub complete : (p : ℕ) → Reachable read r xs roots p → has live p ≡ true

abbrev first_stats : Registry → (objects bytes roots : ℕ) → GcCollectionStats
first_stats r objects bytes roots = record blank_stats {
  collection_count = r.collection_count + 1;
  root_count = roots;
  heap_object_count_before = objects;
  heap_bytes_before = bytes;
}

-- The stages of a collection, one after the other.
collect_stages :
    (keys : DenseMapKeys) (read : ℕ → ℕ) (fuel : ℕ) (r : Registry) (roots : List ℕ)
    (objects bytes count left left_bytes : ℕ) (marking : Registry × List ℕ) (marked r' : Registry)
    (s : GcCollectionStats)
    → count_heap fuel (counted r) r.active_allocation_head (0, 0) ≡ done (objects, bytes)
    → mark_roots keys read roots 0 (counted r, []) ≡ (count, marking)
    → drain keys read fuel marking ≡ done marked
    → sweep fuel marked marked.active_allocation_head (first_stats r objects bytes count)
      ≡ done (r', s)
    → count_heap fuel r' r'.active_allocation_head (0, 0) ≡ done (left, left_bytes)
    → collect_managed_heap keys read fuel r roots ≡ (
        let s' = record s { heap_object_count_after = left } in
        done (record r' { last_collection_stats = s' }, s'))
unfolding collect_managed_heap
collect_stages keys read fuel r roots objects bytes count left left_bytes marking marked r' s a b c
      d e =
    rw (a, b, c, d, e)

bytes_in_sizes :
    (hs hs' : ℕ → AllocationHeader) (xs : List ℕ)
    → ((p : ℕ) → (hs p).payload_size ≡ (hs' p).payload_size)
    → bytes_in hs xs ≡ bytes_in hs' xs
unfolding bytes_in
bytes_in_sizes hs hs' [] same = refl
bytes_in_sizes hs hs' (x ∷ xs) same = omega (arith, same x, bytes_in_sizes hs hs' xs same)

-- The tally of the sweep, on the statistics from before it.
tallied-stats :
    (r : Registry) (m : ℕ → Bool) (hs : ℕ → AllocationHeader) (xs roots : List ℕ)
    → ((p : ℕ) → (hs p).payload_size ≡ (r.headers p).payload_size)
    → (let before = first_stats r (length xs) (bytes_in r.headers xs) (non_null roots) in
        let after = tallied hs before (select m xs) (select (λ q. not (m q)) xs) in
        record after { heap_object_count_after = length (select m xs) })
      ≡ stats_of r xs (select m xs) roots
unfolding tallied stats_of
tallied-stats r m hs xs roots same = ground (
  arith,
  bytes_in_sizes hs r.headers (select m xs) same,
  bytes_in_sizes hs r.headers (select (λ q. not (m q)) xs) same,
  length-select m xs,
  bytes_in-select r.headers m xs,
)

HeapInv-counted : (r : Registry) (xs : List ℕ) → HeapInv r xs → HeapInv (counted r) xs
HeapInv-counted r xs v = record {
  active = record { chain = v.active.chain; distinct = v.active.distinct };
  allocated = v.allocated;
  tracked = v.tracked;
  counted = v.counted;
}

HeapInv-stats :
    (r : Registry) (s : GcCollectionStats) (xs : List ℕ)
    → HeapInv r xs
    → HeapInv (record r { last_collection_stats = s }) xs
HeapInv-stats r s xs v = record {
  active = record { chain = v.active.chain; distinct = v.active.distinct };
  allocated = v.allocated;
  tracked = v.tracked;
  counted = v.counted;
}

with_no_marks :
    (r : Registry) → ((p : ℕ) → marks r p ≡ false) → with_marks (counted r) no_marks ≡ counted r
with_no_marks r clear =
    ap {B = Registry} (λ hs. record (counted r) { headers = hs }) (fun_ext λ q. same q)
  where
    same : (q : ℕ) → record (r.headers q) { marked = false } ≡ r.headers q
    same q = ground (arith, clear q)

module _ (keys : DenseMapKeys) (read : ℕ → ℕ) (r : Registry) (xs roots : List ℕ) where
  count_xs :
      (fuel : ℕ) (s : Registry) (ys : List ℕ)
      → HeapInv s ys
      → length ys ≤ fuel
      → count_heap fuel s s.active_allocation_head (0, 0) ≡ done (length ys, bytes_in s.headers ys)
  count_xs fuel s ys v f =
      count_heap_lem fuel s ys 0 s.active_allocation_head 0 0 v.active.chain f ∙ ground arith

  -- The phases, around a mark phase that ends with the marks `m`.
  module _ (fuel : ℕ) (v : HeapInv r xs) (clear : (p : ℕ) → marks r p ≡ false)
      (f : length xs ≤ fuel) (m : Marks) where
    abbrev marked : Registry
    marked = with_marks (counted r) m

    abbrev before : GcCollectionStats
    before = first_stats r (length xs) (bytes_in r.headers xs) (non_null roots)

    Swept-state :
        (r' : Registry) × (sweep fuel marked marked.active_allocation_head before
          ≡ done (r', tallied marked.headers before (select m xs) (select (λ q. not (m q)) xs)))
        × Swept marked r' [] xs
    Swept-state =
        let vm = HeapInv-marks (counted r) xs marked.headers (λ q. refl) (HeapInv-counted r xs v) in
        sweep_lem fuel marked [] xs marked.active_allocation_head before vm (head-eq marked xs vm) f

    collect_run :
        (r' : Registry)
        → drain keys read fuel
            (mark_addresses keys read (with_marks (counted r) no_marks, []) roots)
          ≡ done marked
        → sweep fuel marked marked.active_allocation_head before
          ≡ done (r', tallied marked.headers before (select m xs) (select (λ q. not (m q)) xs))
        → Swept marked r' [] xs
        → (let s = stats_of r xs (select m xs) roots in
            collect_managed_heap keys read fuel r roots
            ≡ done (record r' { last_collection_stats = s }, s))
    collect_run r' e swept w =
        let live = select m xs in
        collect_stages keys read fuel r roots (length xs) (bytes_in r.headers xs) (non_null roots)
          (length live) (bytes_in r'.headers live) _ marked r' _
          (count_xs fuel (counted r) xs (HeapInv-counted r xs v) f)
          (mark_roots_lem keys read r roots 0 (counted r, [])
            ∙ ap (λ (n : ℕ). (n, mark_addresses keys read (counted r, []) roots)) (omega arith))
          (ap (λ s. drain keys read fuel (mark_addresses keys read (s, []) roots))
              (sym (with_no_marks r clear))
            ∙ e)
          swept (count_xs fuel r' live w.inv (omega (arith, length-select m xs)))
        ∙ ap (λ (s : GcCollectionStats). done (record r' { last_collection_stats = s }, s))
            (tallied-stats r m marked.headers xs roots (λ p. refl))

    collect_state :
        (r' : Registry)
        → ((p : ℕ) → m p ≡ true → Reachable read r xs roots p)
        → ((p : ℕ) → Reachable read r xs roots p → m p ≡ true)
        → Swept marked r' [] xs
        → Collected read r
            (record r' { last_collection_stats = stats_of r xs (select m xs) roots })
            xs
            roots
            (select m xs)
    collect_state r' sound complete w = record {
      heap = HeapInv-stats r' _ (select m xs) w.inv;
      unmarked = λ p. elim (Bool-cases (has xs p)) [
        | inl h ↦ w.cleared p h
        | inr h ↦ w.others p h ∙ elim (Bool-cases (m p)) [
          | inl set ↦ cc (h, Reachable-active (sound p set))
          | inr unset ↦ unset
        ]
      ];
      intact =
          λ p h. w.kept p (ground (arith, has-select m xs p, has-select (λ q. not (m q)) xs p));
      sound = λ p h. sound p (ground (arith, has-select m xs p));
      complete =
          λ p reach. ground (arith, has-select m xs p, complete p reach, Reachable-active reach);
    }

  -- In a heap that satisfies the invariant, whose page maps lead to the active allocations and that
  -- has no marks, on fuel for its active allocations, a collection returns. The active allocations afterwards are exactly those that the roots reach,
  -- their headers are as they were but for links and marks, and the heap satisfies the invariant and
  -- has no marks again. The statistics count the roots that are not null, and the objects and bytes
  -- before the collection, kept by it and swept by it.
  pub collect-Collected :
      (fuel : ℕ)
      → HeapInv r xs
      → Mapped keys r xs
      → ((p : ℕ) → marks r p ≡ false)
      → length xs ≤ fuel
      → (live : List ℕ) × (r' : Registry) × (collect_managed_heap keys read fuel r roots
          ≡ done (r', stats_of r xs live roots))
        × Collected read r r' xs roots live
  collect-Collected fuel v t clear f =
      let same = Searched-counted keys read r roots in
      let iff = Reachable-iff keys read r xs v t roots in
      let (m, e, sound, complete) =
        marks-Searched keys read (counted r) xs (HeapInv-counted r xs v) roots fuel f in
      let (r', swept, w) = Swept-state fuel v clear f m in
      (
        select m xs,
        record r' { last_collection_stats = stats_of r xs (select m xs) roots },
        collect_run fuel v clear f m r' e swept w,
        collect_state fuel v clear f m r'
            (λ p set. (iff p).0 (subst (λ (R : ℕ → Type 0). R p) same (sound p set)))
            (λ p reach. complete p (subst (λ (R : ℕ → Type 0). R p) (sym same) ((iff p).1 reach)))
            w,
      )
