-- ===== src/Memory/Sweep/Reclaim.antt =====
-- Reclaiming an active allocation ends, and takes out that allocation and nothing else.
use lona_mvm.Prelude.{
  ℕ, ◌+◌, ◌-◌, ◌≡◌, ◌≢◌, refl, true, false, not, List, ◌∷◌, ◌++◌, inl, inr, if◌then◌else◌, ◌==◌,
  ==_iff, has, arith, ap, ◌∙◌, Bool-cases, ==_refl,
}
use lona_mvm.Memory.Header.{AllocationHeader, SlabPage, is_slab}
use lona_mvm.Memory.Registry.{Registry, done, modify_header, modify_page}
use lona_mvm.Memory.Active.{unlink_active_allocation}
use lona_mvm.Memory.Active.Chain.{Chain-frame, Distinct-absent}
use lona_mvm.Memory.Active.Laws.{IsActive, nexts, prevs, unlink-IsActive}
use lona_mvm.Memory.Slab.{slab_page_has_free_slots, link_non_full_slab_page, release_slab_page}
use lona_mvm.Memory.Slab.Frame.{SameHeap, link_non_full-SameHeap, release-SameHeap}
use lona_mvm.Memory.System.{unregister_system_allocation_pages}
use lona_mvm.Memory.Invariant.{HeapInv, HeapInv-remove, occupies, slots_in-mid, data_of}
use lona_mvm.Memory.Sweep.{reclaim_slot, reclaim_allocation}

-- What is left after one allocation was taken out.
pub record Removed (r s : Registry) (x : ℕ) (rest : List ℕ) : Type 0 where
  pub inv : HeapInv s rest
  pub kept : (q : ℕ) → q ≢ x → data_of (s.headers q) ≡ data_of (r.headers q)
  pub dead : (s.headers x).live ≡ false
  pub unmarked : (s.headers x).marked ≡ false

-- The state with the slot on the free list of its page, before the page lists are brought up to date.
slot_freed : Registry → ℕ → ℕ → Registry
slot_freed r header page =
    let r1 = modify_header r header (λ h. record h { next = (r.pages page).free_list }) in
    let r2 = modify_page r1 page (λ s. record s { free_list = header }) in
    modify_page r2 page (λ s. record s { live_count = s.live_count - 1 })

slot_settled : Registry → Registry → ℕ → Registry
slot_settled r s page =
    if (s.pages page).live_count == 0
    then release_slab_page s page
    else if not (slab_page_has_free_slots r page)
    then link_non_full_slab_page s page
    else s

slot_settled-SameHeap : (r s : Registry) (page : ℕ) → SameHeap s (slot_settled r s page)
unfolding slot_settled
slot_settled-SameHeap r s page = elim (Bool-cases ((s.pages page).live_count == 0)) [
  | inl gone ↦ rw gone (release-SameHeap s page)
  | inr used ↦ rw used (elim (Bool-cases (slab_page_has_free_slots r page)) [
    | inl room ↦ rw room (record { head = refl; headers = refl; counts = λ q. refl })
    | inr full ↦ rw full (link_non_full-SameHeap s page)
  ])
]

reclaim_slot_lem :
    (r : Registry) (header page : ℕ)
    → (r.pages page).live_count ≢ 0
    → reclaim_slot r header page ≡ done (slot_settled r (slot_freed r header page) page)
unfolding reclaim_slot slot_settled slot_freed
reclaim_slot_lem r header page counted = ground (arith, ==_refl page)

module _ (r : Registry) (x : ℕ) (ys zs : List ℕ) (v : HeapInv r (ys ++ x ∷ zs)) where
  -- Any state that has the links of the unlinked list, the other headers as they were, and one
  -- slot less where the allocation held one.
  removed :
      (s : Registry)
      → s.active_allocation_head ≡ (unlink_active_allocation r x).active_allocation_head
      → ((q : ℕ) → q ≢ x → s.headers q ≡ (unlink_active_allocation r x).headers q)
      → (s.headers x).live ≡ false
      → (s.headers x).marked ≡ false
      → ((page : ℕ)
          → (s.pages page).live_count + occupies (r.headers x) page ≡ (r.pages page).live_count)
      → Removed r s x (ys ++ zs)
  removed s head same dead unmarked counts = record {
    inv = HeapInv-remove r s x ys zs v listed kept dead counts;
    kept = kept;
    dead = dead;
    unmarked = unmarked;
  }
    where
      u : Registry
      u = unlink_active_allocation r x

      step : IsActive u (ys ++ zs)
      step = (unlink-IsActive r x ys zs v.active).0

      kept : (q : ℕ) → q ≢ x → data_of (s.headers q) ≡ data_of (r.headers q)
      kept q ne =
          ap data_of (same q ne)
          ∙ ap (λ (t : Registry). data_of (t.headers q)) (unlink-IsActive r x ys zs v.active).1

      other : (q : ℕ) → has (ys ++ zs) q ≡ true → q ≢ x
      other q h e = cc (Distinct-absent x ys zs v.active.distinct, ap (has (ys ++ zs)) e)

      listed : IsActive s (ys ++ zs)
      listed = record {
        chain = rw head (
            Chain-frame (nexts s) (prevs s) 0 u.active_allocation_head (ys ++ zs)
              (λ q h. (
                ap (λ (k : AllocationHeader). k.next) (same q (other q h)),
                ap (λ (k : AllocationHeader). k.prev) (same q (other q h)),
              ))
              step.chain);
        distinct = step.distinct;
      }

  abbrev cleared : Registry
  cleared =
      modify_header (unlink_active_allocation r x) x
        (λ h. record h { live = false; marked = false })

  same_data : (q : ℕ) → data_of ((unlink_active_allocation r x).headers q) ≡ data_of (r.headers q)
  same_data q = ap (λ (t : Registry). data_of (t.headers q)) (unlink-IsActive r x ys zs v.active).1

  same_pages : (unlink_active_allocation r x).pages ≡ r.pages
  same_pages = ap (λ (t : Registry). t.pages) (unlink-IsActive r x ys zs v.active).1

  reclaim_system :
      is_slab (r.headers x).storage_kind ≡ false
      → reclaim_allocation r x ≡ done (unregister_system_allocation_pages cleared x)
  unfolding reclaim_allocation
  reclaim_system k =
      ground (arith, ap (λ (h : AllocationHeader). is_slab h.storage_kind) (same_data x))

  system-Removed :
      is_slab (r.headers x).storage_kind ≡ false
      → Removed r (unregister_system_allocation_pages cleared x) x (ys ++ zs)
  unfolding unregister_system_allocation_pages
  system-Removed k =
      removed (unregister_system_allocation_pages cleared x) refl
        (λ q ne. ground (arith, ==_iff x q)) (ground (arith, ==_refl x)) (ground (arith, ==_refl x))
        (λ page. ground (arith, ap (λ (f : ℕ → SlabPage). (f page).live_count) same_pages))

  abbrev owner : ℕ
  owner = (r.headers x).storage_owner

  -- The page of an active slab allocation counts at least that one.
  owner_counts : is_slab (r.headers x).storage_kind ≡ true → (cleared.pages owner).live_count ≢ 0
  owner_counts k = ground (
    arith,
    ap (λ (f : ℕ → SlabPage). (f owner).live_count) same_pages,
    v.counted owner,
    slots_in-mid r.headers owner x ys zs,
    ==_refl owner,
  )

  reclaim_slab :
      is_slab (r.headers x).storage_kind ≡ true
      → reclaim_allocation r x ≡ done (slot_settled cleared (slot_freed cleared x owner) owner)
  unfolding reclaim_allocation
  reclaim_slab k =
      let kind : is_slab ((unlink_active_allocation r x).headers x).storage_kind ≡ true =
        ap (λ (h : AllocationHeader). is_slab h.storage_kind) (same_data x) ∙ k in
      let own = ap (λ (h : AllocationHeader). h.storage_owner) (same_data x) in
      let lem = reclaim_slot_lem cleared x owner (owner_counts k) in
      ground (arith, ap (reclaim_slot cleared x) own)

  freed_header :
      (q : ℕ)
      → q ≢ x
      → (slot_freed cleared x owner).headers q ≡ (unlink_active_allocation r x).headers q
  unfolding slot_freed
  freed_header q ne = ground (arith, ==_iff x q)

  freed_dead : ((slot_freed cleared x owner).headers x).live ≡ false
  unfolding slot_freed
  freed_dead = ground (arith, ==_refl x)

  freed_unmarked : ((slot_freed cleared x owner).headers x).marked ≡ false
  unfolding slot_freed
  freed_unmarked = ground (arith, ==_refl x)

  freed_count :
      is_slab (r.headers x).storage_kind ≡ true
      → (page : ℕ)
      → ((slot_freed cleared x owner).pages page).live_count + occupies (r.headers x) page
        ≡ (r.pages page).live_count
  unfolding slot_freed
  freed_count k page = ground (
    arith,
    owner_counts k,
    ap (λ (f : ℕ → SlabPage). (f page).live_count) same_pages,
    ap (λ (f : ℕ → SlabPage). (f owner).live_count) same_pages,
    ap (λ (q : ℕ). (r.pages q).live_count),
    ==_iff owner page,
  )

  slab-Removed :
      is_slab (r.headers x).storage_kind ≡ true
      → Removed r (slot_settled cleared (slot_freed cleared x owner) owner) x (ys ++ zs)
  slab-Removed k =
      removed t (settled.head ∙ refl_head)
        (λ q ne. ap (λ (hs : ℕ → AllocationHeader). hs q) settled.headers ∙ freed_header q ne)
        (ap (λ (hs : ℕ → AllocationHeader). (hs x).live) settled.headers ∙ freed_dead)
        (ap (λ (hs : ℕ → AllocationHeader). (hs x).marked) settled.headers ∙ freed_unmarked)
        (λ page. omega (arith, settled.counts page, freed_count k page))
    where
      t : Registry
      t = slot_settled cleared (slot_freed cleared x owner) owner

      settled : SameHeap (slot_freed cleared x owner) t
      settled = slot_settled-SameHeap cleared (slot_freed cleared x owner) owner

      refl_head :
          (slot_freed cleared x owner).active_allocation_head
          ≡ (unlink_active_allocation r x).active_allocation_head
      refl_head = unfold slot_freed in refl

  -- In a heap that satisfies the invariant, reclaiming an active allocation, from system memory or
  -- from a slab page, does not abort. It takes the allocation out of the heap, which keeps its
  -- invariant, clears its mark and its flag for being in use, and leaves every other header as it
  -- was but for the links.
  pub reclaim-Removed :
      (s : Registry) × (reclaim_allocation r x ≡ done s) × Removed r s x (ys ++ zs)
  reclaim-Removed = elim (Bool-cases (is_slab (r.headers x).storage_kind)) [
    | inl k ↦
        (slot_settled cleared (slot_freed cleared x owner) owner, reclaim_slab k, slab-Removed k)
    | inr k ↦ (unregister_system_allocation_pages cleared x, reclaim_system k, system-Removed k)
  ]
