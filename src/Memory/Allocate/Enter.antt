-- ===== src/Memory/Allocate/Enter.antt =====
-- Linking a header that was just written puts the allocation into the heap.
use lona_mvm.Prelude.{ℕ, ◌+◌, ◌≡◌, ◌≢◌, true, false, List, ◌∷◌, has, ap, ◌∙◌, sym}
use lona_mvm.Memory.Header.{AllocationHeader}
use lona_mvm.Memory.Registry.{Registry}
use lona_mvm.Memory.Active.{link_active_allocation}
use lona_mvm.Memory.Active.Chain.{Chain-frame}
use lona_mvm.Memory.Active.Laws.{IsActive, nexts, prevs, with_links, link-IsActive}
use lona_mvm.Memory.Invariant.{
  IsAllocated, IsAllocated-same, HeapInv, data_of, body_of, occupies, HeapInv-add,
}

-- A header that was written into the state `t` enters the heap by linking it.
module _ (r t : Registry) (xs : List ℕ) (v : HeapInv r xs) (header : ℕ) (nz : header ≢ 0)
    (out : has xs header ≡ false) (head : t.active_allocation_head ≡ r.active_allocation_head)
    (same : (q : ℕ) → q ≢ header → t.headers q ≡ r.headers q) where
  listed : IsActive t xs
  listed = record {
    chain = rw head (
        Chain-frame (nexts t) (prevs t) 0 r.active_allocation_head xs
          (λ q e. (
            ap (λ (h : AllocationHeader). h.next) (same q (other q e)),
            ap (λ (h : AllocationHeader). h.prev) (same q (other q e)),
          ))
          v.active.chain);
    distinct = v.active.distinct;
  }
    where
      other : (q : ℕ) → has xs q ≡ true → q ≢ header
      other q e same_place = cc (out, ap (has xs) same_place)

  abbrev entered : Registry
  entered = link_active_allocation t header

  pub entered_links : (next prev : ℕ → ℕ) × (entered ≡ with_links t header next prev)
  entered_links = (link-IsActive t header xs listed nz out).1

  pub entered_data : (q : ℕ) → data_of (entered.headers q) ≡ data_of (t.headers q)
  entered_data q = ap (λ (s : Registry). data_of (s.headers q)) entered_links.2

  pub entered_kept : (q : ℕ) → q ≢ header → data_of (entered.headers q) ≡ data_of (r.headers q)
  entered_kept q ne = entered_data q ∙ ap data_of (same q ne)

  pub entered-HeapInv :
      IsAllocated (t.headers header) header
      → ((page : ℕ)
          → (t.pages page).live_count
            ≡ occupies (t.headers header) page + (r.pages page).live_count)
      → HeapInv entered (header ∷ xs)
  entered-HeapInv a counts =
      let body = ap body_of (entered_data header) in
      HeapInv-add r entered header xs v out (link-IsActive t header xs listed nz out).0 entered_kept
        (IsAllocated-same (t.headers header) (entered.headers header) header body a)
        (λ page.
          ap (λ (s : Registry). (s.pages page).live_count) entered_links.2
          ∙ counts page
          ∙ ap (λ (h : AllocationHeader). occupies h page + (r.pages page).live_count) (sym body))
