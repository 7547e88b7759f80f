-- ===== src/Memory/Slab/Frame.antt =====
-- The lists of non-full pages and the page maps are kept apart from headers and slot counts.
use lona_mvm.Prelude.{ℕ, zero, suc, ◌+◌, ◌≡◌, refl, ◌∙◌, ap, arith, ==_iff}
use lona_mvm.Memory.Words.{allocation_page_for_address}
use lona_mvm.Memory.Registry.{Registry}
use lona_mvm.Memory.Slab.{
  link_non_full_slab_page, unlink_non_full_slab_page, unregister_slab_pages,
  unregister_slab_page_mappings, release_slab_page, slab_page_span,
}

-- The two states agree on the active allocations, on all headers and on the slot counts.
pub record SameHeap (r s : Registry) : Type 0 where
  pub head : s.active_allocation_head ≡ r.active_allocation_head
  pub headers : s.headers ≡ r.headers
  pub counts : (page : ℕ) → (s.pages page).live_count ≡ (r.pages page).live_count

SameHeap-trans : (r s t : Registry) → SameHeap r s → SameHeap s t → SameHeap r t
SameHeap-trans r s t a b = record {
  head = b.head ∙ a.head;
  headers = b.headers ∙ a.headers;
  counts = λ page. b.counts page ∙ a.counts page;
}

pub link_non_full-SameHeap : (r : Registry) (page : ℕ) → SameHeap r (link_non_full_slab_page r page)
unfolding link_non_full_slab_page
link_non_full-SameHeap r page = record {
  head = ground arith;
  headers = ground arith;
  counts = λ q. ground (arith, ==_iff page q, ap r.pages);
}

unlink_non_full-SameHeap : (r : Registry) (page : ℕ) → SameHeap r (unlink_non_full_slab_page r page)
unfolding unlink_non_full_slab_page
unlink_non_full-SameHeap r page = record {
  head = ground arith;
  headers = ground arith;
  counts = λ q. ground (arith, ==_iff page q, ap r.pages);
}

unregister-SameHeap :
    (n current : ℕ) (r : Registry) → SameHeap r (unregister_slab_pages r current n)
unfolding unregister_slab_pages
unregister-SameHeap zero current r = record { head = refl; headers = refl; counts = λ page. refl }
unregister-SameHeap (suc n) current r =
    let ih = unregister-SameHeap n (current + 1) _ in
    record { head = ih.head; headers = ih.headers; counts = ih.counts }

pub release-SameHeap : (r : Registry) (page : ℕ) → SameHeap r (release_slab_page r page)
unfolding release_slab_page unregister_slab_page_mappings
release-SameHeap r page =
    let u = unlink_non_full_slab_page r page in
    let start = (u.pages page).page_start in
    let both =
      SameHeap-trans r u _ (unlink_non_full-SameHeap r page)
        (unregister-SameHeap (slab_page_span start) (allocation_page_for_address start) u) in
    record { head = both.head; headers = both.headers; counts = both.counts }
