-- ===== src/Memory/Slab.antt =====
-- runtime_memory.cc: slab classes, slab pages and the lists of pages that have free slots.
pub mod Frame
use lona_mvm.Prelude.{
  ℕ, zero, suc, ◌+◌, ◌-◌, ◌*◌, ◌/◌, ◌%◌, ◌^◌, Bool, not, ◌||◌, Option, none, some, List, [], ◌∷◌,
  ◌++◌, if◌then◌else◌, ltb, ◌==◌, max, update, false, bit_or,
}
use lona_mvm.Memory.Words.{
  word, align_up, header_size, managed_slab_page_bytes, allocation_page_bytes,
  allocation_page_for_address,
}
use lona_mvm.Memory.Header.{SlabClass, SlabPage}
use lona_mvm.Memory.Registry.{
  Registry, Outcome, done, aborted, slab_page_key_collision, ◌>>=◌, modify_page, modify_class,
  DenseMapKeys, is_reserved_dense_map_key,
}

unfoldable pub slab_class_key : ℕ → ℕ → ℕ
slab_class_key payload_size alignment = bit_or (alignment * 2 ^ 32 % word) payload_size

-- The geometry of a class: `none` where a slot does not fit on a page.
unfoldable pub new_slab_class : ℕ → ℕ → Option SlabClass
new_slab_class payload_size alignment =
    let payload_offset = align_up header_size alignment in
    let slot_stride = align_up (payload_offset + max payload_size 1) alignment in
    if slot_stride == 0 || ltb managed_slab_page_bytes slot_stride
    then none
    else if managed_slab_page_bytes / slot_stride == 0
    then none
    else some (record {
      payload_size = payload_size;
      alignment = alignment;
      header_offset = payload_offset - header_size;
      slot_stride = slot_stride;
      slots_per_page = managed_slab_page_bytes / slot_stride;
      non_full_pages = 0;
    })

-- A class that exists is found by its key.
unfoldable pub get_or_create_slab_class : Registry → ℕ → ℕ → Registry × Option ℕ
get_or_create_slab_class r payload_size alignment =
    let key = slab_class_key payload_size alignment in
    elim (r.slab_class_by_key key) [
      | some found ↦ (r, some found)
      | none ↦ elim (new_slab_class payload_size alignment) [
        | none ↦ (r, none)
        | some c ↦ (
          record r {
            slab_classes = update r.slab_classes r.new_object c;
            slab_class_by_key = update r.slab_class_by_key key (some r.new_object);
            new_object = suc r.new_object;
          },
          some r.new_object,
        )
      ]
    ]

abbrev pub class_of : Registry → ℕ → SlabClass
class_of r page = r.slab_classes (r.pages page).slab_class

unfoldable pub slab_page_has_free_slots : Registry → ℕ → Bool
slab_page_has_free_slots r page =
    not ((r.pages page).free_list == 0)
    || ltb (r.pages page).next_unused_slot (class_of r page).slots_per_page

unfoldable pub is_slab_page_linked : Registry → ℕ → Bool
is_slab_page_linked r page =
    if page == 0 || (r.pages page).slab_class == 0
    then false
    else not ((r.pages page).prev_non_full == 0)
      || not ((r.pages page).next_non_full == 0)
      || (class_of r page).non_full_pages == page

unfoldable pub link_non_full_slab_page : Registry → ℕ → Registry
link_non_full_slab_page r page =
    if page == 0 || is_slab_page_linked r page || not (slab_page_has_free_slots r page)
    then r
    else let head = (class_of r page).non_full_pages in
      let r1 = modify_page r page (λ s. record s { prev_non_full = 0; next_non_full = head }) in
      let r2 =
        if head == 0 then r1 else modify_page r1 head (λ s. record s { prev_non_full = page }) in
      modify_class r2 (r2.pages page).slab_class (λ c. record c { non_full_pages = page })

unfoldable pub unlink_non_full_slab_page : Registry → ℕ → Registry
unlink_non_full_slab_page r page =
    if page == 0 || not (is_slab_page_linked r page)
    then r
    else let before = (r.pages page).prev_non_full in
      let r1 =
        if before == 0
        then (if (class_of r page).non_full_pages == page
            then modify_class r (r.pages page).slab_class
                (λ c. record c { non_full_pages = (r.pages page).next_non_full })
            else r)
        else modify_page r before
            (λ s. record s { next_non_full = (r.pages page).next_non_full }) in
      let after = (r1.pages page).next_non_full in
      let r2 =
        if after == 0
        then r1
        else modify_page r1 after
            (λ s. record s { prev_non_full = (r1.pages page).prev_non_full }) in
      modify_page r2 page (λ s. record s { prev_non_full = 0; next_non_full = 0 })

unfoldable pub slab_header_at : SlabPage → SlabClass → ℕ → ℕ
slab_header_at page c slot = page.page_start + slot * c.slot_stride + c.header_offset

-- The loop over address pages, with the count of pages left.
register_slab_pages : DenseMapKeys → Registry → ℕ → ℕ → ℕ → Outcome Registry
register_slab_pages keys r page current zero = done r
register_slab_pages keys r page current (suc n) =
    let rest =
      register_slab_pages keys
        (record r {
          slab_pages_by_address_page = update r.slab_pages_by_address_page current (some page);
        })
        page (current + 1) n in
    if is_reserved_dense_map_key keys current then aborted slab_page_key_collision else rest

abbrev pub slab_page_span : ℕ → ℕ
slab_page_span start =
    suc (allocation_page_for_address (start + managed_slab_page_bytes - 1))
    - allocation_page_for_address start

unfoldable pub register_slab_page_mappings : DenseMapKeys → Registry → ℕ → Outcome Registry
unfolding register_slab_pages
register_slab_page_mappings keys r page =
    let start = (r.pages page).page_start in
    register_slab_pages keys r page (allocation_page_for_address start) (slab_page_span start)

unregister_slab_pages : Registry → ℕ → ℕ → Registry
unregister_slab_pages r current zero = r
unregister_slab_pages r current (suc n) =
    unregister_slab_pages
      (record r { slab_pages_by_address_page = update r.slab_pages_by_address_page current none })
      (current + 1) n

unfoldable pub unregister_slab_page_mappings : Registry → ℕ → Registry
unfolding unregister_slab_pages
unregister_slab_page_mappings r page =
    let start = (r.pages page).page_start in
    unregister_slab_pages r (allocation_page_for_address start) (slab_page_span start)

-- `raw` is what malloc returns for the page: 0 where it fails.
unfoldable pub create_slab_page :
    DenseMapKeys → Registry → (slab_class raw : ℕ) → Outcome (Registry × Option ℕ)
create_slab_page keys r slab_class raw =
    if raw == 0
    then done (r, none)
    else let page = r.new_object in
      let fresh = record r {
        pages = update r.pages page (record {
          slab_class = slab_class;
          allocation_base = raw;
          page_start = align_up raw allocation_page_bytes;
          next_unused_slot = 0;
          live_count = 0;
          free_list = 0;
          prev_non_full = 0;
          next_non_full = 0;
        });
        slab_page_storage = r.slab_page_storage ++ page ∷ [];
        new_object = suc r.new_object;
      } in
      do
        mapped ← register_slab_page_mappings keys fresh page
        done (link_non_full_slab_page mapped page, some page)

erase_page : ℕ → List ℕ → List ℕ
erase_page page [] = []
erase_page page (p ∷ ps) = if p == page then ps else p ∷ erase_page page ps

unfoldable pub release_slab_page : Registry → ℕ → Registry
unfolding erase_page
release_slab_page r page =
    let unmapped = unregister_slab_page_mappings (unlink_non_full_slab_page r page) page in
    record unmapped { slab_page_storage = erase_page page unmapped.slab_page_storage }
