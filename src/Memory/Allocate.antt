-- ===== src/Memory/Allocate.antt =====
-- runtime_memory.cc: allocation, from system memory or from a slab page. `malloc` is the address that
-- malloc returns for a number of bytes during the call, 0 where it fails. A call returns the new
-- state and the address of the payload, 0 for a null pointer.
pub mod Enter
pub mod Register
pub mod Mapped
pub mod Place
pub mod System
pub mod Found
mod Tests
use lona_mvm.Prelude.{
  ℕ, ◌+◌, ◌-◌, ◌%◌, Bool, true, false, not, ◌&&◌, Option, none, some, if◌then◌else◌, ltb, leb, ◌==◌,
  max,
}
use lona_mvm.Memory.Words.{
  word, default_alignment, header_size, header_alignment, allocation_page_bytes,
  managed_slab_page_bytes, max_slab_payload_bytes, max_slab_alignment, allocation_magic,
  is_power_of_two, checked_add, align_up,
}
use lona_mvm.Memory.Header.{
  AllocationKind, AllocationStorageKind, GcTypeDescriptor, is_array, payload_address,
}
use lona_mvm.Memory.Registry.{
  Registry, Outcome, done, ◌>>=◌, modify_header, modify_page, DenseMapKeys,
}
use lona_mvm.Memory.Active.{link_active_allocation}
use lona_mvm.Memory.Slab.{
  get_or_create_slab_class, class_of, slab_page_has_free_slots, unlink_non_full_slab_page,
  slab_header_at, create_slab_page,
}
use lona_mvm.Memory.System.{register_system_allocation_pages}

unfoldable pub should_use_slab_allocator : AllocationKind → (payload_size alignment : ℕ) → Bool
should_use_slab_allocator kind payload_size alignment =
    not (is_array kind)
    && leb payload_size max_slab_payload_bytes
    && leb alignment max_slab_alignment

unfoldable pub initialize_header :
    Registry
    → (header : ℕ) → AllocationKind
    → AllocationStorageKind
    → (payload_size element_count : ℕ) → Option GcTypeDescriptor
    → (storage_owner : ℕ) → Registry
initialize_header r header kind storage payload_size element_count descriptor owner =
    modify_header r header (λ _. record {
      magic = allocation_magic;
      kind = kind;
      storage_kind = storage;
      element_count = element_count;
      payload_size = max payload_size 1;
      type_descriptor = descriptor;
      storage_owner = owner;
      prev = 0;
      next = 0;
      marked = false;
      live = true;
    })

-- A slot of a page with free slots: the first of its free list, or else its next unused one.
unfoldable pub take_slot :
    Registry → (page payload_size : ℕ) → Option GcTypeDescriptor → Registry × ℕ
take_slot r page payload_size descriptor =
    let s = r.pages page in
    let header =
      if s.free_list == 0
      then slab_header_at s (class_of r page) s.next_unused_slot
      else s.free_list in
    let r1 =
      if s.free_list == 0
      then modify_page r page (λ t. record t { next_unused_slot = t.next_unused_slot + 1 })
      else modify_page r page (λ t. record t { free_list = (r.headers s.free_list).next }) in
    let r2 =
      initialize_header r1 header AllocationKind.object AllocationStorageKind.slab payload_size 1
        descriptor page in
    let r3 = modify_page r2 page (λ t. record t { live_count = t.live_count + 1 }) in
    let r4 = if slab_page_has_free_slots r3 page then r3 else unlink_non_full_slab_page r3 page in
    (link_active_allocation r4 header, payload_address header)

module _ (keys : DenseMapKeys) (malloc : ℕ → ℕ) where
  -- The state after malloc returned `raw`.
  unfoldable pub place_system_allocation :
      Registry
      → (raw : ℕ) → AllocationKind
      → (payload_size element_count alignment : ℕ) → Option GcTypeDescriptor
      → Outcome (Registry × ℕ)
  place_system_allocation r raw kind payload_size element_count alignment descriptor =
      let aligned = align_up ((raw + header_size) % word) alignment in
      let header = aligned - header_size in
      do
        registered ←
            register_system_allocation_pages keys
              (initialize_header r header kind AllocationStorageKind.system payload_size
                element_count descriptor raw)
              header
        done (link_active_allocation registered header, aligned)

  unfoldable pub allocate_system_tracked_locked :
      Registry
      → AllocationKind
      → (payload_size element_count alignment : ℕ) → Option GcTypeDescriptor
      → Outcome (Registry × ℕ)
  allocate_system_tracked_locked r kind payload_size element_count alignment descriptor =
      elim (checked_add header_size ((alignment + word - 1) % word)) [
        | none ↦ done (r, 0)
        | some header_and_padding ↦ elim (checked_add (max payload_size 1) header_and_padding) [
          | none ↦ done (r, 0)
          | some total_bytes ↦
              if malloc total_bytes == 0
              then done (r, 0)
              else place_system_allocation r (malloc total_bytes) kind payload_size element_count
                  alignment descriptor
        ]
      ]

  -- A page of the class that has free slots.
  unfoldable pub non_full_page : Registry → ℕ → Outcome (Registry × Option ℕ)
  non_full_page r slab_class =
      if (r.slab_classes slab_class).non_full_pages == 0
      then create_slab_page keys r slab_class
          (malloc (managed_slab_page_bytes + allocation_page_bytes - 1))
      else done (r, some (r.slab_classes slab_class).non_full_pages)

  unfoldable pub allocate_slab_tracked_locked :
      Registry → (payload_size alignment : ℕ) → Option GcTypeDescriptor → Outcome (Registry × ℕ)
  allocate_slab_tracked_locked r payload_size alignment descriptor =
      let (r1, slab_class) = get_or_create_slab_class r payload_size alignment in
      elim slab_class [
        | none ↦ done (r1, 0)
        | some c ↦ non_full_page r1 c >>= λ (r2, page). elim page [
          | none ↦ done (r2, 0)
          | some p ↦ done (take_slot r2 p payload_size descriptor)
        ]
      ]

  unfoldable pub allocate_tracked_locked :
      Registry
      → AllocationKind
      → (payload_size element_count alignment : ℕ) → Option GcTypeDescriptor
      → Outcome (Registry × ℕ)
  allocate_tracked_locked r kind payload_size element_count alignment descriptor =
      let alignment1 = if alignment == 0 then default_alignment else alignment in
      if not (is_power_of_two alignment1)
      then done (r, 0)
      else let alignment2 =
          if ltb alignment1 header_alignment then header_alignment else alignment1 in
        let from_system = λ (s : Registry).
          allocate_system_tracked_locked s kind payload_size element_count alignment2 descriptor in
        if should_use_slab_allocator kind payload_size alignment2
        then (allocate_slab_tracked_locked r payload_size alignment2 descriptor >>= λ (s, payload).
            if payload == 0 then from_system s else done (s, payload))
        else from_system r
