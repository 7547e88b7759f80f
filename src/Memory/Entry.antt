-- ===== src/Memory/Entry.antt =====
-- runtime_memory.cc: the entry points that running code calls, on the heap together with the request
-- state of gc.cc.
pub mod Laws
mod Tests
use lona_mvm.Prelude.{
  ℕ, ◌+◌, ◌-◌, ◌%◌, Bool, true, false, not, ◌||◌, Option, none, some, List, if◌then◌else◌, ◌==◌,
}
use lona_mvm.Memory.Words.{word, header_size, allocation_magic, to_size, checked_mul}
use lona_mvm.Memory.Header.{AllocationKind, GcTypeDescriptor, GcCollectionStats, is_array}
use lona_mvm.Memory.Registry.{
  Registry, Outcome, done, aborted, ◌>>=◌, DenseMapKeys, blank_stats, null_pointer,
  unmanaged_pointer, wrong_kind, incompatible_descriptor, missing_metadata,
  rewrite_object_allocation, rewrite_array_allocation,
}
use lona_mvm.Memory.Allocate.{allocate_tracked_locked}
use lona_mvm.Memory.Collect.{collect_managed_heap}
use lona_mvm.Gc.Requests.{GcRequests, record_managed_allocation, update_managed_heap_usage}

pub record Process : Type 0 where
  pub heap : Registry
  pub requests : GcRequests

abbrev is_kind : AllocationKind → AllocationKind → Bool
is_kind AllocationKind.array kind = is_array kind
is_kind AllocationKind.object kind = not (is_array kind)

unfoldable pub checked_header : Registry → ℕ → Option AllocationKind → Outcome ℕ
checked_header r payload expected_kind =
    let header = (payload + word - header_size) % word in
    let h = r.headers header in
    if payload == 0
    then aborted null_pointer
    else if not (h.magic == allocation_magic) || not h.live
    then aborted unmanaged_pointer
    else elim expected_kind [
      | none ↦ done header
      | some kind ↦ if is_kind kind h.kind then done header else aborted wrong_kind
    ]

unfoldable pub mvm_array_length : Registry → ℕ → Outcome ℕ
mvm_array_length r payload = checked_header r payload (some AllocationKind.array) >>= λ header.
    done (r.headers header).element_count

-- The calls that a pass should have rewritten to the typed ones.
abbrev pub mvm_malloc : Outcome ℕ
mvm_malloc = aborted rewrite_object_allocation

abbrev pub mvm_array_malloc : ℕ → Outcome ℕ
mvm_array_malloc element_count = aborted rewrite_array_allocation

-- kGCTypeDescriptorABIVersion
abbrev pub gc_type_descriptor_abi_version : ℕ
gc_type_descriptor_abi_version = 1

unfoldable pub descriptor_alignment : GcTypeDescriptor → Option ℕ
descriptor_alignment d = if d.instance_alignment == 0 then some 0 else to_size d.instance_alignment

-- After the allocator returned: a payload is counted.
unfoldable pub record_payload : Process → ℕ → Registry × ℕ → Process × ℕ
record_payload p payload_size (r, payload) =
    if payload == 0 then (record p { heap = r }, payload) else (
      record p { heap = r; requests = record_managed_allocation p.requests payload_size },
      payload,
    )

module _ (keys : DenseMapKeys) (malloc : ℕ → ℕ) where
  unfoldable pub mvm_malloc_typed : Process → Option GcTypeDescriptor → Outcome (Process × ℕ)
  mvm_malloc_typed p none = aborted incompatible_descriptor
  mvm_malloc_typed p (some d) =
      if not (d.abi_version == gc_type_descriptor_abi_version)
      then aborted incompatible_descriptor
      else if d.instance_size == 0
      then aborted missing_metadata
      else elim (to_size d.instance_size) [
        | none ↦ done (p, 0)
        | some payload_size ↦ elim (descriptor_alignment d) [
          | none ↦ done (p, 0)
          | some alignment ↦
              allocate_tracked_locked keys malloc p.heap AllocationKind.object payload_size 1
                alignment (some d)
              >>= λ result. done (record_payload p payload_size result)
        ]
      ]

  -- With an element count that fits in a size_t.
  unfoldable pub array_malloc_checked :
      Process → (element_count : ℕ) → Option GcTypeDescriptor → Outcome (Process × ℕ)
  array_malloc_checked p element_count none = aborted incompatible_descriptor
  array_malloc_checked p element_count (some d) =
      if not (d.abi_version == gc_type_descriptor_abi_version)
      then aborted incompatible_descriptor
      else if d.instance_size == 0
      then aborted missing_metadata
      else elim (to_size d.instance_size) [
        | none ↦ done (p, 0)
        | some element_size ↦ elim (checked_mul element_size element_count) [
          | none ↦ done (p, 0)
          | some payload_size ↦ elim (descriptor_alignment d) [
            | none ↦ done (p, 0)
            | some alignment ↦
                allocate_tracked_locked keys malloc p.heap AllocationKind.array payload_size
                  element_count alignment (some d)
                >>= λ result. done (record_payload p payload_size result)
          ]
        ]
      ]

  unfoldable pub mvm_array_malloc_typed :
      Process → (element_count : ℕ) → Option GcTypeDescriptor → Outcome (Process × ℕ)
  mvm_array_malloc_typed p element_count descriptor = elim (to_size element_count) [
    | none ↦ done (p, 0)
    | some count ↦ array_malloc_checked p count descriptor
  ]

-- The whole of collectManagedHeap, with the count of managed bytes that it sets.
unfoldable pub collect_process :
    DenseMapKeys → (ℕ → ℕ) → ℕ → Process → List ℕ → Outcome (Process × GcCollectionStats)
collect_process keys read fuel p roots =
    collect_managed_heap keys read fuel p.heap roots >>= λ (r, stats). done (
      record p { heap = r; requests = update_managed_heap_usage p.requests stats.heap_bytes_after },
      stats,
    )

abbrev pub clear_last_gc_collection_stats : Registry → Registry
clear_last_gc_collection_stats r = record r { last_collection_stats = blank_stats }

abbrev pub get_last_gc_collection_stats : Registry → GcCollectionStats
get_last_gc_collection_stats r = r.last_collection_stats
