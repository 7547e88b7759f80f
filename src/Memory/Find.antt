-- ===== src/Memory/Find.antt =====
-- runtime_memory.cc: which allocation an address points into.
pub mod Laws
pub mod Exact
use lona_mvm.Prelude.{
  ℕ, ◌+◌, ◌-◌, ◌/◌, ◌%◌, Bool, not, ◌&&◌, ◌||◌, Option, none, some, List, [], ◌∷◌, if◌then◌else◌,
  leb, ◌==◌,
}
use lona_mvm.Memory.Words.{
  word, allocation_magic, allocation_page_for_address, allocation_last_address,
}
use lona_mvm.Memory.Header.{payload_address, is_slab}
use lona_mvm.Memory.Registry.{Registry, DenseMapKeys, is_reserved_dense_map_key}
use lona_mvm.Memory.Slab.{slab_header_at, class_of}

-- address >= start && address <= last, for the payload of a header.
unfoldable pub payload_contains : Registry → ℕ → ℕ → Bool
payload_contains r header address =
    let start = payload_address header in
    leb start address && leb address (allocation_last_address start (r.headers header).payload_size)

unfoldable pub find_owning_slab_allocation : Registry → ℕ → ℕ → Option ℕ
unfolding payload_contains
find_owning_slab_allocation r address page =
    let s = r.pages page in
    let c = class_of r page in
    let slot = (address + word - s.page_start) % word / c.slot_stride in
    let header = slab_header_at s c slot in
    let h = r.headers header in
    if leb c.slots_per_page slot
    then none
    else if not h.live || not (h.magic == allocation_magic) || not (is_slab h.storage_kind)
    then none
    else if payload_contains r header address
    then some header
    else none

-- The first live header of a bucket whose payload holds the address.
unfoldable pub find_in_bucket : Registry → ℕ → List ℕ → Option ℕ
unfolding payload_contains
find_in_bucket r address [] = none
find_in_bucket r address (header ∷ rest) =
    if (r.headers header).live && payload_contains r header address
    then some header
    else find_in_bucket r address rest

unfoldable pub find_system_allocation : Registry → ℕ → Option ℕ
unfolding find_in_bucket
find_system_allocation r address =
    elim (r.system_headers_by_page (allocation_page_for_address address)) [
      | none ↦ none
      | some bucket ↦ find_in_bucket r address bucket
    ]

or_else : Option ℕ → Option ℕ → Option ℕ
or_else none b = b
or_else (some a) b = some a

unfoldable pub find_owning_allocation : DenseMapKeys → Registry → ℕ → Option ℕ
unfolding find_owning_slab_allocation find_system_allocation or_else
find_owning_allocation keys r address =
    let page = allocation_page_for_address address in
    if is_reserved_dense_map_key keys page then none else elim (r.slab_pages_by_address_page page) [
      | none ↦ find_system_allocation r address
      | some slab ↦
          or_else (find_owning_slab_allocation r address slab) (find_system_allocation r address)
    ]
