-- ===== src/Memory/Header.antt =====
-- The data types of runtime_memory.hh and runtime_memory.cc: descriptors, headers, slab classes and
-- slab pages. A pointer is its address, and nullptr is 0.
use lona_mvm.Prelude.{ℕ, Bool, true, false, Option, none, ◌+◌}
use lona_mvm.Memory.Words.{header_size}

pub data AllocationKind : Type 0 where
  object array : AllocationKind

pub data AllocationStorageKind : Type 0 where
  system slab : AllocationStorageKind

-- The array of offsets is read by its index; none is a null pointer.
pub record GcTypeDescriptor : Type 0 where
  pub abi_version : ℕ
  pub instance_size : ℕ
  pub instance_alignment : ℕ
  pub reference_slot_count : ℕ
  pub reference_slot_offsets : Option (ℕ → ℕ)

-- The descriptor is constant data, so a header holds it and not its address.
pub record AllocationHeader : Type 0 where
  pub magic : ℕ
  pub kind : AllocationKind
  pub storage_kind : AllocationStorageKind
  pub element_count : ℕ
  pub payload_size : ℕ
  pub type_descriptor : Option GcTypeDescriptor
  pub storage_owner : ℕ
  pub prev : ℕ
  pub next : ℕ
  pub marked : Bool
  pub live : Bool

pub record SlabClass : Type 0 where
  pub payload_size : ℕ
  pub alignment : ℕ
  pub header_offset : ℕ
  pub slot_stride : ℕ
  pub slots_per_page : ℕ
  pub non_full_pages : ℕ

pub record SlabPage : Type 0 where
  pub slab_class : ℕ
  pub allocation_base : ℕ
  pub page_start : ℕ
  pub next_unused_slot : ℕ
  pub live_count : ℕ
  pub free_list : ℕ
  pub prev_non_full : ℕ
  pub next_non_full : ℕ

-- The counters of 64 bits are numbers: an object takes more than 80 bytes of memory, so that counts
-- of objects and bytes stay below 2 ^ 64, and 2 ^ 64 collections do not happen.
pub record GcCollectionStats : Type 0 where
  pub collection_count : ℕ
  pub root_count : ℕ
  pub live_object_count : ℕ
  pub swept_object_count : ℕ
  pub swept_bytes : ℕ
  pub heap_bytes_before : ℕ
  pub heap_bytes_after : ℕ
  pub heap_object_count_before : ℕ
  pub heap_object_count_after : ℕ

-- A default-initialised header.
abbrev pub blank_header : AllocationHeader
blank_header = record {
  magic = 0;
  kind = AllocationKind.object;
  storage_kind = AllocationStorageKind.system;
  element_count = 0;
  payload_size = 0;
  type_descriptor = none;
  storage_owner = 0;
  prev = 0;
  next = 0;
  marked = false;
  live = false;
}

abbrev pub is_array : AllocationKind → Bool
is_array AllocationKind.array = true
is_array AllocationKind.object = false

abbrev pub is_slab : AllocationStorageKind → Bool
is_slab AllocationStorageKind.slab = true
is_slab AllocationStorageKind.system = false

-- The payload stands right behind its header.
abbrev pub payload_address : ℕ → ℕ
payload_address header = header + header_size
