-- ===== src/Memory/Registry.antt =====
-- The global state of runtime_memory.cc, and how its operations read and write objects through
-- pointers. The memory of headers is a function of their address: headers and payload words are
-- separate stores. A DenseMap is a function into Option.
use lona_mvm.Prelude.{ℕ, List, [], Option, none, update, ◌||◌, ◌==◌, Bool}
use lona_mvm.Memory.Header.{AllocationHeader, SlabClass, SlabPage, GcCollectionStats, blank_header}

pub record Registry : Type 0 where
  pub active_allocation_head : ℕ
  pub headers : ℕ → AllocationHeader
  pub slab_class_by_key : ℕ → Option ℕ
  pub slab_classes : ℕ → SlabClass
  pub pages : ℕ → SlabPage
  pub slab_page_storage : List ℕ
  pub slab_pages_by_address_page : ℕ → Option ℕ
  pub system_headers_by_page : ℕ → Option (List ℕ)
  pub new_object : ℕ
  pub collection_count : ℕ
  pub last_collection_stats : GcCollectionStats

-- Why the runtime aborts: one constructor for each message.
pub data Abort : Type 0 where
  system_page_key_collision slab_page_key_collision invalid_live_count : Abort
  rewrite_object_allocation rewrite_array_allocation : Abort
  incompatible_descriptor missing_metadata : Abort
  null_pointer unmanaged_pointer wrong_kind : Abort

-- The end of a call. A loop over pointers runs on fuel.
pub data Outcome {ℓ} (A : Type ℓ) : Type ℓ where
  done : A → Outcome A
  aborted : Abort → Outcome A
  out_of_fuel : Outcome A

infixl 5 ◌>>=◌
abbrev pub ◌>>=◌ {ℓ κ} : {A : Type ℓ} {B : Type κ} → Outcome A → (A → Outcome B) → Outcome B
done a >>= f = f a
aborted e >>= f = aborted e
out_of_fuel >>= f = out_of_fuel

abbrev pub modify_header : Registry → ℕ → (AllocationHeader → AllocationHeader) → Registry
modify_header r p f = record r { headers = update r.headers p (f (r.headers p)) }

abbrev pub modify_page : Registry → ℕ → (SlabPage → SlabPage) → Registry
modify_page r p f = record r { pages = update r.pages p (f (r.pages p)) }

abbrev pub modify_class : Registry → ℕ → (SlabClass → SlabClass) → Registry
modify_class r p f = record r { slab_classes = update r.slab_classes p (f (r.slab_classes p)) }

-- The two keys that a DenseMap keeps for itself (llvm::DenseMapInfo<std::uintptr_t>).
pub record DenseMapKeys : Type 0 where
  pub empty_key : ℕ
  pub tombstone_key : ℕ

abbrev pub is_reserved_dense_map_key : DenseMapKeys → ℕ → Bool
is_reserved_dense_map_key keys value = value == keys.empty_key || value == keys.tombstone_key

abbrev pub blank_stats : GcCollectionStats
blank_stats = record {
  collection_count = 0;
  root_count = 0;
  live_object_count = 0;
  swept_object_count = 0;
  swept_bytes = 0;
  heap_bytes_before = 0;
  heap_bytes_after = 0;
  heap_object_count_before = 0;
  heap_object_count_after = 0;
}

-- The state at start-up.
abbrev pub empty_registry : Registry
empty_registry = record {
  active_allocation_head = 0;
  headers = λ _. blank_header;
  slab_class_by_key = λ _. none;
  slab_classes = λ _. record {
    payload_size = 0;
    alignment = 0;
    header_offset = 0;
    slot_stride = 0;
    slots_per_page = 0;
    non_full_pages = 0;
  };
  pages = λ _. record {
    slab_class = 0;
    allocation_base = 0;
    page_start = 0;
    next_unused_slot = 0;
    live_count = 0;
    free_list = 0;
    prev_non_full = 0;
    next_non_full = 0;
  };
  slab_page_storage = [];
  slab_pages_by_address_page = λ _. none;
  system_headers_by_page = λ _. none;
  new_object = 1;
  collection_count = 0;
  last_collection_stats = blank_stats;
}
