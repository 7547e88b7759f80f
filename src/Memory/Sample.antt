-- ===== src/Memory/Sample.antt =====
-- A small heap: an object in system memory at 4096 whose slot points to another one at 8192, and an
-- object in the slab page 50, at 12288, that nothing points to.
use lona_mvm.Prelude.{
  ℕ, ◌-◌, ◌^◌, ◌≡◌, refl, ◌+◌, ◌/◌, ◌%◌, ◌≤◌, ◌<◌, Bool-cases, inl, inr, subst, true, false, List,
  [], ◌∷◌, none, some, if◌then◌else◌, ◌==◌, ==_iff, has, update, arith,
}
use lona_mvm.Memory.Words.{allocation_magic}
use lona_mvm.Memory.Header.{
  AllocationKind, AllocationStorageKind, GcTypeDescriptor, AllocationHeader, SlabPage, blank_header,
  is_slab,
}
use lona_mvm.Memory.Registry.{Registry, DenseMapKeys, empty_registry}
use lona_mvm.Memory.Active.Laws.{IsActive}
use lona_mvm.Memory.Invariant.{IsAllocated, HeapInv}
use lona_mvm.Memory.Find.Exact.{Holds, Mapped, InSlot}
use lona_mvm.Memory.Sweep.Tally.{marks}

-- The keys that a DenseMap over 64-bit words reserves.
abbrev pub keys : DenseMapKeys
keys = record { empty_key = 2 ^ 64 - 1; tombstone_key = 2 ^ 64 - 2 }

abbrev pub pair : GcTypeDescriptor
pair = record {
  abi_version = 1;
  instance_size = 16;
  instance_alignment = 8;
  reference_slot_count = 1;
  reference_slot_offsets = some (λ _. 8);
}

abbrev pub object_at : (prev next : ℕ) → AllocationHeader
object_at prev next = record {
  magic = allocation_magic;
  kind = AllocationKind.object;
  storage_kind = AllocationStorageKind.system;
  element_count = 1;
  payload_size = 16;
  type_descriptor = some pair;
  storage_owner = 1;
  prev = prev;
  next = next;
  marked = false;
  live = true;
}

abbrev pub slab_object : AllocationHeader
slab_object = record (object_at 8192 0) {
  storage_kind = AllocationStorageKind.slab;
  storage_owner = 50;
}

abbrev pub headers : ℕ → AllocationHeader
headers p =
    if p == 4096
    then object_at 0 8192
    else if p == 8192
    then object_at 4096 12288
    else if p == 12288
    then slab_object
    else blank_header

abbrev pub pages : ℕ → SlabPage
pages = update empty_registry.pages 50 (record {
  slab_class = 40;
  allocation_base = 12288;
  page_start = 12288;
  next_unused_slot = 1;
  live_count = 1;
  free_list = 0;
  prev_non_full = 0;
  next_non_full = 0;
})

abbrev pub heap : Registry
heap = record empty_registry {
  active_allocation_head = 4096;
  headers = headers;
  pages = pages;
  slab_classes = update empty_registry.slab_classes 40 (record {
    payload_size = 16;
    alignment = 8;
    header_offset = 0;
    slot_stride = 96;
    slots_per_page = 682;
    non_full_pages = 50;
  });
  slab_page_storage = 50 ∷ [];
  slab_pages_by_address_page = λ page. if page == 3 then some 50 else none;
  system_headers_by_page =
      λ page. if page == 1 then some (4096 ∷ []) else if page == 2 then some (8192 ∷ []) else none;
}

abbrev pub objects : List ℕ
objects = 4096 ∷ 8192 ∷ 12288 ∷ []

-- The payload words: the slot of the first object holds the payload of the second.
abbrev pub read : ℕ → ℕ
read address = if address == 4184 then 8272 else 0

pub heap-IsActive : IsActive heap objects
heap-IsActive = record {
  chain = (refl, ground arith, refl, (refl, ground arith, refl, (refl, ground arith, refl, refl)));
  distinct = (refl, (refl, (refl, tt)));
}

heap-IsAllocated : (p : ℕ) → has objects p ≡ true → IsAllocated (headers p) p
heap-IsAllocated p h = record {
  in_use = ground (arith, ==_iff p 4096);
  genuine = ground (arith, ==_iff p 4096);
  fits = ground (arith, ==_iff p 4096);
}

pub heap-HeapInv : HeapInv heap objects
heap-HeapInv = record {
  active = heap-IsActive;
  allocated = heap-IsAllocated;
  tracked = λ p h. ground arith;
  counted = λ page. ground arith;
}

-- What holds of the three objects holds of all.
each_object : (P : ℕ → Type 0) → P 4096 → P 8192 → P 12288 → (p : ℕ) → has objects p ≡ true → P p
each_object P a b c p h = elim (Bool-cases (4096 == p)) [
  | inl first ↦ subst P ((==_iff 4096 p).0 first) a
  | inr not_first ↦ elim (Bool-cases (8192 == p)) [
    | inl second ↦ subst P ((==_iff 8192 p).0 second) b
    | inr not_second ↦ subst P ((==_iff 12288 p).0 (ground arith)) c
  ]
]

object_size : (p : ℕ) → has objects p ≡ true → (headers p).payload_size ≡ 16
object_size = each_object (λ p. (headers p).payload_size ≡ 16) refl refl refl

-- A payload starts 80 bytes behind its header and has 16 bytes.
in_object : (p a : ℕ) → has objects p ≡ true → Holds heap p a → (p + 80 ≤ a) × (a < p + 96)
in_object p a h x = (x.from_start, omega (arith, x.before_end, object_size p h))

headers_apart : (p : ℕ) → has objects p ≡ true → (p % 4096 ≡ 0) × (p ≤ 12288)
headers_apart =
    each_object (λ p. (p % 4096 ≡ 0) × (p ≤ 12288)) (refl, omega arith) (refl, omega arith)
      (refl, omega arith)

pub heap-Mapped : Mapped keys heap objects
heap-Mapped = record {
  apart = λ p q a hp hq x y.
      omega (arith, in_object p a hp x, in_object q a hq y, headers_apart p hp, headers_apart q hq);
  sized = λ p h e. omega (arith, object_size p h);
  unreserved = λ p a h x. (
    λ e. omega (arith, in_object p a h x, headers_apart p h),
    λ e. omega (arith, in_object p a h x, headers_apart p h),
  );
  in_buckets = λ p a h k x.
      each_object
        (λ p.
          is_slab (headers p).storage_kind ≡ false
          → (p + 80 ≤ a) × (a < p + 96)
          → (bucket : List ℕ) × (heap.system_headers_by_page (a / 2 ^ 12) ≡ some bucket)
            × (has bucket p ≡ true))
        (λ s x. (4096 ∷ [], ground arith, refl)) (λ s x. (8192 ∷ [], ground arith, refl))
        (λ s x. cc) p h k (in_object p a h x);
  on_pages = λ p a h k x.
      each_object
        (λ p.
          is_slab (headers p).storage_kind ≡ true
          → (p + 80 ≤ a) × (a < p + 96)
          → heap.slab_pages_by_address_page (a / 2 ^ 12) ≡ some (headers p).storage_owner)
        (λ s x. cc) (λ s x. cc) (λ s x. ground arith) p h k (in_object p a h x);
  in_slots =
      each_object
        (λ p.
          is_slab (headers p).storage_kind ≡ true
          → (slot : ℕ) × InSlot heap (headers p).storage_owner p slot)
        (λ s. cc) (λ s. cc)
        (λ s. (0, record { slot_exists = omega arith; at_slot = refl; in_slot = omega arith }));
}

pub heap-clear : (p : ℕ) → marks heap p ≡ false
heap-clear p = ground arith
