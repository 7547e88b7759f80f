-- ===== src/Memory/Allocate/Tests.antt =====
-- An allocation in the heap of Sample: 24 bytes, aligned to 16, from a block at 20480.
use lona_mvm.Prelude.{
  inl, inr, max, ℕ, ◌-◌, ◌^◌, ◌≡◌, refl, none, some, ◌+◌, ◌≤◌, ◌<◌, ◌∷◌, ==_iff, arith,
}
use lona_mvm.Memory.Words.{header_size}
use lona_mvm.Memory.Header.{AllocationKind}
use lona_mvm.Memory.Registry.{Registry, done}
use lona_mvm.Memory.Sample.{keys, heap, objects, heap-HeapInv, heap-Mapped}
use lona_mvm.Memory.Find.{find_owning_allocation}
use lona_mvm.Memory.Find.Exact.{Mapped}
use lona_mvm.Memory.Allocate.Found.{allocate_system-found}
use lona_mvm.Memory.Allocate.{allocate_system_tracked_locked}
use lona_mvm.Memory.Allocate.Register.{AboveAddressPages}
use lona_mvm.Memory.Allocate.Place.{system_bytes, new_header, Fresh, Placed, Outside}
use lona_mvm.Memory.Allocate.System.{allocate_system-Placed, allocate_system-null}

abbrev malloc : ℕ → ℕ
malloc bytes = 20480

abbrev no_memory : ℕ → ℕ
no_memory bytes = 0

keys-AboveAddressPages : AboveAddressPages keys
keys-AboveAddressPages = record { empty_above = omega arith; tombstone_above = omega arith }

block-Fresh : Fresh objects 20480 (system_bytes 24 4)
block-Fresh p h = inl (ground (arith, ==_iff 4096 p, ==_iff 8192 p, ==_iff 12288 p))

allocate_system-Placed_example :
    (payload : ℕ) × (r' : Registry) × (allocate_system_tracked_locked keys malloc heap
        AllocationKind.array 24 3
        (2 ^ 4)
        none
      ≡ done (r', payload))
    × Placed heap r' objects 20480
        (system_bytes 24 4)
        (2 ^ 4)
        (payload - header_size)
        (max 24 1)
        (new_header AllocationKind.array 24 3 none 20480)
allocate_system-Placed_example =
    allocate_system-Placed keys keys-AboveAddressPages malloc heap objects AllocationKind.array 24 3
      4 none heap-HeapInv (omega arith) (omega arith) (omega arith) block-Fresh

allocate_system-null_example :
    allocate_system_tracked_locked keys no_memory heap AllocationKind.array 24 3 (2 ^ 4) none
    ≡ done (heap, 0)
allocate_system-null_example =
    allocate_system-null keys no_memory heap AllocationKind.array 24 3 4 none (omega arith)
      (omega arith) (inr refl)

block-Outside : Outside heap objects 20480 (system_bytes 24 4)
block-Outside p h = inl (ground (arith, ==_iff 4096 p, ==_iff 8192 p, ==_iff 12288 p))

allocate_system-found_example :
    (payload : ℕ) × (r' : Registry) × (allocate_system_tracked_locked keys malloc heap
        AllocationKind.array 24 3
        (2 ^ 4)
        none
      ≡ done (r', payload))
    × Mapped keys r' ((payload - 80) ∷ objects)
    × ((a : ℕ)
        → payload ≤ a
        → a < payload + max 24 1
        → find_owning_allocation keys r' a ≡ some (payload - 80))
allocate_system-found_example =
    allocate_system-found keys keys-AboveAddressPages malloc heap objects AllocationKind.array 24 3
      4 none heap-HeapInv heap-Mapped (omega arith) (omega arith) (omega arith) block-Outside
