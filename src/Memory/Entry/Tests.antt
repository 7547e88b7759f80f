-- ===== src/Memory/Entry/Tests.antt =====
-- An array of three pairs in the heap of Sample.
use lona_mvm.Prelude.{
  ℕ, ◌-◌, ◌*◌, ◌%◌, ◌^◌, ◌≡◌, refl, ◌∷◌, some, if◌then◌else◌, ==_iff, inl, arith,
}
use lona_mvm.Memory.Words.{header_size}
use lona_mvm.Memory.Header.{GcTypeDescriptor, is_array, payload_address}
use lona_mvm.Memory.Registry.{done, aborted, wrong_kind}
use lona_mvm.Memory.Invariant.{HeapInv}
use lona_mvm.Memory.Allocate.Register.{AboveAddressPages}
use lona_mvm.Memory.Allocate.Place.{system_bytes, Fresh}
use lona_mvm.Memory.Entry.{Process, mvm_array_length, mvm_array_malloc_typed}
use lona_mvm.Memory.Entry.Laws.{mvm_array_length_lem, mvm_array_malloc_typed-mvm_array_length}
use lona_mvm.Memory.Sample.{keys, pair, headers, heap, objects, heap-HeapInv}
use lona_mvm.Gc.Requests.{initial_requests, record_managed_allocation}

abbrev process : Process
process = record { heap = heap; requests = initial_requests }

abbrev aligned_pair : GcTypeDescriptor
aligned_pair = record pair { instance_alignment = 16 }

abbrev malloc : ℕ → ℕ
malloc bytes = 20480

reserved_keys-AboveAddressPages : AboveAddressPages keys
reserved_keys-AboveAddressPages = record {
  empty_above = omega arith;
  tombstone_above = omega arith;
}

array_block-Fresh : Fresh objects 20480 (system_bytes (16 * 3) 4)
array_block-Fresh p h = inl (ground (arith, ==_iff 4096 p, ==_iff 8192 p, ==_iff 12288 p))

mvm_array_length_lem_example : mvm_array_length heap (payload_address 4096) ≡ (
    if is_array (headers 4096).kind then done (headers 4096).element_count else aborted wrong_kind)
mvm_array_length_lem_example = mvm_array_length_lem heap objects 4096 heap-HeapInv refl

mvm_array_malloc_typed-mvm_array_length_example :
    (payload : ℕ) × (p' : Process) × (mvm_array_malloc_typed keys malloc process 3
        (some aligned_pair)
      ≡ done (p', payload))
    × (mvm_array_length p'.heap payload ≡ done 3)
    × (payload % 2 ^ 4 ≡ 0)
    × HeapInv p'.heap ((payload - header_size) ∷ objects)
    × (p'.requests ≡ record_managed_allocation initial_requests (16 * 3))
mvm_array_malloc_typed-mvm_array_length_example =
    mvm_array_malloc_typed-mvm_array_length keys malloc reserved_keys-AboveAddressPages process
      objects 3 4 aligned_pair heap-HeapInv refl (omega arith) refl (omega arith) (omega arith)
      (omega arith) (omega arith) (omega arith) (omega arith) (omega arith) array_block-Fresh
