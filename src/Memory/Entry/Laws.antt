-- ===== src/Memory/Entry/Laws.antt =====
-- The entry points: what the length of an array is.
use lona_mvm.Prelude.{
  ℕ, ◌+◌, ◌-◌, ◌*◌, ◌%◌, ◌^◌, ◌<◌, ◌≤◌, ◌≡◌, ◌≢◌, refl, true, false, Option, some, List, ◌∷◌,
  if◌then◌else◌, ◌==◌, has, arith, ap, ◌∙◌, sym,
}
use lona_mvm.Memory.Words.{word, header_size, to_size}
use lona_mvm.Memory.Words.Laws.{is_power_of_two-pow, checked_mul_lem, pow-lt_word}
use lona_mvm.Memory.Header.{
  AllocationKind, GcTypeDescriptor, AllocationHeader, is_array, payload_address,
}
use lona_mvm.Memory.Registry.{Registry, done, aborted, ◌>>=◌, wrong_kind, DenseMapKeys}
use lona_mvm.Memory.Invariant.{HeapInv}
use lona_mvm.Memory.Entry.{
  Process, checked_header, mvm_array_length, mvm_array_malloc_typed, array_malloc_checked,
  descriptor_alignment, record_payload, gc_type_descriptor_abi_version,
}
use lona_mvm.Memory.Allocate.Register.{AboveAddressPages}
use lona_mvm.Memory.Allocate.Place.{system_bytes, Fresh}
use lona_mvm.Memory.Allocate.System.{allocate_system-Placed}
use lona_mvm.Gc.Requests.{record_managed_allocation}
use lona_mvm.Memory.Allocate.{
  allocate_tracked_locked, allocate_system_tracked_locked, should_use_slab_allocator,
}
use native.Mathlib.Nat.{pow-le-pow_right}

-- In a heap that satisfies the invariant, the length of an active allocation is the element count of
-- its header if it is an array, and the call aborts if it is an object.
pub mvm_array_length_lem :
    (r : Registry) (xs : List ℕ) (p : ℕ)
    → HeapInv r xs
    → has xs p ≡ true
    → mvm_array_length r (payload_address p) ≡ (
        if is_array (r.headers p).kind
        then done (r.headers p).element_count
        else aborted wrong_kind)
unfolding mvm_array_length checked_header
mvm_array_length_lem r xs p v h =
    let a = v.allocated p h in
    let back : (payload_address p + word - header_size) % word ≡ p = omega (arith, a.fits) in
    ground (arith, back, a.in_use, a.genuine, ap r.headers back)

module _ (keys : DenseMapKeys) (malloc : ℕ → ℕ) where
  -- Arrays come from system memory.
  allocate_tracked_array :
      (r : Registry) (payload_size element_count k : ℕ) (descriptor : Option GcTypeDescriptor)
      → 3 ≤ k
      → k < 64
      → allocate_tracked_locked keys malloc r AllocationKind.array payload_size element_count
          (2 ^ k)
          descriptor
        ≡ allocate_system_tracked_locked keys malloc r AllocationKind.array payload_size
            element_count
            (2 ^ k)
            descriptor
  unfolding allocate_tracked_locked should_use_slab_allocator
  allocate_tracked_array r payload_size element_count k descriptor lo hi =
      let least = pow-le-pow_right {n = 2} (omega arith) {i = 3} {j = k} lo in
      let power = is_power_of_two-pow k hi in ground (arith, least, power)

  array_malloc_stages :
      (p : Process) (element_count k : ℕ) (d : GcTypeDescriptor)
      → d.abi_version ≡ gc_type_descriptor_abi_version
      → d.instance_size ≢ 0
      → d.instance_alignment ≡ 2 ^ k
      → 3 ≤ k
      → k < 64
      → element_count < word
      → d.instance_size < word
      → d.instance_size * element_count < word
      → mvm_array_malloc_typed keys malloc p element_count (some d) ≡ (
          allocate_system_tracked_locked keys malloc p.heap AllocationKind.array
            (d.instance_size * element_count)
            element_count
            (2 ^ k)
            (some d)
          >>= λ result. done (record_payload p (d.instance_size * element_count) result))
  unfolding mvm_array_malloc_typed array_malloc_checked to_size descriptor_alignment
  array_malloc_stages p element_count k d abi sized aligned lo hi count_fits size_fits fits =
      let product = checked_mul_lem d.instance_size element_count size_fits count_fits in
      let system =
        allocate_tracked_array p.heap (d.instance_size * element_count) element_count k (some d) lo
          hi in
      let power = is_power_of_two-pow k hi in
      ground (arith, product, system, pow-lt_word k hi, abi, sized, aligned)

  -- An array of `element_count` elements of a type that has a descriptor of the current version, a
  -- size that is not 0 and an alignment 2 ^ k of at least eight, in a heap that satisfies the
  -- invariant; where the product of size and count fits in a word, malloc returns a block that ends
  -- more than eight bytes before the end of the address space and holds no header of an active
  -- allocation, and no address page is a reserved key: the call returns an aligned payload whose
  -- length is `element_count`. The heap with the new allocation in front satisfies the invariant,
  -- and the bytes are recorded for the next collection.
  pub mvm_array_malloc_typed-mvm_array_length :
      (above : AboveAddressPages keys) (p : Process) (xs : List ℕ) (element_count k : ℕ)
      (d : GcTypeDescriptor)
      → HeapInv p.heap xs
      → d.abi_version ≡ gc_type_descriptor_abi_version
      → d.instance_size ≢ 0
      → d.instance_alignment ≡ 2 ^ k
      → 3 ≤ k
      → k < 64
      → element_count < word
      → d.instance_size < word
      → d.instance_size * element_count < word
      → malloc (system_bytes (d.instance_size * element_count) k) ≢ 0
      → malloc (system_bytes (d.instance_size * element_count) k)
          + system_bytes (d.instance_size * element_count) k
          + 8
        < word
      → Fresh xs
          (malloc (system_bytes (d.instance_size * element_count) k))
          (system_bytes (d.instance_size * element_count) k)
      → (payload : ℕ) × (p' : Process) × (mvm_array_malloc_typed keys malloc p element_count
            (some d)
          ≡ done (p', payload))
        × (mvm_array_length p'.heap payload ≡ done element_count)
        × (payload % 2 ^ k ≡ 0)
        × HeapInv p'.heap ((payload - header_size) ∷ xs)
        × (p'.requests ≡ record_managed_allocation p.requests (d.instance_size * element_count))
  unfolding record_payload
  mvm_array_malloc_typed-mvm_array_length above p xs element_count k d v abi sized aligned lo hi
        count_fits size_fits fits nz room fresh =
      let bytes = d.instance_size * element_count in
      let (payload, r', e, placed) =
        allocate_system-Placed keys above malloc p.heap xs AllocationKind.array bytes element_count
          k (some d) v (omega arith) nz room fresh in
      let header = payload - header_size in
      let back : payload_address header ≡ payload = omega (arith, placed.from_block) in
      let count = mvm_array_length_lem r' (header ∷ xs) header placed.heap (ground arith) in
      let found =
        ap
          (λ (h : AllocationHeader).
            if is_array h.kind then done h.element_count else aborted wrong_kind)
          placed.written in
      let live : (payload == 0) ≡ false = ground (arith, placed.from_block) in
      (
        payload,
        record p { heap = r'; requests = record_managed_allocation p.requests bytes },
        array_malloc_stages p element_count k d abi sized aligned lo hi count_fits size_fits fits
            ∙ ground (arith, e, live),
        ap (mvm_array_length r') (sym back) ∙ count ∙ found,
        rw (sym back) placed.aligned,
        placed.heap,
        refl,
      )
