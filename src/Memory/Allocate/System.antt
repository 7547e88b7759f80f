-- ===== src/Memory/Allocate/System.antt =====
-- Allocation from system memory: what a successful call returns, and when it returns a null pointer.
use native.Mathlib.Nat.{one-le-pow, pow-le-pow_right}
use lona_mvm.Prelude.{
  ltb→lt, Bool-cases, inl, inr, ℕ, ◌+◌, ◌-◌, ◌%◌, ◌^◌, ◌≤◌, ◌<◌, ◌⊎◌, ◌≡◌, ◌≢◌, Option, List,
  if◌then◌else◌, ltb, ◌==◌, max, arith, ◌∙◌,
}
use lona_mvm.Memory.Words.{word, header_size}
use lona_mvm.Memory.Words.Laws.{low_eq, checked_add_lem}
use lona_mvm.Memory.Header.{AllocationKind, GcTypeDescriptor}
use lona_mvm.Memory.Registry.{Registry, done, DenseMapKeys}
use lona_mvm.Memory.Invariant.{HeapInv}
use lona_mvm.Memory.Allocate.{place_system_allocation, allocate_system_tracked_locked}
use lona_mvm.Memory.Allocate.Register.{AboveAddressPages}
use lona_mvm.Memory.Allocate.Place.{system_bytes, new_header, Fresh, Placed, place-Placed}

module _ (keys : DenseMapKeys) (malloc : ℕ → ℕ) where
  -- The checked sums are the size of the block, or fail.
  pub system_stages :
      (r : Registry) (kind : AllocationKind) (payload_size element_count k : ℕ)
      (descriptor : Option GcTypeDescriptor)
      → payload_size < word
      → k ≤ 64
      → allocate_system_tracked_locked keys malloc r kind payload_size element_count
          (2 ^ k)
          descriptor
        ≡ (if ltb (system_bytes payload_size k) word
            then (if malloc (system_bytes payload_size k) == 0
                then done (r, 0)
                else place_system_allocation keys malloc r
                    (malloc (system_bytes payload_size k))
                    kind
                    payload_size
                    element_count
                    (2 ^ k)
                    descriptor)
            else done (r, 0))
  unfolding allocate_system_tracked_locked
  system_stages r kind payload_size element_count k descriptor fit small =
      let lo = one-le-pow k 2 (omega arith) in
      let hi = pow-le-pow_right {n = 2} (omega arith) {i = k} {j = 64} small in
      let low : (2 ^ k + word - 1) % word ≡ 2 ^ k - 1 = low_eq (2 ^ k) lo hi in
      let first = checked_add_lem header_size (2 ^ k - 1) (omega arith) (omega arith) in
      let second = checked_add_lem (max payload_size 1) (header_size + (2 ^ k - 1)) (omega arith) in
      elim (Bool-cases (ltb (header_size + (2 ^ k - 1)) word)) [
        | inl fits ↦ ground (arith, low, first, second (omega (arith, ltb→lt _ _ fits)))
        | inr too_big ↦ ground (arith, low, first)
      ]

  -- Allocating from system memory with an alignment 2 ^ k: where malloc fails, or the size of the block
  -- does not fit in a word, the call returns a null pointer and leaves the state as it was.
  pub allocate_system-null :
      (r : Registry) (kind : AllocationKind) (payload_size element_count k : ℕ)
      (descriptor : Option GcTypeDescriptor)
      → payload_size < word
      → k ≤ 64
      → (word ≤ system_bytes payload_size k) ⊎ (malloc (system_bytes payload_size k) ≡ 0)
      → allocate_system_tracked_locked keys malloc r kind payload_size element_count
          (2 ^ k)
          descriptor
        ≡ done (r, 0)
  allocate_system-null r kind payload_size element_count k descriptor fit small failed =
      system_stages r kind payload_size element_count k descriptor fit small
      ∙ elim failed [ inl big ↦ ground arith | inr null ↦ ground arith ]

module _ (keys : DenseMapKeys) (above : AboveAddressPages keys) (malloc : ℕ → ℕ) where
  -- Allocating from system memory with an alignment 2 ^ k, in a heap that satisfies the invariant,
  -- where malloc returns a block that ends more than eight bytes before the end of the address space
  -- and holds no header of an active allocation, and where no address page is a reserved key: the
  -- call returns an aligned payload. Header and payload lie in the block, the header holds what the
  -- caller asked for, the other headers keep all but their links, and the heap with the new
  -- allocation in front satisfies the invariant.
  pub allocate_system-Placed :
      (r : Registry) (xs : List ℕ) (kind : AllocationKind) (payload_size element_count k : ℕ)
      (descriptor : Option GcTypeDescriptor)
      → HeapInv r xs
      → k ≤ 64
      → malloc (system_bytes payload_size k) ≢ 0
      → malloc (system_bytes payload_size k) + system_bytes payload_size k + 8 < word
      → Fresh xs (malloc (system_bytes payload_size k)) (system_bytes payload_size k)
      → (payload : ℕ) × (r' : Registry) × (allocate_system_tracked_locked keys malloc r kind
            payload_size element_count
            (2 ^ k)
            descriptor
          ≡ done (r', payload))
        × Placed r r' xs
            (malloc (system_bytes payload_size k))
            (system_bytes payload_size k)
            (2 ^ k)
            (payload - header_size)
            (max payload_size 1)
            (new_header kind payload_size element_count descriptor
              (malloc (system_bytes payload_size k)))
  allocate_system-Placed r xs kind payload_size element_count k descriptor v small nz fits fresh =
      let raw = malloc (system_bytes payload_size k) in
      let (r', e, placed, mapped) =
        place-Placed keys above malloc r xs v raw payload_size element_count k kind descriptor small
          nz fits fresh in
      (
        _,
        r',
        system_stages keys malloc r kind payload_size element_count k descriptor (omega arith) small
            ∙ ground arith
            ∙ e,
        placed,
      )
