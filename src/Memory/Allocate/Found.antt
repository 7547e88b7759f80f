-- ===== src/Memory/Allocate/Found.antt =====
-- A payload from system memory is found again by its addresses.
use lona_mvm.Prelude.{
  ℕ, ◌+◌, ◌-◌, ◌^◌, ◌≤◌, ◌<◌, ◌≡◌, ◌≢◌, inl, inr, Option, some, List, ◌∷◌, max, has_self, arith, ap,
  ◌∙◌,
}
use lona_mvm.Memory.Words.{word}
use lona_mvm.Memory.Header.{AllocationKind, AllocationHeader, GcTypeDescriptor}
use lona_mvm.Memory.Registry.{Registry, done, DenseMapKeys}
use lona_mvm.Memory.Invariant.{HeapInv}
use lona_mvm.Memory.Find.{find_owning_allocation}
use lona_mvm.Memory.Find.Exact.{Mapped, find_owning_allocation_lem}
use lona_mvm.Memory.Allocate.{allocate_system_tracked_locked}
use lona_mvm.Memory.Allocate.Register.{AboveAddressPages}
use lona_mvm.Memory.Allocate.Place.{system_bytes, Outside, Fresh, place-Placed}
use lona_mvm.Memory.Allocate.System.{system_stages}

module _ (keys : DenseMapKeys) (above : AboveAddressPages keys) (malloc : ℕ → ℕ) where
  -- Allocating from system memory with an alignment 2 ^ k, in a heap that satisfies the invariant and
  -- whose page maps lead to the active allocations, where malloc returns a block that ends more than
  -- eight bytes before the end of the address space and lies apart from the headers and payloads of
  -- the active allocations, and where no address page is a reserved key: the call returns a payload,
  -- the page maps lead to the active allocations with the new one in front, and looking up any
  -- address of the payload finds the new allocation.
  pub allocate_system-found :
      (r : Registry) (xs : List ℕ) (kind : AllocationKind) (payload_size element_count k : ℕ)
      (descriptor : Option GcTypeDescriptor)
      → HeapInv r xs
      → Mapped keys r xs
      → k ≤ 64
      → malloc (system_bytes payload_size k) ≢ 0
      → malloc (system_bytes payload_size k) + system_bytes payload_size k + 8 < word
      → Outside r xs (malloc (system_bytes payload_size k)) (system_bytes payload_size k)
      → (payload : ℕ) × (r' : Registry) × (allocate_system_tracked_locked keys malloc r kind
            payload_size element_count
            (2 ^ k)
            descriptor
          ≡ done (r', payload))
        × Mapped keys r' ((payload - 80) ∷ xs)
        × ((a : ℕ)
            → payload ≤ a
            → a < payload + max payload_size 1
            → find_owning_allocation keys r' a ≡ some (payload - 80))
  allocate_system-found r xs kind payload_size element_count k descriptor v t small nz fits
        outside =
      let raw = malloc (system_bytes payload_size k) in
      let fresh : Fresh xs raw (system_bytes payload_size k) =
        λ p h. elim (outside p h) [ inl before ↦ inl (omega arith) | inr after ↦ inr after ] in
      let (r', e, placed, mapped) =
        place-Placed keys above malloc r xs v raw payload_size element_count k kind descriptor small
          nz fits fresh in
      let u = mapped t outside in
      let size = ap (λ (h : AllocationHeader). h.payload_size) placed.written in
      let from_block = placed.from_block in
      (
        _,
        r',
        system_stages keys malloc r kind payload_size element_count k descriptor (omega arith) small
            ∙ ground arith
            ∙ e,
        u,
        λ a lo hi.
            (find_owning_allocation_lem keys r' _ placed.heap u a _).1 (
              has_self _ xs,
              record { from_start = omega arith; before_end = omega (arith, size) },
            ),
      )
