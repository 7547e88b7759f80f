-- ===== src/Memory/Allocate/Place.antt =====
-- Placing an allocation in a block from malloc: the header, the list of active allocations and the page maps.
use native.Mathlib.Nat.{mod-eq_of_lt}
use lona_mvm.Prelude.{
  Bool-cases, inl, inr, ℕ, ◌+◌, ◌-◌, ◌%◌, ◌^◌, ◌≤◌, ◌<◌, ◌⊎◌, ◌≡◌, ◌≢◌, refl, true, false, Option,
  List, ◌∷◌, ==_iff, ==_refl, max, has, arith, ap, ◌∙◌, sym, subst, ◌/◌,
}
use lona_mvm.Memory.Words.{word, header_size, align_up, allocation_magic}
use lona_mvm.Memory.Words.Laws.{align_up_bounds}
use lona_mvm.Memory.Header.{
  AllocationKind, AllocationStorageKind, AllocationHeader, GcTypeDescriptor, payload_address,
  is_slab,
}
use lona_mvm.Memory.Registry.{Registry, done, modify_header, DenseMapKeys}
use lona_mvm.Memory.Active.{link_active_allocation}
use lona_mvm.Memory.Invariant.{IsAllocated, HeapInv, data_of, occupies}
use lona_mvm.Memory.System.{register_system_allocation_pages}
use lona_mvm.Memory.Allocate.{initialize_header, place_system_allocation}
use lona_mvm.Memory.Allocate.Enter.{entered_data, entered_links, entered_kept, entered-HeapInv}
use lona_mvm.Memory.Allocate.Register.{AboveAddressPages, InBucket, register_lem}
use lona_mvm.Memory.Allocate.Mapped.{Mapped-add}
use lona_mvm.Memory.Find.Exact.{Mapped}

-- The bytes that malloc is asked for, and the header written for the block.
abbrev pub system_bytes : (payload_size k : ℕ) → ℕ
system_bytes payload_size k = max payload_size 1 + (header_size + (2 ^ k - 1))

abbrev pub new_header :
    AllocationKind
    → (payload_size element_count : ℕ) → Option GcTypeDescriptor
    → (storage_owner : ℕ) → AllocationHeader
new_header kind payload_size element_count descriptor owner = record {
  magic = allocation_magic;
  kind = kind;
  storage_kind = AllocationStorageKind.system;
  element_count = element_count;
  payload_size = max payload_size 1;
  type_descriptor = descriptor;
  storage_owner = owner;
  prev = 0;
  next = 0;
  marked = false;
  live = true;
}

-- No active allocation has its header in the block.
abbrev pub Fresh : List ℕ → (raw bytes : ℕ) → Type 0
Fresh xs raw bytes = (p : ℕ) → has xs p ≡ true → (p < raw) ⊎ (raw + bytes ≤ p)

-- The header and the payload of each active allocation lie outside of the block.
abbrev pub Outside : Registry → List ℕ → (raw bytes : ℕ) → Type 0
Outside r xs raw bytes =
    (p : ℕ) → has xs p ≡ true → (p + 80 + (r.headers p).payload_size ≤ raw) ⊎ (raw + bytes ≤ p)

-- After an allocation of `size` bytes from the block at `raw`, with its header at `header`.
pub record Placed (r r' : Registry) (xs : List ℕ) (raw bytes alignment header size : ℕ)
    (h : AllocationHeader) : Type 0 where
  pub heap : HeapInv r' (header ∷ xs)
  pub aligned : payload_address header % alignment ≡ 0
  pub from_block : raw ≤ header
  pub in_block : payload_address header + size ≤ raw + bytes
  pub written : data_of (r'.headers header) ≡ h
  pub kept : (q : ℕ) → q ≢ header → data_of (r'.headers q) ≡ data_of (r.headers q)

module _ (keys : DenseMapKeys) (above : AboveAddressPages keys) (malloc : ℕ → ℕ) where
  module _ (r : Registry) (xs : List ℕ) (v : HeapInv r xs) (raw payload_size element_count k : ℕ)
      (kind : AllocationKind) (descriptor : Option GcTypeDescriptor) (small : k ≤ 64) (nz : raw ≢ 0)
      (fits : raw + system_bytes payload_size k + 8 < word)
      (fresh : Fresh xs raw (system_bytes payload_size k)) where
    abbrev payload : ℕ
    payload = align_up ((raw + header_size) % word) (2 ^ k)

    abbrev header : ℕ
    header = payload - header_size

    abbrev filled : AllocationHeader
    filled = new_header kind payload_size element_count descriptor raw

    abbrev written : Registry
    written = modify_header r header (λ _. filled)

    payload_bounds :
        (raw + header_size ≤ payload)
        × (payload < raw + header_size + 2 ^ k)
        × (payload % 2 ^ k ≡ 0)
    payload_bounds =
        let start : (raw + header_size) % word ≡ raw + header_size = mod-eq_of_lt (omega arith) in
        rw start (align_up_bounds (raw + header_size) k small (omega arith))

    header_out : has xs header ≡ false
    header_out = elim (Bool-cases (has xs header)) [
      | inl old ↦ elim (fresh header old) [
        | inl below ↦ absurd (omega (arith, payload_bounds.0))
        | inr above_block ↦ absurd (omega (arith, payload_bounds.1))
      ]
      | inr new ↦ new
    ]

    written_others : (q : ℕ) → q ≢ header → written.headers q ≡ r.headers q
    written_others q ne = ground (arith, ==_iff header q)

    written_here : written.headers header ≡ filled
    written_here = ground (arith, ==_refl header)

    behind : payload_address header ≡ payload
    behind = omega (arith, payload_bounds.0)

    at_header : header ≢ 0
    at_header = omega (arith, payload_bounds.0)

    filled-IsAllocated : IsAllocated filled header
    filled-IsAllocated = record {
      in_use = refl;
      genuine = refl;
      fits = omega (arith, behind, payload_bounds.1);
    }

    registered :
        (buckets : ℕ → Option (List ℕ)) × (register_system_allocation_pages keys written header
          ≡ done (record written { system_headers_by_page = buckets }))
        × ((page q : ℕ) → InBucket r.system_headers_by_page page q → InBucket buckets page q)
        × ((a : ℕ)
            → payload_address header ≤ a
            → a < payload_address header + (written.headers header).payload_size
            → InBucket buckets (a / 2 ^ 12) header)
    registered =
        let size = ap (λ (h : AllocationHeader). h.payload_size) written_here in
        register_lem keys above written header (omega (arith, size))
          (omega (arith, size, behind, payload_bounds.1))

    abbrev linked : (ℕ → Option (List ℕ)) → Registry
    linked buckets =
        link_active_allocation (record written { system_headers_by_page = buckets }) header

    linked-Placed :
        (buckets : ℕ → Option (List ℕ))
        → Placed r
            (linked buckets)
            xs
            raw
            (system_bytes payload_size k)
            (2 ^ k)
            header
            (max payload_size 1)
            filled
    linked-Placed buckets =
        let t = record written { system_headers_by_page = buckets } in
        record {
          heap =
              entered-HeapInv r t xs v header at_header header_out refl written_others
                (subst (λ h. IsAllocated h header) (sym written_here) filled-IsAllocated)
                (λ page.
                  omega (arith, ap (λ (h : AllocationHeader). occupies h page) written_here));
          aligned = rw behind payload_bounds.2;
          from_block = omega (arith, payload_bounds.0);
          in_block = omega (arith, behind, payload_bounds.1);
          written =
              entered_data r t xs v header at_header header_out refl written_others header
              ∙ ap data_of written_here;
          kept = entered_kept r t xs v header at_header header_out refl written_others;
        }

    -- The blocks of the other allocations lie outside of the block.
    linked-Mapped :
        (buckets : ℕ → Option (List ℕ))
        → ((page q : ℕ) → InBucket r.system_headers_by_page page q → InBucket buckets page q)
        → ((a : ℕ)
            → payload_address header ≤ a
            → a < payload_address header + (written.headers header).payload_size
            → InBucket buckets (a / 2 ^ 12) header)
        → Mapped keys r xs
        → Outside r xs raw (system_bytes payload_size k)
        → Mapped keys (linked buckets) (header ∷ xs)
    linked-Mapped buckets kept new t outside =
        let u = record written { system_headers_by_page = buckets } in
        let (next, prev, e) =
          entered_links r u xs v header at_header header_out refl written_others in
        let filled_in =
          entered_data r u xs v header at_header header_out refl written_others header
          ∙ ap data_of written_here in
        let size : ((linked buckets).headers header).payload_size ≡ max payload_size 1 =
          ap (λ (h : AllocationHeader). h.payload_size) filled_in in
        let size_then : (written.headers header).payload_size ≡ max payload_size 1 =
          ap (λ (h : AllocationHeader). h.payload_size) written_here in
        let map : (linked buckets).system_headers_by_page ≡ buckets =
          ap (λ (s : Registry). s.system_headers_by_page) e in
        Mapped-add keys r (linked buckets) header xs t header_out
          (entered_kept r u xs v header at_header header_out refl written_others)
          (ap (λ (s : Registry). s.pages) e) (ap (λ (s : Registry). s.slab_classes) e)
          (ap (λ (s : Registry). s.slab_pages_by_address_page) e)
          (λ page q i. subst (λ b. InBucket b page q) (sym map) (kept page q i))
          (ap (λ (h : AllocationHeader). is_slab h.storage_kind) filled_in)
          (λ z. omega (arith, size))
          (λ a h.
            subst (λ b. InBucket b (a / 2 ^ 12) header) (sym map)
              (new a h.from_start (omega (arith, h.before_end, size, size_then))))
          (λ a h. (
            λ z. omega (arith, z, h.before_end, size, above.empty_above, payload_bounds.1, behind),
            λ z.
                omega
                  (arith, z, h.before_end, size, above.tombstone_above, payload_bounds.1, behind),
          ))
          (λ p active. elim (outside p active) [
            | inl before ↦ inl (omega (arith, payload_bounds.0))
            | inr after ↦ inr (omega (arith, payload_bounds.1, behind, size))
          ])

    pub place-Placed :
        (r' : Registry) × (place_system_allocation keys malloc r raw kind payload_size element_count
            (2 ^ k)
            descriptor
          ≡ done (r', payload))
        × Placed r r' xs raw
            (system_bytes payload_size k)
            (2 ^ k)
            header
            (max payload_size 1)
            filled
        × (Mapped keys r xs
            → Outside r xs raw (system_bytes payload_size k)
            → Mapped keys r' (header ∷ xs))
    unfolding place_system_allocation initialize_header
    place-Placed =
        let (buckets, e, kept, new) = registered in
        (linked buckets, rw e refl, linked-Placed buckets, linked-Mapped buckets kept new)
