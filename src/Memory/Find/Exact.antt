-- ===== src/Memory/Find/Exact.antt =====
-- Looking an address up, against a description that knows no page map and no slab class: the allocation that is found
-- is the active one whose payload has the address. The page maps have to lead to the active allocations.
use native.Mathlib.Nat.{div-eq_of_lt-le}
use lona_mvm.Prelude.{
  ℕ, ◌+◌, ◌-◌, ◌*◌, ◌/◌, ◌%◌, ◌^◌, ◌≤◌, ◌<◌, ◌≡◌, ◌≢◌, ◌↔◌, refl, true, false, ◌&&◌, List, [], ◌∷◌,
  some, arith, Option-cases, Bool-cases, inl, inr, ap, sym, ◌∙◌, has, ==_iff,
}
use lona_mvm.Memory.Words.{word, allocation_page_for_address, allocation_last_address}
use lona_mvm.Memory.Header.{is_slab, payload_address}
use lona_mvm.Memory.Registry.{Registry, DenseMapKeys, is_reserved_dense_map_key}
use lona_mvm.Memory.Slab.{class_of, slab_header_at}
use lona_mvm.Memory.Invariant.{HeapInv, IsAllocated}
use lona_mvm.Memory.Find.{
  payload_contains, find_owning_allocation, find_system_allocation, find_in_bucket,
  find_owning_slab_allocation,
}
use lona_mvm.Memory.Find.Laws.{find-Owns}

-- The address is one of the bytes of the payload, which starts behind the 80 bytes of the header.
pub record Holds (r : Registry) (header address : ℕ) : Type 0 where
  pub from_start : header + 80 ≤ address
  pub before_end : address < header + 80 + (r.headers header).payload_size

-- The header stands in a slot of its slab page, and its payload ends in this slot.
pub record InSlot (r : Registry) (page header slot : ℕ) : Type 0 where
  pub slot_exists : slot < (class_of r page).slots_per_page
  pub at_slot :
      header
      ≡ (r.pages page).page_start
        + slot * (class_of r page).slot_stride
        + (class_of r page).header_offset
  pub in_slot :
      (class_of r page).header_offset + 80 + (r.headers header).payload_size
      ≤ (class_of r page).slot_stride

-- The page maps lead from the address pages of each active payload, of 4096 bytes each, to the
-- allocation: those of system memory by a bucket that has the header, those of slabs by their slab
-- page. No two payloads have a byte in common, and no page is a key that the maps reserve.
pub record Mapped (keys : DenseMapKeys) (r : Registry) (xs : List ℕ) : Type 0 where
  pub apart : (p q a : ℕ) → has xs p ≡ true → has xs q ≡ true → Holds r p a → Holds r q a → p ≡ q
  pub sized : (p : ℕ) → has xs p ≡ true → (r.headers p).payload_size ≢ 0
  pub unreserved :
      (p a : ℕ)
      → has xs p ≡ true
      → Holds r p a
      → (a / 2 ^ 12 ≢ keys.empty_key) × (a / 2 ^ 12 ≢ keys.tombstone_key)
  pub in_buckets :
      (p a : ℕ)
      → has xs p ≡ true
      → is_slab (r.headers p).storage_kind ≡ false
      → Holds r p a
      → (bucket : List ℕ) × (r.system_headers_by_page (a / 2 ^ 12) ≡ some bucket)
        × (has bucket p ≡ true)
  pub on_pages :
      (p a : ℕ)
      → has xs p ≡ true
      → is_slab (r.headers p).storage_kind ≡ true
      → Holds r p a
      → r.slab_pages_by_address_page (a / 2 ^ 12) ≡ some (r.headers p).storage_owner
  pub in_slots :
      (p : ℕ)
      → has xs p ≡ true
      → is_slab (r.headers p).storage_kind ≡ true
      → (slot : ℕ) × InSlot r (r.headers p).storage_owner p slot

-- The test of the code, for a header of the heap.
module _ (r : Registry) (p a : ℕ) (ok : IsAllocated (r.headers p) p)
    (sized : (r.headers p).payload_size ≢ 0) where
  last_address :
      allocation_last_address (payload_address p) (r.headers p).payload_size
      ≡ p + 80 + ((r.headers p).payload_size - 1)
  unfolding allocation_last_address
  last_address =
      let fits = ok.fits in
      let offset : ((r.headers p).payload_size + word - 1) % word ≡ (r.headers p).payload_size - 1 =
        omega arith in
      ground (arith, offset)

  contains_iff : (payload_contains r p a ≡ true) ↔ Holds r p a
  unfolding payload_contains
  contains_iff = (
    λ h. record {
      from_start = ground (arith, last_address);
      before_end = ground (arith, last_address);
    },
    λ h. ground (arith, last_address, h.from_start, h.before_end),
  )

-- A bucket with a live header that holds the address has an answer.
find_in_bucket-some :
    (r : Registry) (p a : ℕ) (bucket : List ℕ)
    → (r.headers p).live ≡ true
    → payload_contains r p a ≡ true
    → has bucket p ≡ true
    → (q : ℕ) × (find_in_bucket r a bucket ≡ some q)
unfolding find_in_bucket
find_in_bucket-some r p a [] live holds h = cc
find_in_bucket-some r p a (x ∷ rest) live holds h =
    elim (Bool-cases ((r.headers x).live && payload_contains r x a)) [
      | inl hit ↦ (x, rw hit refl)
      | inr miss ↦
          let (q, e) =
            find_in_bucket-some r p a rest live holds
              (ground (arith, ==_iff x p, ap r.headers, ap (λ (k : ℕ). payload_contains r k a))) in
          (q, rw miss e)
    ]

-- The slot that the code computes from an address of a slot.
slot_of :
    (start stride slot inside : ℕ)
    → inside < stride
    → start + slot * stride + inside < word
    → (start + slot * stride + inside + word - start) % word / stride ≡ slot
slot_of start stride slot inside h w =
    let offset : (start + slot * stride + inside + word - start) % word ≡ slot * stride + inside =
      omega arith in
    rw offset (div-eq_of_lt-le {k = slot} stride (omega arith) (omega arith))

module _ (keys : DenseMapKeys) (r : Registry) (xs : List ℕ) (v : HeapInv r xs)
    (t : Mapped keys r xs) (p a : ℕ) (active : has xs p ≡ true) (h : Holds r p a) where
  contains : payload_contains r p a ≡ true
  contains = (contains_iff r p a (v.allocated p active) (t.sized p active)).1 h

  abbrev owner : ℕ
  owner = (r.headers p).storage_owner

  -- The slot of a slab allocation is found again.
  found_on_page :
      is_slab (r.headers p).storage_kind ≡ true → find_owning_slab_allocation r a owner ≡ some p
  unfolding find_owning_slab_allocation slab_header_at
  found_on_page slab =
      let (slot, s) = t.in_slots p active slab in
      let c = class_of r owner in
      let start = (r.pages owner).page_start in
      let at = s.at_slot in
      let fits = (v.allocated p active).fits in
      let inside = a - (start + slot * c.slot_stride) in
      let same : a ≡ start + slot * c.slot_stride + inside = omega (arith, h.from_start) in
      let found : (a + word - start) % word / c.slot_stride ≡ slot =
        ap (λ k. (k + word - start) % word / c.slot_stride) same
        ∙ slot_of start c.slot_stride slot inside
            (omega (arith, h.from_start, h.before_end, s.in_slot))
            (omega (arith, h.from_start, h.before_end)) in
      let ok = v.allocated p active in
      rw (find_owning_slab_allocation, found)
        (rw (slab_header_at, sym at)
          (ground (arith, ok.in_use, ok.genuine, slab, contains, s.slot_exists)))

  found_in_bucket :
      is_slab (r.headers p).storage_kind ≡ false → (q : ℕ) × (find_system_allocation r a ≡ some q)
  unfolding find_system_allocation allocation_page_for_address
  found_in_bucket system =
      let (bucket, e, inside) = t.in_buckets p a active system h in
      let (q, found) =
        find_in_bucket-some r p a bucket ((v.allocated p active).in_use) contains inside in
      (q, rw (find_system_allocation, e) found)

  -- An address of an active payload has an answer.
  found : (q : ℕ) × (find_owning_allocation keys r a ≡ some q)
  unfolding find_owning_allocation allocation_page_for_address
  found =
      let (empty, tombstone) = t.unreserved p a active h in
      let open_key : is_reserved_dense_map_key keys (a / 2 ^ 12) ≡ false = ground arith in
      elim (Bool-cases (is_slab (r.headers p).storage_kind)) [
        | inl slab ↦ (
          p,
          rw (find_owning_allocation, open_key, t.on_pages p a active slab h, found_on_page slab)
              refl,
        )
        | inr system ↦
            let (q, e) = found_in_bucket system in
            elim (Option-cases (r.slab_pages_by_address_page (a / 2 ^ 12))) [
              | inl missing ↦ (q, rw (find_owning_allocation, open_key, missing) e)
              | inr (page, mapped) ↦ elim (Option-cases (find_owning_slab_allocation r a page)) [
                | inl none_here ↦ (q, rw (find_owning_allocation, open_key, mapped, none_here) e)
                | inr (k, hit) ↦ (k, rw (find_owning_allocation, open_key, mapped, hit) refl)
              ]
            ]
      ]

-- In a heap that satisfies the invariant and whose page maps lead to the active allocations, looking
-- an address up finds an allocation exactly if it is active and the address is one of the bytes of
-- its payload.
pub find_owning_allocation_lem :
    (keys : DenseMapKeys) (r : Registry) (xs : List ℕ)
    → HeapInv r xs
    → Mapped keys r xs
    → (address header : ℕ)
    → (find_owning_allocation keys r address ≡ some header)
      ↔ ((has xs header ≡ true) × Holds r header address)
find_owning_allocation_lem keys r xs v t a p = (sound p, complete)
  where
    sound : (q : ℕ) → find_owning_allocation keys r a ≡ some q → (has xs q ≡ true) × Holds r q a
    sound q e =
        let o = find-Owns keys r a q e in
        let active = v.tracked q o.in_use in
        (active, (contains_iff r q a (v.allocated q active) (t.sized q active)).0 o.holds)

    complete : (has xs p ≡ true) × Holds r p a → find_owning_allocation keys r a ≡ some p
    complete (active, h) =
        let (q, e) = found keys r xs v t p a active h in
        let (other, holds) = sound q e in e ∙ ap some (t.apart q p a other active holds h)
