-- ===== src/Memory/Mark/Scan.antt =====
-- Which words of a payload the collector reads, as a list: the scanning loops mark exactly those.
use lona_mvm.Prelude.{
  ℕ, zero, suc, ◌+◌, ◌-◌, ◌*◌, ◌/◌, ◌%◌, ◌≤◌, ◌<◌, ◌≡◌, refl, List, [], ◌∷◌, ◌++◌, map,
  if◌then◌else◌, ltb, ◌==◌, arith, none, some, ◌∙◌, le→leb, Option-cases, inl, inr,
}
use mathlib.Core.List.{map-append}
use native.Mathlib.Nat.{mod-eq_of_lt}
use lona_mvm.Memory.Words.{word}
use lona_mvm.Memory.Header.{GcTypeDescriptor, AllocationHeader, is_array}
use lona_mvm.Memory.Registry.{DenseMapKeys}
use lona_mvm.Memory.Mark.{
  Marking, mark_address, scan_slots, scan_elements, scan_words, scan_conservatively,
  scan_allocation_payload,
}

-- The addresses of the reference slots i, i + 1, … of an element; a slot that would leave the
-- element is passed over, and a descriptor with no offsets has none.
unfoldable pub slots_of_element : GcTypeDescriptor → (base i count : ℕ) → List ℕ
slots_of_element d base i zero = []
slots_of_element d base i (suc n) = elim d.reference_slot_offsets [
  | none ↦ []
  | some offsets ↦
      let rest = slots_of_element d base (i + 1) n in
      if ltb d.instance_size ((offsets i + 8) % word)
      then rest
      else (base + offsets i) % word ∷ rest
]

unfoldable pub slots_of_elements : GcTypeDescriptor → (start i count : ℕ) → List ℕ
slots_of_elements d start i zero = []
slots_of_elements d start i (suc n) =
    slots_of_element d ((start + i * d.instance_size) % word) 0 d.reference_slot_count
    ++ slots_of_elements d start (i + 1) n

-- Consecutive words.
unfoldable pub words_from : (address count : ℕ) → List ℕ
words_from address zero = []
words_from address (suc n) = address ∷ words_from (address + 8) n

-- A header with a usable descriptor has the slots of its elements, any other one all its words.
unfoldable pub payload_slots : AllocationHeader → ℕ → List ℕ
payload_slots h start = elim h.type_descriptor [
  | none ↦ words_from start (h.payload_size / 8)
  | some d ↦
      if d.instance_size == 0
      then words_from start (h.payload_size / 8)
      else slots_of_elements d start 0 (if is_array h.kind then h.element_count else 1)
]

module _ (keys : DenseMapKeys) (read : ℕ → ℕ) where
  unfoldable pub mark_addresses : Marking → List ℕ → Marking
  mark_addresses m [] = m
  mark_addresses m (a ∷ rest) = mark_addresses (mark_address keys read m a) rest

  mark_addresses-append :
      (m : Marking) (xs ys : List ℕ)
      → mark_addresses m (xs ++ ys) ≡ mark_addresses (mark_addresses m xs) ys
  unfolding mark_addresses
  mark_addresses-append m [] ys = refl
  mark_addresses-append m (x ∷ xs) ys = mark_addresses-append (mark_address keys read m x) xs ys

  scan_slots_lem :
      (d : GcTypeDescriptor) (base i n : ℕ) (m : Marking)
      → scan_slots keys read d base i n m
        ≡ mark_addresses m (map read (slots_of_element d base i n))
  unfolding scan_slots slots_of_element mark_addresses
  scan_slots_lem d base i zero m = refl
  scan_slots_lem d base i (suc n) m = elim (Option-cases d.reference_slot_offsets) [
    | inl absent ↦ ground arith
    | inr (offsets, e) ↦
        let slot = read ((base + offsets i) % word) in
        ground (
          arith,
          scan_slots_lem d base (i + 1) n m,
          scan_slots_lem d base (i + 1) n (mark_address keys read m slot),
        )
  ]

  scan_elements_lem :
      (d : GcTypeDescriptor) (start i n : ℕ) (m : Marking)
      → scan_elements keys read d start i n m
        ≡ mark_addresses m (map read (slots_of_elements d start i n))
  unfolding scan_elements slots_of_elements
  scan_elements_lem d start i zero m = unfold mark_addresses in refl
  scan_elements_lem d start i (suc n) m =
      let base = (start + i * d.instance_size) % word in
      let slots = slots_of_element d base 0 d.reference_slot_count in
      rw (
        scan_slots_lem d base 0 d.reference_slot_count m,
        scan_elements_lem d start (i + 1) n (mark_addresses m (map read slots)),
        map-append,
        mark_addresses-append m (map read slots),
      )

  -- From a word boundary of a payload that does not come near the end of the address space.
  scan_words_lem :
      (fuel start offset size k : ℕ) (m : Marking)
      → (size - offset) / 8 ≡ k
      → k ≤ fuel
      → offset ≤ size
      → size + 8 < word
      → start + size < word
      → scan_words keys read fuel start offset size m
        ≡ mark_addresses m (map read (words_from (start + offset) k))
  unfolding scan_words words_from mark_addresses
  scan_words_lem zero start offset size zero m e f o s w = refl
  scan_words_lem zero start offset size (suc k) m e f o s w = absurd (omega arith)
  scan_words_lem (suc fuel) start offset size zero m e f o s w = ground arith
  scan_words_lem (suc fuel) start offset size (suc k) m e f o s w =
      let next : (offset + 8) % word ≡ offset + 8 = mod-eq_of_lt (omega arith) in
      let here : (start + offset) % word ≡ start + offset = mod-eq_of_lt (omega arith) in
      let onward : start + (offset + 8) ≡ start + offset + 8 = omega arith in
      let ih =
        scan_words_lem fuel start (offset + 8) size k
          (mark_address keys read m (read (start + offset))) (omega arith) (omega arith)
          (omega arith) s w in
      rw (next, here, le→leb (offset + 8) size (omega arith)) (ih ∙ rw onward)

  scan_conservatively_lem :
      (h : AllocationHeader) (start : ℕ) (m : Marking)
      → start + h.payload_size + 8 < word
      → scan_conservatively keys read h start m
        ≡ mark_addresses m (map read (words_from start (h.payload_size / 8)))
  unfolding scan_conservatively
  scan_conservatively_lem h start m w =
      let from : start + 0 ≡ start = omega arith in
      scan_words_lem h.payload_size start 0 h.payload_size (h.payload_size / 8) m (omega arith)
        (omega arith) (omega arith) (omega arith) (omega arith)
      ∙ rw from

  -- For a payload that ends more than eight bytes before the end of the address space, scanning it
  -- marks from the words in its slots, in order, and from nothing else.
  pub scan-payload_slots :
      (h : AllocationHeader) (start : ℕ) (m : Marking)
      → start + h.payload_size + 8 < word
      → scan_allocation_payload keys read h start m
        ≡ mark_addresses m (map read (payload_slots h start))
  unfolding scan_allocation_payload payload_slots
  scan-payload_slots h start m w = elim (Option-cases h.type_descriptor) [
    | inl absent ↦ ground (arith, scan_conservatively_lem h start m w)
    | inr (d, e) ↦ ground (
      arith,
      scan_conservatively_lem h start m w,
      scan_elements_lem d start 0 h.element_count m,
      scan_elements_lem d start 0 1 m,
    )
  ]
