-- ===== src/Memory/Mark.antt =====
-- runtime_memory.cc: the mark phase. `read` is the word of payload memory at an address. The back
-- of the worklist is the head of a list.
pub mod Search
pub mod Scan
pub mod Refine
pub mod Correct
pub mod Reachable
use lona_mvm.Prelude.{
  ℕ, zero, suc, ◌+◌, ◌-◌, ◌*◌, ◌%◌, true, not, ◌||◌, none, some, List, [], ◌∷◌, if◌then◌else◌, ltb,
  leb, ◌==◌,
}
use lona_mvm.Memory.Words.{word, allocation_magic, header_size}
use lona_mvm.Memory.Header.{GcTypeDescriptor, AllocationHeader, payload_address, is_array}
use lona_mvm.Memory.Registry.{Registry, Outcome, done, out_of_fuel, modify_header, DenseMapKeys}
use lona_mvm.Memory.Find.{find_owning_allocation}

abbrev pub Marking : Type 0
Marking = Registry × List ℕ

unfoldable pub mark_allocation : Marking → ℕ → Marking
mark_allocation (r, worklist) header = if (r.headers header).marked then (r, worklist) else (
  modify_header r header (λ h. record h { marked = true }),
  payload_address header ∷ worklist,
)

module _ (keys : DenseMapKeys) (read : ℕ → ℕ) where
  unfoldable pub mark_address : Marking → ℕ → Marking
  mark_address (r, worklist) address =
      if address == 0 then (r, worklist) else elim (find_owning_allocation keys r address) [
        | none ↦ (r, worklist)
        | some header ↦ mark_allocation (r, worklist) header
      ]

  -- The reference slots of one element, with the count of slots left.
  unfoldable pub scan_slots :
      GcTypeDescriptor → (element_base slot_index : ℕ) → ℕ → Marking → Marking
  scan_slots d base i zero m = m
  scan_slots d base i (suc n) m = elim d.reference_slot_offsets [
    | none ↦ m
    | some offsets ↦ scan_slots d base (i + 1) n (
        if ltb d.instance_size ((offsets i + 8) % word)
        then m
        else mark_address m (read ((base + offsets i) % word)))
  ]

  -- The elements of an allocation, with the count of elements left.
  unfoldable pub scan_elements :
      GcTypeDescriptor → (start element_index : ℕ) → ℕ → Marking → Marking
  scan_elements d start i zero m = m
  scan_elements d start i (suc n) m =
      scan_elements d start (i + 1) n
        (scan_slots d ((start + i * d.instance_size) % word) 0 d.reference_slot_count m)

  -- Every word of a payload without a usable descriptor; `fuel` bounds the rounds.
  unfoldable pub scan_words : ℕ → (start offset size : ℕ) → Marking → Marking
  scan_words zero start offset size m = m
  scan_words (suc fuel) start offset size m =
      let rest =
        scan_words fuel start ((offset + 8) % word) size
          (mark_address m (read ((start + offset) % word))) in
      if leb ((offset + 8) % word) size then rest else m

  unfoldable pub scan_conservatively : AllocationHeader → ℕ → Marking → Marking
  scan_conservatively h start m = scan_words h.payload_size start 0 h.payload_size m

  unfoldable pub scan_allocation_payload : AllocationHeader → ℕ → Marking → Marking
  scan_allocation_payload h start m = elim h.type_descriptor [
    | none ↦ scan_conservatively h start m
    | some d ↦
        if d.instance_size == 0
        then scan_conservatively h start m
        else scan_elements d start 0 (if is_array h.kind then h.element_count else 1) m
  ]

  -- The roots, with the count of roots that are not null.
  unfoldable pub mark_roots : List ℕ → ℕ → Marking → ℕ × Marking
  mark_roots [] count m = (count, m)
  mark_roots (root ∷ roots) count m =
      let (c, m') = (if root == 0 then (count, m) else (count + 1, mark_address m root)) in
      mark_roots roots c m'

  -- One round of the worklist loop, after `address` left its back.
  unfoldable pub scan_marked : Registry → ℕ → List ℕ → Marking
  scan_marked r address worklist =
      let h = r.headers (address - header_size) in
      if not h.live || not h.marked || not (h.magic == allocation_magic)
      then (r, worklist)
      else scan_allocation_payload h address (r, worklist)

  unfoldable pub drain : ℕ → Marking → Outcome Registry
  drain fuel (r, []) = done r
  drain zero (r, address ∷ worklist) = out_of_fuel
  drain (suc fuel) (r, address ∷ worklist) = drain fuel (scan_marked r address worklist)
