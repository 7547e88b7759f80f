-- ===== src/Layout/Reached.antt =====
-- The offsets that are collected are those where a walk through the type comes to a pointer.
use lona_mvm.Prelude.{
  ℕ, zero, suc, ◌+◌, ◌*◌, ◌%◌, ◌<◌, ◌≡◌, refl, ◌↔◌, inl, inr, true, Option, none, some, List,
  length, ==_iff, ==_refl, has, has-append, arith, Bool-cases, subst, sym, ap, ap₂, ◌∙◌,
}
use mathlib.Core.Option.{some-injective}
use lona_mvm.Prelude.Expected.{success}
use lona_mvm.Memory.Words.{word}
use lona_mvm.Layout.{
  HeapType, pointer, array, structure, opaque, other_type, Fields, end, field, DataLayout,
  collect_elements, collect_pointer_offsets, collect_field_offsets, sort, TypeDescriptor,
  descriptor_of, fixed_descriptor, create_descriptor,
}
use lona_mvm.Layout.Sorted.{
  StrictlyIncreasing, sort-Increasing, unique-StrictlyIncreasing, has-sort, has-unique,
}
use lona_mvm.Layout.Elements.{renumber, has-each, each-has}

abbrev pub nth_field : Fields → ℕ → Option HeapType
nth_field end i = none
nth_field (field t fs) zero = some t
nth_field (field t fs) (suc i) = nth_field fs i

-- In a type at a base, there is a pointer at the address. Addresses are taken modulo 2 ^ 64.
pub data PointerAt (layout : DataLayout) : HeapType → (base address : ℕ) → Type 0 where
  itself : {base : ℕ} → PointerAt layout pointer base base
  element :
      {t : HeapType} {count base address : ℕ} (stride index : ℕ)
      → layout.alloc_size t ≡ some stride
      → index < count
      → PointerAt layout t ((base + index * stride) % word) address
      → PointerAt layout (array t count) base address
  member :
      {t : HeapType} {fs : Fields} {base address : ℕ} (index : ℕ)
      → nth_field fs index ≡ some t
      → PointerAt layout t ((base + layout.field_offset fs index) % word) address
      → PointerAt layout (structure fs) base address

module _ (layout : DataLayout) where
  has-field :
      (offset : ℕ → ℕ) (fs : Fields) (start base a index : ℕ) (t : HeapType)
      → nth_field fs index ≡ some t
      → has (collect_pointer_offsets layout t ((base + offset (start + index)) % word)) a ≡ true
      → has (collect_field_offsets layout offset fs start base) a ≡ true
  unfolding collect_pointer_offsets
  has-field offset end start base a index t e h = cc
  has-field offset (field u fs) start base a zero t e h =
      let same : u ≡ t = some-injective _ _ e in
      let start_again : start ≡ start + 0 = omega arith in
      let first =
        ap₂ (λ x k. has (collect_pointer_offsets layout x ((base + offset k) % word)) a) same
          start_again
        ∙ h in
      has-append (collect_pointer_offsets layout u ((base + offset start) % word))
        (collect_field_offsets layout offset fs (start + 1) base) a
      ∙ ground (arith, first)
  has-field offset (field u fs) start base a (suc index) t e h =
      let moved : start + 1 + index ≡ start + suc index = omega arith in
      let rest =
        has-field offset fs (start + 1) base a index t e (
          ap (λ k. has (collect_pointer_offsets layout t ((base + offset k) % word)) a) moved
          ∙ h) in
      has-append (collect_pointer_offsets layout u ((base + offset start) % word))
        (collect_field_offsets layout offset fs (start + 1) base) a
      ∙ ground (arith, rest)

  has-PointerAt :
      {t : HeapType} {base a : ℕ}
      → PointerAt layout t base a
      → has (collect_pointer_offsets layout t base) a ≡ true
  unfolding collect_pointer_offsets
  has-PointerAt {base = base} itself = ground (arith, ==_refl base)
  has-PointerAt {a = a} (element {t} {count} {base} stride index e lt p) =
      let collect : ℕ → List ℕ = λ b. collect_pointer_offsets layout t b in
      ap (λ o. has (collect_elements collect base count o) a) e
      ∙ has-each collect stride base count 0 a index lt
          (renumber collect stride base a (0 + index) index (omega arith) ∙ has-PointerAt p)
  has-PointerAt {a = a} (member {t} {fs} {base} index e p) =
      let from_zero : 0 + index ≡ index = omega arith in
      has-field (layout.field_offset fs) fs 0 base a index t e (
        ap
          (λ k. has (collect_pointer_offsets layout t ((base + layout.field_offset fs k) % word)) a)
          from_zero
        ∙ has-PointerAt p)

  elements-has :
      (t : HeapType) (base count a : ℕ) (size : Option ℕ)
      → layout.alloc_size t ≡ size
      → ((b : ℕ) → has (collect_pointer_offsets layout t b) a ≡ true → PointerAt layout t b a)
      → has (collect_elements (λ b. collect_pointer_offsets layout t b) base count size) a ≡ true
      → PointerAt layout (array t count) base a
  elements-has t base count a none e inner h = cc
  elements-has t base count a (some stride) e inner h =
      let collect : ℕ → List ℕ = λ b. collect_pointer_offsets layout t b in
      let (index, lt, found) = each-has collect stride base count 0 a h in
      element stride index e lt (
        inner ((base + index * stride) % word)
          (renumber collect stride base a index (0 + index) (omega arith) ∙ found))

  -- A field from `start` on that there is a pointer in.
  abbrev InField : (offset : ℕ → ℕ) → Fields → (start base a : ℕ) → Type 0
  InField offset fs start base a =
      (index : ℕ) × (t : HeapType) × (nth_field fs index ≡ some t)
      × PointerAt layout t ((base + offset (start + index)) % word) a

  shifted :
      (t : HeapType) (offset : ℕ → ℕ) (base a i j : ℕ)
      → i ≡ j
      → PointerAt layout t ((base + offset i) % word) a
      → PointerAt layout t ((base + offset j) % word) a
  shifted t offset base a i j e p = subst (λ k. PointerAt layout t ((base + offset k) % word) a) e p

  mutual
    unfolding collect_pointer_offsets

    collected-PointerAt :
        (t : HeapType) (base a : ℕ)
        → has (collect_pointer_offsets layout t base) a ≡ true
        → PointerAt layout t base a
    collected-PointerAt pointer base a h =
        subst (λ x. PointerAt layout pointer base x) ((==_iff base a).0 (ground arith)) itself
    collected-PointerAt (array t count) base a h =
        elements-has t base count a (layout.alloc_size t) refl (λ b. collected-PointerAt t b a) h
    collected-PointerAt (structure fs) base a h =
        let (index, t, e, p) = fields-PointerAt (layout.field_offset fs) fs 0 base a h in
        member index e (shifted t (layout.field_offset fs) base a (0 + index) index (omega arith) p)
    collected-PointerAt opaque base a h = cc
    collected-PointerAt other_type base a h = cc

    fields-PointerAt :
        (offset : ℕ → ℕ) (fs : Fields) (start base a : ℕ)
        → has (collect_field_offsets layout offset fs start base) a ≡ true
        → InField offset fs start base a
    fields-PointerAt offset end start base a h = cc
    fields-PointerAt offset (field t fs) start base a h =
        elim (Bool-cases
          (has (collect_pointer_offsets layout t ((base + offset start) % word)) a)) [
            | inl first ↦ (
              0,
              t,
              refl,
              shifted t offset base a start (start + 0) (omega arith)
                  (collected-PointerAt t ((base + offset start) % word) a first),
            )
            | inr later ↦
                let split =
                  has-append (collect_pointer_offsets layout t ((base + offset start) % word))
                    (collect_field_offsets layout offset fs (start + 1) base) a in
                let (index, u, e, p) =
                  fields-PointerAt offset fs (start + 1) base a (ground (arith, split)) in
                (
                  suc index,
                  u,
                  e,
                  shifted u offset base a (start + 1 + index) (start + suc index) (omega arith) p,
                )
          ]

  -- The descriptor of a type of fixed size lists, in strictly increasing order, exactly the offsets
  -- where a walk through the fields and elements of the type comes to a pointer, with their count,
  -- the size of the type and its alignment.
  pub create_descriptor_lem :
      (t : HeapType) (size : ℕ)
      → layout.is_sized t ≡ true
      → layout.alloc_size t ≡ some size
      → (d : TypeDescriptor) × (create_descriptor layout t ≡ success d)
        × (d.size ≡ size)
        × (d.alignment ≡ layout.abi_align t)
        × (d.offset_count ≡ length d.offsets)
        × StrictlyIncreasing d.offsets
        × ((a : ℕ) → (has d.offsets a ≡ true) ↔ PointerAt layout t 0 a)
  unfolding create_descriptor
  create_descriptor_lem t size sized fixed = (
    descriptor_of layout t size,
    rw sized (ap (fixed_descriptor layout t) fixed),
    refl,
    refl,
    refl,
    unique-StrictlyIncreasing _ (sort-Increasing (collect_pointer_offsets layout t 0)),
    λ a.
        let kept =
          has-unique a (sort (collect_pointer_offsets layout t 0))
          ∙ has-sort a (collect_pointer_offsets layout t 0) in
        ((λ h. collected-PointerAt t 0 a (sym kept ∙ h)), λ p. kept ∙ has-PointerAt p),
  )
