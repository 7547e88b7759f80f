-- ===== src/Layout.antt =====
-- heap_layout.cc: the offsets of the pointers in a type, and the descriptor of the type. The sizes,
-- alignments and offsets of a data layout are LLVM's.
pub mod Elements
pub mod Reached
pub mod Sorted
mod Tests
use lona_mvm.Prelude.{
  ℕ, zero, suc, ◌+◌, ◌*◌, ◌%◌, Bool, true, false, Option, none, some, List, [], ◌∷◌, ◌++◌,
  if◌then◌else◌, leb, ◌==◌, length,
}
use lona_mvm.Prelude.Expected.{Expected, success, failure}
use lona_mvm.Memory.Words.{word}
use lona_mvm.Memory.Entry.{gc_type_descriptor_abi_version}

-- A type of LLVM; a struct that is opaque has no fields to visit. The types that the source does not
-- look into, vectors among them, are `other_type`.
mutual
  pub data HeapType : Type 0 where
    pointer : HeapType
    array : (element : HeapType) (count : ℕ) → HeapType
    structure : Fields → HeapType
    opaque : HeapType
    other_type : HeapType

  pub data Fields : Type 0 where
    end : Fields
    field : HeapType → Fields → Fields

-- What the data layout answers. A type that is scalable has no fixed size.
pub record DataLayout : Type 0 where
  pub is_sized : HeapType → Bool
  pub alloc_size : HeapType → Option ℕ
  pub abi_align : HeapType → ℕ
  pub field_offset : Fields → (index : ℕ) → ℕ

-- The loop over the elements of an array: `n` are left from `index` on.
unfoldable pub each_element : (collect : ℕ → List ℕ) (stride base n index : ℕ) → List ℕ
each_element collect stride base zero index = []
each_element collect stride base (suc n) index =
    collect ((base + index * stride) % word) ++ each_element collect stride base n (index + 1)

-- The elements of an array, if their size is fixed.
abbrev pub collect_elements :
    (collect : ℕ → List ℕ) (base count : ℕ) (element_size : Option ℕ) → List ℕ
collect_elements collect base count none = []
collect_elements collect base count (some stride) = each_element collect stride base count 0

module _ (layout : DataLayout) where
  unfoldable mutual
    pub collect_pointer_offsets : HeapType → (base_offset : ℕ) → List ℕ
    collect_pointer_offsets pointer base = base ∷ []
    collect_pointer_offsets (array element count) base =
        collect_elements (λ b. collect_pointer_offsets element b) base count
          (layout.alloc_size element)
    collect_pointer_offsets (structure fs) base =
        collect_field_offsets (layout.field_offset fs) fs 0 base
    collect_pointer_offsets opaque base = []
    collect_pointer_offsets other_type base = []

    -- The loop over the fields of a struct, from `index` on.
    pub collect_field_offsets : (offset : ℕ → ℕ) → Fields → (index base_offset : ℕ) → List ℕ
    collect_field_offsets offset end index base = []
    collect_field_offsets offset (field t fs) index base =
        collect_pointer_offsets t ((base + offset index) % word)
        ++ collect_field_offsets offset fs (index + 1) base

-- std::sort
abbrev pub insert_sorted : ℕ → List ℕ → List ℕ
insert_sorted a [] = a ∷ []
insert_sorted a (x ∷ xs) = if leb a x then a ∷ x ∷ xs else x ∷ insert_sorted a xs

unfoldable pub sort : List ℕ → List ℕ
sort [] = []
sort (x ∷ xs) = insert_sorted x (sort xs)

-- std::unique, with the erasure of what it leaves at the end
unfoldable pub unique : List ℕ → List ℕ
unique [] = []
unique (x ∷ []) = x ∷ []
unique (x ∷ y ∷ xs) = let rest = unique (y ∷ xs) in if x == y then rest else x ∷ rest

-- The fields of a descriptor, with the offsets that it points to.
pub record TypeDescriptor : Type 0 where
  pub abi_version : ℕ
  pub size : ℕ
  pub alignment : ℕ
  pub offset_count : ℕ
  pub offsets : List ℕ

pub data LayoutError : Type 0 where
  unsized_type scalable_type : LayoutError

abbrev pub descriptor_offsets : DataLayout → HeapType → List ℕ
descriptor_offsets layout t = unique (sort (collect_pointer_offsets layout t 0))

abbrev pub descriptor_of : DataLayout → HeapType → (size : ℕ) → TypeDescriptor
descriptor_of layout t size = record {
  abi_version = gc_type_descriptor_abi_version;
  size = size;
  alignment = layout.abi_align t;
  offset_count = length (descriptor_offsets layout t);
  offsets = descriptor_offsets layout t;
}

abbrev pub fixed_descriptor :
    DataLayout → HeapType → (size : Option ℕ) → Expected LayoutError TypeDescriptor
fixed_descriptor layout t none = failure scalable_type
fixed_descriptor layout t (some size) = success (descriptor_of layout t size)

-- A descriptor for a type that has none yet.
unfoldable pub create_descriptor : DataLayout → HeapType → Expected LayoutError TypeDescriptor
create_descriptor layout t =
    if layout.is_sized t
    then fixed_descriptor layout t (layout.alloc_size t)
    else failure unsized_type
