-- ===== src/Layout/Tests.antt =====
-- The descriptor of a struct of a number, a pointer, and an array of two pointers.
use lona_mvm.Prelude.{ℕ, ◌*◌, ◌≡◌, refl, ◌↔◌, true, some, [], ◌∷◌, has, length}
use lona_mvm.Prelude.Expected.{success}
use lona_mvm.Layout.{
  HeapType, pointer, array, structure, other_type, end, field, DataLayout, TypeDescriptor,
  create_descriptor, collect_pointer_offsets, each_element, sort, unique, descriptor_offsets,
}
use lona_mvm.Layout.Sorted.{StrictlyIncreasing}
use lona_mvm.Layout.Reached.{PointerAt, create_descriptor_lem}

-- Words only, except that the whole struct has 32 bytes.
abbrev words : DataLayout
words = record {
  is_sized = λ t. true;
  alloc_size = λ t. elim t [ structure fs ↦ some 32 | _ ↦ some 8 ];
  abi_align = λ t. 8;
  field_offset = λ fs index. 8 * index;
}

abbrev node : HeapType
node = structure (field other_type (field pointer (field (array pointer 2) end)))

node-offsets : descriptor_offsets words node ≡ 8 ∷ 16 ∷ 24 ∷ []
unfolding sort unique collect_pointer_offsets each_element
node-offsets = refl

create_descriptor_lem_example :
    (d : TypeDescriptor) × (create_descriptor words node ≡ success d)
    × (d.size ≡ 32)
    × (d.alignment ≡ 8)
    × (d.offset_count ≡ length d.offsets)
    × StrictlyIncreasing d.offsets
    × ((a : ℕ) → (has d.offsets a ≡ true) ↔ PointerAt words node 0 a)
create_descriptor_lem_example = create_descriptor_lem words node 32 refl refl
