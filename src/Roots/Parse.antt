-- ===== src/Roots/Parse.antt =====
-- gc.cc: readStackMapConstant, parseRootLocation, parseRootPairs.
pub mod Laws
use lona_mvm.Prelude.{
  ℕ, zero, suc, ◌+◌, ◌-◌, ◌%◌, ◌^◌, Bool, true, false, Option, none, some, List, [], ◌∷◌,
  if◌then◌else◌, ltb, ◌==◌, not, length,
}
use lona_mvm.Prelude.Expected.{Expected, success, failure, ◌>>=◌}
use lona_mvm.Roots.{LocationKind, Location, RootKind, GcRootLocation, GcRootLocationPair, ScanError}
use lona_mvm.Roots.ScanError.{
  constant_index_out_of_range, not_a_constant, missing_prefix, prefix_not_constant,
  odd_root_locations,
}

abbrev pub get_elem? {ℓ} : {A : Type ℓ} → List A → ℕ → Option A
get_elem? [] i = none
get_elem? (x ∷ xs) zero = some x
get_elem? (x ∷ xs) (suc i) = get_elem? xs i

-- constants[index], with the test that it is there.
unfoldable pub read_constant : List ℕ → ℕ → Expected ScanError ℕ
read_constant constants index = elim (get_elem? constants index) [
  | none ↦ failure (constant_index_out_of_range index)
  | some value ↦ success value
]

unfoldable pub read_stack_map_constant : Location → List ℕ → Expected ScanError ℕ
unfolding read_constant
read_stack_map_constant l constants = elim l.kind [
  | LocationKind.constant ↦ success l.small_constant
  | LocationKind.constant_index ↦ read_constant constants l.constant_index
  | _ ↦ failure not_a_constant
]

-- `parsed` before the switch on the kind.
abbrev pub sized_location : Location → RootKind → (offset : ℕ) → GcRootLocation
sized_location l kind offset = record {
  kind = kind;
  dwarf_register = l.dwarf_reg_num;
  offset = offset;
  size = l.size_in_bytes % 2 ^ 16;
  constant = 0;
}

abbrev pub constant_location : Location → ℕ → GcRootLocation
constant_location l value = record {
  kind = RootKind.constant;
  dwarf_register = 0;
  offset = 0;
  size = l.size_in_bytes % 2 ^ 16;
  constant = value;
}

unfoldable pub parse_root_location : Location → List ℕ → Expected ScanError GcRootLocation
parse_root_location l constants =
    let as_constant =
      read_stack_map_constant l constants >>= λ value. success (constant_location l value) in
    elim l.kind [
      | LocationKind.register ↦ success (sized_location l RootKind.register 0)
      | LocationKind.direct ↦ success (sized_location l RootKind.direct l.offset)
      | LocationKind.indirect ↦ success (sized_location l RootKind.indirect l.offset)
      | LocationKind.constant ↦ as_constant
      | LocationKind.constant_index ↦ as_constant
    ]

abbrev pub is_constant_kind : LocationKind → Bool
is_constant_kind LocationKind.constant = true
is_constant_kind LocationKind.constant_index = true
is_constant_kind _ = false

-- The first `count` locations, from `index` on, have to be constants; what follows them is returned.
unfoldable pub skip_prefix : (count index : ℕ) → List Location → Expected ScanError (List Location)
skip_prefix zero index ls = success ls
skip_prefix (suc n) index [] = failure missing_prefix
skip_prefix (suc n) index (l ∷ ls) =
    if is_constant_kind l.kind
    then skip_prefix n (index + 1) ls
    else failure (prefix_not_constant index)

-- The locations in twos.
unfoldable pub parse_pairs : List Location → List ℕ → Expected ScanError (List GcRootLocationPair)
parse_pairs [] constants = success []
parse_pairs (l ∷ []) constants = failure odd_root_locations
parse_pairs (b ∷ d ∷ ls) constants = do
  base ← parse_root_location b constants
  derived ← parse_root_location d constants
  pairs ← parse_pairs ls constants
  success (record { base = base; derived = derived } ∷ pairs)

abbrev pub statepoint_prefix_location_count : ℕ
statepoint_prefix_location_count = 3

unfoldable pub parse_root_pairs :
    List Location → List ℕ → Expected ScanError (List GcRootLocationPair)
parse_root_pairs locations constants =
    if ltb (length locations) statepoint_prefix_location_count then failure missing_prefix else do
      roots ← skip_prefix statepoint_prefix_location_count 0 locations
      if (length locations - statepoint_prefix_location_count) % 2 == 0
          then parse_pairs roots constants
          else failure odd_root_locations
