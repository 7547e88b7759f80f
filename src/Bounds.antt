-- ===== src/Bounds.antt =====
-- bounds_instrumentation.cc: the test that is inserted before a GEP, and the recognition of managed
-- arrays that it needs. An instruction is its address, with what LLVM answers about it.
pub mod Base
pub mod Checked
pub mod Trap
pub mod Signed
mod Tests
use lona_mvm.Prelude.{
  ℕ, Bool, true, false, ◌-◌, ◌&&◌, Option, none, some, List, [], ◌∷◌, if◌then◌else◌, ltb, ◌==◌,
}
use lona_mvm.Bounds.Base.{Body, is_managed_array_base}

-- An operand that is an index: an integer constant, an integer that is known when the code runs, or
-- what is no integer, as a vector of integers.
pub data IndexValue : Type 0 where
  constant_int : (bits value : ℕ) → IndexValue
  run_time : (bits address : ℕ) → IndexValue
  not_integer : (address : ℕ) → IndexValue

-- A type that a GEP walks through.
mutual
  pub data GepType : Type 0 where
    structure : Elements → GepType
    array : (count : ℕ) (element : GepType) → GepType
    vector : (element : GepType) → GepType
    other_type : GepType

  pub data Elements : Type 0 where
    end : Elements
    element : GepType → Elements → Elements

pub record StaticCheckPlan : Type 0 where
  pub index : IndexValue
  pub length : ℕ

pub record GepInstruction : Type 0 where
  pub pointer_operand : ℕ
  pub source_element_type : GepType
  pub indices : List IndexValue

-- getNumElements and getElementType of a struct; none where the number is not below that of the
-- elements.
abbrev pub get_element_type : Elements → ℕ → Option GepType
get_element_type end field = none
get_element_type (element t ts) field =
    if field == 0 then some t else get_element_type ts (field - 1)

abbrev pub struct_step : Elements → IndexValue → Option GepType
struct_step ts (IndexValue.constant_int bits value) = get_element_type ts value
struct_step ts _ = none

-- The loop over the indices that walk through the source aggregate.
unfoldable pub walk_indices : GepType → List IndexValue → List StaticCheckPlan
walk_indices t [] = []
walk_indices (structure ts) (index ∷ rest) = elim (struct_step ts index) [
  | none ↦ []
  | some t ↦ walk_indices t rest
]
walk_indices (array count t) (index ∷ rest) =
    record { index = index; length = count } ∷ walk_indices t rest
walk_indices (vector t) (index ∷ rest) = walk_indices t rest
walk_indices other_type (index ∷ rest) = []

abbrev pub collect_static_checks : GepType → List IndexValue → List StaticCheckPlan
collect_static_checks t [] = []
collect_static_checks t (pointer_step ∷ rest) = walk_indices t rest

abbrev pub is_statically_in_bounds : IndexValue → (length : ℕ) → Bool
is_statically_in_bounds (IndexValue.constant_int bits value) length = ltb value length
is_statically_in_bounds _ length = false

-- An index as a value of 64 bits: itself, or a cast that does not keep the sign.
pub data Normalized : Type 0 where
  same : IndexValue → Normalized
  int_cast : IndexValue → Normalized

abbrev pub normalize_index : IndexValue → Option Normalized
normalize_index (IndexValue.constant_int bits value) =
    let index = IndexValue.constant_int bits value in
    if bits == 64 then some (same index) else some (int_cast index)
normalize_index (IndexValue.run_time bits address) =
    let index = IndexValue.run_time bits address in
    if bits == 64 then some (same index) else some (int_cast index)
normalize_index (IndexValue.not_integer address) = none

-- The instructions that compute the test: a comparison with the length that the runtime answers for
-- the base, a comparison with a constant, and "or".
pub data Condition : Type 0 where
  uge_array_length : Normalized → (base : ℕ) → Condition
  uge_constant : Normalized → (length : ℕ) → Condition
  or : Condition → Condition → Condition

abbrev pub or_with : Option Condition → Condition → Condition
or_with none static_out_of_bounds = static_out_of_bounds
or_with (some out_of_bounds) static_out_of_bounds = or out_of_bounds static_out_of_bounds

-- What one planned check adds to the test.
abbrev pub add_check : Option Condition → (length : ℕ) → Option Normalized → Option Condition
add_check out_of_bounds length none = out_of_bounds
add_check out_of_bounds length (some index) =
    some (or_with out_of_bounds (uge_constant index length))

unfoldable pub add_checks : Option Condition → List StaticCheckPlan → Option Condition
add_checks out_of_bounds [] = out_of_bounds
add_checks out_of_bounds (check ∷ checks) =
    add_checks
      (if is_statically_in_bounds check.index check.length
        then out_of_bounds
        else add_check out_of_bounds check.length (normalize_index check.index))
      checks

abbrev pub compare_length : (base : ℕ) → Option Normalized → Option Condition
compare_length base none = none
compare_length base (some index) = some (uge_array_length index base)

abbrev pub dynamic_check : (is_managed : Bool) (base : ℕ) → List IndexValue → Option Condition
dynamic_check is_managed base [] = none
dynamic_check is_managed base (index ∷ rest) =
    if is_managed then compare_length base (normalize_index index) else none

-- The test that guards the trap before the GEP; none where the GEP is left alone.
unfoldable pub instrument_gep : Body → (fuel : ℕ) → GepInstruction → Option Condition
instrument_gep body fuel gep =
    add_checks
      (dynamic_check (is_managed_array_base body fuel gep.pointer_operand) gep.pointer_operand
        gep.indices)
      (collect_static_checks gep.source_element_type gep.indices)

-- A function with its GEPs in the order of its blocks.
pub record Instrumented : Type 0 where
  pub is_declaration : Bool
  pub body : Body
  pub values : ℕ
  pub geps : List GepInstruction

abbrev pub instrument_geps : Body → (fuel : ℕ) → List GepInstruction → List (Option Condition)
instrument_geps body fuel [] = []
instrument_geps body fuel (gep ∷ geps) =
    instrument_gep body fuel gep ∷ instrument_geps body fuel geps

-- The tests of each function; a declaration has none.
unfoldable pub inject_bounds_checks : List Instrumented → List (List (Option Condition))
inject_bounds_checks [] = []
inject_bounds_checks (f ∷ fs) =
    (if f.is_declaration then [] else instrument_geps f.body f.values f.geps)
    ∷ inject_bounds_checks fs
