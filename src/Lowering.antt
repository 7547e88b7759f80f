-- ===== src/Lowering.antt =====
-- managed_pointer_lowering.cc: the values of a function with managed pointers in their own address
-- space. A value of LLVM is its address, with what LLVM answers about it.
pub mod Replace
pub mod Instructions
pub mod Functions
pub mod Stands
pub mod Meaning
pub mod Lowered
pub mod Order
pub mod Rebuilt
mod Tests
use Prim.Native.String.{String}
use lona_mvm.Prelude.{
  ℕ, Bool, true, false, Option, none, some, List, ◌∷◌, if◌then◌else◌, ◌==◌, update,
}
use lona_mvm.Prelude.Expected.{Expected, success, failure}

pub data IrType : Type 0 where
  pointer : (address_space : ℕ) → IrType
  void_type : IrType
  other_type : (id : ℕ) → IrType

abbrev pub is_pointer_type : IrType → Bool
is_pointer_type (pointer address_space) = true
is_pointer_type _ = false

abbrev pub is_void_type : IrType → Bool
is_void_type void_type = true
is_void_type _ = false

-- Types of LLVM are compared by their addresses.
abbrev pub same_type : IrType → IrType → Bool
same_type (pointer a) (pointer b) = a == b
same_type void_type void_type = true
same_type (other_type a) (other_type b) = a == b
same_type _ _ = false

abbrev pub managed_address_space : ℕ
managed_address_space = 1

abbrev pub managed_pointer_type : IrType
managed_pointer_type = pointer managed_address_space

pub data ConstantKind : Type 0 where
  pointer_null undef poison aggregate_zero constant no_constant : ConstantKind

pub record Signature : Type 0 where
  pub return_type : IrType
  pub params : List IrType
  pub is_var_arg : Bool

-- A value of the rewritten module: what stands for an argument or an instruction, with its type; the
-- replacement of a function; a new block; a constant of a type; or a value as it was.
pub data NewValue : Type 0 where
  lowered : (old : ℕ) (type : IrType) → NewValue
  replacement : (function : ℕ) (type : IrType) → NewValue
  new_block : (block : ℕ) (type : IrType) → NewValue
  null_of : IrType → NewValue
  undef_of : IrType → NewValue
  zero_of : IrType → NewValue
  same : (value : ℕ) (type : IrType) → NewValue

abbrev pub new_type : NewValue → IrType
new_type (lowered old type) = type
new_type (replacement function type) = type
new_type (new_block block type) = type
new_type (null_of type) = type
new_type (undef_of type) = type
new_type (zero_of type) = type
new_type (same value type) = type

pub data LoweringError : Type 0 where
  null_not_pointer retargeted_constant unmapped_value pointer_sensitive_instruction : LoweringError
  store_value_type invoke_instruction indirect_result indirect_argument : LoweringError
  phi_type address_taken old_function_used : LoweringError

-- What LLVM answers about the values of the old module.
pub record IrView : Type 0 where
  pub type_of : ℕ → IrType
  pub constant_kind : ℕ → ConstantKind
  pub signature : (function : ℕ) → Signature

-- valueMap_, functionMap_ and blockMap_.
pub record Maps : Type 0 where
  pub value_map : ℕ → Option NewValue
  pub function_map : ℕ → Option Signature
  pub block_map : ℕ → Bool

abbrev pub map_to : ℕ → NewValue → Maps → Maps
map_to v new maps = record maps { value_map = update maps.value_map v (some new) }

module _ (ir : IrView) where
  abbrev pub target_type : Option IrType → ℕ → IrType
  target_type none v = ir.type_of v
  target_type (some type) v = type

  abbrev pub map_null : IrType → Expected LoweringError NewValue
  map_null (pointer address_space) = success (null_of (pointer address_space))
  map_null _ = failure null_not_pointer

  -- PoisonValue is a kind of UndefValue, which is asked for first.
  unfoldable pub map_constant : ConstantKind → ℕ → Option IrType → Expected LoweringError NewValue
  map_constant pointer_null v expected = map_null (target_type expected v)
  map_constant undef v expected = success (undef_of (target_type expected v))
  map_constant poison v expected = success (undef_of (target_type expected v))
  map_constant aggregate_zero v expected = success (zero_of (target_type expected v))
  map_constant constant v expected =
      if same_type (ir.type_of v) (target_type expected v)
      then success (same v (ir.type_of v))
      else failure retargeted_constant
  map_constant no_constant v expected = failure unmapped_value

  abbrev pub map_block : Maps → ℕ → Option IrType → Expected LoweringError NewValue
  map_block maps v expected =
      if maps.block_map v
      then success (new_block v (ir.type_of v))
      else map_constant (ir.constant_kind v) v expected

  abbrev pub map_function :
      Maps → Option Signature → ℕ → Option IrType → Expected LoweringError NewValue
  map_function maps (some signature) v expected = success (replacement v (ir.type_of v))
  map_function maps none v expected = map_block maps v expected

  abbrev pub map_known :
      Maps → Option NewValue → ℕ → Option IrType → Expected LoweringError NewValue
  map_known maps (some new) v expected = success new
  map_known maps none v expected = map_function maps (maps.function_map v) v expected

  unfoldable pub map_value : Maps → ℕ → Option IrType → Expected LoweringError NewValue
  map_value maps v expected = map_known maps (maps.value_map v) v expected
