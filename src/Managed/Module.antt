-- ===== src/Managed/Module.antt =====
-- What the analyses ask of a module of LLVM.
use Prim.Native.String.{String}
use lona_mvm.Prelude.{ℕ, Bool, Option, none, some, List, [], ◌∷◌, if◌then◌else◌, ◌==◌}

-- What a value is. An argument has its function and its number; a variable, whether its type is a
-- pointer type, as an alloca for the type that it allocates; a GEP, its pointer operand.
pub data ValueKind : Type 0 where
  constant_pointer_null : ValueKind
  argument : (parent arg_no : ℕ) → ValueKind
  function : ValueKind
  global_variable : (holds_pointer : Bool) → ValueKind
  other_global : ValueKind
  alloca : (holds_pointer : Bool) → ValueKind
  get_element_ptr : (pointer_operand : ℕ) → ValueKind
  other_value : ValueKind

-- An instruction has its own value first, if it has one.
pub data Instruction : Type 0 where
  alloca : (result : ℕ) → Instruction
  get_element_ptr : (result pointer_operand : ℕ) (element_is_pointer : Bool) → Instruction
  phi : (result : ℕ) (incoming : List ℕ) → Instruction
  select : (result true_value false_value : ℕ) → Instruction
  freeze : (result operand : ℕ) → Instruction
  load : (result pointer_operand : ℕ) → Instruction
  store : (value_operand pointer_operand : ℕ) → Instruction
  call : (result called_operand : ℕ) (args : List ℕ) → Instruction
  ret : (function : ℕ) (return_value : Option ℕ) → Instruction
  other_instruction : (result : ℕ) → Instruction

-- A function with its arguments, and the instructions of its blocks in order.
pub record FunctionView : Type 0 where
  pub address : ℕ
  pub name : String
  pub is_declaration : Bool
  pub has_address_taken : Bool
  pub returns_pointer : Bool
  pub args : List ℕ
  pub instructions : List Instruction

pub record ModuleView : Type 0 where
  pub is_pointer : ℕ → Bool
  pub kind : ℕ → ValueKind
  pub strip_pointer_casts : ℕ → ℕ
  pub functions : List FunctionView

find_function_in : List FunctionView → ℕ → Option FunctionView
find_function_in [] address = none
find_function_in (f ∷ fs) address =
    if f.address == address then some f else find_function_in fs address

unfoldable pub find_function : ModuleView → ℕ → Option FunctionView
unfolding find_function_in
find_function m address = find_function_in m.functions address
