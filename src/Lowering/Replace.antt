-- ===== src/Lowering/Replace.antt =====
-- managed_pointer_lowering.cc: which functions are replaced, and their new signatures.
use Prim.Native.String.{String}
use text.Mathlib.Text.{◌==◌ as ◌≐◌}
use lona_mvm.Prelude.{
  ℕ, ◌+◌, Bool, true, false, not, ◌||◌, ◌&&◌, Option, List, [], ◌∷◌, if◌then◌else◌,
}
use lona_mvm.Prelude.Expected.{Expected, success, failure, ◌>>=◌}
use lona_mvm.Managed.Module.{ModuleView}
use lona_mvm.Managed.Store.{Cell, States, param_state, get_slot_state}
use lona_mvm.Lowering.{
  IrType, pointer, is_pointer_type, managed_pointer_type, Signature, LoweringError, IrView,
}
use lona_mvm.Lowering.Instructions.{
  OldInstruction, is_managed_state, is_managed_value, lowered_type,
}

-- A node of the dominator tree, with the address of its block.
mutual
  pub data DomTree : Type 0 where
    node : (block : ℕ) (children : DomTrees) → DomTree

  pub data DomTrees : Type 0 where
    no_more : DomTrees
    child : DomTree → DomTrees → DomTrees

pub record OldBlock : Type 0 where
  pub address : ℕ
  pub instructions : List OldInstruction

pub record OldFunction : Type 0 where
  pub address : ℕ
  pub name : String
  pub is_declaration : Bool
  pub has_address_taken : Bool
  pub arguments : List ℕ
  pub blocks : List OldBlock
  pub dominators : Option DomTree

-- A function that takes the place of another one, with its name and its signature.
pub record Replacement : Type 0 where
  pub old : OldFunction
  pub name : String
  pub signature : Signature

abbrev pub is_managed_runtime_declaration : String → Bool
is_managed_runtime_declaration name =
    (name ≐ "__mvm_malloc")
    || (name ≐ "__mvm_array_malloc")
    || (name ≐ "__mvm_malloc_typed")
    || (name ≐ "__mvm_array_malloc_typed")
    || (name ≐ "__mvm_array_length")

abbrev pub result_of : OldInstruction → ℕ
result_of (OldInstruction.alloca r type size) = r
result_of (OldInstruction.phi r incoming) = r
result_of (OldInstruction.load r p) = r
result_of (OldInstruction.store r v p) = r
result_of (OldInstruction.get_element_ptr r p indices) = r
result_of (OldInstruction.select r c a b) = r
result_of (OldInstruction.freeze r v) = r
result_of (OldInstruction.icmp r a b) = r
result_of (OldInstruction.call r callee args) = r
result_of (OldInstruction.debug_call r) = r
result_of (OldInstruction.invoke r) = r
result_of (OldInstruction.ret r v) = r
result_of (OldInstruction.other_instruction r operands) = r

module _ (ir : IrView) (m : ModuleView) (s : States) where
  -- An argument that is a pointer, with a state of one kind of managed pointer.
  abbrev pub is_managed_param : (function arg_no : ℕ) → Bool
  is_managed_param function arg_no = is_managed_state ir m s (param_state m s function arg_no)

  abbrev pub any_managed_param : (function arg_no : ℕ) → List ℕ → Bool
  any_managed_param function arg_no [] = false
  any_managed_param function arg_no (a ∷ more) =
      (is_pointer_type (ir.type_of a) && is_managed_param function arg_no)
      || any_managed_param function (arg_no + 1) more

  abbrev pub returns_managed : (function : ℕ) → Bool
  returns_managed function = is_managed_state ir m s (s (Cell.returned function))

  abbrev pub holds_managed_slot : OldInstruction → Bool
  holds_managed_slot (OldInstruction.alloca r type size) =
      is_pointer_type type && is_managed_state ir m s (get_slot_state m s r)
  holds_managed_slot _ = false

  abbrev pub instruction_needs_lowering : OldInstruction → Bool
  instruction_needs_lowering i =
      (is_pointer_type (ir.type_of (result_of i)) && is_managed_value ir m s (result_of i))
      || holds_managed_slot i

  abbrev pub any_needs_lowering : List OldInstruction → Bool
  any_needs_lowering [] = false
  any_needs_lowering (i ∷ is) = instruction_needs_lowering i || any_needs_lowering is

  abbrev pub blocks_need_lowering : List OldBlock → Bool
  blocks_need_lowering [] = false
  blocks_need_lowering (b ∷ bs) = any_needs_lowering b.instructions || blocks_need_lowering bs

  unfoldable pub function_needs_lowering : OldFunction → Bool
  function_needs_lowering f =
      returns_managed f.address
      || any_managed_param f.address 0 f.arguments
      || blocks_need_lowering f.blocks

  abbrev pub signature_changes : OldFunction → Bool
  signature_changes f = returns_managed f.address || any_managed_param f.address 0 f.arguments

  unfoldable pub should_lower_function : OldFunction → Expected LoweringError Bool
  should_lower_function f =
      if f.is_declaration
      then success (is_managed_runtime_declaration f.name)
      else if not (function_needs_lowering f)
      then success false
      else if f.has_address_taken && signature_changes f
      then failure LoweringError.address_taken
      else success true

  abbrev pub lowered_params : (function arg_no : ℕ) → List ℕ → List IrType
  lowered_params function arg_no [] = []
  lowered_params function arg_no (a ∷ more) =
      lowered_type ir m s (ir.type_of a) (is_managed_param function arg_no)
      ∷ lowered_params function (arg_no + 1) more

  abbrev pub build_replacement_type : OldFunction → Signature
  build_replacement_type f = record {
    return_type =
        lowered_type ir m s (ir.signature f.address).return_type (returns_managed f.address);
    params = lowered_params f.address 0 f.arguments;
    is_var_arg = (ir.signature f.address).is_var_arg;
  }

  -- The types of the runtime, with `i64` the type of 64 bits.
  abbrev pub build_managed_runtime_declaration_type : (i64 : IrType) → OldFunction → Signature
  build_managed_runtime_declaration_type i64 f =
      let takes : IrType → List IrType → Signature = λ return_type params. record {
        return_type = return_type;
        params = params;
        is_var_arg = false;
      } in
      if f.name ≐ "__mvm_malloc"
      then takes managed_pointer_type []
      else if f.name ≐ "__mvm_array_malloc"
      then takes managed_pointer_type (i64 ∷ [])
      else if f.name ≐ "__mvm_malloc_typed"
      then takes managed_pointer_type (pointer 0 ∷ [])
      else if f.name ≐ "__mvm_array_malloc_typed"
      then takes managed_pointer_type (i64 ∷ pointer 0 ∷ [])
      else if f.name ≐ "__mvm_array_length"
      then takes i64 (managed_pointer_type ∷ [])
      else ir.signature f.address

  abbrev pub replacement_of : (i64 : IrType) → OldFunction → Replacement
  replacement_of i64 f = record {
    old = f;
    name = f.name;
    signature =
        if f.is_declaration
        then build_managed_runtime_declaration_type i64 f
        else build_replacement_type f;
  }

  -- The functions that are replaced, in the order of the module.
  unfoldable pub create_function_replacements :
      (i64 : IrType) → List OldFunction → Expected LoweringError (List Replacement)
  create_function_replacements i64 [] = success []
  create_function_replacements i64 (f ∷ fs) = do
    should_lower ← should_lower_function f
    more ← create_function_replacements i64 fs
    success (if should_lower then replacement_of i64 f ∷ more else more)
