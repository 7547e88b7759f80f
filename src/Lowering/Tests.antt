-- ===== src/Lowering/Tests.antt =====
-- A function that allocates an object, keeps it in a slot, and returns it through a phi with null.
use lona_mvm.Prelude.{
  ℕ, ◌≡◌, refl, true, false, some, none, List, [], ◌∷◌, if◌then◌else◌, ◌==◌, has, Distinct, arith,
}
use lona_mvm.Prelude.Expected.{Expected, success, failure}
use lona_mvm.Managed.State.{state_unknown, state_managed_object}
use lona_mvm.Managed.Module.{ModuleView, ValueKind}
use lona_mvm.Managed.Store.{
  Cell, States, get_value_state, get_location_state, get_tracked_slot, param_state,
  untracked_location_state,
}
use lona_mvm.Lowering.{LoweringError, IrView, IrType, ConstantKind, map_value, map_constant}
use lona_mvm.Lowering.Instructions.{
  OldInstruction, lower_instruction, map_values, map_args, clone_operands, expected_store_type,
}
use lona_mvm.Lowering.Replace.{
  DomTree, DomTrees, OldBlock, OldFunction, Replacement, function_needs_lowering,
  should_lower_function, create_function_replacements,
}
use lona_mvm.Lowering.Functions.{
  NewFunction, dominance_preorder, children_preorder, unscheduled, lowering_order,
  lower_instructions, lower_blocks, lower_incoming, lower_phis, rebuild_function, rebuild_functions,
  lower_managed_pointers, any_used,
}
use lona_mvm.Lowering.Rebuilt.{AllRebuilt, lower_managed_pointers-Rebuilt}
use lona_mvm.Lowering.Order.{
  tree_blocks, all_tree_blocks, Above, Before, addresses, lowering_order_lem,
}

-- 100 is the function and 200 __mvm_malloc. 10 and 11 are blocks, 2 is the slot, 3 the object, 5 a
-- read of the slot, 7 the phi, 8 null, 9 the constant one.
abbrev types : ℕ → IrType
types v =
    if has (4 ∷ 6 ∷ 12 ∷ 13 ∷ []) v
    then IrType.void_type
    else if has (9 ∷ 10 ∷ 11 ∷ []) v
    then IrType.other_type v
    else IrType.pointer 0

abbrev ir : IrView
ir = record {
  type_of = types;
  constant_kind = λ v.
      if v == 8
      then ConstantKind.pointer_null
      else if has (9 ∷ 100 ∷ 200 ∷ []) v
      then ConstantKind.constant
      else ConstantKind.no_constant;
  signature = λ f. record { return_type = IrType.pointer 0; params = []; is_var_arg = false };
}

abbrev m : ModuleView
m = record {
  is_pointer = λ v. has (2 ∷ 3 ∷ 5 ∷ 7 ∷ 8 ∷ 100 ∷ 200 ∷ []) v;
  kind = λ v.
      if v == 2
      then ValueKind.alloca true
      else if v == 8
      then ValueKind.constant_pointer_null
      else if has (100 ∷ 200 ∷ []) v
      then ValueKind.function
      else ValueKind.other_value;
  strip_pointer_casts = λ v. v;
  functions = [];
}

abbrev s : States
s (Cell.value v) = if has (3 ∷ 5 ∷ 7 ∷ []) v then state_managed_object else state_unknown
s (Cell.slot v) = state_managed_object
s (Cell.returned f) = if f == 100 then state_managed_object else state_unknown
s _ = state_unknown

abbrev blocks : List OldBlock
blocks =
    record {
      address = 11;
      instructions =
          OldInstruction.phi 7 ((5, 10) ∷ (8, 10) ∷ []) ∷ OldInstruction.ret 13 (some 7) ∷ [];
    }
    ∷ record {
      address = 10;
      instructions =
          OldInstruction.alloca 2 (IrType.pointer 0) 9
          ∷ OldInstruction.call 3 200 []
          ∷ OldInstruction.store 4 3 2
          ∷ OldInstruction.debug_call 12
          ∷ OldInstruction.load 5 2
          ∷ OldInstruction.other_instruction 6 (11 ∷ [])
          ∷ [];
    }
    ∷ []

abbrev tree : DomTree
tree = DomTree.node 10 (DomTrees.child (DomTree.node 11 DomTrees.no_more) DomTrees.no_more)

abbrev function : OldFunction
function = record {
  address = 100;
  name = "make";
  is_declaration = false;
  has_address_taken = false;
  arguments = [];
  blocks = blocks;
  dominators = some tree;
}

abbrev malloc : OldFunction
malloc = record {
  address = 200;
  name = "__mvm_malloc";
  is_declaration = true;
  has_address_taken = false;
  arguments = [];
  blocks = [];
  dominators = none;
}

abbrev result : Expected LoweringError (List Replacement × List (Replacement × NewFunction))
result = lower_managed_pointers ir m s (IrType.other_type 9) (λ f. true) (malloc ∷ function ∷ [])

abbrev rewritten : List Replacement × List (Replacement × NewFunction)
unfolding lower_managed_pointers create_function_replacements should_lower_function
    function_needs_lowering rebuild_functions rebuild_function lower_blocks lower_instructions
    lower_instruction lower_phis lower_incoming lowering_order dominance_preorder children_preorder
    unscheduled map_value map_constant map_args map_values clone_operands expected_store_type
    get_value_state get_location_state get_tracked_slot untracked_location_state param_state
rewritten = elim result [ failure error ↦ ([], []) | success r ↦ r ]

succeeds : result ≡ success rewritten
unfolding lower_managed_pointers create_function_replacements should_lower_function
    function_needs_lowering rebuild_functions rebuild_function lower_blocks lower_instructions
    lower_instruction lower_phis lower_incoming lowering_order dominance_preorder children_preorder
    unscheduled map_value map_constant map_args map_values clone_operands expected_store_type
    get_value_state get_location_state get_tracked_slot untracked_location_state param_state
succeeds = refl

lower_managed_pointers-Rebuilt_example :
    AllRebuilt ir m s rewritten.0 rewritten.1 × (any_used ir m s (λ f. true) rewritten.0 ≡ false)
lower_managed_pointers-Rebuilt_example =
    lower_managed_pointers-Rebuilt ir m s (IrType.other_type 9) (λ f. true) (malloc ∷ function ∷ [])
      rewritten.0 rewritten.1 succeeds

in_function : (x : ℕ) → has (tree_blocks tree) x ≡ true → has (addresses blocks) x ≡ true
unfolding tree_blocks all_tree_blocks
in_function x h = ground arith

once : Distinct (tree_blocks tree)
unfolding tree_blocks all_tree_blocks
once = (refl, (refl, tt))

lowering_order_lem_example :
    Distinct (lowering_order function)
    × ((x : ℕ) → has (lowering_order function) x ≡ has (addresses blocks) x)
    × ((p c : ℕ) → Above p c tree → Before p c (lowering_order function))
lowering_order_lem_example =
    lowering_order_lem function tree refl once (refl, (refl, tt)) in_function
