-- ===== src/Lowering/Functions.antt =====
-- managed_pointer_lowering.cc: the rebuilding of functions.
use lona_mvm.Prelude.{
  ℕ, Bool, false, not, ◌||◌, Option, none, some, List, [], ◌∷◌, ◌++◌, if◌then◌else◌, ◌==◌, has,
}
use lona_mvm.Prelude.Expected.{Expected, success, failure, ◌>>=◌}
use lona_mvm.Managed.Module.{ModuleView}
use lona_mvm.Managed.Store.{States}
use lona_mvm.Lowering.{
  IrType, is_void_type, same_type, Signature, NewValue, new_type, LoweringError, IrView, Maps,
  map_to, map_value,
}
use lona_mvm.Lowering.Instructions.{OldInstruction, NewInstruction, result_type, lower_instruction}
use lona_mvm.Lowering.Replace.{
  DomTree, DomTrees, node, no_more, child, OldBlock, OldFunction, Replacement, result_of,
  create_function_replacements,
}

-- collectDominancePreorder, after the blocks that are in the order already.
unfoldable mutual
  pub dominance_preorder : DomTree → List ℕ → List ℕ
  dominance_preorder (node block children) order =
      children_preorder children (if has order block then order else order ++ block ∷ [])

  pub children_preorder : DomTrees → List ℕ → List ℕ
  children_preorder no_more order = order
  children_preorder (child tree more) order = children_preorder more (dominance_preorder tree order)

abbrev pub collect_dominance_preorder : Option DomTree → List ℕ
collect_dominance_preorder none = []
collect_dominance_preorder (some tree) = dominance_preorder tree []

-- The blocks that the tree does not have.
unfoldable pub unscheduled : (scheduled : List ℕ) → List OldBlock → List ℕ
unscheduled scheduled [] = []
unscheduled scheduled (b ∷ bs) =
    if has scheduled b.address
    then unscheduled scheduled bs
    else b.address ∷ unscheduled scheduled bs

unfoldable pub lowering_order : OldFunction → List ℕ
lowering_order f =
    let scheduled = collect_dominance_preorder f.dominators in
    scheduled ++ unscheduled scheduled f.blocks

abbrev pub instructions_of : List OldBlock → ℕ → List OldInstruction
instructions_of [] block = []
instructions_of (b ∷ bs) block =
    if b.address == block then b.instructions else instructions_of bs block

-- The phis, in the order in which their blocks are rewritten.
abbrev pub pending_phis : List OldInstruction → List (ℕ × List (ℕ × ℕ))
pending_phis [] = []
pending_phis (OldInstruction.phi result incoming ∷ is) = (result, incoming) ∷ pending_phis is
pending_phis (_ ∷ is) = pending_phis is

abbrev pub phis_in_order : List OldBlock → (order : List ℕ) → List (ℕ × List (ℕ × ℕ))
phis_in_order blocks [] = []
phis_in_order blocks (b ∷ order) =
    pending_phis (instructions_of blocks b) ++ phis_in_order blocks order

pub record NewBlock : Type 0 where
  pub made_for : ℕ
  pub instructions : List NewInstruction

-- A phi with its incoming values and their blocks.
pub record NewPhi : Type 0 where
  pub made_for : ℕ
  pub type : IrType
  pub incoming : List (NewValue × ℕ)

pub record NewFunction : Type 0 where
  pub blocks : List NewBlock
  pub phis : List NewPhi

abbrev pub map_result : IrView → ℕ → IrType → Maps → Maps
map_result ir result type maps =
    if is_void_type (ir.type_of result)
    then maps
    else map_to result (NewValue.lowered result type) maps

abbrev pub with_instruction : Option NewInstruction → List NewInstruction → List NewInstruction
with_instruction none more = more
with_instruction (some new) more = new ∷ more

abbrev pub map_lowered : IrView → ℕ → Option NewInstruction → Maps → Maps
map_lowered ir result none maps = maps
map_lowered ir result (some new) maps = map_result ir result new.type maps

module _ (ir : IrView) (m : ModuleView) (s : States) where
  unfoldable pub lower_instructions :
      (return_type : IrType)
      → List OldInstruction
      → Maps
      → Expected LoweringError (List NewInstruction × Maps)
  lower_instructions return_type [] maps = success ([], maps)
  lower_instructions return_type (i ∷ is) maps = do
    lowered ← lower_instruction ir m s maps return_type i
    rest ← lower_instructions return_type is (map_lowered ir (result_of i) lowered maps)
    success (with_instruction lowered rest.0, rest.1)

  unfoldable pub lower_blocks :
      (return_type : IrType)
      → List OldBlock
      → (order : List ℕ) → Maps
      → Expected LoweringError (List NewBlock × Maps)
  lower_blocks return_type blocks [] maps = success ([], maps)
  lower_blocks return_type blocks (b ∷ order) maps = do
    lowered ← lower_instructions return_type (instructions_of blocks b) maps
    rest ← lower_blocks return_type blocks order lowered.1
    success (record { made_for = b; instructions = lowered.0 } ∷ rest.0, rest.1)

  abbrev pub check_incoming : IrType → NewValue → Expected LoweringError NewValue
  check_incoming type new =
      if same_type (new_type new) type then success new else failure LoweringError.phi_type

  unfoldable pub lower_incoming :
      Maps → IrType → List (ℕ × ℕ) → Expected LoweringError (List (NewValue × ℕ))
  lower_incoming maps type [] = success []
  lower_incoming maps type ((v, block) ∷ incoming) = do
    mapped ← map_value ir maps v (some type)
    new ← check_incoming type mapped
    more ← lower_incoming maps type incoming
    success ((new, block) ∷ more)

  -- The incoming values of the phis that are pending.
  unfoldable pub lower_phis : Maps → List (ℕ × List (ℕ × ℕ)) → Expected LoweringError (List NewPhi)
  lower_phis maps [] = success []
  lower_phis maps ((result, incoming) ∷ phis) = do
    new ← lower_incoming maps (result_type ir m s result) incoming
    more ← lower_phis maps phis
    success (record { made_for = result; type = result_type ir m s result; incoming = new } ∷ more)

  abbrev pub map_params : List ℕ → List IrType → Maps → Maps
  map_params [] types maps = maps
  map_params (a ∷ more) [] maps = maps
  map_params (a ∷ more) (type ∷ types) maps =
      map_params more types (map_to a (NewValue.lowered a type) maps)

  abbrev pub has_block : List OldBlock → ℕ → Bool
  has_block [] block = false
  has_block (b ∷ bs) block = (b.address == block) || has_block bs block

  abbrev pub start_maps : (ℕ → Option Signature) → Replacement → Maps
  start_maps function_map r = map_params r.old.arguments r.signature.params record {
    value_map = λ v. none;
    function_map = function_map;
    block_map = has_block r.old.blocks;
  }

  unfoldable pub rebuild_function :
      (function_map : ℕ → Option Signature) → Replacement → Expected LoweringError NewFunction
  rebuild_function function_map r = do
    lowered ←
        lower_blocks r.signature.return_type r.old.blocks (lowering_order r.old)
          (start_maps function_map r)
    phis ← lower_phis lowered.1 (phis_in_order r.old.blocks (lowering_order r.old))
    success record { blocks = lowered.0; phis = phis }

  abbrev pub find_replacement : List Replacement → ℕ → Option Signature
  find_replacement [] function = none
  find_replacement (r ∷ rs) function =
      if r.old.address == function then some r.signature else find_replacement rs function

  unfoldable pub rebuild_functions :
      (function_map : ℕ → Option Signature)
      → List Replacement
      → Expected LoweringError (List (Replacement × NewFunction))
  rebuild_functions function_map [] = success []
  rebuild_functions function_map (r ∷ rs) =
      let rest = rebuild_functions function_map rs in
      if r.old.is_declaration
      then rest
      else do new ← rebuild_function function_map r; more ← rest; success ((r, new) ∷ more)

  -- Whether an old function is left with a use, as LLVM answers when the bodies are gone.
  abbrev pub any_used : (use_empty : ℕ → Bool) → List Replacement → Bool
  any_used use_empty [] = false
  any_used use_empty (r ∷ rs) = not (use_empty r.old.address) || any_used use_empty rs

  abbrev pub check_uses :
      Bool
      → List Replacement × List (Replacement × NewFunction)
      → Expected LoweringError (List Replacement × List (Replacement × NewFunction))
  check_uses used rewritten =
      if used then failure LoweringError.old_function_used else success rewritten

  unfoldable pub lower_managed_pointers :
      (i64 : IrType)
      → (use_empty : ℕ → Bool) → List OldFunction
      → Expected LoweringError (List Replacement × List (Replacement × NewFunction))
  lower_managed_pointers i64 use_empty functions = do
    replacements ← create_function_replacements ir m s i64 functions
    rebuilt ← rebuild_functions (find_replacement replacements) replacements
    check_uses (any_used use_empty replacements) (replacements, rebuilt)
