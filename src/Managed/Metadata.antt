-- ===== src/Managed/Metadata.antt =====
-- managed_state.cc: the texts of states, and the metadata that the analysis attaches. `to_string` is
-- the standard library's decimal text.
use Prim.Native.String.{String, ◌++◌ as ◌<>◌}
use lona_mvm.Prelude.{
  ℕ, ◌+◌, Bool, true, false, not, Option, none, some, List, [], ◌∷◌, ◌++◌, map, if◌then◌else◌,
}
use lona_mvm.Managed.State.{PointerState, empty}
use lona_mvm.Managed.Module.{Instruction, ModuleView, FunctionView}
use lona_mvm.Managed.Store.{Cell, States, get_value_state}

-- The texts with a bar between them.
abbrev pub join : List String → String
join [] = ""
join (t ∷ []) = t
join (t ∷ ts) = t <> "|" <> join ts

abbrev pub part_if : Bool → String → List String
part_if b t = if b then t ∷ [] else []

unfoldable pub render_state : PointerState → String
render_state s =
    if empty s
    then "unknown"
    else join (
        part_if s.raw "raw"
        ++ part_if s.managed_object "object"
        ++ part_if s.managed_array "array"
        ++ part_if s.null "null")

-- The text of a state that is not empty.
unfoldable pub state_node : PointerState → Option String
state_node s = if not (empty s) then some (render_state s) else none

-- The kinds "mvm.managed.kind" and "mvm.managed.slot" of an instruction.
pub record InstructionMetadata : Type 0 where
  pub managed_kind : Option String
  pub managed_slot : Option String

abbrev pub no_metadata : InstructionMetadata
no_metadata = record { managed_kind = none; managed_slot = none }

-- The value of an instruction that can be a pointer.
abbrev pub result_of : Instruction → Option ℕ
result_of (Instruction.alloca v) = some v
result_of (Instruction.get_element_ptr v _ _) = some v
result_of (Instruction.phi v _) = some v
result_of (Instruction.select v _ _) = some v
result_of (Instruction.freeze v _) = some v
result_of (Instruction.load v _) = some v
result_of (Instruction.store _ _) = none
result_of (Instruction.call v _ _) = some v
result_of (Instruction.ret _ _) = none
result_of (Instruction.other_instruction v) = some v

abbrev pub is_alloca : Instruction → Bool
is_alloca (Instruction.alloca v) = true
is_alloca _ = false

-- No node for no operands.
abbrev pub operands_node : List String → Option (List String)
operands_node [] = none
operands_node (t ∷ ts) = some (t ∷ ts)

module _ (m : ModuleView) (s : States) where
  unfoldable pub instruction_metadata : Instruction → InstructionMetadata
  instruction_metadata i = elim (result_of i) [
    | none ↦ no_metadata
    | some v ↦ if not (m.is_pointer v) then no_metadata else record {
      managed_kind = state_node (get_value_state m s v);
      managed_slot = if is_alloca i then state_node (s (Cell.slot v)) else none;
    }
  ]

module _ (to_string : ℕ → String) (m : ModuleView) (s : States) where
  -- The texts of the pointers among the parameters from the number `i` on.
  unfoldable pub param_texts : (function i : ℕ) (args : List ℕ) → List String
  param_texts function i [] = []
  param_texts function i (a ∷ more) =
      (if m.is_pointer a
        then ("arg" <> to_string i <> "=" <> render_state (s (Cell.param function i))) ∷ []
        else [])
      ++ param_texts function (i + 1) more

  -- The kind "mvm.managed.signature" of a function.
  unfoldable pub function_metadata : FunctionView → Option (List String)
  function_metadata f = operands_node (
      (if f.returns_pointer
        then ("ret=" <> render_state (s (Cell.returned f.address))) ∷ []
        else [])
      ++ param_texts f.address 0 f.args)

  -- The metadata of the functions, and of their instructions.
  abbrev pub attach_metadata : List (Option (List String) × List InstructionMetadata)
  attach_metadata =
      map (λ f. (function_metadata f, map (instruction_metadata m s) f.instructions)) m.functions
