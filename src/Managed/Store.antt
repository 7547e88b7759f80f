-- ===== src/Managed/Store.antt =====
-- managed_state.cc: the maps of the analysis, and the functions that read and update them. The maps
-- are one function on cells; a key that is not in a map has the empty state, which no map stores.
pub mod Progress
use Prim.Native.String.{String}
use text.Mathlib.Text.{◌==◌ as ◌≐◌}
use lona_mvm.Prelude.{
  ℕ, Bool, true, false, not, ◌&&◌, ◌||◌, Option, none, some, List, [], ◌∷◌, if◌then◌else◌, ltb,
  ◌==◌, length,
}
use lona_mvm.Managed.State.{
  PointerState, state_unknown, state_null, state_raw, state_managed_object, state_managed_array,
  empty, has_managed, merged, merge_changes, dispatch_kind, is_concrete_managed_kind,
}
use lona_mvm.Managed.Module.{ValueKind, ModuleView, FunctionView, find_function}

-- An entry of valueStates_, of locationStates_, of slotStates_, and of functionStates_.
pub data Cell : Type 0 where
  value : ℕ → Cell
  location : ℕ → Cell
  slot : ℕ → Cell
  param : (function arg_no : ℕ) → Cell
  returned : (function : ℕ) → Cell

abbrev pub same_cell : Cell → Cell → Bool
same_cell (value a) (value b) = a == b
same_cell (location a) (location b) = a == b
same_cell (slot a) (slot b) = a == b
same_cell (param f i) (param g j) = (f == g) && (i == j)
same_cell (returned f) (returned g) = f == g
same_cell _ _ = false

abbrev pub States : Type 0
States = Cell → PointerState

abbrev pub no_states : States
no_states c = state_unknown

-- An update tells whether it changed the states.
abbrev pub Update : Type 0
Update = States → States × Bool

abbrev pub no_change : Update
no_change s = (s, false)

-- One update after another, as by `changed |=`.
infixl 4 ◌then_also◌
unfoldable pub ◌then_also◌ : Update → Update → Update
(f then_also g) s =
    let (t, changed) = f s in let (u, changed_too) = g t in (u, changed || changed_too)

-- An update that depends on the states.
abbrev pub with_states : (States → Update) → Update
with_states f s = f s s

abbrev pub when : Bool → Update → Update
when b f = if b then f else no_change

-- The merge into a cell, of a state that is not empty.
unfoldable pub merge_cell : Cell → PointerState → Update
merge_cell c state s =
    let set : States = λ d. if same_cell c d then merged (s c) state else s d in
    if empty state then (s, false) else (set, merge_changes (s c) state)

module _ (m : ModuleView) where
  unfoldable pub get_tracked_slot : ℕ → Option ℕ
  get_tracked_slot pointer_operand =
      let stripped = m.strip_pointer_casts pointer_operand in
      elim (m.kind stripped) [
        | ValueKind.alloca holds_pointer ↦ if holds_pointer then some stripped else none
        | ValueKind.global_variable holds_pointer ↦ if holds_pointer then some stripped else none
        | _ ↦ none
      ]

  -- functionStates_ has the functions of the module, each with a state for each argument.
  unfoldable pub param_state : States → (function arg_no : ℕ) → PointerState
  param_state s function arg_no = elim (find_function m function) [
    | none ↦ state_unknown
    | some f ↦ if ltb arg_no (length f.args) then s (Cell.param function arg_no) else state_unknown
  ]

  unfoldable pub get_value_state : States → ℕ → PointerState
  get_value_state s v =
      let known : PointerState = elim (m.kind v) [
        | ValueKind.constant_pointer_null ↦ state_null
        | ValueKind.argument parent arg_no ↦ param_state s parent arg_no
        | ValueKind.function ↦ state_raw
        | ValueKind.global_variable _ ↦ state_raw
        | ValueKind.other_global ↦ state_raw
        | _ ↦ s (Cell.value v)
      ] in
      if not (m.is_pointer v) then state_unknown else known

  abbrev pub get_slot_state : States → ℕ → PointerState
  get_slot_state s v = s (Cell.slot v)

  -- What is stored in no slot has the state of its location, if there is one.
  unfoldable pub untracked_location_state : States → ℕ → PointerState
  untracked_location_state s v =
      if not (empty (s (Cell.location v)))
      then s (Cell.location v)
      else if has_managed (get_value_state s v)
      then get_value_state s v
      else state_unknown

  unfoldable pub get_location_state : States → ℕ → PointerState
  get_location_state s v =
      let held : PointerState = elim (get_tracked_slot v) [
        | some tracked ↦ get_slot_state s tracked
        | none ↦ untracked_location_state s v
      ] in
      if not (m.is_pointer v) then state_unknown else held

  unfoldable pub get_aggregate_field_state : States → ℕ → PointerState
  get_aggregate_field_state s pointer_operand =
      elim (m.kind (m.strip_pointer_casts pointer_operand)) [
        | ValueKind.get_element_ptr base ↦
            if is_concrete_managed_kind (dispatch_kind (get_value_state s base))
            then get_value_state s base
            else state_unknown
        | _ ↦ state_unknown
      ]

  unfoldable pub get_direct_callee : ℕ → Option FunctionView
  get_direct_callee called_operand =
      let callee = m.strip_pointer_casts called_operand in
      elim (m.kind callee) [ ValueKind.function ↦ find_function m callee | _ ↦ none ]

  unfoldable pub get_call_result_state : States → FunctionView → PointerState
  get_call_result_state s callee =
      if not callee.returns_pointer
      then state_unknown
      else if (callee.name ≐ "__mvm_malloc") || (callee.name ≐ "__mvm_malloc_typed")
      then state_managed_object
      else if (callee.name ≐ "__mvm_array_malloc") || (callee.name ≐ "__mvm_array_malloc_typed")
      then state_managed_array
      else if callee.is_declaration
      then state_raw
      else s (Cell.returned callee.address)

  abbrev pub update_value_state : ℕ → PointerState → Update
  update_value_state v state = when (m.is_pointer v) (merge_cell (Cell.value v) state)

  abbrev pub update_location_state : ℕ → PointerState → Update
  update_location_state v state = when (m.is_pointer v) (merge_cell (Cell.location v) state)

  abbrev pub update_slot_state : ℕ → PointerState → Update
  update_slot_state v state = merge_cell (Cell.slot v) state

  abbrev pub update_param_state : (function arg_no : ℕ) → PointerState → Update
  update_param_state function arg_no state = merge_cell (Cell.param function arg_no) state

  abbrev pub update_return_state : (function : ℕ) → PointerState → Update
  update_return_state function state = merge_cell (Cell.returned function) state

  -- The cell that the state of a value stands in.
  abbrev pub source_cell : ℕ → Cell
  source_cell v = elim (m.kind v) [
    | ValueKind.argument parent arg_no ↦ Cell.param parent arg_no
    | _ ↦ Cell.value v
  ]

  abbrev pub update_pointer_source_state : ℕ → PointerState → Update
  update_pointer_source_state v state = when (m.is_pointer v) (merge_cell (source_cell v) state)
