-- ===== src/Managed/Visit.antt =====
-- managed_state.cc: the visits of the instructions, and the rounds of the analysis.
pub mod Progress
pub mod Consistent
pub mod Quiet
pub mod Flow
pub mod Terminates
use lona_mvm.Prelude.{
  ℕ, zero, suc, ◌+◌, Bool, true, false, not, ◌||◌, Option, none, some, List, [], ◌∷◌, if◌then◌else◌,
}
use lona_mvm.Managed.State.{PointerState, state_unknown, state_raw, merged, has_managed}
use lona_mvm.Managed.Module.{ValueKind, Instruction, ModuleView, FunctionView}
use lona_mvm.Managed.Store.{
  Cell, States, Update, no_states, no_change, ◌then_also◌, with_states, when, get_tracked_slot,
  get_value_state, get_location_state, get_aggregate_field_state, get_direct_callee,
  get_call_result_state, update_value_state, update_location_state, update_slot_state,
  update_param_state, update_return_state, update_pointer_source_state,
}

-- The states of several values, merged.
unfoldable pub merge_all : (ℕ → PointerState) → List ℕ → PointerState → PointerState
merge_all f [] state = state
merge_all f (v ∷ vs) state = merge_all f vs (merged state (f v))

module _ (m : ModuleView) where
  -- The arguments of a call with the callee's, from the number `i` on.
  unfoldable pub visit_args : (function i : ℕ) (params args : List ℕ) → Update
  visit_args function i [] args = no_change
  visit_args function i (p ∷ ps) [] = no_change
  visit_args function i (p ∷ ps) (a ∷ more) =
      when (m.is_pointer a)
        (with_states λ s. update_param_state m function i (get_value_state m s a))
      then_also visit_args function (i + 1) ps more

  unfoldable pub visit_direct_call : (result : ℕ) (callee : FunctionView) (args : List ℕ) → Update
  visit_direct_call result callee args =
      with_states (λ s. update_value_state m result (get_call_result_state m s callee))
      then_also (if not callee.is_declaration
          then visit_args callee.address 0 callee.args args
          else no_change)

  unfoldable pub visit_callee : (result : ℕ) (args : List ℕ) → Option FunctionView → Update
  visit_callee result args none = update_value_state m result state_raw
  visit_callee result args (some callee) = visit_direct_call result callee args

  abbrev pub visit_call : (result called_operand : ℕ) (args : List ℕ) → Update
  visit_call result called_operand args =
      visit_callee result args (get_direct_callee m called_operand)

  unfoldable pub update_tracked_slot : Option ℕ → PointerState → Update
  update_tracked_slot none state = no_change
  update_tracked_slot (some tracked) state = update_slot_state m tracked state

  -- A stored pointer enters the slot and the location, and a managed location its source.
  unfoldable pub visit_store : (value_operand pointer_operand : ℕ) → Update
  visit_store value_operand pointer_operand = with_states λ s0.
      let state = get_value_state m s0 value_operand in
      update_tracked_slot (get_tracked_slot m pointer_operand) state
      then_also update_location_state m pointer_operand state
      then_also with_states λ s.
        let location_state = get_location_state m s pointer_operand in
        when (has_managed location_state)
          (update_pointer_source_state m value_operand location_state)

  unfoldable pub visit_instruction : Instruction → Update
  visit_instruction (Instruction.alloca v) = update_value_state m v state_raw
  visit_instruction (Instruction.get_element_ptr v base element_is_pointer) =
      with_states (λ s. update_value_state m v (get_value_state m s base))
      then_also when element_is_pointer
          (with_states λ s. update_location_state m v (get_aggregate_field_state m s v))
  visit_instruction (Instruction.phi v incoming) =
      with_states
        (λ s. update_value_state m v (merge_all (get_value_state m s) incoming state_unknown))
      then_also with_states (λ s.
        update_location_state m v (merge_all (get_location_state m s) incoming state_unknown))
  visit_instruction (Instruction.select v a b) =
      with_states
        (λ s. update_value_state m v (merged (get_value_state m s a) (get_value_state m s b)))
      then_also with_states (λ s.
        update_location_state m v (merged (get_location_state m s a) (get_location_state m s b)))
  visit_instruction (Instruction.freeze v a) =
      with_states (λ s. update_value_state m v (get_value_state m s a))
      then_also with_states (λ s. update_location_state m v (get_location_state m s a))
  visit_instruction (Instruction.load v p) =
      when (m.is_pointer v) (with_states λ s. update_value_state m v (get_location_state m s p))
  visit_instruction (Instruction.store x p) = when (m.is_pointer x) (visit_store x p)
  visit_instruction (Instruction.call v f args) = visit_call v f args
  visit_instruction (Instruction.ret f none) = no_change
  visit_instruction (Instruction.ret f (some x)) =
      when (m.is_pointer x) (with_states λ s. update_return_state m f (get_value_state m s x))
  visit_instruction (Instruction.other_instruction v) = no_change

  unfoldable pub visit_instructions : List Instruction → Update
  visit_instructions [] = no_change
  visit_instructions (i ∷ is) = visit_instruction i then_also visit_instructions is

  -- The arguments of a function that code outside the module can call are raw.
  unfoldable pub visit_params : (function : ℕ) (is_open : Bool) (i : ℕ) (args : List ℕ) → Update
  visit_params function is_open i [] = no_change
  visit_params function is_open i (a ∷ more) =
      when (m.is_pointer a) (when is_open (update_param_state m function i state_raw))
      then_also visit_params function is_open (i + 1) more

  unfoldable pub visit_function : FunctionView → Update
  visit_function f =
      visit_params f.address (f.is_declaration || f.has_address_taken) 0 f.args
      then_also visit_instructions f.instructions

  unfoldable pub visit_functions : List FunctionView → Update
  visit_functions [] = no_change
  visit_functions (f ∷ fs) = visit_function f then_also visit_functions fs

  -- The loop of run, with the count of rounds left; none if they do not suffice.
  unfoldable pub run_rounds : ℕ → States → Option States
  run_rounds zero s = none
  run_rounds (suc n) s =
      let (t, changed) = visit_functions m.functions s in
      let rest = run_rounds n t in if changed then rest else some t

  unfoldable pub run : (rounds : ℕ) → Option States
  run rounds = run_rounds rounds no_states
