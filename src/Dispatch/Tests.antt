-- ===== src/Dispatch/Tests.antt =====
-- A function 2 that calls itself, called with an object and with an array.
use lona_mvm.Prelude.{
  ℕ, ◌≡◌, refl, ◌↔◌, Bool, true, false, ◌||◌, ◌&&◌, Option, none, some, List, [], ◌∷◌,
  if◌then◌else◌, ◌==◌, has, Among,
}
use lona_mvm.Managed.Module.{ModuleView, FunctionView, ValueKind, Instruction, find_function}
use lona_mvm.Managed.Store.{
  ◌then_also◌, merge_cell, param_state, get_value_state, untracked_location_state,
  get_location_state, get_tracked_slot, get_aggregate_field_state, get_direct_callee,
  get_call_result_state, no_states,
}
use lona_mvm.Managed.Visit.{
  run, run_rounds, visit_functions, visit_function, visit_params, visit_instructions,
  visit_instruction, visit_callee, visit_direct_call, visit_args, visit_store, update_tracked_slot,
  merge_all,
}
use lona_mvm.Dispatch.{
  DispatchSignature, generic, object, find_clone, specialized_signatures, Round, collect_calls,
  collect_all_calls, calls_of, specialize_functions, specialize_managed_dispatch_round,
  build_clone_name,
}
use lona_mvm.Dispatch.Settled.{AllSettled}
use lona_mvm.Dispatch.Rounds.{
  HasClone, IsClone, IsRedirected, specialize_managed_dispatch_round_lem,
}

abbrev kinds : ℕ → ValueKind
kinds v =
    if has (1 ∷ 2 ∷ 3 ∷ 4 ∷ 5 ∷ 6 ∷ []) v
    then ValueKind.function
    else if v == 20
    then ValueKind.argument 2 0
    else if v == 50
    then ValueKind.argument 5 0
    else if v == 60
    then ValueKind.argument 6 0
    else ValueKind.other_value

abbrev view : List FunctionView → ModuleView
view functions = record {
  is_pointer = λ v. true;
  kind = kinds;
  strip_pointer_casts = λ v. v;
  functions = functions;
}

abbrev declared : (address : ℕ) → FunctionView
declared address = record {
  address = address;
  name = if address == 3 then "__mvm_malloc" else "__mvm_array_malloc";
  is_declaration = true;
  has_address_taken = false;
  returns_pointer = true;
  args = [];
  instructions = [];
}

-- The main function, which calls the two given ones.
abbrev main_function : (for_object for_array : ℕ) → FunctionView
main_function for_object for_array = record (declared 1) {
  name = "main";
  is_declaration = false;
  instructions =
      Instruction.call 10 3 []
      ∷ Instruction.call 11 4 []
      ∷ Instruction.call 12 for_object (10 ∷ [])
      ∷ Instruction.call 13 for_array (11 ∷ [])
      ∷ [];
}

-- A copy of the function, with its parameter and its call.
abbrev copy : (address param call : ℕ) → FunctionView
copy address param call = record (declared address) {
  name = "visit";
  is_declaration = false;
  args = param ∷ [];
  instructions = Instruction.call call 2 (param ∷ []) ∷ [];
}

abbrev before : ModuleView
before = view (main_function 2 2 ∷ copy 2 20 21 ∷ declared 3 ∷ declared 4 ∷ [])

-- After a round there are two copies, whose calls are of the function still.
abbrev after : ModuleView
after =
    view (
      main_function 5 6 ∷ copy 2 20 21 ∷ copy 5 50 51 ∷ copy 6 60 61 ∷ declared 3 ∷ declared 4 ∷ [])

abbrev clone_at : (function : ℕ) → DispatchSignature → ℕ
clone_at function signature = if function == 2 then 5 else 6

abbrev round_of : ModuleView → Option Round
round_of m = elim (run m 40) [
  | none ↦ none
  | some s ↦ some (specialize_managed_dispatch_round (λ f. false) clone_at m s)
]

abbrev cloned_again : Option Round → Bool
cloned_again none = false
cloned_again (some round) = round.changed && has_function round.clones
  where
    has_function : List (ℕ × List (DispatchSignature × ℕ)) → Bool
    has_function [] = false
    has_function ((function, clones) ∷ more) = (function == 2) || has_function more

first_round_test : cloned_again (round_of before) ≡ true
unfolding specialize_managed_dispatch_round run run_rounds visit_functions visit_function
    visit_params visit_instructions visit_instruction visit_callee visit_direct_call visit_args
    visit_store update_tracked_slot merge_all ◌then_also◌ merge_cell param_state get_value_state
    untracked_location_state get_location_state get_tracked_slot get_aggregate_field_state
    get_direct_callee get_call_result_state find_function collect_calls collect_all_calls calls_of
    specialize_functions specialized_signatures find_clone
first_round_test = refl

-- The round after it clones the same function again.
second_round_test : cloned_again (round_of after) ≡ true
unfolding specialize_managed_dispatch_round run run_rounds visit_functions visit_function
    visit_params visit_instructions visit_instruction visit_callee visit_direct_call visit_args
    visit_store update_tracked_slot merge_all ◌then_also◌ merge_cell param_state get_value_state
    untracked_location_state get_location_state get_tracked_slot get_aggregate_field_state
    get_direct_callee get_call_result_state find_function collect_calls collect_all_calls calls_of
    specialize_functions specialized_signatures find_clone
second_round_test = refl

build_clone_name_test :
    build_clone_name (λ n. if n == 0 then "0" else "1") "f" (object ∷ generic ∷ [])
    ≡ "f.__mvm.arg0_object"
build_clone_name_test = refl

specialize_managed_dispatch_round_lem_example :
    (let round = specialize_managed_dispatch_round (λ f. false) clone_at before no_states in
      let calls = collect_all_calls (λ f. false) clone_at before no_states before.functions in
      ((round.changed ≡ false)
        ↔ AllSettled (λ f. false) clone_at before no_states calls before.functions)
      × ((function : ℕ) (signature : DispatchSignature) (target : ℕ)
          → HasClone (λ f. false) clone_at before no_states calls round function signature target
            ↔ IsClone
                (λ f. false)
                clone_at
                before
                no_states
                calls
                before.functions
                function
                signature
                target)
      × ((call target : ℕ)
          → Among (call, target) round.redirects
            ↔ IsRedirected
                (λ f. false)
                clone_at
                before
                no_states
                calls
                before.functions
                call
                target))
specialize_managed_dispatch_round_lem_example =
    specialize_managed_dispatch_round_lem (λ f. false) clone_at before no_states
