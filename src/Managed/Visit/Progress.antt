-- ===== src/Managed/Visit/Progress.antt =====
-- Every visit of the analysis is an update that makes progress, at cells that the module names.
use lona_mvm.Prelude.{
  ℕ, ◌+◌, Bool, not, ◌||◌, Option, none, some, List, [], ◌∷◌, ◌++◌, Among, here, there,
  Among-append_left, Among-append_right,
}
use lona_mvm.Managed.State.{PointerState, state_raw, has_managed}
use lona_mvm.Managed.Module.{Instruction, ModuleView, FunctionView}
use lona_mvm.Managed.Store.{
  Cell, States, Update, ◌then_also◌, with_states, when, merge_cell, get_tracked_slot,
  get_value_state, get_location_state, get_direct_callee, get_call_result_state,
  update_location_state, source_cell,
}
use lona_mvm.Managed.Store.Progress.{
  Progress, no_change-Progress, Progress-widen, with_states-Progress, when-Progress,
  then_also-Progress, merge_cell-Progress,
}
use lona_mvm.Managed.Visit.{
  visit_args, visit_direct_call, visit_callee, update_tracked_slot, visit_store, visit_instruction,
  visit_instructions, visit_params, visit_function, visit_functions,
}

-- The parameters with the numbers from `i` on, as many as there are values.
abbrev param_cells : (function i : ℕ) → List ℕ → List Cell
param_cells function i [] = []
param_cells function i (v ∷ vs) = Cell.param function i ∷ param_cells function (i + 1) vs

-- A merge with a state that is computed, at a cell, if the value is a pointer.
pub merge_when-Progress :
    {cells : List Cell} (b : Bool) (c : Cell) (state : States → PointerState)
    → Among c cells
    → Progress cells (with_states λ s. when b (merge_cell c (state s)))
merge_when-Progress b c state among =
    with_states-Progress _ (λ s. when-Progress b _ (merge_cell-Progress c (state s) among))

abbrev pub slot_cells : Option ℕ → List Cell
slot_cells none = []
slot_cells (some tracked) = Cell.slot tracked ∷ []

abbrev callee_cells : Option FunctionView → List Cell
callee_cells none = []
callee_cells (some f) = param_cells f.address 0 f.args

module _ (m : ModuleView) where
  -- The cells that the visit of an instruction can add to.
  abbrev instruction_cells : Instruction → List Cell
  instruction_cells (Instruction.alloca v) = Cell.value v ∷ []
  instruction_cells (Instruction.get_element_ptr v _ _) = Cell.value v ∷ Cell.location v ∷ []
  instruction_cells (Instruction.phi v _) = Cell.value v ∷ Cell.location v ∷ []
  instruction_cells (Instruction.select v _ _) = Cell.value v ∷ Cell.location v ∷ []
  instruction_cells (Instruction.freeze v _) = Cell.value v ∷ Cell.location v ∷ []
  instruction_cells (Instruction.load v _) = Cell.value v ∷ []
  instruction_cells (Instruction.store x p) =
      source_cell m x ∷ Cell.location p ∷ slot_cells (get_tracked_slot m p)
  instruction_cells (Instruction.call v f _) = Cell.value v ∷ callee_cells (get_direct_callee m f)
  instruction_cells (Instruction.ret f _) = Cell.returned f ∷ []
  instruction_cells (Instruction.other_instruction _) = []

  abbrev instructions_cells : List Instruction → List Cell
  instructions_cells [] = []
  instructions_cells (i ∷ is) = instruction_cells i ++ instructions_cells is

  abbrev function_cells : FunctionView → List Cell
  function_cells f = param_cells f.address 0 f.args ++ instructions_cells f.instructions

  abbrev functions_cells : List FunctionView → List Cell
  functions_cells [] = []
  functions_cells (f ∷ fs) = function_cells f ++ functions_cells fs

  -- All the cells that a round can add to.
  abbrev pub module_cells : List Cell
  module_cells = functions_cells m.functions

  -- Two updates with their cells.
  both :
      {xs ys : List Cell} (f g : Update)
      → Progress xs f
      → Progress ys g
      → Progress (xs ++ ys) (f then_also g)
  both {xs} {ys} f g p q =
      then_also-Progress f g (Progress-widen (λ c. Among-append_left ys) p)
        (Progress-widen (λ c. Among-append_right xs) q)

  visit_args-Progress :
      (f i : ℕ) (ps as1 : List ℕ) → Progress (param_cells f i ps) (visit_args m f i ps as1)
  unfolding visit_args
  visit_args-Progress f i [] as1 = no_change-Progress _
  visit_args-Progress f i (p ∷ ps) [] = no_change-Progress _
  visit_args-Progress f i (p ∷ ps) (a ∷ more) =
      then_also-Progress _ _
        (when-Progress (m.is_pointer a) _
          (with_states-Progress _ (λ s. merge_cell-Progress _ (get_value_state m s a) here)))
        (Progress-widen (λ c. there) (visit_args-Progress f (i + 1) ps more))

  pub visit_params-Progress :
      (f : ℕ) (is_open : Bool) (i : ℕ) (ps : List ℕ)
      → Progress (param_cells f i ps) (visit_params m f is_open i ps)
  unfolding visit_params
  visit_params-Progress f is_open i [] = no_change-Progress _
  visit_params-Progress f is_open i (a ∷ more) =
      then_also-Progress _ _
        (when-Progress (m.is_pointer a) _
          (when-Progress is_open _ (merge_cell-Progress _ state_raw here)))
        (Progress-widen (λ c. there) (visit_params-Progress f is_open (i + 1) more))

  visit_callee-Progress :
      (v : ℕ) (args : List ℕ) (callee : Option FunctionView)
      → Progress (Cell.value v ∷ callee_cells callee) (visit_callee m v args callee)
  unfolding visit_callee visit_direct_call
  visit_callee-Progress v args none =
      when-Progress (m.is_pointer v) _ (merge_cell-Progress _ state_raw here)
  visit_callee-Progress v args (some f) =
      then_also-Progress _ _
        (merge_when-Progress (m.is_pointer v) (Cell.value v) (λ s. get_call_result_state m s f)
          here)
        (when-Progress (not f.is_declaration) _
          (Progress-widen (λ c. there) (visit_args-Progress f.address 0 f.args args)))

  pub update_tracked_slot-Progress :
      (tracked : Option ℕ) (state : PointerState)
      → Progress (slot_cells tracked) (update_tracked_slot m tracked state)
  unfolding update_tracked_slot
  update_tracked_slot-Progress none state = no_change-Progress _
  update_tracked_slot-Progress (some tracked) state = merge_cell-Progress _ state here

  -- The first two updates of a store.
  pub store_target-Progress :
      (p : ℕ) (state : PointerState)
      → Progress (Cell.location p ∷ slot_cells (get_tracked_slot m p)) (
          update_tracked_slot m (get_tracked_slot m p) state
          then_also update_location_state m p state)
  store_target-Progress p state =
      then_also-Progress _ _
        (Progress-widen (λ c. there) (update_tracked_slot-Progress (get_tracked_slot m p) state))
        (when-Progress (m.is_pointer p) _ (merge_cell-Progress _ state here))

  visit_store-Progress :
      (x p : ℕ)
      → Progress
          (source_cell m x ∷ Cell.location p ∷ slot_cells (get_tracked_slot m p))
          (visit_store m x p)
  unfolding visit_store
  visit_store-Progress x p = with_states-Progress _ λ s0.
      then_also-Progress _ _
        (Progress-widen (λ c. there) (store_target-Progress p (get_value_state m s0 x)))
        (with_states-Progress _ (λ s. when-Progress (has_managed (get_location_state m s p)) _ (
          when-Progress (m.is_pointer x) _
            (merge_cell-Progress _ (get_location_state m s p) here))))

  -- A value's state, then the state of its location.
  pair-Progress :
      (v : ℕ) (a b : Bool) (x y : States → PointerState)
      → Progress (Cell.value v ∷ Cell.location v ∷ []) (
          (with_states λ s. when a (merge_cell (Cell.value v) (x s)))
          then_also (with_states λ s. when b (merge_cell (Cell.location v) (y s))))
  pair-Progress v a b x y =
      then_also-Progress _ _ (merge_when-Progress a _ x here)
        (merge_when-Progress b _ y (there here))

  pub visit_instruction-Progress :
      (i : Instruction) → Progress (instruction_cells i) (visit_instruction m i)
  unfolding visit_instruction
  visit_instruction-Progress (Instruction.alloca v) =
      when-Progress (m.is_pointer v) _ (merge_cell-Progress _ state_raw here)
  visit_instruction-Progress (Instruction.get_element_ptr v base e) =
      then_also-Progress _ _ (merge_when-Progress (m.is_pointer v) _ _ here)
        (when-Progress e _ (merge_when-Progress (m.is_pointer v) _ _ (there here)))
  visit_instruction-Progress (Instruction.phi v incoming) =
      pair-Progress v (m.is_pointer v) (m.is_pointer v) _ _
  visit_instruction-Progress (Instruction.select v a b) =
      pair-Progress v (m.is_pointer v) (m.is_pointer v) _ _
  visit_instruction-Progress (Instruction.freeze v a) =
      pair-Progress v (m.is_pointer v) (m.is_pointer v) _ _
  visit_instruction-Progress (Instruction.load v p) =
      when-Progress (m.is_pointer v) _ (merge_when-Progress (m.is_pointer v) _ _ here)
  visit_instruction-Progress (Instruction.store x p) =
      when-Progress (m.is_pointer x) _ (visit_store-Progress x p)
  visit_instruction-Progress (Instruction.call v f args) =
      visit_callee-Progress v args (get_direct_callee m f)
  visit_instruction-Progress (Instruction.ret f none) = no_change-Progress _
  visit_instruction-Progress (Instruction.ret f (some x)) =
      when-Progress (m.is_pointer x) _
        (with_states-Progress _ (λ s. merge_cell-Progress _ (get_value_state m s x) here))
  visit_instruction-Progress (Instruction.other_instruction v) = no_change-Progress _

  pub visit_instructions-Progress :
      (is : List Instruction) → Progress (instructions_cells is) (visit_instructions m is)
  unfolding visit_instructions
  visit_instructions-Progress [] = no_change-Progress _
  visit_instructions-Progress (i ∷ is) =
      both _ _ (visit_instruction-Progress i) (visit_instructions-Progress is)

  pub visit_function-Progress :
      (f : FunctionView) → Progress (function_cells f) (visit_function m f)
  unfolding visit_function
  visit_function-Progress f =
      both _ _ (visit_params-Progress f.address (f.is_declaration || f.has_address_taken) 0 f.args)
        (visit_instructions-Progress f.instructions)

  pub visit_functions-Progress :
      (fs : List FunctionView) → Progress (functions_cells fs) (visit_functions m fs)
  unfolding visit_functions
  visit_functions-Progress [] = no_change-Progress _
  visit_functions-Progress (f ∷ fs) =
      both _ _ (visit_function-Progress f) (visit_functions-Progress fs)
