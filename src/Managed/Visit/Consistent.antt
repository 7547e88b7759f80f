-- ===== src/Managed/Visit/Consistent.antt =====
-- What it means that states are closed under the flow of pointers through a module.
use lona_mvm.Prelude.{ℕ, ◌+◌, ◌≡◌, true, false, ◌||◌, Option, none, some, List, [], ◌∷◌, Among}
use lona_mvm.Managed.State.{PointerState, state_raw, has_managed}
use lona_mvm.Managed.Module.{Instruction, ModuleView, FunctionView}
use lona_mvm.Managed.Store.{
  Cell, States, get_tracked_slot, get_value_state, get_location_state, get_aggregate_field_state,
  get_direct_callee, get_call_result_state, source_cell,
}

-- Every flag of the first state is one of the second.
pub record Within (p q : PointerState) : Type 0 where
  pub null : p.null ≡ true → q.null ≡ true
  pub raw : p.raw ≡ true → q.raw ≡ true
  pub managed_object : p.managed_object ≡ true → q.managed_object ≡ true
  pub managed_array : p.managed_array ≡ true → q.managed_array ≡ true

module _ (m : ModuleView) (s : States) where
  abbrev pub IsPointer : ℕ → Type 0
  IsPointer v = m.is_pointer v ≡ true

  -- The state flows into the cell.
  abbrev pub FlowsInto : PointerState → Cell → Type 0
  FlowsInto state c = Within state (s c)

  -- The values flow into a value, and what they point to into its location.
  abbrev pub ValueFlows : (from to : ℕ) → Type 0
  ValueFlows from to =
      FlowsInto (get_value_state m s from) (Cell.value to)
      × FlowsInto (get_location_state m s from) (Cell.location to)

  -- The pointers among the arguments flow into the parameters from the number `i` on.
  abbrev pub ArgsFlow : (function i : ℕ) (params args : List ℕ) → Type 0
  ArgsFlow f i [] args = Unit {0}
  ArgsFlow f i (p ∷ ps) [] = Unit {0}
  ArgsFlow f i (p ∷ ps) (a ∷ more) =
      (IsPointer a → FlowsInto (get_value_state m s a) (Cell.param f i))
      × ArgsFlow f (i + 1) ps more

  abbrev pub CallFlows : (result : ℕ) (args : List ℕ) (callee : Option FunctionView) → Type 0
  CallFlows v args none = IsPointer v → FlowsInto state_raw (Cell.value v)
  CallFlows v args (some f) =
      (IsPointer v → FlowsInto (get_call_result_state m s f) (Cell.value v))
      × (f.is_declaration ≡ false → ArgsFlow f.address 0 f.args args)

  abbrev pub SlotFlows : PointerState → Option ℕ → Type 0
  SlotFlows state none = Unit {0}
  SlotFlows state (some tracked) = FlowsInto state (Cell.slot tracked)

  abbrev pub Consistent : Instruction → Type 0
  Consistent (Instruction.alloca v) = IsPointer v → FlowsInto state_raw (Cell.value v)
  Consistent (Instruction.get_element_ptr v base element_is_pointer) =
      (IsPointer v → FlowsInto (get_value_state m s base) (Cell.value v))
      × (element_is_pointer ≡ true
          → IsPointer v
          → FlowsInto (get_aggregate_field_state m s v) (Cell.location v))
  Consistent (Instruction.phi v incoming) =
      IsPointer v → (x : ℕ) → Among x incoming → ValueFlows x v
  Consistent (Instruction.select v a b) = IsPointer v → ValueFlows a v × ValueFlows b v
  Consistent (Instruction.freeze v a) = IsPointer v → ValueFlows a v
  Consistent (Instruction.load v p) =
      IsPointer v → FlowsInto (get_location_state m s p) (Cell.value v)
  Consistent (Instruction.store x p) =
      IsPointer x
      → SlotFlows (get_value_state m s x) (get_tracked_slot m p)
        × (IsPointer p → FlowsInto (get_value_state m s x) (Cell.location p))
        × (has_managed (get_location_state m s p) ≡ true
            → FlowsInto (get_location_state m s p) (source_cell m x))
  Consistent (Instruction.call v called args) = CallFlows v args (get_direct_callee m called)
  Consistent (Instruction.ret f none) = Unit {0}
  Consistent (Instruction.ret f (some x)) =
      IsPointer x → FlowsInto (get_value_state m s x) (Cell.returned f)
  Consistent (Instruction.other_instruction v) = Unit {0}

  -- The pointers among the parameters from the number `i` on may be raw.
  abbrev pub OpenParams : (function i : ℕ) → List ℕ → Type 0
  OpenParams f i [] = Unit {0}
  OpenParams f i (a ∷ more) =
      (IsPointer a → FlowsInto state_raw (Cell.param f i)) × OpenParams f (i + 1) more

  pub record FunctionConsistent (f : FunctionView) : Type 0 where
    pub params : (f.is_declaration || f.has_address_taken) ≡ true → OpenParams f.address 0 f.args
    pub instructions : (i : Instruction) → Among i f.instructions → Consistent i

  abbrev pub ModuleConsistent : Type 0
  ModuleConsistent = (f : FunctionView) → Among f m.functions → FunctionConsistent f
