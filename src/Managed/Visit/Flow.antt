-- ===== src/Managed/Visit/Flow.antt =====
-- Where the visit of an instruction changes nothing, the states are closed under its flow.
use lona_mvm.Prelude.{
  ℕ, ◌≡◌, true, not, Option, none, some, List, [], ◌∷◌, Among, here, there, arith,
}
use lona_mvm.Managed.State.{PointerState, state_unknown, state_raw, has_managed}
use lona_mvm.Managed.Module.{Instruction, ModuleView, FunctionView}
use lona_mvm.Managed.Store.{
  Cell, States, get_tracked_slot, get_value_state, get_location_state, get_aggregate_field_state,
  get_direct_callee, get_call_result_state, source_cell,
}
use lona_mvm.Managed.Visit.{
  visit_direct_call, visit_callee, update_tracked_slot, visit_store, visit_instruction,
  visit_instructions,
}
use lona_mvm.Managed.Visit.Progress.{
  merge_when-Progress, update_tracked_slot-Progress, store_target-Progress,
  visit_instruction-Progress,
}
use lona_mvm.Managed.Visit.Consistent.{CallFlows, SlotFlows, Consistent}
use lona_mvm.Managed.Visit.Quiet.{
  Quiet, Quiet-then_also, Quiet-merge, Quiet-when, Quiet-merge_when, Quiet-args, Quiet-pair,
  Within-trans, Within-left, Within-right, Within-merge_all,
}

module _ (m : ModuleView) (s : States) where
  Quiet-callee :
      (v : ℕ) (args : List ℕ) (callee : Option FunctionView)
      → Quiet (visit_callee m v args callee) s
      → CallFlows m s v args callee
  unfolding visit_callee visit_direct_call
  Quiet-callee v args none h =
      Quiet-merge_when m s (m.is_pointer v) (Cell.value v) (λ t. state_raw) h
  Quiet-callee v args (some f) h =
      let (first, rest) =
        Quiet-then_also {cells = Cell.value v ∷ []} _ _ s
          (merge_when-Progress (m.is_pointer v) (Cell.value v) (λ t. get_call_result_state m t f)
            here)
          h in
      (
        Quiet-merge_when m s (m.is_pointer v) (Cell.value v) (λ t. get_call_result_state m t f)
            first,
        λ defined.
            Quiet-args m s f.address 0 f.args args
              (Quiet-when (not f.is_declaration) _ s rest (ground arith)),
      )

  Quiet-slot :
      (tracked : Option ℕ) (state : PointerState)
      → Quiet (update_tracked_slot m tracked state) s
      → SlotFlows m s state tracked
  unfolding update_tracked_slot
  Quiet-slot none state h = tt
  Quiet-slot (some tracked) state h = Quiet-merge (Cell.slot tracked) state s h

  Quiet-store :
      (x p : ℕ)
      → Quiet (visit_store m x p) s
      → m.is_pointer x ≡ true
      → Consistent m s (Instruction.store x p)
  unfolding visit_store
  Quiet-store x p h pointer _ =
      let state = get_value_state m s x in
      let (target, source) =
        Quiet-then_also _ _ s (store_target-Progress m p (get_value_state m s x)) h in
      let (tracked, location) =
        Quiet-then_also _ _ s
          (update_tracked_slot-Progress m (get_tracked_slot m p) (get_value_state m s x)) target in
      (
        Quiet-slot (get_tracked_slot m p) (get_value_state m s x) tracked,
        λ e.
            Quiet-merge (Cell.location p) (get_value_state m s x) s
              (Quiet-when (m.is_pointer p) _ s location e),
        λ e. Quiet-merge (source_cell m x) (get_location_state m s p) s (
            Quiet-when (m.is_pointer x) _ s
              (Quiet-when (has_managed (get_location_state m s p)) _ s source e) pointer),
      )

  Quiet-instruction : (i : Instruction) → Quiet (visit_instruction m i) s → Consistent m s i
  unfolding visit_instruction
  Quiet-instruction (Instruction.alloca v) h =
      Quiet-merge_when m s (m.is_pointer v) (Cell.value v) (λ t. state_raw) h
  Quiet-instruction (Instruction.get_element_ptr v base e) h =
      let (first, rest) =
        Quiet-then_also {cells = Cell.value v ∷ []} _ _ s
          (merge_when-Progress (m.is_pointer v) (Cell.value v) (λ t. get_value_state m t base) here)
          h in
      (
        Quiet-merge_when m s (m.is_pointer v) (Cell.value v) (λ t. get_value_state m t base) first,
        λ element pointer.
            Quiet-merge_when m s (m.is_pointer v) (Cell.location v)
              (λ t. get_aggregate_field_state m t v) (Quiet-when e _ s rest element) pointer,
      )
  Quiet-instruction (Instruction.phi v incoming) h = λ pointer x among.
      let (values, locations) = Quiet-pair m s v (m.is_pointer v) (m.is_pointer v) _ _ h in
      (
        Within-trans (Within-merge_all (get_value_state m s) incoming state_unknown x among)
            (values pointer),
        Within-trans (Within-merge_all (get_location_state m s) incoming state_unknown x among)
            (locations pointer),
      )
  Quiet-instruction (Instruction.select v a b) h = λ pointer.
      let (values, locations) = Quiet-pair m s v (m.is_pointer v) (m.is_pointer v) _ _ h in
      (
        (
          Within-trans (Within-left _ _) (values pointer),
          Within-trans (Within-left _ _) (locations pointer),
        ),
        (
          Within-trans (Within-right (get_value_state m s a) _) (values pointer),
          Within-trans (Within-right (get_location_state m s a) _) (locations pointer),
        ),
      )
  Quiet-instruction (Instruction.freeze v a) h = λ pointer.
      let (values, locations) = Quiet-pair m s v (m.is_pointer v) (m.is_pointer v) _ _ h in
      (values pointer, locations pointer)
  Quiet-instruction (Instruction.load v p) h = λ pointer.
      Quiet-merge_when m s (m.is_pointer v) (Cell.value v) (λ t. get_location_state m t p)
        (Quiet-when (m.is_pointer v) _ s h pointer) pointer
  Quiet-instruction (Instruction.store x p) h =
      λ pointer. Quiet-store x p (Quiet-when (m.is_pointer x) _ s h pointer) pointer pointer
  Quiet-instruction (Instruction.call v f args) h = Quiet-callee v args (get_direct_callee m f) h
  Quiet-instruction (Instruction.ret f none) h = tt
  Quiet-instruction (Instruction.ret f (some x)) h = λ pointer.
      Quiet-merge (Cell.returned f) (get_value_state m s x) s
        (Quiet-when (m.is_pointer x) _ s h pointer)
  Quiet-instruction (Instruction.other_instruction v) h = tt

  pub Quiet-instructions :
      (is : List Instruction)
      → Quiet (visit_instructions m is) s
      → (i : Instruction) → Among i is
      → Consistent m s i
  unfolding visit_instructions
  Quiet-instructions [] h i among = elim among [ ]
  Quiet-instructions (i ∷ is) h j here =
      Quiet-instruction j (Quiet-then_also _ _ s (visit_instruction-Progress m j) h).0
  Quiet-instructions (i ∷ is) h j (there among) =
      Quiet-instructions is (Quiet-then_also _ _ s (visit_instruction-Progress m i) h).1 j among
