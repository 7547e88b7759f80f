-- ===== src/Lowering/Instructions.antt =====
-- managed_pointer_lowering.cc: the rewriting of one instruction.
use lona_mvm.Prelude.{
  ℕ, Bool, true, false, ◌||◌, ◌&&◌, Option, none, some, List, [], ◌∷◌, if◌then◌else◌,
}
use lona_mvm.Prelude.Expected.{Expected, success, failure, ◌>>=◌}
use lona_mvm.Managed.State.{dispatch_kind, is_concrete_managed_kind, PointerState}
use lona_mvm.Managed.Module.{ModuleView, ValueKind}
use lona_mvm.Managed.Store.{
  States, get_tracked_slot, get_value_state, get_location_state, get_slot_state,
}
use lona_mvm.Lowering.{
  IrType, is_pointer_type, same_type, managed_pointer_type, Signature, NewValue, new_type,
  LoweringError, IrView, Maps, map_value,
}

-- An instruction with its own value first. An alloca has the type that it allocates; a phi, its
-- incoming values with their blocks. Calls of debug intrinsics and invokes are told apart.
pub data OldInstruction : Type 0 where
  alloca : (result : ℕ) (allocated : IrType) (array_size : ℕ) → OldInstruction
  phi : (result : ℕ) (incoming : List (ℕ × ℕ)) → OldInstruction
  load : (result pointer_operand : ℕ) → OldInstruction
  store : (result value_operand pointer_operand : ℕ) → OldInstruction
  get_element_ptr : (result pointer_operand : ℕ) (indices : List ℕ) → OldInstruction
  select : (result condition true_value false_value : ℕ) → OldInstruction
  freeze : (result operand : ℕ) → OldInstruction
  icmp : (result lhs rhs : ℕ) → OldInstruction
  call : (result called_operand : ℕ) (args : List ℕ) → OldInstruction
  debug_call : (result : ℕ) → OldInstruction
  invoke : (result : ℕ) → OldInstruction
  ret : (result : ℕ) (return_value : Option ℕ) → OldInstruction
  other_instruction : (result : ℕ) (operands : List ℕ) → OldInstruction

pub data Opcode : Type 0 where
  alloca phi load store get_element_ptr select freeze icmp call ret : Opcode
  other_opcode : (old : ℕ) → Opcode

-- A new instruction: the one it was made for, its type, the type that it allocates if it is an
-- alloca, and its operands.
pub record NewInstruction : Type 0 where
  pub opcode : Opcode
  pub made_for : ℕ
  pub type : IrType
  pub allocated : Option IrType
  pub operands : List NewValue

abbrev pub made : Opcode → ℕ → IrType → List NewValue → NewInstruction
made opcode old type operands = record {
  opcode = opcode;
  made_for = old;
  type = type;
  allocated = none;
  operands = operands;
}

module _ (ir : IrView) (m : ModuleView) (s : States) where
  abbrev pub is_managed_state : PointerState → Bool
  is_managed_state state = is_concrete_managed_kind (dispatch_kind state)

  abbrev pub is_managed_value : ℕ → Bool
  is_managed_value v = is_managed_state (get_value_state m s v)

  -- A pointer type whose state is that of one kind of managed pointer becomes a managed one.
  abbrev pub lowered_type : IrType → (is_managed : Bool) → IrType
  lowered_type type is_managed =
      if is_pointer_type type && is_managed then managed_pointer_type else type

  abbrev pub result_type : ℕ → IrType
  result_type v = lowered_type (ir.type_of v) (is_managed_value v)

  -- The type that a store wants of its value.
  unfoldable pub expected_store_type : (value_operand pointer_operand : ℕ) → IrType
  expected_store_type value_operand pointer_operand =
      let type = ir.type_of value_operand in
      let kept : Bool = elim (get_tracked_slot m pointer_operand) [
        | some slot ↦ is_managed_state (get_slot_state m s slot)
        | none ↦
            is_managed_state (get_location_state m s pointer_operand)
            || is_managed_value value_operand
      ] in
      lowered_type type kept

  abbrev pub is_function : ValueKind → Bool
  is_function ValueKind.function = true
  is_function _ = false

  -- The direct callee, if there is one, and the operand otherwise.
  abbrev pub callee_operand : ℕ → ℕ
  callee_operand called_operand =
      let stripped = m.strip_pointer_casts called_operand in
      if is_function (m.kind stripped) then stripped else called_operand

  module _ (maps : Maps) where
    abbrev pub map_as_is : ℕ → Expected LoweringError NewValue
    map_as_is v = map_value ir maps v (some (ir.type_of v))

    unfoldable pub map_values : List ℕ → Expected LoweringError (List NewValue)
    map_values [] = success []
    map_values (v ∷ vs) = do new ← map_as_is v; more ← map_values vs; success (new ∷ more)

    -- A new operand that has to keep its type.
    abbrev pub keep_type : ℕ → NewValue → Expected LoweringError NewValue
    keep_type v new =
        if same_type (new_type new) (ir.type_of v)
        then success new
        else failure LoweringError.pointer_sensitive_instruction

    unfoldable pub clone_operands : List ℕ → Expected LoweringError (List NewValue)
    clone_operands [] = success []
    clone_operands (v ∷ vs) = do
      mapped ← map_as_is v
      new ← keep_type v mapped
      more ← clone_operands vs
      success (new ∷ more)

    abbrev pub clone_generic_instruction :
        Opcode → ℕ → List ℕ → Expected LoweringError NewInstruction
    clone_generic_instruction opcode result operands = do
      new ← clone_operands operands
      success (made opcode result (ir.type_of result) new)

    abbrev pub lower_alloca :
        (result : ℕ) (allocated : IrType) (array_size : ℕ) → Expected LoweringError NewInstruction
    lower_alloca result allocated array_size = do
      size ← map_as_is array_size
      success record (made Opcode.alloca result (ir.type_of result) (size ∷ [])) {
        allocated = some (lowered_type allocated (is_managed_state (get_slot_state m s result)));
      }

    abbrev pub lower_load : (result pointer_operand : ℕ) → Expected LoweringError NewInstruction
    lower_load result pointer_operand = do
      new ← map_as_is pointer_operand
      success (made Opcode.load result (result_type result) (new ∷ []))

    abbrev pub check_store_type : IrType → NewValue → Expected LoweringError NewValue
    check_store_type expected new =
        if same_type (new_type new) expected
        then success new
        else failure LoweringError.store_value_type

    abbrev pub lower_store :
        (result value_operand pointer_operand : ℕ) → Expected LoweringError NewInstruction
    lower_store result value_operand pointer_operand = do
      new_pointer ← map_as_is pointer_operand
      mapped ←
          map_value ir maps value_operand (some (expected_store_type value_operand pointer_operand))
      value ← check_store_type (expected_store_type value_operand pointer_operand) mapped
      success (made Opcode.store result (ir.type_of result) (value ∷ new_pointer ∷ []))

    -- The type of a GEP is that of its base.
    abbrev pub gep_type : ℕ → NewValue → IrType
    gep_type result base =
        if is_pointer_type (ir.type_of result) then new_type base else ir.type_of result

    abbrev pub lower_gep :
        (result pointer_operand : ℕ) (indices : List ℕ) → Expected LoweringError NewInstruction
    lower_gep result pointer_operand indices = do
      base ← map_as_is pointer_operand
      new ← map_values indices
      success (made Opcode.get_element_ptr result (gep_type result base) (base ∷ new))

    -- The incoming values are added when all instructions are there.
    abbrev pub lower_phi : (result : ℕ) → Expected LoweringError NewInstruction
    lower_phi result = success (made Opcode.phi result (result_type result) [])

    abbrev pub lower_select :
        (result condition true_value false_value : ℕ) → Expected LoweringError NewInstruction
    lower_select result condition true_value false_value = do
      c ← map_as_is condition
      a ← map_value ir maps true_value (some (result_type result))
      b ← map_value ir maps false_value (some (result_type result))
      success (made Opcode.select result (new_type a) (c ∷ a ∷ b ∷ []))

    abbrev pub lower_freeze : (result operand : ℕ) → Expected LoweringError NewInstruction
    lower_freeze result operand = do
      new ← map_value ir maps operand (some (result_type result))
      success (made Opcode.freeze result (new_type new) (new ∷ []))

    -- The type of an operand that was rewritten to a pointer already.
    abbrev pub mapped_pointer_type : Option NewValue → Option IrType
    mapped_pointer_type none = none
    mapped_pointer_type (some new) =
        if is_pointer_type (new_type new) then some (new_type new) else none

    abbrev pub compare_types : (lhs rhs : ℕ) → Option IrType → Option IrType → IrType × IrType
    compare_types lhs rhs (some type) right = (type, type)
    compare_types lhs rhs none (some type) = (type, type)
    compare_types lhs rhs none none = (ir.type_of lhs, ir.type_of rhs)

    abbrev pub lower_icmp : (result lhs rhs : ℕ) → Expected LoweringError NewInstruction
    lower_icmp result lhs rhs =
        let types =
          compare_types lhs rhs (mapped_pointer_type (maps.value_map lhs))
            (mapped_pointer_type (maps.value_map rhs)) in
        do
          a ← map_value ir maps lhs (some types.0)
          b ← map_value ir maps rhs (some types.1)
          success (made Opcode.icmp result (ir.type_of result) (a ∷ b ∷ []))

    -- The arguments for the parameters of the callee; what is past them keeps its type.
    unfoldable pub map_args : List IrType → List ℕ → Expected LoweringError (List NewValue)
    map_args params [] = success []
    map_args [] (v ∷ vs) = do new ← map_as_is v; more ← map_args [] vs; success (new ∷ more)
    map_args (type ∷ types) (v ∷ vs) = do
      new ← map_value ir maps v (some type)
      more ← map_args types vs
      success (new ∷ more)

    -- The callee as it is called, with the signature: its replacement, if it has one.
    abbrev pub direct_callee : ℕ → Option Signature → NewValue × Signature
    direct_callee callee (some signature) =
        (NewValue.replacement callee (ir.type_of callee), signature)
    direct_callee callee none = (NewValue.same callee (ir.type_of callee), ir.signature callee)

    abbrev pub call_directly :
        (result callee : ℕ) (args : List ℕ) → Expected LoweringError NewInstruction
    call_directly result callee args =
        let (target, signature) = direct_callee callee (maps.function_map callee) in
        do
          new ← map_args signature.params args
          success (made Opcode.call result signature.return_type (target ∷ new))

    abbrev pub any_managed_arg : List ℕ → Bool
    any_managed_arg [] = false
    any_managed_arg (v ∷ vs) =
        (is_pointer_type (ir.type_of v) && is_managed_value v) || any_managed_arg vs

    abbrev pub call_indirectly :
        (result called_operand : ℕ) (args : List ℕ) → Expected LoweringError NewInstruction
    call_indirectly result called_operand args =
        if is_pointer_type (ir.type_of result) && is_managed_value result
        then failure LoweringError.indirect_result
        else if any_managed_arg args
        then failure LoweringError.indirect_argument
        else do
          new ← map_values args
          target ← map_as_is called_operand
          success (made Opcode.call result (ir.type_of result) (target ∷ new))

    abbrev pub lower_call :
        (result called_operand : ℕ) (args : List ℕ) → Expected LoweringError NewInstruction
    lower_call result called_operand args =
        if is_function (m.kind (m.strip_pointer_casts called_operand))
        then call_directly result (m.strip_pointer_casts called_operand) args
        else call_indirectly result called_operand args

    abbrev pub lower_return :
        (return_type : IrType) (result : ℕ) → Option ℕ → Expected LoweringError NewInstruction
    lower_return return_type result none = success (made Opcode.ret result (ir.type_of result) [])
    lower_return return_type result (some v) = do
      new ← map_value ir maps v (some return_type)
      success (made Opcode.ret result (ir.type_of result) (new ∷ []))

    abbrev pub made_one :
        Expected LoweringError NewInstruction → Expected LoweringError (Option NewInstruction)
    made_one lowering = do new ← lowering; success (some new)

    -- none: the instruction is dropped.
    unfoldable pub lower_instruction :
        (return_type : IrType) → OldInstruction → Expected LoweringError (Option NewInstruction)
    lower_instruction return_type (OldInstruction.alloca r type size) =
        made_one (lower_alloca r type size)
    lower_instruction return_type (OldInstruction.phi r incoming) = made_one (lower_phi r)
    lower_instruction return_type (OldInstruction.load r p) = made_one (lower_load r p)
    lower_instruction return_type (OldInstruction.store r v p) = made_one (lower_store r v p)
    lower_instruction return_type (OldInstruction.get_element_ptr r p indices) =
        made_one (lower_gep r p indices)
    lower_instruction return_type (OldInstruction.select r c a b) = made_one (lower_select r c a b)
    lower_instruction return_type (OldInstruction.freeze r v) = made_one (
        if is_pointer_type (ir.type_of r) || is_pointer_type (ir.type_of v)
        then lower_freeze r v
        else clone_generic_instruction Opcode.freeze r (v ∷ []))
    lower_instruction return_type (OldInstruction.icmp r a b) = made_one (
        if is_pointer_type (ir.type_of a) || is_pointer_type (ir.type_of b)
        then lower_icmp r a b
        else clone_generic_instruction Opcode.icmp r (a ∷ b ∷ []))
    lower_instruction return_type (OldInstruction.call r callee args) =
        made_one (lower_call r callee args)
    lower_instruction return_type (OldInstruction.debug_call r) = success none
    lower_instruction return_type (OldInstruction.invoke r) =
        failure LoweringError.invoke_instruction
    lower_instruction return_type (OldInstruction.ret r v) = made_one (lower_return return_type r v)
    lower_instruction return_type (OldInstruction.other_instruction r operands) =
        made_one (clone_generic_instruction (Opcode.other_opcode r) r operands)
