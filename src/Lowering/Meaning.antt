-- ===== src/Lowering/Meaning.antt =====
-- What it means that an instruction is the rewritten one of another.
use lona_mvm.Prelude.{ℕ, ◌≡◌, Bool, true, false, Option, some, none, List, [], ◌∷◌}
use lona_mvm.Managed.Module.{ModuleView}
use lona_mvm.Managed.Store.{States}
use lona_mvm.Lowering.{NewValue, new_type, IrView}
use lona_mvm.Lowering.Replace.{result_of}
use lona_mvm.Lowering.Instructions.{
  OldInstruction, NewInstruction, Opcode, expected_store_type, callee_operand,
}
use lona_mvm.Lowering.Stands.{AllStand, AllKeep}

abbrev pub opcode_of : OldInstruction → Opcode
opcode_of (OldInstruction.alloca r type size) = Opcode.alloca
opcode_of (OldInstruction.phi r incoming) = Opcode.phi
opcode_of (OldInstruction.load r p) = Opcode.load
opcode_of (OldInstruction.store r v p) = Opcode.store
opcode_of (OldInstruction.get_element_ptr r p indices) = Opcode.get_element_ptr
opcode_of (OldInstruction.select r c a b) = Opcode.select
opcode_of (OldInstruction.freeze r v) = Opcode.freeze
opcode_of (OldInstruction.icmp r a b) = Opcode.icmp
opcode_of (OldInstruction.call r callee args) = Opcode.call
opcode_of (OldInstruction.debug_call r) = Opcode.call
opcode_of (OldInstruction.invoke r) = Opcode.call
opcode_of (OldInstruction.ret r v) = Opcode.ret
opcode_of (OldInstruction.other_instruction r operands) = Opcode.other_opcode r

abbrev pub returned_operand : Option ℕ → List ℕ
returned_operand none = []
returned_operand (some v) = v ∷ []

module _ (ir : IrView) (m : ModuleView) (s : States) where
  -- The operands; a call has its callee first, without the casts if it is a function. The incoming
  -- values of a phi are added later.
  abbrev pub operands_of : OldInstruction → List ℕ
  operands_of (OldInstruction.alloca r type size) = size ∷ []
  operands_of (OldInstruction.phi r incoming) = []
  operands_of (OldInstruction.load r p) = p ∷ []
  operands_of (OldInstruction.store r v p) = v ∷ p ∷ []
  operands_of (OldInstruction.get_element_ptr r p indices) = p ∷ indices
  operands_of (OldInstruction.select r c a b) = c ∷ a ∷ b ∷ []
  operands_of (OldInstruction.freeze r v) = v ∷ []
  operands_of (OldInstruction.icmp r a b) = a ∷ b ∷ []
  operands_of (OldInstruction.call r callee args) = callee_operand ir m s callee ∷ args
  operands_of (OldInstruction.debug_call r) = []
  operands_of (OldInstruction.invoke r) = []
  operands_of (OldInstruction.ret r v) = returned_operand v
  operands_of (OldInstruction.other_instruction r operands) = operands

  -- A stored value has the type that its slot or location wants, and an instruction that knows
  -- nothing of managed pointers sees the types that it had.
  abbrev pub IsTyped : OldInstruction → List NewValue → Type 0
  IsTyped (OldInstruction.store r v p) (new ∷ more) = new_type new ≡ expected_store_type ir m s v p
  IsTyped (OldInstruction.other_instruction r operands) new = AllKeep ir operands new
  IsTyped _ _ = Unit {0}

  -- The new instruction does what the old one does, with operands that stand for the old ones.
  pub record IsLowered (i : OldInstruction) (new : NewInstruction) : Type 0 where
    pub same_opcode : new.opcode ≡ opcode_of i
    pub same_result : new.made_for ≡ result_of i
    pub operands : AllStand ir (operands_of i) new.operands
    pub typed : IsTyped i new.operands

  abbrev pub is_debug : OldInstruction → Bool
  is_debug (OldInstruction.debug_call r) = true
  is_debug _ = false

  -- Only calls of debug intrinsics are dropped.
  abbrev pub LowersTo : OldInstruction → Option NewInstruction → Type 0
  LowersTo i none = is_debug i ≡ true
  LowersTo i (some new) = IsLowered i new
