-- ===== src/Verifier.antt =====
-- verifier.cc: which modules the managed verifier refuses. Of an instruction, its kind and its text
-- count.
pub mod Allowed
mod Tests
use Prim.Native.String.{String}
use text.Mathlib.Text.{◌==◌ as ◌≐◌}
use lona_mvm.Prelude.{
  Bool, true, false, not, ◌&&◌, ◌||◌, Option, none, some, List, [], ◌∷◌, ◌++◌, if◌then◌else◌,
}
use lona_mvm.Prelude.Expected.{Expected, success, failure}

-- The called operand without its casts.
pub data CalledValue : Type 0 where
  inline_asm : CalledValue
  function : (name : String) → CalledValue
  other_callee : CalledValue

pub data InstructionKind : Type 0 where
  ptr_to_int int_to_ptr addr_space_cast : InstructionKind
  call : CalledValue → InstructionKind
  other_instruction : InstructionKind

pub record VerifiedInstruction : Type 0 where
  pub kind : InstructionKind
  pub text : String

pub record VerifiedFunction : Type 0 where
  pub name : String
  pub type_text : String
  pub is_declaration : Bool
  pub is_intrinsic : Bool
  pub has_subprogram : Bool
  pub instructions : List VerifiedInstruction

pub record VerifiedModule : Type 0 where
  pub has_debug_compile_units : Bool
  pub has_inline_asm : Bool
  pub functions : List VerifiedFunction

-- One constructor for each reason.
pub data Reason : Type 0 where
  missing_subprogram : Reason
  ptr_to_int_forbidden int_to_ptr_forbidden addr_space_cast_forbidden : Reason
  inline_asm_forbidden raw_allocator explicit_free : Reason

pub record Violation : Type 0 where
  pub function_name : String
  pub reason : Reason
  pub instruction_text : String

pub data VerifyError : Type 0 where
  no_debug_compile_units : VerifyError
  module_inline_asm : VerifyError
  violations : List Violation → VerifyError

unfoldable pub callee_reason : CalledValue → Option Reason
callee_reason inline_asm = some inline_asm_forbidden
callee_reason (function name) =
    if (name ≐ "malloc") || (name ≐ "calloc") || (name ≐ "realloc") || (name ≐ "free")
    then some raw_allocator
    else if (name ≐ "__mvm_free") || (name ≐ "__mvm_array_free")
    then some explicit_free
    else none
callee_reason other_callee = none

abbrev pub instruction_reason : InstructionKind → Option Reason
instruction_reason ptr_to_int = some ptr_to_int_forbidden
instruction_reason int_to_ptr = some int_to_ptr_forbidden
instruction_reason addr_space_cast = some addr_space_cast_forbidden
instruction_reason (call callee) = callee_reason callee
instruction_reason other_instruction = none

-- recordViolation, if there is a reason.
abbrev pub recorded : (function_name text : String) → Option Reason → List Violation
recorded function_name text none = []
recorded function_name text (some reason) =
    record { function_name = function_name; reason = reason; instruction_text = text } ∷ []

unfoldable pub instruction_violations :
    (function_name : String) → List VerifiedInstruction → List Violation
instruction_violations function_name [] = []
instruction_violations function_name (i ∷ is) =
    recorded function_name i.text (instruction_reason i.kind)
    ++ instruction_violations function_name is

abbrev pub lacks_subprogram : VerifiedFunction → Bool
lacks_subprogram f = not f.is_declaration && not f.is_intrinsic && not f.has_subprogram

unfoldable pub function_violations : List VerifiedFunction → List Violation
function_violations [] = []
function_violations (f ∷ fs) =
    recorded f.name f.type_text (if lacks_subprogram f then some missing_subprogram else none)
    ++ instruction_violations f.name f.instructions
    ++ function_violations fs

abbrev pub refused : List Violation → Expected VerifyError Bool
refused [] = success true
refused (v ∷ vs) = failure (violations (v ∷ vs))

unfoldable pub verify : VerifiedModule → Expected VerifyError Bool
verify m =
    if not m.has_debug_compile_units
    then failure no_debug_compile_units
    else if m.has_inline_asm
    then failure module_inline_asm
    else refused (function_violations m.functions)
