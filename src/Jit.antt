-- ===== src/Jit.antt =====
-- jit.cc: the choice of the entry point, and its call. A function of the module is its name with its
-- type; looking an address up and calling it are LLVM's.
pub mod Typed
pub mod Resolve
mod Tests
use Prim.Native.String.{String}
use text.Mathlib.Text.{◌==◌ as ◌≐◌}
use lona_mvm.Prelude.{
  ℕ, ◌+◌, Bool, true, false, not, ◌&&◌, ◌||◌, Option, none, some, List, [], ◌∷◌, ◌++◌, map,
  if◌then◌else◌, ◌==◌, length,
}
use lona_mvm.Prelude.Expected.{Expected, success, failure, ◌>>=◌}

-- The types that are told apart.
pub data IrType : Type 0 where
  integer : (bits : ℕ) → IrType
  void pointer other_type : IrType

pub record IrFunction : Type 0 where
  pub name : String
  pub is_var_arg : Bool
  pub return_type : IrType
  pub param_types : List IrType

pub data EntrySignature : Type 0 where
  no_args_int32 no_args_void argv_int32 argv_void : EntrySignature

pub record EntryPoint : Type 0 where
  pub symbol : String
  pub signature : EntrySignature

-- One constructor for each message. The last is what the stack-map registry recorded.
pub data EntryError : Type 0 where
  variadic_entry : String → EntryError
  bad_return_type : String → EntryError
  bad_signature : String → EntryError
  entry_not_found : String → EntryError
  no_default_entry : EntryError
  lookup_failed : EntryError
  registration_failed : EntryError

abbrev pub is_int32 : IrType → Bool
is_int32 (IrType.integer bits) = bits == 32
is_int32 _ = false

abbrev pub is_void : IrType → Bool
is_void IrType.void = true
is_void _ = false

abbrev pub is_pointer_type : IrType → Bool
is_pointer_type IrType.pointer = true
is_pointer_type _ = false

-- The two tests of the parameters.
abbrev pub has_no_params : List IrType → Bool
has_no_params [] = true
has_no_params _ = false

abbrev pub has_argv_params : List IrType → Bool
has_argv_params (a ∷ b ∷ []) = is_int32 a && is_pointer_type b
has_argv_params _ = false

unfoldable pub classify_entry_point : IrFunction → Expected EntryError EntryPoint
classify_entry_point f =
    let returns_int32 = is_int32 f.return_type in
    if f.is_var_arg
    then failure (variadic_entry f.name)
    else if not returns_int32 && not (is_void f.return_type)
    then failure (bad_return_type f.name)
    else if has_no_params f.param_types
    then success (record {
      symbol = f.name;
      signature = if returns_int32 then no_args_int32 else no_args_void;
    })
    else if has_argv_params f.param_types
    then success
        (record { symbol = f.name; signature = if returns_int32 then argv_int32 else argv_void })
    else failure (bad_signature f.name)

-- module.getFunction
abbrev pub get_function : List IrFunction → String → Option IrFunction
get_function [] name = none
get_function (f ∷ fs) name = if f.name ≐ name then some f else get_function fs name

-- The candidate's function, or the rest of the loop.
abbrev pub first_of :
    Option IrFunction → Expected EntryError EntryPoint → Expected EntryError EntryPoint
first_of (some f) rest = classify_entry_point f
first_of none rest = rest

-- The loop over the default names.
unfoldable pub resolve_default : List IrFunction → List String → Expected EntryError EntryPoint
resolve_default fs [] = failure no_default_entry
resolve_default fs (candidate ∷ rest) =
    first_of (get_function fs candidate) (resolve_default fs rest)

abbrev pub resolve_named : String → Option IrFunction → Expected EntryError EntryPoint
resolve_named symbol none = failure (entry_not_found symbol)
resolve_named symbol (some f) = classify_entry_point f

abbrev pub default_candidates : List String
default_candidates = "__mvm_main__" ∷ "__lona_main__" ∷ "main" ∷ []

unfoldable pub resolve_entry_point :
    List IrFunction → (requested_symbol : String) → Expected EntryError EntryPoint
resolve_entry_point fs requested_symbol =
    if not (requested_symbol ≐ "")
    then resolve_named requested_symbol (get_function fs requested_symbol)
    else resolve_default fs default_candidates

-- A call of the entry point: its address, and the arguments if it takes them. The null pointer at
-- the end of argv is none.
pub record Invocation : Type 0 where
  pub address : ℕ
  pub arguments : Option (ℕ × List (Option String))

module _ (call : Invocation → ℕ) where
  -- The switch on the signature.
  abbrev pub dispatch : EntrySignature → (address argc : ℕ) (argv : List (Option String)) → ℕ
  dispatch no_args_int32 address argc argv = call (record { address = address; arguments = none })
  dispatch no_args_void address argc argv =
      let ignored = call (record { address = address; arguments = none }) in 0
  dispatch argv_int32 address argc argv =
      call (record { address = address; arguments = some (argc, argv) })
  dispatch argv_void address argc argv =
      let ignored = call (record { address = address; arguments = some (argc, argv) }) in 0

  -- `address` is what the lookup finds, and the flag tells of a recorded error.
  unfoldable pub invoke :
      (address : Option ℕ) (has_registration_error : Bool)
      → EntryPoint
      → (argv0 : String) (args : List String) → Expected EntryError ℕ
  invoke none has_registration_error entry argv0 args = failure lookup_failed
  invoke (some address) has_registration_error entry argv0 args =
      let owned_args = argv0 ∷ args in
      if has_registration_error
      then failure registration_failed
      else success
          (dispatch entry.signature address (length owned_args) (map some owned_args ++ none ∷ []))
