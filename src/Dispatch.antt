-- ===== src/Dispatch.antt =====
-- managed_dispatch.cc: the signatures of the calls of a function, and its clones for them.
pub mod Signatures
pub mod Settled
pub mod Redirects
pub mod Rounds
mod Tests
use Prim.Native.String.{String, ◌++◌ as ◌<>◌}
use lona_mvm.Prelude.{
  ℕ, zero, suc, ◌+◌, Bool, true, false, not, ◌||◌, ◌&&◌, Option, none, some, List, [], ◌∷◌, ◌++◌,
  if◌then◌else◌, ◌==◌, length,
}
use lona_mvm.Managed.State.{PointerState, ManagedPointerKind, dispatch_kind}
use lona_mvm.Managed.Module.{ModuleView, FunctionView, Instruction}
use lona_mvm.Managed.Store.{States, get_value_state, get_direct_callee}
use lona_mvm.Managed.Visit.{run}

pub data DispatchArgKind : Type 0 where
  generic raw object array : DispatchArgKind

abbrev pub DispatchSignature : Type 0
DispatchSignature = List DispatchArgKind

pub record CallRecord : Type 0 where
  pub call : ℕ
  pub signature : DispatchSignature

abbrev pub is_generic : DispatchArgKind → Bool
is_generic generic = true
is_generic _ = false

abbrev pub same_arg_kind : DispatchArgKind → DispatchArgKind → Bool
same_arg_kind generic generic = true
same_arg_kind raw raw = true
same_arg_kind object object = true
same_arg_kind array array = true
same_arg_kind _ _ = false

-- operator== of a signature
abbrev pub same_signature : DispatchSignature → DispatchSignature → Bool
same_signature [] [] = true
same_signature (a ∷ kinds) (b ∷ others) = same_arg_kind a b && same_signature kinds others
same_signature _ _ = false

abbrev pub has_specialization : DispatchSignature → Bool
has_specialization [] = false
has_specialization (kind ∷ kinds) = not (is_generic kind) || has_specialization kinds

abbrev pub arg_kind_of : ManagedPointerKind → DispatchArgKind
arg_kind_of ManagedPointerKind.raw = raw
arg_kind_of ManagedPointerKind.object = object
arg_kind_of ManagedPointerKind.array = array
arg_kind_of ManagedPointerKind.unknown = generic

abbrev pub to_dispatch_arg_kind : PointerState → DispatchArgKind
to_dispatch_arg_kind state = arg_kind_of (dispatch_kind state)

abbrev pub render_dispatch_arg_kind : DispatchArgKind → String
render_dispatch_arg_kind generic = "generic"
render_dispatch_arg_kind raw = "raw"
render_dispatch_arg_kind object = "object"
render_dispatch_arg_kind array = "array"

abbrev pub contains_signature : List DispatchSignature → DispatchSignature → Bool
contains_signature [] signature = false
contains_signature (candidate ∷ candidates) signature =
    same_signature candidate signature || contains_signature candidates signature

-- The name of a clone, with what std::to_string answers.
abbrev pub name_args : (to_string : ℕ → String) → (index : ℕ) → DispatchSignature → String
name_args to_string index [] = ""
name_args to_string index (kind ∷ kinds) =
    (if is_generic kind
      then ""
      else ".arg" <> to_string index <> "_" <> render_dispatch_arg_kind kind)
    <> name_args to_string (index + 1) kinds

abbrev pub build_clone_name :
    (to_string : ℕ → String) → (name : String) → DispatchSignature → String
build_clone_name to_string name signature = name <> ".__mvm" <> name_args to_string 0 signature

-- The signatures for which there are clones, in the order of the calls, and whether a call is generic.
abbrev pub add_signature : DispatchSignature → List DispatchSignature → List DispatchSignature
add_signature signature known =
    if not (has_specialization signature)
    then known
    else if contains_signature known signature
    then known
    else known ++ signature ∷ []

unfoldable pub specialized_signatures :
    List CallRecord → List DispatchSignature → List DispatchSignature
specialized_signatures [] known = known
specialized_signatures (r ∷ rs) known = specialized_signatures rs (add_signature r.signature known)

abbrev pub saw_generic_call : List CallRecord → Bool
saw_generic_call [] = false
saw_generic_call (r ∷ rs) = not (has_specialization r.signature) || saw_generic_call rs

abbrev pub must_clone : List DispatchSignature → (saw_generic : Bool) → Bool
must_clone [] saw_generic = false
must_clone (signature ∷ []) saw_generic = saw_generic
must_clone (signature ∷ other ∷ more) saw_generic = true

abbrev pub needs_clones : List CallRecord → Bool
needs_clones rs = must_clone (specialized_signatures rs []) (saw_generic_call rs)

-- The clones of a function: `clone` is where LLVM puts the copy for a signature.
abbrev pub make_clones :
    (clone : DispatchSignature → ℕ) → List DispatchSignature → List (DispatchSignature × ℕ)
make_clones clone [] = []
make_clones clone (signature ∷ signatures) =
    (signature, clone signature) ∷ make_clones clone signatures

unfoldable pub find_clone : List (DispatchSignature × ℕ) → DispatchSignature → Option ℕ
find_clone [] signature = none
find_clone ((candidate, clone) ∷ clones) signature =
    if same_signature candidate signature then some clone else find_clone clones signature

-- A call with the clone that it calls from now on.
abbrev pub redirect : CallRecord → Option ℕ → List (ℕ × ℕ) → List (ℕ × ℕ)
redirect r none more = more
redirect r (some clone) more = (r.call, clone) ∷ more

abbrev pub redirect_calls : List (DispatchSignature × ℕ) → List CallRecord → List (ℕ × ℕ)
redirect_calls clones [] = []
redirect_calls clones (r ∷ rs) =
    redirect r (find_clone clones r.signature) (redirect_calls clones rs)

pub record Round : Type 0 where
  pub changed : Bool
  pub clones : List (ℕ × List (DispatchSignature × ℕ))
  pub redirects : List (ℕ × ℕ)

module _ (is_var_arg : (function : ℕ) → Bool) (clone : (function : ℕ) → DispatchSignature → ℕ) where
  abbrev pub should_specialize_function : FunctionView → Bool
  should_specialize_function f =
      not f.is_declaration && not f.has_address_taken && not (is_var_arg f.address)

  module _ (m : ModuleView) (s : States) where
    -- A parameter without an argument stays generic.
    abbrev pub build_dispatch_signature : (params args : List ℕ) → DispatchSignature
    build_dispatch_signature [] args = []
    build_dispatch_signature (p ∷ ps) [] = generic ∷ build_dispatch_signature ps []
    build_dispatch_signature (p ∷ ps) (a ∷ more) =
        (if m.is_pointer a then to_dispatch_arg_kind (get_value_state m s a) else generic)
        ∷ build_dispatch_signature ps more

    abbrev pub record_call :
        (call : ℕ) (args : List ℕ)
        → Option FunctionView
        → List (ℕ × CallRecord)
        → List (ℕ × CallRecord)
    record_call call args none more = more
    record_call call args (some callee) more =
        if should_specialize_function callee
        then (
          callee.address,
          record { call = call; signature = build_dispatch_signature callee.args args },
        )
          ∷ more
        else more

    -- callMap: each call that counts, with its callee.
    unfoldable pub collect_calls : List Instruction → List (ℕ × CallRecord)
    collect_calls [] = []
    collect_calls (Instruction.call result called_operand args ∷ is) =
        record_call result args (get_direct_callee m called_operand) (collect_calls is)
    collect_calls (_ ∷ is) = collect_calls is

    unfoldable pub collect_all_calls : List FunctionView → List (ℕ × CallRecord)
    collect_all_calls [] = []
    collect_all_calls (f ∷ fs) = collect_calls f.instructions ++ collect_all_calls fs

    unfoldable pub calls_of : (function : ℕ) → List (ℕ × CallRecord) → List CallRecord
    calls_of function [] = []
    calls_of function ((callee, r) ∷ calls) =
        if callee == function then r ∷ calls_of function calls else calls_of function calls

    abbrev pub specialize_function : FunctionView → List CallRecord → Round → Round
    specialize_function f rs round =
        let clones = make_clones (clone f.address) (specialized_signatures rs []) in
        if should_specialize_function f && needs_clones rs
        then record {
          changed = true;
          clones = (f.address, clones) ∷ round.clones;
          redirects = redirect_calls clones rs ++ round.redirects;
        }
        else round

    unfoldable pub specialize_functions : List (ℕ × CallRecord) → List FunctionView → Round
    specialize_functions calls [] = record { changed = false; clones = []; redirects = [] }
    specialize_functions calls (f ∷ fs) =
        specialize_function f (calls_of f.address calls) (specialize_functions calls fs)

    unfoldable pub specialize_managed_dispatch_round : Round
    specialize_managed_dispatch_round =
        specialize_functions (collect_all_calls m.functions) m.functions

  -- The loop, with the rounds left; `rewrite` is the module with the clones and the redirected calls.
  unfoldable pub specialize_managed_dispatch :
      (rewrite : ModuleView → Round → ModuleView)
      → (analysis_rounds rounds : ℕ) → ModuleView
      → Option ModuleView
  specialize_managed_dispatch rewrite analysis_rounds zero m = none
  specialize_managed_dispatch rewrite analysis_rounds (suc rounds) m =
      elim (run m analysis_rounds) [
        | none ↦ none
        | some s ↦
            let round = specialize_managed_dispatch_round m s in
            let rest =
              specialize_managed_dispatch rewrite analysis_rounds rounds (rewrite m round) in
            if round.changed then rest else some m
      ]
