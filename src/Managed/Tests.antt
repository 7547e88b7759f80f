-- ===== src/Managed/Tests.antt =====
-- A function that allocates an object, keeps it in a local variable, and returns it.
use lona_mvm.Prelude.{
  suc, ◌*◌, ◌≡◌, none, refl, true, false, some, [], ◌∷◌, if◌then◌else◌, ltb, ◌==◌, length,
}
use lona_mvm.Managed.Module.{ValueKind, Instruction, FunctionView, ModuleView}
use lona_mvm.Managed.Store.{States}
use lona_mvm.Managed.Visit.{run}
use lona_mvm.Managed.Visit.Progress.{module_cells}
use lona_mvm.Managed.Visit.Consistent.{ModuleConsistent}
use lona_mvm.Managed.Visit.Terminates.{run-Consistent}
use lona_mvm.Managed.Metadata.{render_state, state_node}
use lona_mvm.Managed.State.{state_unknown}

-- The values: 1 is the allocator and 2 the function, 3 the variable, 4 the object, 5 what is loaded.
abbrev malloc_view : FunctionView
malloc_view = record {
  address = 1;
  name = "__mvm_malloc";
  is_declaration = true;
  has_address_taken = false;
  returns_pointer = true;
  args = [];
  instructions = [];
}

abbrev make_view : FunctionView
make_view = record {
  address = 2;
  name = "make";
  is_declaration = false;
  has_address_taken = false;
  returns_pointer = true;
  args = [];
  instructions =
      Instruction.alloca 3
      ∷ Instruction.load 5 3
      ∷ Instruction.call 4 1 []
      ∷ Instruction.store 4 3
      ∷ Instruction.ret 2 (some 5)
      ∷ [];
}

abbrev sample : ModuleView
sample = record {
  is_pointer = λ v. true;
  kind = λ v.
      if ltb v 3
      then ValueKind.function
      else if v == 3
      then ValueKind.alloca true
      else ValueKind.other_value;
  strip_pointer_casts = λ v. v;
  functions = malloc_view ∷ make_view ∷ [];
}

run-Consistent_example :
    (s : States) × (run sample (suc (4 * length (module_cells sample))) ≡ some s)
    × ModuleConsistent sample s
run-Consistent_example = run-Consistent sample

render_state_test :
    render_state (record { null = true; raw = false; managed_object = true; managed_array = false })
    ≡ "object|null"
unfolding render_state
render_state_test = refl

state_node_test : state_node state_unknown ≡ none
unfolding state_node
state_node_test = refl
