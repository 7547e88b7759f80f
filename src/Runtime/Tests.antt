-- ===== src/Runtime/Tests.antt =====
-- A host whose modules count the passes, and a run of a program that returns 7.
use lona_mvm.Prelude.{ℕ, suc, ◌≡◌, refl, true, false, some, [], ◌∷◌}
use lona_mvm.Prelude.Expected.{success}
use lona_mvm.Cli.{Options, default_options}
use lona_mvm.Cli.Text.{text}
use lona_mvm.Gc.Requests.{initial_requests}
use lona_mvm.Jit.{IrFunction, IrType, classify_entry_point, resolve_default, resolve_entry_point}
use lona_mvm.Verifier.{
  VerifiedFunction, InstructionKind, verify, function_violations, instruction_violations,
}
use lona_mvm.Runtime.{Host, run_pipeline, prepare_launch, run_managed_program}
use lona_mvm.Runtime.Verified.{VerifiedCall, run_managed_program-VerifiedCall}

abbrev main_view : VerifiedFunction
main_view = record {
  name = "main";
  type_text = "i32 ()";
  is_declaration = false;
  is_intrinsic = false;
  has_subprogram = true;
  instructions = record { kind = InstructionKind.other_instruction; text = "ret i32 7" } ∷ [];
}

abbrev main_entry : IrFunction
main_entry = record {
  name = "main";
  is_var_arg = false;
  return_type = IrType.integer 32;
  param_types = [];
}

abbrev host : Host
host = record {
  Module = ℕ;
  create_executor = success tt;
  load_bitcode_module = λ path. success 0;
  target_arch = λ m. some 1;
  host_arch = 1;
  set_target = λ m. m;
  verify_llvm_module = λ m. success tt;
  verified_view = λ m. record {
    has_debug_compile_units = true;
    has_inline_asm = false;
    functions = main_view ∷ [];
  };
  entry_view = λ m. main_entry ∷ [];
  text = λ bytes. "";
  optimize = λ level m. suc m;
  inject_bounds_checks = λ m. success (suc m);
  specialize_managed_dispatch = λ m. success (suc m);
  annotate_managed_heap_layouts = λ m. success (suc m);
  lower_managed_pointers = λ m. success (suc m);
  annotate_managed_state = λ m. success (suc m);
  run_managed_gc_passes = λ m. success (suc m);
  add_module = λ m. success tt;
  invoke = λ m entry argv0 args. success m;
}

abbrev options : Options
options = record default_options { input_path = text "program.bc"; opt_level = 2 }

returns : run_managed_program host options initial_requests ≡ success 7
unfolding run_managed_program prepare_launch run_pipeline verify function_violations
    instruction_violations resolve_entry_point resolve_default classify_entry_point
returns = refl

run_managed_program-VerifiedCall_example : VerifiedCall host options 7
run_managed_program-VerifiedCall_example =
    run_managed_program-VerifiedCall host options initial_requests 7 returns
