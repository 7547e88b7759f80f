-- ===== src/Runtime.antt =====
-- pipeline.cc and runtime.cc: the passes in order, and the stages of a run up to the call of the entry
-- point. What LLVM does, and each pass, is an operation on modules that can fail.
pub mod Verified
mod Tests
use Prim.Native.String.{String}
use lona_mvm.Prelude.{
  ℕ, zero, suc, Bool, true, false, not, Option, none, some, List, [], ◌∷◌, if◌then◌else◌, ◌==◌, map,
}
use lona_mvm.Prelude.Expected.{Expected, success, failure, ◌>>=◌}
use lona_mvm.Cli.{Options}
use lona_mvm.Cli.Text.{Bytes}
use lona_mvm.Gc.Requests.{GcRequests, configure_managed_heap_limit}
use lona_mvm.Jit.{IrFunction, EntryPoint, EntryError, resolve_entry_point}
use lona_mvm.Verifier.{VerifiedModule, VerifyError, verify}

pub data OptimizationLevel : Type 0 where
  o1 o2 o3 : OptimizationLevel

-- `external` is an error of LLVM or of a pass.
pub data RunError : Type 0 where
  external : (code : ℕ) → RunError
  unoptimized_unsupported unsupported_level : RunError
  target_mismatch : RunError
  managed_verifier : VerifyError → RunError
  entry_point : EntryError → RunError

abbrev pub to_optimization_level : ℕ → Expected RunError OptimizationLevel
to_optimization_level zero = failure unoptimized_unsupported
to_optimization_level (suc zero) = success o1
to_optimization_level (suc (suc zero)) = success o2
to_optimization_level (suc (suc (suc zero))) = success o3
to_optimization_level (suc (suc (suc (suc n)))) = failure unsupported_level

-- What LLVM and the passes do with modules.
pub record Host : Type 1 where
  pub Module : Type 0
  pub create_executor : Expected RunError (Unit {0})
  pub load_bitcode_module : (path : Bytes) → Expected RunError Module
  pub target_arch : Module → Option ℕ
  pub host_arch : ℕ
  pub set_target : Module → Module
  pub verify_llvm_module : Module → Expected RunError (Unit {0})
  pub verified_view : Module → VerifiedModule
  pub entry_view : Module → List IrFunction
  pub text : Bytes → String
  pub optimize : OptimizationLevel → Module → Module
  pub inject_bounds_checks : Module → Expected RunError Module
  pub specialize_managed_dispatch : Module → Expected RunError Module
  pub annotate_managed_heap_layouts : Module → Expected RunError Module
  pub lower_managed_pointers : Module → Expected RunError Module
  pub annotate_managed_state : Module → Expected RunError Module
  pub run_managed_gc_passes : Module → Expected RunError Module
  pub add_module : Module → Expected RunError (Unit {0})
  pub invoke : Module → EntryPoint → (argv0 : String) (args : List String) → Expected RunError ℕ

abbrev pub with_error {ℓ} :
    {Error : Type 0} {T : Type ℓ} → (Error → RunError) → Expected Error T → Expected RunError T
with_error wrap (failure error) = failure (wrap error)
with_error wrap (success x) = success x

module _ (host : Host) where
  open host use {Module}

  -- ModulePipeline::run
  unfoldable pub run_pipeline : Module → (opt_level : ℕ) → Expected RunError Module
  run_pipeline m0 opt_level = do
    level ← to_optimization_level opt_level
    m1 ← host.inject_bounds_checks m0
    m2 ← host.specialize_managed_dispatch (host.optimize level m1)
    m3 ← host.annotate_managed_heap_layouts m2
    m4 ← host.lower_managed_pointers m3
    m5 ← host.annotate_managed_state m4
    host.run_managed_gc_passes m5

  abbrev pub check_target : Option ℕ → Module → Expected RunError Module
  check_target none m = success (host.set_target m)
  check_target (some arch) m =
      if arch == host.host_arch then success (host.set_target m) else failure target_mismatch

  abbrev pub prepare_module_for_execution : Module → Expected RunError Module
  prepare_module_for_execution m = check_target (host.target_arch m) m

  -- Both verifiers, as at the load and after the passes.
  abbrev pub verify_stage : Module → Expected RunError Bool
  verify_stage m = do
    well_formed ← host.verify_llvm_module m
    with_error managed_verifier (verify (host.verified_view m))

  -- What is called, and the limit of the heap. What --dump-ir prints is left out.
  pub record Launch : Type 0 where
    pub module_run : Module
    pub entry : EntryPoint
    pub requests : GcRequests

  -- The end of the preparation: the entry point, the module for the JIT, the limit of the heap.
  abbrev pub launch_stage : Options → GcRequests → Module → Expected RunError Launch
  launch_stage options requests passed = do
    entry ←
        with_error entry_point
          (resolve_entry_point (host.entry_view passed) (host.text options.entry_symbol))
    added ← host.add_module passed
    success (record {
      module_run = passed;
      entry = entry;
      requests = configure_managed_heap_limit requests options.heap_size_bytes;
    })

  -- runManagedProgram up to the thread of the mutator.
  unfoldable pub prepare_launch : Options → GcRequests → Expected RunError Launch
  prepare_launch options requests = do
    executor ← host.create_executor
    loaded ← host.load_bitcode_module options.input_path
    prepared ← prepare_module_for_execution loaded
    accepted ← verify_stage prepared
    passed ← run_pipeline prepared options.opt_level
    accepted_again ← verify_stage passed
    launch_stage options requests passed

  -- The mutator's call; joining its thread gives the result.
  unfoldable pub run_managed_program : Options → GcRequests → Expected RunError ℕ
  run_managed_program options requests = do
    launch ← prepare_launch options requests
    host.invoke launch.module_run launch.entry (host.text options.input_path)
        (map host.text options.program_args)
