-- ===== src/Runtime/Verified.antt =====
-- What is known of a program that is called.
use lona_mvm.Prelude.{
  ℕ, zero, suc, ◌≡◌, refl, ◌≤◌, Bool, true, Option, none, some, List, ◌==◌, ==_iff, not, [], ◌∷◌,
  map, if_both, Bool-cases, inl, inr, ◌⊎◌, arith, ap, ◌∙◌, subst,
}
use lona_mvm.Prelude.Expected.{Expected, success, failure, Ensures, bind-Ensures}
use lona_mvm.Cli.{Options}
use lona_mvm.Gc.Requests.{GcRequests}
use lona_mvm.Jit.{resolve_entry_point}
use lona_mvm.Verifier.{VerifyError, Violation, VerifiedModule, verify, refused, function_violations}
use lona_mvm.Verifier.Allowed.{AllowedModule, verify_iff}
use lona_mvm.Runtime.{
  OptimizationLevel, RunError, managed_verifier, entry_point, to_optimization_level, Host,
  with_error, run_pipeline, check_target, prepare_module_for_execution, verify_stage, Launch,
  prepare_launch, launch_stage, run_managed_program,
}

-- A value that a call gives, as the call's result.
itself {ℓ} :
    {E : Type 0} {T : Type ℓ} (call : Expected E T) → Ensures (λ (x : T). call ≡ success x) call
itself (failure error) = tt
itself (success x) = refl

-- Two properties of the value.
both {ℓ} :
    {E : Type 0} {T : Type ℓ} (P Q : T → Type 0) (call : Expected E T)
    → Ensures P call
    → Ensures Q call
    → Ensures (λ (x : T). P x × Q x) call
both P Q (failure error) p q = tt
both P Q (success x) p q = (p, q)

always {ℓ} :
    {E : Type 0} {T : Type ℓ} (P : Type 0) (call : Expected E T) → P → Ensures (λ (x : T). P) call
always P (failure error) p = tt
always P (success x) p = p

with_error-Ensures :
    {E : Type 0} {T : Type 0} (wrap : E → RunError) (call : Expected E T)
    → Ensures (λ (x : T). call ≡ success x) (with_error wrap call)
with_error-Ensures wrap (failure error) = tt
with_error-Ensures wrap (success x) = refl

level_bounds :
    (n : ℕ) → Ensures (λ (level : OptimizationLevel). (1 ≤ n) × (n ≤ 3)) (to_optimization_level n)
level_bounds zero = tt
level_bounds (suc zero) = omega arith
level_bounds (suc (suc zero)) = omega arith
level_bounds (suc (suc (suc zero))) = omega arith
level_bounds (suc (suc (suc (suc n)))) = tt

refused-true : (vs : List Violation) → Ensures (λ (b : Bool). b ≡ true) (refused vs)
refused-true [] = refl
refused-true (v ∷ vs) = tt

verify-true : (m : VerifiedModule) (b : Bool) → verify m ≡ success b → b ≡ true
unfolding verify
verify-true m b e = subst (Ensures (λ (b : Bool). b ≡ true)) e (
    if_both (Ensures (λ (b : Bool). b ≡ true)) (not m.has_debug_compile_units) (λ _. tt)
      (λ _.
        if_both (Ensures (λ (b : Bool). b ≡ true)) m.has_inline_asm (λ _. tt)
          (λ _. refused-true (function_violations m.functions))))

module _ (host : Host) where
  open host use {Module}

  -- The module is the loaded one for the target of the host.
  pub record IsPrepared (path : List ℕ) (prepared : Module) : Type 0 where
    pub loaded : Module
    pub is_loaded : host.load_bitcode_module path ≡ success loaded
    pub for_host : prepared ≡ host.set_target loaded
    pub same_arch :
        (host.target_arch loaded ≡ none) ⊎ (host.target_arch loaded ≡ some host.host_arch)

  -- Both modules are well-formed and allowed, the passes make the second one of the first one, and
  -- the entry point is one of it.
  pub record IsVerified (options : Options) (launch : Launch host) : Type 0 where
    pub prepared : Module
    pub is_prepared : IsPrepared options.input_path prepared
    pub well_formed : host.verify_llvm_module prepared ≡ success tt
    pub allowed : AllowedModule (host.verified_view prepared)
    pub optimized : (1 ≤ options.opt_level) × (options.opt_level ≤ 3)
    pub passed : run_pipeline host prepared options.opt_level ≡ success launch.module_run
    pub well_formed_after : host.verify_llvm_module launch.module_run ≡ success tt
    pub allowed_after : AllowedModule (host.verified_view launch.module_run)
    pub resolved :
        resolve_entry_point (host.entry_view launch.module_run) (host.text options.entry_symbol)
        ≡ success launch.entry

  abbrev Stage : Module → Type 0
  Stage m = (host.verify_llvm_module m ≡ success tt) × AllowedModule (host.verified_view m)

  verify_stage-Stage : (m : Module) → Ensures (λ (accepted : Bool). Stage m) (verify_stage host m)
  verify_stage-Stage m =
      bind-Ensures (λ w. host.verify_llvm_module m ≡ success w) (λ (accepted : Bool). Stage m)
        (host.verify_llvm_module m) _ (itself (host.verify_llvm_module m))
        (λ w e. with_stage (verify (host.verified_view m)) refl e)
    where
      with_stage :
          {w : Unit {0}} (call : Expected VerifyError Bool)
          → verify (host.verified_view m) ≡ call
          → host.verify_llvm_module m ≡ success w
          → Ensures (λ (accepted : Bool). Stage m) (with_error managed_verifier call)
      with_stage (failure error) v e = tt
      with_stage {w} (success b) v e = (
        e,
        (verify_iff (host.verified_view m)).0
            (v ∙ ap success (verify-true (host.verified_view m) b v)),
      )

  check_target-IsPrepared :
      (path : List ℕ) (loaded : Module) (arch : Option ℕ)
      → host.load_bitcode_module path ≡ success loaded
      → host.target_arch loaded ≡ arch
      → Ensures (IsPrepared path) (check_target host arch loaded)
  check_target-IsPrepared path loaded none l e = record {
    loaded = loaded;
    is_loaded = l;
    for_host = refl;
    same_arch = inl e;
  }
  check_target-IsPrepared path loaded (some arch) l e = elim (Bool-cases (arch == host.host_arch)) [
    | inr other ↦ rw other tt
    | inl same ↦ rw same record {
      loaded = loaded;
      is_loaded = l;
      for_host = refl;
      same_arch = inr (e ∙ ap some ((==_iff arch host.host_arch).0 same));
    }
  ]

  abbrev Bounds : ℕ → Type 0
  Bounds opt_level = (1 ≤ opt_level) × (opt_level ≤ 3)

  run_pipeline-level :
      (m : Module) (opt_level : ℕ)
      → Ensures (λ (p : Module). Bounds opt_level) (run_pipeline host m opt_level)
  unfolding run_pipeline
  run_pipeline-level m opt_level =
      bind-Ensures (λ (level : OptimizationLevel). Bounds opt_level)
        (λ (p : Module). Bounds opt_level) (to_optimization_level opt_level) _
        (level_bounds opt_level) (λ level bounds. always (Bounds opt_level) _ bounds)

  prepare_launch-IsVerified :
      (options : Options) (requests : GcRequests)
      → Ensures (IsVerified options) (prepare_launch host options requests)
  unfolding prepare_launch
  prepare_launch-IsVerified options requests =
      let goal = IsVerified options in
      bind-Ensures (λ w. Unit {0}) goal host.create_executor _ (always Unit _ tt)
        (λ executor _.
          bind-Ensures _ goal (host.load_bitcode_module options.input_path) _ (itself _)
            (λ loaded l.
              bind-Ensures (IsPrepared options.input_path) goal
                (prepare_module_for_execution host loaded) _
                (check_target-IsPrepared options.input_path loaded (host.target_arch loaded) l refl)
                (λ prepared ready.
                  bind-Ensures (λ (b : Bool). Stage prepared) goal (verify_stage host prepared) _
                    (verify_stage-Stage prepared)
                    (λ b1 before.
                      bind-Ensures
                        (λ (p : Module).
                          (run_pipeline host prepared options.opt_level ≡ success p)
                          × Bounds options.opt_level)
                        goal (run_pipeline host prepared options.opt_level) _
                        (both _ _ _ (itself _) (run_pipeline-level prepared options.opt_level))
                        (λ passed made.
                          bind-Ensures (λ (b : Bool). Stage passed) goal (verify_stage host passed)
                            _ (verify_stage-Stage passed)
                            (λ b2 after.
                              launched options requests prepared passed ready before made
                                after))))))
    where
      launched :
          (options : Options) (requests : GcRequests) (prepared passed : Module)
          → IsPrepared options.input_path prepared
          → Stage prepared
          → (run_pipeline host prepared options.opt_level ≡ success passed)
            × Bounds options.opt_level
          → Stage passed
          → Ensures (IsVerified options) (launch_stage host options requests passed)
      launched options requests prepared passed ready before made after =
          bind-Ensures _ (IsVerified options)
            (with_error entry_point
              (resolve_entry_point (host.entry_view passed) (host.text options.entry_symbol)))
            _ (with_error-Ensures entry_point _)
            (λ entry resolved.
              bind-Ensures (λ w. Unit {0}) (IsVerified options) (host.add_module passed) _
                (always Unit _ tt)
                (λ added _. record {
                  prepared = prepared;
                  is_prepared = ready;
                  well_formed = before.0;
                  allowed = before.1;
                  optimized = made.1;
                  passed = made.0;
                  well_formed_after = after.0;
                  allowed_after = after.1;
                  resolved = resolved;
                }))

  -- The call of a program that is verified, with its result.
  abbrev pub VerifiedCall : Options → (exit_code : ℕ) → Type 0
  VerifiedCall options exit_code =
      (launch : Launch host) × IsVerified options launch
      × (host.invoke launch.module_run launch.entry (host.text options.input_path)
            (map host.text options.program_args)
          ≡ success exit_code)

  -- A program that is run has an exit code only from a call of its entry point, and only if LLVM's
  -- verifier and the managed verifier accept its module for the target of the host, the passes for a
  -- level from 1 to 3 make another module of it, both verifiers accept that one too, and the entry
  -- point was resolved in it. So no instruction of the module that is called is one that the managed
  -- verifier forbids.
  pub run_managed_program-VerifiedCall :
      (options : Options) (requests : GcRequests) (exit_code : ℕ)
      → run_managed_program host options requests ≡ success exit_code
      → VerifiedCall options exit_code
  unfolding run_managed_program
  run_managed_program-VerifiedCall options requests exit_code e =
      subst (Ensures (VerifiedCall options)) e (
        bind-Ensures (IsVerified options) (VerifiedCall options)
          (prepare_launch host options requests) _ (prepare_launch-IsVerified options requests)
          (λ launch verified. called launch verified _ refl))
    where
      called :
          (launch : Launch host)
          → IsVerified options launch
          → (call : Expected RunError ℕ)
          → host.invoke launch.module_run launch.entry
              (host.text options.input_path)
              (map host.text options.program_args)
            ≡ call
          → Ensures (VerifiedCall options) call
      called launch verified (failure error) i = tt
      called launch verified (success code) i = (launch, verified, i)
