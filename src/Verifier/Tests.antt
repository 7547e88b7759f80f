-- ===== src/Verifier/Tests.antt =====
-- A module with one function that allocates by the runtime.
use lona_mvm.Prelude.{◌≡◌, ◌↔◌, true, false, [], ◌∷◌}
use lona_mvm.Prelude.Expected.{success}
use lona_mvm.Verifier.{VerifiedFunction, VerifiedModule, call, function, verify}
use lona_mvm.Verifier.Allowed.{AllowedModule, verify_iff}

abbrev allocating : VerifiedFunction
allocating = record {
  name = "f";
  type_text = "ptr ()";
  is_declaration = false;
  is_intrinsic = false;
  has_subprogram = true;
  instructions = record { kind = call (function "__mvm_malloc"); text = "call" } ∷ [];
}

abbrev sample : VerifiedModule
sample = record {
  has_debug_compile_units = true;
  has_inline_asm = false;
  functions = allocating ∷ [];
}

verify_iff_example : (verify sample ≡ success true) ↔ AllowedModule sample
verify_iff_example = verify_iff sample
