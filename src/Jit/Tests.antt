-- ===== src/Jit/Tests.antt =====
-- A module with an entry point that takes the command line.
use lona_mvm.Prelude.{◌≡◌, refl, false, some, List, [], ◌∷◌}
use lona_mvm.Prelude.Expected.{success}
use lona_mvm.Jit.{
  IrType, IrFunction, argv_void, EntryPoint, classify_entry_point, resolve_default,
  resolve_entry_point,
}
use lona_mvm.Jit.Typed.{Typed}
use lona_mvm.Jit.Resolve.{wanted, resolve_entry_point-Typed}

abbrev helper : IrFunction
helper = record {
  name = "helper";
  is_var_arg = false;
  return_type = IrType.pointer;
  param_types = [];
}

abbrev main_function : IrFunction
main_function = record {
  name = "main";
  is_var_arg = false;
  return_type = IrType.void;
  param_types = IrType.integer 32 ∷ IrType.pointer ∷ [];
}

abbrev functions : List IrFunction
functions = helper ∷ main_function ∷ []

abbrev main_entry : EntryPoint
main_entry = record { symbol = "main"; signature = argv_void }

main-resolved : resolve_entry_point functions "" ≡ success main_entry
unfolding resolve_entry_point resolve_default classify_entry_point
main-resolved = refl

resolve_entry_point-Typed_example :
    (f : IrFunction) × (some main_entry.symbol ≡ wanted functions "") × Typed functions main_entry f
resolve_entry_point-Typed_example = resolve_entry_point-Typed functions "" main_entry main-resolved
