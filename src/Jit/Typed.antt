-- ===== src/Jit/Typed.antt =====
-- The entry point that is chosen is called at its own type.
use lona_mvm.Prelude.{
  ◌≡◌, refl, Bool, true, false, not, ◌&&◌, List, [], ◌∷◌, if◌then◌else◌, Among, arith, if_both, ap,
}
use lona_mvm.Prelude.Expected.{Expected, success, failure}
use lona_mvm.Jit.{
  IrType, IrFunction, EntrySignature, no_args_int32, no_args_void, argv_int32, argv_void,
  EntryPoint, EntryError, is_int32, is_void, is_pointer_type, has_no_params, has_argv_params,
  classify_entry_point,
}

-- The type that the call of each signature has.
abbrev pub returns : EntrySignature → IrType
returns no_args_int32 = IrType.integer 32
returns no_args_void = IrType.void
returns argv_int32 = IrType.integer 32
returns argv_void = IrType.void

abbrev pub takes : EntrySignature → List IrType
takes no_args_int32 = []
takes no_args_void = []
takes argv_int32 = IrType.integer 32 ∷ IrType.pointer ∷ []
takes argv_void = IrType.integer 32 ∷ IrType.pointer ∷ []

-- A function of the module that has the entry's name and type.
pub record Typed (fs : List IrFunction) (e : EntryPoint) (f : IrFunction) : Type 0 where
  pub among : Among f fs
  pub name : f.name ≡ e.symbol
  pub not_variadic : f.is_var_arg ≡ false
  pub return_type : f.return_type ≡ returns e.signature
  pub param_types : f.param_types ≡ takes e.signature

is_int32-eq : (t : IrType) → is_int32 t ≡ true → t ≡ IrType.integer 32
is_int32-eq (IrType.integer bits) h = ap IrType.integer (ground arith)
is_int32-eq IrType.void h = cc
is_int32-eq IrType.pointer h = cc
is_int32-eq IrType.other_type h = cc

is_void-eq : (t : IrType) → is_void t ≡ true → t ≡ IrType.void
is_void-eq IrType.void h = refl
is_void-eq (IrType.integer bits) h = cc
is_void-eq IrType.pointer h = cc
is_void-eq IrType.other_type h = cc

is_pointer_type-eq : (t : IrType) → is_pointer_type t ≡ true → t ≡ IrType.pointer
is_pointer_type-eq IrType.pointer h = refl
is_pointer_type-eq (IrType.integer bits) h = cc
is_pointer_type-eq IrType.void h = cc
is_pointer_type-eq IrType.other_type h = cc

has_no_params-eq : (ts : List IrType) → has_no_params ts ≡ true → ts ≡ []
has_no_params-eq [] h = refl
has_no_params-eq (t ∷ ts) h = cc

has_argv_params-eq :
    (ts : List IrType) → has_argv_params ts ≡ true → ts ≡ IrType.integer 32 ∷ IrType.pointer ∷ []
has_argv_params-eq [] h = cc
has_argv_params-eq (a ∷ []) h = cc
has_argv_params-eq (a ∷ b ∷ []) h =
    cc (is_int32-eq a (ground arith), is_pointer_type-eq b (ground arith))
has_argv_params-eq (a ∷ b ∷ c ∷ ts) h = cc

module _ (fs : List IrFunction) where
  -- What an answer for a function means.
  abbrev pub Answers : IrFunction → Expected EntryError EntryPoint → Type 0
  Answers f (failure error) = Unit {0}
  Answers f (success e) = Typed fs e f

  pub classify-Typed : (f : IrFunction) → Among f fs → Answers f (classify_entry_point f)
  unfolding classify_entry_point
  classify-Typed f m =
      if_both (Answers f) f.is_var_arg (λ variadic. tt)
        (λ fixed.
          if_both (Answers f) (not (is_int32 f.return_type) && not (is_void f.return_type))
            (λ bad. tt)
            (λ good.
              if_both (Answers f) (has_no_params f.param_types)
                (λ empty.
                  without fixed (has_no_params-eq f.param_types empty) (is_int32 f.return_type) refl
                    (λ other. ground arith))
                (λ some_params.
                  if_both (Answers f) (has_argv_params f.param_types)
                    (λ argv.
                      with_argv fixed (has_argv_params-eq f.param_types argv)
                        (is_int32 f.return_type) refl (λ other. ground arith))
                    (λ no_match. tt))))
    where
      without :
          f.is_var_arg ≡ false
          → f.param_types ≡ []
          → (b : Bool) → is_int32 f.return_type ≡ b
          → (b ≡ false → is_void f.return_type ≡ true)
          → Typed fs
              (record { symbol = f.name; signature = if b then no_args_int32 else no_args_void })
              f
      without fixed params true e void = record {
        among = m;
        name = refl;
        not_variadic = fixed;
        return_type = is_int32-eq f.return_type e;
        param_types = params;
      }
      without fixed params false e void = record {
        among = m;
        name = refl;
        not_variadic = fixed;
        return_type = is_void-eq f.return_type (void refl);
        param_types = params;
      }

      with_argv :
          f.is_var_arg ≡ false
          → f.param_types ≡ IrType.integer 32 ∷ IrType.pointer ∷ []
          → (b : Bool) → is_int32 f.return_type ≡ b
          → (b ≡ false → is_void f.return_type ≡ true)
          → Typed fs (record { symbol = f.name; signature = if b then argv_int32 else argv_void }) f
      with_argv fixed params true e void = record {
        among = m;
        name = refl;
        not_variadic = fixed;
        return_type = is_int32-eq f.return_type e;
        param_types = params;
      }
      with_argv fixed params false e void = record {
        among = m;
        name = refl;
        not_variadic = fixed;
        return_type = is_void-eq f.return_type (void refl);
        param_types = params;
      }
