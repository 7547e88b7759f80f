-- ===== src/Lowering/Stands.antt =====
-- What a new value stands for.
use lona_mvm.Prelude.{
  ℕ, ◌≡◌, refl, true, Option, some, List, [], ◌∷◌, arith, Bool-cases, inl, inr, sym, Option-cases,
  ◌==◌, ==_iff, subst, some-injective,
}
use lona_mvm.Prelude.Expected.{Ensures}
use lona_mvm.Lowering.{
  IrType, pointer, void_type, other_type, same_type, NewValue, new_type, ConstantKind, IrView, Maps,
  map_to, map_value, map_constant, map_null, target_type,
}

pub same_type-eq : (a b : IrType) → same_type a b ≡ true → a ≡ b
same_type-eq (pointer a) (pointer b) h = ground arith
same_type-eq (pointer a) void_type h = cc
same_type-eq (pointer a) (other_type b) h = cc
same_type-eq void_type (pointer b) h = cc
same_type-eq void_type void_type h = refl
same_type-eq void_type (other_type b) h = cc
same_type-eq (other_type a) (pointer b) h = cc
same_type-eq (other_type a) void_type h = cc
same_type-eq (other_type a) (other_type b) h = ground arith

module _ (ir : IrView) where
  -- The new value was made for the old one, or is the old one, or the constant of its kind.
  pub data Stands (v : ℕ) : NewValue → Type 0 where
    made_for : {type : IrType} → Stands v (NewValue.lowered v type)
    replaces : {type : IrType} → Stands v (NewValue.replacement v type)
    block : {type : IrType} → Stands v (NewValue.new_block v type)
    itself : {type : IrType} → Stands v (NewValue.same v type)
    null :
        {type : IrType}
        → ir.constant_kind v ≡ ConstantKind.pointer_null
        → Stands v (NewValue.null_of type)
    undef :
        {type : IrType}
        → ir.constant_kind v ≡ ConstantKind.undef
        → Stands v (NewValue.undef_of type)
    poison :
        {type : IrType}
        → ir.constant_kind v ≡ ConstantKind.poison
        → Stands v (NewValue.undef_of type)
    zero :
        {type : IrType}
        → ir.constant_kind v ≡ ConstantKind.aggregate_zero
        → Stands v (NewValue.zero_of type)

  abbrev pub MapsStand : Maps → Type 0
  MapsStand maps = (v : ℕ) (new : NewValue) → maps.value_map v ≡ some new → Stands v new

  map_null-Stands :
      (v : ℕ) (type : IrType)
      → ir.constant_kind v ≡ ConstantKind.pointer_null
      → Ensures (Stands v) (map_null ir type)
  map_null-Stands v (pointer address_space) e = Stands.null e
  map_null-Stands v void_type e = tt
  map_null-Stands v (other_type id) e = tt

  map_constant-Stands :
      (kind : ConstantKind) (v : ℕ) (expected : Option IrType)
      → ir.constant_kind v ≡ kind
      → Ensures (Stands v) (map_constant ir kind v expected)
  unfolding map_constant
  map_constant-Stands ConstantKind.pointer_null v expected e =
      map_null-Stands v (target_type ir expected v) e
  map_constant-Stands ConstantKind.undef v expected e = Stands.undef e
  map_constant-Stands ConstantKind.poison v expected e = Stands.poison e
  map_constant-Stands ConstantKind.aggregate_zero v expected e = Stands.zero e
  map_constant-Stands ConstantKind.constant v expected e =
      elim (Bool-cases (same_type (ir.type_of v) (target_type ir expected v))) [
        | inl same ↦ rw same Stands.itself
        | inr other ↦ rw other tt
      ]
  map_constant-Stands ConstantKind.no_constant v expected e = tt

  pub map_value-Stands :
      (maps : Maps)
      → MapsStand maps
      → (v : ℕ) (expected : Option IrType) → Ensures (Stands v) (map_value ir maps v expected)
  unfolding map_value
  map_value-Stands maps stand v expected = elim (Option-cases (maps.value_map v)) [
    | inr (new, e) ↦ rw e (stand v new e)
    | inl e ↦ elim (Option-cases (maps.function_map v)) [
      | inr (signature, f) ↦ rw (e, f) Stands.replaces
      | inl f ↦ elim (Bool-cases (maps.block_map v)) [
        | inl b ↦ rw (e, f, b) Stands.block
        | inr b ↦ rw (e, f, b) (map_constant-Stands (ir.constant_kind v) v expected refl)
      ]
    ]
  ]

  pub map_to-MapsStand :
      (v : ℕ) (type : IrType) (maps : Maps)
      → MapsStand maps
      → MapsStand (map_to v (NewValue.lowered v type) maps)
  map_to-MapsStand v type maps stand w new e = elim (Bool-cases (v == w)) [
    | inl same ↦
        let at : some (NewValue.lowered v type) ≡ some new = rw same at e in
        let v-w : v ≡ w = (==_iff v w).0 same in
        subst (Stands w) (some-injective at)
          (subst (λ (x : ℕ). Stands w (NewValue.lowered x type)) (sym v-w) Stands.made_for)
    | inr other ↦ stand w new (rw other at e)
  ]

  -- Each new value stands for the old one at its place.
  abbrev pub AllStand : List ℕ → List NewValue → Type 0
  AllStand [] [] = Unit {0}
  AllStand [] (new ∷ more) = ⊥
  AllStand (v ∷ vs) [] = ⊥
  AllStand (v ∷ vs) (new ∷ more) = Stands v new × AllStand vs more

  -- And it has its type.
  abbrev pub AllKeep : List ℕ → List NewValue → Type 0
  AllKeep (v ∷ vs) (new ∷ more) = (new_type new ≡ ir.type_of v) × AllKeep vs more
  AllKeep _ _ = Unit {0}
