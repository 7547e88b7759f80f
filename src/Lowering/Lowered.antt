-- ===== src/Lowering/Lowered.antt =====
-- What an instruction is rewritten to.
use lona_mvm.Prelude.{
  ℕ, ◌≡◌, refl, ◌||◌, ◌&&◌, Option, some, none, List, [], ◌∷◌, Bool-cases, inl, inr, if_both, subst,
}
use lona_mvm.Prelude.Expected.{Expected, Ensures, ◌>>=◌, bind-Ensures}
use lona_mvm.Managed.Module.{ModuleView}
use lona_mvm.Managed.Store.{States}
use lona_mvm.Lowering.{
  IrType, is_pointer_type, same_type, NewValue, new_type, LoweringError, IrView, Maps, map_value,
  Signature,
}
use lona_mvm.Lowering.Replace.{result_of}
use lona_mvm.Lowering.Instructions.{
  OldInstruction, NewInstruction, Opcode, expected_store_type, map_values, clone_operands, map_args,
  keep_type, lower_instruction, is_function, any_managed_arg, is_managed_value, made_one,
  clone_generic_instruction, lower_alloca, lower_load, lower_store, lower_gep, lower_select,
  lower_freeze, lower_icmp, lower_call, lower_return, direct_callee,
}
use lona_mvm.Lowering.Stands.{Stands, MapsStand, AllStand, AllKeep, map_value-Stands, same_type-eq}
use lona_mvm.Lowering.Meaning.{opcode_of, operands_of, IsTyped, IsLowered, LowersTo}

module _ (ir : IrView) (m : ModuleView) (s : States) where
  module _ (maps : Maps) (stand : MapsStand ir maps) where
    mapped :
        (v : ℕ) (expected : Option IrType) → Ensures (Stands ir v) (map_value ir maps v expected)
    mapped = map_value-Stands ir maps stand

    -- What follows a mapped operand.
    map_then :
        {T : Type 0} (Q : T → Type 0) (v : ℕ) (expected : Option IrType)
        (continue : NewValue → Expected LoweringError T)
        → ((new : NewValue) → Stands ir v new → Ensures Q (continue new))
        → Ensures Q (map_value ir maps v expected >>= continue)
    map_then Q v expected continue next =
        bind-Ensures (Stands ir v) Q (map_value ir maps v expected) continue (mapped v expected)
          next

    abbrev own_type : ℕ → Option IrType
    own_type v = some (ir.type_of v)

    map_values-AllStand : (vs : List ℕ) → Ensures (AllStand ir vs) (map_values ir m s maps vs)
    unfolding map_values
    map_values-AllStand [] = tt
    map_values-AllStand (v ∷ vs) = map_then (AllStand ir (v ∷ vs)) v (own_type v) _ (λ new stands.
        bind-Ensures (AllStand ir vs) (AllStand ir (v ∷ vs)) (map_values ir m s maps vs) _
          (map_values-AllStand vs) (λ more all. (stands, all)))

    map_args-AllStand :
        (types : List IrType) (vs : List ℕ)
        → Ensures (AllStand ir vs) (map_args ir m s maps types vs)
    unfolding map_args
    map_args-AllStand types [] = tt
    map_args-AllStand [] (v ∷ vs) = map_then (AllStand ir (v ∷ vs)) v (own_type v) _ (λ new stands.
        bind-Ensures (AllStand ir vs) (AllStand ir (v ∷ vs)) (map_args ir m s maps [] vs) _
          (map_args-AllStand [] vs) (λ more all. (stands, all)))
    map_args-AllStand (type ∷ types) (v ∷ vs) =
        map_then (AllStand ir (v ∷ vs)) v (some type) _ (λ new stands.
          bind-Ensures (AllStand ir vs) (AllStand ir (v ∷ vs)) (map_args ir m s maps types vs) _
            (map_args-AllStand types vs) (λ more all. (stands, all)))

    abbrev Kept : List ℕ → List NewValue → Type 0
    Kept vs new = AllStand ir vs new × AllKeep ir vs new

    keep_type-Kept :
        (v : ℕ) (new : NewValue)
        → Stands ir v new
        → Ensures
            (λ (n : NewValue). Stands ir v n × (new_type n ≡ ir.type_of v))
            (keep_type ir m s maps v new)
    keep_type-Kept v new stands = elim (Bool-cases (same_type (new_type new) (ir.type_of v))) [
      | inl same ↦ rw same (stands, same_type-eq _ _ same)
      | inr other ↦ rw other tt
    ]

    clone_operands-Kept : (vs : List ℕ) → Ensures (Kept vs) (clone_operands ir m s maps vs)
    unfolding clone_operands
    clone_operands-Kept [] = (tt, tt)
    clone_operands-Kept (v ∷ vs) = map_then (Kept (v ∷ vs)) v (own_type v) _ (λ first stands.
        bind-Ensures (λ (n : NewValue). Stands ir v n × (new_type n ≡ ir.type_of v)) (Kept (v ∷ vs))
          (keep_type ir m s maps v first) _ (keep_type-Kept v first stands)
          (λ new kept.
            bind-Ensures (Kept vs) (Kept (v ∷ vs)) (clone_operands ir m s maps vs) _
              (clone_operands-Kept vs) (λ more all. ((kept.0, all.0), (kept.1, all.1)))))

    -- A rewriting of the instruction, as what `lower_instruction` makes of it.
    one :
        (i : OldInstruction) (lowering : Expected LoweringError NewInstruction)
        → Ensures (IsLowered ir m s i) lowering
        → Ensures (LowersTo ir m s i) (made_one ir m s maps lowering)
    one i lowering lowered =
        bind-Ensures (IsLowered ir m s i) (LowersTo ir m s i) lowering _ lowered (λ new done. done)

    store-IsLowered :
        (r v p : ℕ)
        → Ensures (IsLowered ir m s (OldInstruction.store r v p)) (lower_store ir m s maps r v p)
    store-IsLowered r v p =
        let i = OldInstruction.store r v p in
        let wanted = expected_store_type ir m s v p in
        map_then (IsLowered ir m s i) p (own_type p) _ (λ new_p stands_p.
          map_then (IsLowered ir m s i) v (some wanted) _ (λ new_v stands_v.
            elim (Bool-cases (same_type (new_type new_v) wanted)) [
              | inl same ↦ rw same record {
                same_opcode = refl;
                same_result = refl;
                operands = (stands_v, (stands_p, tt));
                typed = same_type-eq _ _ same;
              }
              | inr other ↦ rw other tt
            ]))

    gep-IsLowered :
        (r p : ℕ) (indices : List ℕ)
        → Ensures
            (IsLowered ir m s (OldInstruction.get_element_ptr r p indices))
            (lower_gep ir m s maps r p indices)
    gep-IsLowered r p indices =
        let i = OldInstruction.get_element_ptr r p indices in
        map_then (IsLowered ir m s i) p (own_type p) _ (λ base stands.
          bind-Ensures (AllStand ir indices) (IsLowered ir m s i) (map_values ir m s maps indices) _
            (map_values-AllStand indices)
            (λ new all. record {
              same_opcode = refl;
              same_result = refl;
              operands = (stands, all);
              typed = tt;
            }))

    select-IsLowered :
        (r c a b : ℕ)
        → Ensures
            (IsLowered ir m s (OldInstruction.select r c a b))
            (lower_select ir m s maps r c a b)
    select-IsLowered r c a b =
        let i = OldInstruction.select r c a b in
        map_then (IsLowered ir m s i) c (own_type c) _ (λ nc sc.
          map_then (IsLowered ir m s i) a _ _ (λ na sa.
            map_then (IsLowered ir m s i) b _ _ (λ nb sb. record {
              same_opcode = refl;
              same_result = refl;
              operands = (sc, (sa, (sb, tt)));
              typed = tt;
            })))

    clone-IsLowered :
        (i : OldInstruction) (opcode : Opcode) (operands : List ℕ)
        → opcode ≡ opcode_of i
        → operands ≡ operands_of ir m s i
        → ((new : List NewValue) → AllKeep ir operands new → IsTyped ir m s i new)
        → Ensures
            (IsLowered ir m s i)
            (clone_generic_instruction ir m s maps opcode (result_of i) operands)
    clone-IsLowered i opcode operands same_op same_operands typed =
        bind-Ensures (Kept operands) (IsLowered ir m s i) (clone_operands ir m s maps operands) _
          (clone_operands-Kept operands)
          (λ new kept. record {
            same_opcode = same_op;
            same_result = refl;
            operands = subst (λ (vs : List ℕ). AllStand ir vs new) same_operands kept.0;
            typed = typed new kept.1;
          })

    freeze-IsLowered :
        (r v : ℕ)
        → Ensures (IsLowered ir m s (OldInstruction.freeze r v)) (lower_freeze ir m s maps r v)
    freeze-IsLowered r v =
        map_then (IsLowered ir m s (OldInstruction.freeze r v)) v _ _ (λ new stands. record {
          same_opcode = refl;
          same_result = refl;
          operands = (stands, tt);
          typed = tt;
        })

    icmp-IsLowered :
        (r a b : ℕ)
        → Ensures (IsLowered ir m s (OldInstruction.icmp r a b)) (lower_icmp ir m s maps r a b)
    icmp-IsLowered r a b =
        let i = OldInstruction.icmp r a b in
        map_then (IsLowered ir m s i) a _ _ (λ na sa. map_then (IsLowered ir m s i) b _ _ (λ nb sb.
          record { same_opcode = refl; same_result = refl; operands = (sa, (sb, tt)); typed = tt }))

    direct_callee-Stands :
        (callee : ℕ) (known : Option Signature)
        → Stands ir callee (direct_callee ir m s maps callee known).0
    direct_callee-Stands callee none = Stands.itself
    direct_callee-Stands callee (some signature) = Stands.replaces

    call-IsLowered :
        (r f : ℕ) (args : List ℕ)
        → Ensures
            (IsLowered ir m s (OldInstruction.call r f args))
            (lower_call ir m s maps r f args)
    call-IsLowered r f args =
        let i = OldInstruction.call r f args in
        let callee = m.strip_pointer_casts f in
        elim (Bool-cases (is_function ir m s (m.kind callee))) [
          | inl direct ↦ rw direct (
              bind-Ensures (AllStand ir args) (IsLowered ir m s i)
                (map_args ir m s maps
                  (direct_callee ir m s maps callee (maps.function_map callee)).1.params args)
                _ (map_args-AllStand _ args)
                (λ new all. record {
                  same_opcode = refl;
                  same_result = refl;
                  operands =
                      (rw direct (direct_callee-Stands callee (maps.function_map callee)), all);
                  typed = tt;
                }))
          | inr indirect ↦ rw indirect (
              if_both (Ensures (IsLowered ir m s i))
                (is_pointer_type (ir.type_of r) && is_managed_value ir m s r) (λ _. tt)
                (λ _.
                  if_both (Ensures (IsLowered ir m s i)) (any_managed_arg ir m s maps args)
                    (λ _. tt)
                    (λ _.
                      bind-Ensures (AllStand ir args) (IsLowered ir m s i)
                        (map_values ir m s maps args) _ (map_values-AllStand args)
                        (λ new all. map_then (IsLowered ir m s i) f (own_type f) _ (λ target stands.
                          record {
                            same_opcode = refl;
                            same_result = refl;
                            operands = (rw indirect stands, all);
                            typed = tt;
                          })))))
        ]

    -- The rewriting of any instruction.
    pub lower_instruction-LowersTo :
        (return_type : IrType) (i : OldInstruction)
        → Ensures (LowersTo ir m s i) (lower_instruction ir m s maps return_type i)
    unfolding lower_instruction
    lower_instruction-LowersTo t (OldInstruction.alloca r type size) =
        one (OldInstruction.alloca r type size) (lower_alloca ir m s maps r type size) (
          map_then (IsLowered ir m s (OldInstruction.alloca r type size)) size _ _ (λ new stands.
            record { same_opcode = refl; same_result = refl; operands = (stands, tt); typed = tt }))
    lower_instruction-LowersTo t (OldInstruction.phi r incoming) = record {
      same_opcode = refl;
      same_result = refl;
      operands = tt;
      typed = tt;
    }
    lower_instruction-LowersTo t (OldInstruction.load r p) =
        one (OldInstruction.load r p) (lower_load ir m s maps r p) (
          map_then (IsLowered ir m s (OldInstruction.load r p)) p _ _ (λ new stands. record {
            same_opcode = refl;
            same_result = refl;
            operands = (stands, tt);
            typed = tt;
          }))
    lower_instruction-LowersTo t (OldInstruction.store r v p) =
        one (OldInstruction.store r v p) (lower_store ir m s maps r v p) (store-IsLowered r v p)
    lower_instruction-LowersTo t (OldInstruction.get_element_ptr r p indices) =
        one (OldInstruction.get_element_ptr r p indices) (lower_gep ir m s maps r p indices)
          (gep-IsLowered r p indices)
    lower_instruction-LowersTo t (OldInstruction.select r c a b) =
        one (OldInstruction.select r c a b) (lower_select ir m s maps r c a b)
          (select-IsLowered r c a b)
    lower_instruction-LowersTo t (OldInstruction.freeze r v) =
        let i = OldInstruction.freeze r v in
        one i _ (
          if_both (Ensures (IsLowered ir m s i))
            (is_pointer_type (ir.type_of r) || is_pointer_type (ir.type_of v))
            (λ _. freeze-IsLowered r v)
            (λ _. clone-IsLowered i Opcode.freeze (v ∷ []) refl refl (λ new keep. tt)))
    lower_instruction-LowersTo t (OldInstruction.icmp r a b) =
        let i = OldInstruction.icmp r a b in
        one i _ (
          if_both (Ensures (IsLowered ir m s i))
            (is_pointer_type (ir.type_of a) || is_pointer_type (ir.type_of b))
            (λ _. icmp-IsLowered r a b)
            (λ _. clone-IsLowered i Opcode.icmp (a ∷ b ∷ []) refl refl (λ new keep. tt)))
    lower_instruction-LowersTo t (OldInstruction.call r f args) =
        one (OldInstruction.call r f args) (lower_call ir m s maps r f args)
          (call-IsLowered r f args)
    lower_instruction-LowersTo t (OldInstruction.debug_call r) = refl
    lower_instruction-LowersTo t (OldInstruction.invoke r) = tt
    lower_instruction-LowersTo t (OldInstruction.ret r none) = record {
      same_opcode = refl;
      same_result = refl;
      operands = tt;
      typed = tt;
    }
    lower_instruction-LowersTo t (OldInstruction.ret r (some v)) =
        let i = OldInstruction.ret r (some v) in
        one i (lower_return ir m s maps t r (some v)) (
          map_then (IsLowered ir m s i) v _ _ (λ new stands. record {
            same_opcode = refl;
            same_result = refl;
            operands = (stands, tt);
            typed = tt;
          }))
    lower_instruction-LowersTo t (OldInstruction.other_instruction r operands) =
        let i = OldInstruction.other_instruction r operands in
        one i _ (clone-IsLowered i (Opcode.other_opcode r) operands refl refl (λ new keep. keep))
