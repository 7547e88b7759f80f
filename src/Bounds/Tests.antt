-- ===== src/Bounds/Tests.antt =====
-- A function with a managed array, in a slot and through a phi, and GEPs into it and into arrays of
-- constant length.
use lona_mvm.Prelude.{
  ℕ, ◌≡◌, ◌≢◌, ◌<◌, ◌↔◌, refl, true, false, some, none, Option, List, [], ◌∷◌, if◌then◌else◌, ◌==◌,
  arith, inl, inr, subst, Bool-cases,
}
use lona_mvm.Bounds.{
  IndexValue, GepType, GepInstruction, Condition, Normalized, instrument_gep, add_checks,
  walk_indices, inject_bounds_checks,
}
use lona_mvm.Bounds.Base.{
  Body, BaseKind, SlotUser, Search, stored_value, sources_of, is_managed_array_base_impl,
  is_managed_array_base,
}
use lona_mvm.Bounds.Base.Terminates.{IsArray, IsClosed, AllIn, is_managed_array_base_lem}
use lona_mvm.Bounds.Checked.{Checked}
use lona_mvm.Bounds.Trap.{Run, traps, Violates, instrument_gep_lem}
use lona_mvm.Bounds.Signed.{sign_extended, KeepsSign, not_trapped}

-- 1 is the allocation, 2 a slot that holds it, 3 a read of the slot, 4 a phi of one value, 5 a phi of
-- the same value twice.
abbrev kinds : ℕ → BaseKind
kinds v =
    if v == 1
    then BaseKind.call (some "__mvm_array_malloc")
    else if v == 3
    then BaseKind.load (some 2)
    else if v == 4
    then BaseKind.phi (3 ∷ [])
    else if v == 5
    then BaseKind.phi (1 ∷ 1 ∷ [])
    else BaseKind.other_value

abbrev body : Body
body = record {
  kind = kinds;
  is_pointer = λ v. true;
  strip_pointer_casts = λ v. v;
  users = λ v.
      if v == 2
      then SlotUser.ignorable_intrinsic ∷ SlotUser.store 6 1 2 ∷ SlotUser.load 3 ∷ []
      else [];
  dominates = λ store load. true;
}

phi_test : is_managed_array_base body 6 4 ≡ true
unfolding is_managed_array_base_impl stored_value
phi_test = refl

-- Both incoming values are the allocation, but the second one counts as visited.
shared_test : is_managed_array_base body 6 5 ≡ false
unfolding is_managed_array_base_impl
shared_test = refl

abbrev values : List ℕ
values = 1 ∷ 2 ∷ 3 ∷ 4 ∷ 5 ∷ []

abbrev KnownSources : Option (List ℕ) → Type 0
KnownSources none = Unit {0}
KnownSources (some ws) = AllIn body values ws

sources_known : (v : ℕ) → KnownSources (sources_of body v (kinds v))
unfolding stored_value
sources_known v = elim (Bool-cases (v == 1)) [
  | inl e ↦ rw e tt
  | inr n1 ↦ elim (Bool-cases (v == 3)) [
    | inl e ↦ rw (n1, e) (refl, tt)
    | inr n3 ↦ elim (Bool-cases (v == 4)) [
      | inl e ↦ rw (n1, n3, e) (refl, tt)
      | inr n4 ↦ elim (Bool-cases (v == 5)) [
        | inl e ↦ rw (n1, n3, n4, e) (refl, (refl, tt))
        | inr n5 ↦ rw (n1, n3, n4, n5) tt
      ]
    ]
  ]
]

values-IsClosed : IsClosed body values
values-IsClosed = record {
  stripped = λ v h. h;
  sources = λ v ws h e. subst KnownSources e (sources_known v);
}

is_managed_array_base_lem_example :
    (is_managed_array_base_impl body 6 [] 4 ≢ Search.out_of_fuel)
    × (is_managed_array_base body 6 4 ≡ true → IsArray body 4)
is_managed_array_base_lem_example =
    is_managed_array_base_lem body values values-IsClosed 6 4 refl (omega arith)

-- The array with the first index, and in each element an array of 300 with an index of 8 bits.
abbrev gep : GepInstruction
gep = record {
  pointer_operand = 4;
  source_element_type = GepType.array 300 GepType.other_type;
  indices = IndexValue.run_time 64 8 ∷ IndexValue.run_time 8 9 ∷ [];
}

-- The second index is -1.
abbrev run : Run
run = record { value = λ a. if a == 9 then 255 else 12; array_length = λ base. 10 }

inject_bounds_checks_test :
    inject_bounds_checks
      (record { is_declaration = false; body = body; values = 6; geps = gep ∷ [] } ∷ [])
    ≡ (some (
          Condition.or
            (Condition.uge_array_length (Normalized.same (IndexValue.run_time 64 8)) 4)
            (Condition.uge_constant (Normalized.int_cast (IndexValue.run_time 8 9)) 300))
        ∷ [])
      ∷ []
unfolding inject_bounds_checks instrument_gep add_checks walk_indices is_managed_array_base_impl
    stored_value
inject_bounds_checks_test = refl

instrument_gep_lem_example :
    (traps run (instrument_gep body 6 gep) ≡ true) ↔ Violates run body 6 gep
instrument_gep_lem_example = instrument_gep_lem run body 6 gep

-- The same GEP from a base that is not a managed array.
abbrev raw_gep : GepInstruction
raw_gep = record gep { pointer_operand = 2 }

passes : traps run (instrument_gep body 6 raw_gep) ≡ false
unfolding instrument_gep add_checks walk_indices is_managed_array_base_impl
passes = refl

not_trapped_example : (sign_extended 8 255 < 300) ↔ KeepsSign 8 255
not_trapped_example =
    not_trapped run body 6 raw_gep (IndexValue.run_time 64 8) (IndexValue.run_time 8 9 ∷ [])
      (IndexValue.run_time 8 9) 300 refl Checked.array_here refl (omega arith) (omega arith)
      (omega arith) passes

-- So an index of -1 passes.
minus_one_test : ¬ sign_extended 8 255 < 300
minus_one_test lt = elim (not_trapped_example.0 lt) [ inl h ↦ omega arith | inr h ↦ omega arith ]
