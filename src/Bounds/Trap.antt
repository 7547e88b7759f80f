-- ===== src/Bounds/Trap.antt =====
-- When the code that is inserted traps.
use lona_mvm.Prelude.{
  ℕ, ◌≡◌, refl, ◌%◌, ◌^◌, ◌≤◌, Bool, true, false, ◌||◌, ◌&&◌, Option, some, none, List, [], ◌∷◌,
  leb, ◌↔◌, inl, inr, Among, if◌then◌else◌, Bool-cases, arith, ◌∙◌, ap, sym, List-cases,
}
use mathlib.Core.Bool.{or_assoc, or-true, or-false, and-eq-true_iff, false≢true}
use lona_mvm.Prelude.Among.{here, there}
use lona_mvm.Memory.Words.{word}
use lona_mvm.Bounds.{
  IndexValue, Normalized, Condition, GepInstruction, StaticCheckPlan, normalize_index,
  is_statically_in_bounds, add_check, add_checks, dynamic_check, instrument_gep, walk_indices,
}
use lona_mvm.Bounds.Base.{Body, is_managed_array_base}
use lona_mvm.Bounds.Checked.{Checked, Checked→Among, Among→Checked}

-- The values of the integers when the code runs, and the lengths of the managed arrays.
pub record Run : Type 0 where
  pub value : ℕ → ℕ
  pub array_length : ℕ → ℕ

abbrev pub is_integer : IndexValue → Bool
is_integer (IndexValue.not_integer address) = false
is_integer _ = true

module _ (run : Run) where
  -- The bits of an index, as a number without a sign.
  abbrev pub index_value : IndexValue → ℕ
  index_value (IndexValue.constant_int bits value) = value
  index_value (IndexValue.run_time bits address) = run.value address % 2 ^ bits
  index_value (IndexValue.not_integer address) = 0

  -- Zeros before the bits of a shorter one, the low bits of a longer one.
  abbrev pub normalized_value : Normalized → ℕ
  normalized_value (Normalized.same index) = index_value index % word
  normalized_value (Normalized.int_cast index) = index_value index % word

  abbrev pub holds : Condition → Bool
  holds (Condition.uge_array_length index base) =
      leb (run.array_length base) (normalized_value index)
  holds (Condition.uge_constant index length) = leb length (normalized_value index)
  holds (Condition.or a b) = holds a || holds b

  abbrev pub traps : Option Condition → Bool
  traps none = false
  traps (some condition) = holds condition

  -- The index is an integer that, taken without a sign, is not below the length.
  abbrev pub Exceeds : IndexValue → (length : ℕ) → Type 0
  Exceeds index length = (is_integer index ≡ true) × (length ≤ index_value index % word)

  -- The first index exceeds a managed array, or a later one an array on the way.
  pub data Violates (body : Body) (fuel : ℕ) (gep : GepInstruction) : Type 0 where
    managed :
        (index : IndexValue) (rest : List IndexValue)
        → gep.indices ≡ index ∷ rest
        → is_managed_array_base body fuel gep.pointer_operand ≡ true
        → Exceeds index (run.array_length gep.pointer_operand)
        → Violates body fuel gep
    on_the_way :
        (first : IndexValue) (rest : List IndexValue) (index : IndexValue) (length : ℕ)
        → gep.indices ≡ first ∷ rest
        → Checked gep.source_element_type rest index length
        → Exceeds index length
        → Violates body fuel gep

  abbrev exceeds : IndexValue → ℕ → Bool
  exceeds index length = if is_integer index then leb length (index_value index % word) else false

  exceeds_iff : (i : IndexValue) (n : ℕ) → (exceeds i n ≡ true) ↔ Exceeds i n
  exceeds_iff (IndexValue.constant_int bits value) n = ground arith
  exceeds_iff (IndexValue.run_time bits address) n = ground arith
  exceeds_iff (IndexValue.not_integer address) n = ground arith

  traps-add_check :
      (o : Option Condition) (i : IndexValue) (n : ℕ)
      → traps (if is_statically_in_bounds i n then o else add_check o n (normalize_index i))
        ≡ (traps o || exceeds i n)
  traps-add_check none (IndexValue.constant_int bits value) n = ground arith
  traps-add_check none (IndexValue.run_time bits address) n = ground arith
  traps-add_check none (IndexValue.not_integer address) n = refl
  traps-add_check (some c) (IndexValue.constant_int bits value) n = ground arith
  traps-add_check (some c) (IndexValue.run_time bits address) n = ground arith
  traps-add_check (some c) (IndexValue.not_integer address) n = ground arith

  abbrev any_exceeds : List StaticCheckPlan → Bool
  any_exceeds [] = false
  any_exceeds (check ∷ checks) = exceeds check.index check.length || any_exceeds checks

  traps-add_checks :
      (o : Option Condition) (checks : List StaticCheckPlan)
      → traps (add_checks o checks) ≡ (traps o || any_exceeds checks)
  unfolding add_checks
  traps-add_checks o [] = ground arith
  traps-add_checks o (check ∷ checks) =
      let first = traps-add_check o check.index check.length in
      traps-add_checks
        (if is_statically_in_bounds check.index check.length
          then o
          else add_check o check.length (normalize_index check.index))
        checks
      ∙ rw first (or_assoc (traps o) _ _)

  traps-dynamic_check :
      (is_managed : Bool) (base : ℕ) (index : IndexValue) (rest : List IndexValue)
      → traps (dynamic_check is_managed base (index ∷ rest))
        ≡ (is_managed && exceeds index (run.array_length base))
  traps-dynamic_check false base index rest = refl
  traps-dynamic_check true base (IndexValue.constant_int bits value) rest = ground arith
  traps-dynamic_check true base (IndexValue.run_time bits address) rest = ground arith
  traps-dynamic_check true base (IndexValue.not_integer address) rest = refl

  any_exceeds→Among :
      (checks : List StaticCheckPlan)
      → any_exceeds checks ≡ true
      → (p : StaticCheckPlan) × Among p checks × Exceeds p.index p.length
  any_exceeds→Among [] h = cc
  any_exceeds→Among (p ∷ checks) h = elim (Bool-cases (exceeds p.index p.length)) [
    | inl e ↦ (p, here, (exceeds_iff p.index p.length).0 e)
    | inr e ↦ let (q, m, x) = any_exceeds→Among checks (rw e at h) in (q, there m, x)
  ]

  Among→any_exceeds :
      {p : StaticCheckPlan} {checks : List StaticCheckPlan}
      → Among p checks
      → exceeds p.index p.length ≡ true
      → any_exceeds checks ≡ true
  Among→any_exceeds here e = rw e
  Among→any_exceeds (there {y = q} m) e =
      rw (Among→any_exceeds m e) (or-true (exceeds q.index q.length))

  module _ (body : Body) (fuel : ℕ) (gep : GepInstruction) where
    traps-instrument_gep :
        (first : IndexValue) (rest : List IndexValue)
        → gep.indices ≡ first ∷ rest
        → traps (instrument_gep body fuel gep) ≡ (
            (is_managed_array_base body fuel gep.pointer_operand
              && exceeds first (run.array_length gep.pointer_operand))
            || any_exceeds (walk_indices gep.source_element_type rest))
    unfolding instrument_gep
    traps-instrument_gep first rest e = rw e (
        traps-add_checks _ _
        ∙ ap (λ (b : Bool). b || any_exceeds (walk_indices gep.source_element_type rest))
            (traps-dynamic_check (is_managed_array_base body fuel gep.pointer_operand)
              gep.pointer_operand first rest))

    no_indices : gep.indices ≡ [] → traps (instrument_gep body fuel gep) ≡ false
    unfolding instrument_gep add_checks
    no_indices e = rw e

    trapped :
        (first : IndexValue) (rest : List IndexValue)
        → gep.indices ≡ first ∷ rest
        → ((is_managed_array_base body fuel gep.pointer_operand
              && exceeds first (run.array_length gep.pointer_operand))
            || any_exceeds (walk_indices gep.source_element_type rest))
          ≡ true
        → Violates body fuel gep
    trapped first rest e t =
        elim (Bool-cases (any_exceeds (walk_indices gep.source_element_type rest))) [
          | inl a ↦
              let (p, m, x) = any_exceeds→Among _ a in
              Violates.on_the_way first rest p.index p.length e
                (Among→Checked gep.source_element_type rest p m) x
          | inr a ↦
              let both = sym (or-false _) ∙ rw a at t in
              let (m, x) = (and-eq-true_iff _ _).0 both in
              Violates.managed first rest e m ((exceeds_iff first _).0 x)
        ]

    violated : Violates body fuel gep → traps (instrument_gep body fuel gep) ≡ true
    violated (Violates.managed index rest e m x) =
        traps-instrument_gep index rest e ∙ rw (m, (exceeds_iff index _).1 x)
    violated (Violates.on_the_way first rest index length e c x) =
        traps-instrument_gep first rest e
        ∙ rw (Among→any_exceeds (Checked→Among c) ((exceeds_iff index length).1 x)) (or-true _)

    -- The code that is inserted before a GEP traps exactly when the base is recognised as a managed
    -- array and the first index, taken without a sign, is not below its length, or one of the other
    -- indices, taken without a sign, is not below the number of elements of the array that it
    -- indexes. What is no integer is not tested.
    pub instrument_gep_lem : (traps (instrument_gep body fuel gep) ≡ true) ↔ Violates body fuel gep
    instrument_gep_lem = (
      λ t. elim (List-cases gep.indices) [
        | inl e ↦ absurd (false≢true (sym (no_indices e) ∙ t))
        | inr (first, rest, e) ↦ trapped first rest e (sym (traps-instrument_gep first rest e) ∙ t)
      ],
      violated,
    )
