-- ===== src/Bounds/Base.antt =====
-- bounds_instrumentation.cc: which pointers are recognised as managed arrays.
pub mod Terminates
use Prim.Native.String.{String}
use text.Mathlib.Text.{◌==◌ as ◌≐◌}
use lona_mvm.Prelude.{
  ℕ, zero, suc, Bool, true, false, not, ◌&&◌, ◌||◌, Option, none, some, List, [], ◌∷◌,
  if◌then◌else◌, ◌==◌, has,
}

-- What a value is. A call has the name of the function that it calls directly; a load, whether the
-- casts of its pointer lead to an alloca.
pub data BaseKind : Type 0 where
  call : (called_function : Option String) → BaseKind
  load : (slot : Option ℕ) → BaseKind
  phi : (incoming : List ℕ) → BaseKind
  select : (true_value false_value : ℕ) → BaseKind
  other_value : BaseKind

-- A user of an alloca. A store has the address that its pointer operand leads to through casts.
pub data SlotUser : Type 0 where
  ignorable_intrinsic : SlotUser
  load : (address : ℕ) → SlotUser
  store : (address value_operand stripped_pointer : ℕ) → SlotUser
  other_user : SlotUser

pub record Body : Type 0 where
  pub kind : ℕ → BaseKind
  pub is_pointer : ℕ → Bool
  pub strip_pointer_casts : ℕ → ℕ
  pub users : ℕ → List SlotUser
  pub dominates : (store load : ℕ) → Bool

-- The answer of the search, with the values visited where it is positive: nothing is visited after a
-- negative one.
pub data Search : Type 0 where
  out_of_fuel : Search
  not_array : Search
  is_array : (visiting : List ℕ) → Search

abbrev pub and_then : Search → (List ℕ → Search) → Search
and_then out_of_fuel next = out_of_fuel
and_then not_array next = not_array
and_then (is_array visiting) next = next visiting

-- Whether a store's value is the one that was stored before.
abbrev pub same_stored : (stored : Option ℕ) (value : ℕ) → Bool
same_stored none value = true
same_stored (some stored) value = stored == value

abbrev pub alone : Option ℕ → Option (List ℕ)
alone none = none
alone (some value) = some (value ∷ [])

abbrev pub is_array_alloc : Option String → Option (List ℕ)
is_array_alloc none = none
is_array_alloc (some name) = if name ≐ "__mvm_array_malloc" then some [] else none

abbrev pub incoming_values : List ℕ → Option (List ℕ)
incoming_values [] = none
incoming_values (v ∷ vs) = some (v ∷ vs)

-- `seek` for each value in turn, until one is no array.
abbrev pub all_arrays : (List ℕ → ℕ → Search) → List ℕ → (visiting : List ℕ) → Search
all_arrays seek [] visiting = is_array visiting
all_arrays seek (v ∷ vs) visiting = and_then (seek visiting v) (all_arrays seek vs)

abbrev pub sources_are_arrays :
    (List ℕ → ℕ → Search) → Option (List ℕ) → (visiting : List ℕ) → Search
sources_are_arrays seek none visiting = not_array
sources_are_arrays seek (some sources) visiting = all_arrays seek sources visiting

abbrev pub holds_array : Search → Bool
holds_array (is_array visiting) = true
holds_array _ = false

module _ (body : Body) where
  -- The loop over the users of a slot, with the value stored so far; none where it gives up.
  unfoldable pub stored_value : (slot reader : ℕ) → List SlotUser → (stored : Option ℕ) → Option ℕ
  stored_value slot reader [] stored = stored
  stored_value slot reader (ignorable_intrinsic ∷ users) stored =
      stored_value slot reader users stored
  stored_value slot reader (SlotUser.load other ∷ users) stored =
      stored_value slot reader users stored
  stored_value slot reader (store address value pointer ∷ users) stored =
      let rest = stored_value slot reader users (some value) in
      if not (pointer == slot) || not (body.dominates address reader)
      then none
      else if same_stored stored value
      then rest
      else none
  stored_value slot reader (other_user ∷ users) stored = none

  -- A value that a load can read, if the slot is known.
  abbrev pub stored_in : (reader : ℕ) → Option ℕ → Option (List ℕ)
  stored_in reader none = none
  stored_in reader (some slot) = alone (stored_value slot reader (body.users slot) none)

  -- The values that a value stands for, if it can be a managed array: all of them must be.
  abbrev pub sources_of : ℕ → BaseKind → Option (List ℕ)
  sources_of v (BaseKind.call called_function) = is_array_alloc called_function
  sources_of v (BaseKind.load slot) = stored_in v slot
  sources_of v (BaseKind.phi incoming) = incoming_values incoming
  sources_of v (BaseKind.select a b) = some (a ∷ b ∷ [])
  sources_of v BaseKind.other_value = none

  -- No value is visited twice, also when two phis or selects share it.
  unfoldable pub is_managed_array_base_impl : (fuel : ℕ) (visiting : List ℕ) → ℕ → Search
  is_managed_array_base_impl zero visiting value = out_of_fuel
  is_managed_array_base_impl (suc fuel) visiting value =
      let stripped = body.strip_pointer_casts value in
      let found =
        sources_are_arrays (is_managed_array_base_impl fuel)
          (sources_of stripped (body.kind stripped)) (stripped ∷ visiting) in
      if not (body.is_pointer stripped)
      then not_array
      else if has visiting stripped
      then not_array
      else found

  abbrev pub is_managed_array_base : (fuel : ℕ) → ℕ → Bool
  is_managed_array_base fuel value = holds_array (is_managed_array_base_impl fuel [] value)
