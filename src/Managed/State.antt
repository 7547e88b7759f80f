-- ===== src/Managed/State.antt =====
-- managed_state.cc: PointerState. The four bits of the word that are used are four flags.
use lona_mvm.Prelude.{Bool, true, false, ◌||◌, ◌&&◌, not}

pub record PointerState : Type 0 where
  pub null : Bool
  pub raw : Bool
  pub managed_object : Bool
  pub managed_array : Bool

pub data ManagedPointerKind : Type 0 where
  unknown raw object array : ManagedPointerKind

abbrev pub state_unknown : PointerState
state_unknown = record { null = false; raw = false; managed_object = false; managed_array = false }

abbrev pub state_null : PointerState
state_null = record state_unknown { null = true }

abbrev pub state_raw : PointerState
state_raw = record state_unknown { raw = true }

abbrev pub state_managed_object : PointerState
state_managed_object = record state_unknown { managed_object = true }

abbrev pub state_managed_array : PointerState
state_managed_array = record state_unknown { managed_array = true }

abbrev pub empty : PointerState → Bool
empty s = not (s.null || s.raw || s.managed_object || s.managed_array)

abbrev pub has_managed : PointerState → Bool
has_managed s = s.managed_object || s.managed_array

abbrev pub merged : PointerState → PointerState → PointerState
merged s other = record {
  null = s.null || other.null;
  raw = s.raw || other.raw;
  managed_object = s.managed_object || other.managed_object;
  managed_array = s.managed_array || other.managed_array;
}

-- A flag of the second that is not one of the first.
abbrev pub is_new : Bool → Bool → Bool
is_new old other = other && not old

-- Whether `merge` changes the bits.
abbrev pub merge_changes : PointerState → PointerState → Bool
merge_changes s other =
    is_new s.null other.null
    || is_new s.raw other.raw
    || is_new s.managed_object other.managed_object
    || is_new s.managed_array other.managed_array

-- PointerState::merge
abbrev pub merge : PointerState → PointerState → PointerState × Bool
merge s other = (merged s other, merge_changes s other)

-- The kind for the bits raw, object and array.
abbrev concrete_kind : (raw object array : Bool) → ManagedPointerKind
concrete_kind true false false = ManagedPointerKind.raw
concrete_kind false true false = ManagedPointerKind.object
concrete_kind false false true = ManagedPointerKind.array
concrete_kind _ _ _ = ManagedPointerKind.unknown

abbrev pub dispatch_kind : PointerState → ManagedPointerKind
dispatch_kind s = concrete_kind s.raw s.managed_object s.managed_array

abbrev pub is_concrete_managed_kind : ManagedPointerKind → Bool
is_concrete_managed_kind ManagedPointerKind.object = true
is_concrete_managed_kind ManagedPointerKind.array = true
is_concrete_managed_kind _ = false
