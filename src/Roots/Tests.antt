-- ===== src/Roots/Tests.antt =====
-- A stack of two managed frames, and a statepoint with one pair of roots.
use lona_mvm.Prelude.{
  ℕ, ◌-◌, ◌≤◌, ◌≡◌, refl, ◌⊎◌, some, none, List, [], ◌∷◌, if◌then◌else◌, ◌==◌, length, arith,
}
use lona_mvm.Prelude.Expected.{Expected, success, ◌>>=◌}
use lona_mvm.Threads.{empty_summary}
use lona_mvm.Roots.{
  LocationKind, Location, RootKind, GcRootLocation, GcRootLocationPair, SafepointRecord, ScanError,
}
use lona_mvm.Roots.Parse.{parse_root_pairs, skip_prefix, parse_pairs}
use lona_mvm.Roots.Parse.Laws.{PairsOf, drop, parse_root_pairs-ok}
use lona_mvm.Roots.Scan.{
  scan_from, walk_frames, find_caller_record, find_safepoint_record, nearest_before,
  find_safepoint_record_for_return_address, max_return_address_distance,
}
use lona_mvm.Roots.Scan.Walk.{ManagedFrame, with_frames}
use lona_mvm.Roots.Scan.Stack.{Callers, RootsOf, frame_locations}
use lona_mvm.Roots.Scan.Scanned.{scan_from_lem}
use lona_mvm.Roots.Frame.{
  scan_single_managed_frame, scan_pairs, resolve_root_value, located_value,
  resolve_tracked_register_value, displaced,
}
use lona_mvm.Roots.Scan.Lookup.{Nearest, NoneInReach, find_safepoint_record_for_return_address_lem}

abbrev stack : ℕ → ℕ
stack address =
    if address == 2000
    then 3000
    else if address == 2008
    then 510
    else if address == 1992
    then 77
    else 0

-- The word at rbp - 8.
abbrev local : GcRootLocation
local = record {
  kind = RootKind.indirect;
  dwarf_register = 6;
  offset = 4294967288;
  size = 8;
  constant = 0;
}

abbrev null : GcRootLocation
null = record { kind = RootKind.constant; dwarf_register = 0; offset = 0; size = 8; constant = 0 }

abbrev callee : SafepointRecord
callee = record {
  id = 1;
  function_address = 100;
  function_end_address = 200;
  instruction_address = 150;
  root_pairs = record { base = local; derived = local } ∷ [];
}

abbrev caller : SafepointRecord
caller = record {
  id = 2;
  function_address = 400;
  function_end_address = 600;
  instruction_address = 500;
  root_pairs = record { base = null; derived = local } ∷ [];
}

abbrev safepoints : List SafepointRecord
safepoints = callee ∷ caller ∷ []

scan_from_lem_example :
    (callers : List ManagedFrame) × (roots : Expected ScanError (List ℕ)) × Callers stack safepoints
      256 2000 callers
    × RootsOf stack
        (frame_locations (record { safepoint = callee; sp = 1000; bp = 2000 } ∷ callers))
        roots
    × (scan_from stack safepoints callee 1000 2000 ≡ (
        roots >>= λ vs. success (
          with_frames empty_summary
            (record { safepoint = callee; sp = 1000; bp = 2000 } ∷ callers)
            vs)))
scan_from_lem_example = scan_from_lem stack safepoints callee 1000 2000

-- The run on this stack: the word below the frame pointer of the callee, as base and as derived; the
-- roots of the caller are null.
scan_from_test :
    (scan_from stack safepoints callee 1000 2000 >>= λ s. success s.root_values)
    ≡ success (77 ∷ 77 ∷ [])
unfolding scan_from scan_single_managed_frame scan_pairs resolve_root_value located_value
    resolve_tracked_register_value displaced walk_frames find_caller_record find_safepoint_record
    find_safepoint_record_for_return_address nearest_before
scan_from_test = refl

lookup_example :
    ((find_safepoint_record_for_return_address safepoints 510 ≡ none) × NoneInReach safepoints 510)
    ⊎ ((r : SafepointRecord) × (find_safepoint_record_for_return_address safepoints 510 ≡ some r)
        × Nearest safepoints 510 r
        × (510 - r.instruction_address ≤ max_return_address_distance))
lookup_example = find_safepoint_record_for_return_address_lem safepoints 510

abbrev constant_of : ℕ → Location
constant_of value = record {
  kind = LocationKind.constant;
  size_in_bytes = 8;
  dwarf_reg_num = 0;
  offset = 0;
  small_constant = value;
  constant_index = 0;
}

abbrev pooled : Location
pooled = record {
  kind = LocationKind.constant_index;
  size_in_bytes = 8;
  dwarf_reg_num = 0;
  offset = 0;
  small_constant = 0;
  constant_index = 1;
}

abbrev statepoint : List Location
statepoint = constant_of 0 ∷ constant_of 0 ∷ constant_of 0 ∷ pooled ∷ constant_of 5 ∷ []

parse_root_pairs-ok_example :
    (ps : List GcRootLocationPair) × (parse_root_pairs statepoint (10 ∷ 20 ∷ []) ≡ success ps)
    × (length ps ≡ 1)
    × PairsOf (10 ∷ 20 ∷ []) (drop 3 statepoint) ps
parse_root_pairs-ok_example =
    parse_root_pairs-ok 1 statepoint (10 ∷ 20 ∷ []) refl (refl, (refl, (refl, tt)))
      ((λ e. cc), ((λ e. cc), ((λ e. cc), ((λ e. omega arith), ((λ e. cc), tt)))))

abbrev only_prefix : List Location
only_prefix = constant_of 0 ∷ constant_of 0 ∷ constant_of 0 ∷ []

only_prefix-parsed : parse_root_pairs only_prefix [] ≡ success []
unfolding parse_root_pairs skip_prefix parse_pairs
only_prefix-parsed = refl
