-- ===== src/Threads.antt =====
-- runtime_threads.cc: the mutators and the thread that collects, with their one mutex. Each function
-- is what a thread does between taking the mutex and giving it up or waiting.
pub mod Steps
pub mod Safety
pub mod Roots
pub mod Release
mod Tests
use lona_mvm.Prelude.{
  ℕ, ◌+◌, ◌-◌, ◌%◌, Bool, true, false, not, ◌||◌, List, [], ◌++◌, if◌then◌else◌, leb, ◌==◌,
}
use lona_mvm.Memory.Words.{word}

pub record GcRootScanSummary : Type 0 where
  pub safepoint_address : ℕ
  pub root_pair_count : ℕ
  pub root_location_count : ℕ
  pub non_null_root_count : ℕ
  pub mutator_count : ℕ
  pub gc_cycle : ℕ
  pub root_values : List ℕ

abbrev pub empty_summary : GcRootScanSummary
empty_summary = record {
  safepoint_address = 0;
  root_pair_count = 0;
  root_location_count = 0;
  non_null_root_count = 0;
  mutator_count = 0;
  gc_cycle = 0;
  root_values = [];
}

abbrev pub merge_root_scan_summary : GcRootScanSummary → GcRootScanSummary → GcRootScanSummary
merge_root_scan_summary destination source = record destination {
  safepoint_address =
      if destination.safepoint_address == 0
      then source.safepoint_address
      else destination.safepoint_address;
  root_pair_count = (destination.root_pair_count + source.root_pair_count) % word;
  root_location_count = (destination.root_location_count + source.root_location_count) % word;
  non_null_root_count = (destination.non_null_root_count + source.non_null_root_count) % word;
  root_values = destination.root_values ++ source.root_values;
}

-- The counts of threads are not reduced: there are fewer than 2 ^ 64 threads.
pub record RuntimeThreads : Type 0 where
  pub active_mutator_count : ℕ
  pub parked_mutator_count : ℕ
  pub gc_pending : Bool
  pub gc_cycle_epoch : ℕ
  pub completed_gc_cycle_count : ℕ
  pub pending_root_summary : GcRootScanSummary

abbrev pub initial_threads : RuntimeThreads
initial_threads = record {
  active_mutator_count = 0;
  parked_mutator_count = 0;
  gc_pending = false;
  gc_cycle_epoch = 0;
  completed_gc_cycle_count = 0;
  pending_root_summary = empty_summary;
}

abbrev pub mark_mutator_started : RuntimeThreads → RuntimeThreads
mark_mutator_started t = record t { active_mutator_count = t.active_mutator_count + 1 }

unfoldable pub mark_mutator_stopped : RuntimeThreads → RuntimeThreads
mark_mutator_stopped t =
    let left = if t.active_mutator_count == 0 then 0 else t.active_mutator_count - 1 in
    if left == 0
    then record t {
      active_mutator_count = left;
      gc_pending = false;
      pending_root_summary = empty_summary;
    }
    else record t { active_mutator_count = left }

abbrev pub notify_gc_requested : RuntimeThreads → RuntimeThreads
notify_gc_requested t = record t { gc_pending = true }

-- parkCurrentMutatorAtSafepoint up to its wait, which is for another epoch than this one.
abbrev pub park : RuntimeThreads → GcRootScanSummary → RuntimeThreads
park t summary = record t {
  parked_mutator_count = t.parked_mutator_count + 1;
  pending_root_summary = merge_root_scan_summary t.pending_root_summary summary;
}

abbrev pub may_leave : RuntimeThreads → ℕ → Bool
may_leave t cycle_epoch = not (t.gc_cycle_epoch == cycle_epoch)

-- parkCurrentMutatorAtSafepoint after its wait.
abbrev pub leave : RuntimeThreads → RuntimeThreads
leave t = record t { parked_mutator_count = t.parked_mutator_count - 1 }

-- What the second wait of the collecting thread waits for.
abbrev pub is_stopped : RuntimeThreads → Bool
is_stopped t = (t.active_mutator_count == 0) || leb t.active_mutator_count t.parked_mutator_count

-- A cycle: the roots are those of the summary before it.
abbrev pub finish_cycle : RuntimeThreads → RuntimeThreads
finish_cycle t = record t {
  completed_gc_cycle_count = (t.completed_gc_cycle_count + 1) % word;
  gc_pending = false;
  pending_root_summary = empty_summary;
  gc_cycle_epoch = (t.gc_cycle_epoch + 1) % word;
}

-- The summary that a cycle records as the last one.
abbrev pub recorded_summary : RuntimeThreads → GcRootScanSummary
recorded_summary t = record t.pending_root_summary {
  mutator_count = t.active_mutator_count;
  gc_cycle = (t.completed_gc_cycle_count + 1) % word;
}
