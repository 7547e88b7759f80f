-- ===== src/Gc/Safepoint.antt =====
-- gc.cc: what a poll of a safepoint does with a request for a collection, and the two entry points.
-- `read` is the word of memory at an address, 0 the null pointer.
pub mod Laws
use lona_mvm.Prelude.{
  ℕ, ◌+◌, ◌*◌, ◌%◌, Bool, true, false, not, ◌&&◌, ◌||◌, Option, none, some, List, if◌then◌else◌,
  ◌==◌,
}
use lona_mvm.Prelude.Expected.{Expected, success, failure}
use lona_mvm.Memory.Words.{word}
use lona_mvm.Threads.{GcRootScanSummary}
use lona_mvm.Gc.Requests.{GcRequests, request_gc, clear_gc_request}
use lona_mvm.Roots.{SafepointRecord, ScanError}
use lona_mvm.Roots.ScanError.{not_a_mutator, no_registry, no_frame}
use lona_mvm.Roots.Scan.{scan_current_safepoint_by_id, scan_current_safepoint}

-- The variables of the file and of the thread. The registry that is installed is its list of
-- safepoints.
pub record SafepointState : Type 0 where
  pub requests : GcRequests
  pub current_thread_is_mutator : Bool
  pub installed_stack_map_registry : Option (List SafepointRecord)
  pub has_runtime_threads : Bool
  pub last_root_scan_summary : GcRootScanSummary

-- How a poll goes on: it returns, the thread parks with the roots that it scanned, or the process
-- stops with a message.
pub data Outcome : Type 0 where
  returned : SafepointState → Outcome
  parks : SafepointState → GcRootScanSummary → Outcome
  fatal : ScanError → Outcome

abbrev pub has_registry : Option (List SafepointRecord) → Bool
has_registry none = false
has_registry (some safepoints) = true

module _ (read : ℕ → ℕ) where
  -- The scan by a registry, for a frame that is not null.
  unfoldable pub scan_with_registry :
      List SafepointRecord
      → (runtime_frame statepoint_id : ℕ) → Expected ScanError GcRootScanSummary
  scan_with_registry safepoints runtime_frame statepoint_id =
      let return_address = read ((runtime_frame + 8) % word) in
      let caller_sp = (runtime_frame + 2 * 8) % word in
      let caller_bp = read runtime_frame in
      if runtime_frame == 0
      then failure no_frame
      else if not (statepoint_id == 0)
      then scan_current_safepoint_by_id read safepoints statepoint_id caller_sp caller_bp
      else scan_current_safepoint read safepoints return_address caller_sp caller_bp

  unfoldable pub scan_current_runtime_safepoint_from_frame :
      SafepointState → (runtime_frame statepoint_id : ℕ) → Expected ScanError GcRootScanSummary
  scan_current_runtime_safepoint_from_frame s runtime_frame statepoint_id =
      if not s.current_thread_is_mutator
      then failure not_a_mutator
      else elim s.installed_stack_map_registry [
        | none ↦ failure no_registry
        | some safepoints ↦ scan_with_registry safepoints runtime_frame statepoint_id
      ]

  -- What follows the scan.
  abbrev pub after_scan : SafepointState → Expected ScanError GcRootScanSummary → Outcome
  after_scan s (failure e) = fatal e
  after_scan s (success summary) =
      if s.has_runtime_threads
      then parks s summary
      else returned
          (record s { last_root_scan_summary = summary; requests = clear_gc_request s.requests })

  unfoldable pub remember_current_runtime_safepoint_or_fatal :
      SafepointState → (runtime_frame statepoint_id : ℕ) → Outcome
  remember_current_runtime_safepoint_or_fatal s runtime_frame statepoint_id =
      after_scan s (scan_current_runtime_safepoint_from_frame s runtime_frame statepoint_id)

  unfoldable pub handle_pending_runtime_gc_safepoint :
      SafepointState → (runtime_frame statepoint_id : ℕ) → Outcome
  handle_pending_runtime_gc_safepoint s runtime_frame statepoint_id =
      let dropped = returned (record s { requests = clear_gc_request s.requests }) in
      if not s.requests.gc_requested
      then returned s
      else if not s.current_thread_is_mutator
      then dropped
      else if not (has_registry s.installed_stack_map_registry)
      then dropped
      else remember_current_runtime_safepoint_or_fatal s runtime_frame statepoint_id

  unfoldable pub mvm_request_gc : SafepointState → (runtime_frame : ℕ) → Outcome
  mvm_request_gc s runtime_frame =
      let s1 = record s { requests = request_gc s.requests } in
      if s.current_thread_is_mutator && has_registry s.installed_stack_map_registry
      then handle_pending_runtime_gc_safepoint s1 runtime_frame 0
      else returned s1

  unfoldable pub mvm_gc_safepoint_poll :
      SafepointState → (runtime_frame statepoint_id : ℕ) → Outcome
  mvm_gc_safepoint_poll s runtime_frame statepoint_id =
      if not s.requests.gc_requested
      then returned s
      else handle_pending_runtime_gc_safepoint s runtime_frame statepoint_id
