-- ===== src/Gc/Tests.antt =====
-- Recording allocations up to the limit, and a poll with a request.
use lona_mvm.Prelude.{ℕ, true, some, ◌≡◌, List, [], ◌∷◌, arith}
use lona_mvm.Gc.Requests.{GcRequests, initial_requests, request_gc, configure_managed_heap_limit}
use lona_mvm.Gc.Requests.Laws.{record_all, recorded, record_all_lem}
use lona_mvm.Threads.{empty_summary}
use lona_mvm.Gc.Safepoint.{SafepointState, mvm_gc_safepoint_poll}
use lona_mvm.Gc.Safepoint.Laws.{Polled, poll-Polled}

abbrev small_limit : GcRequests
small_limit = configure_managed_heap_limit initial_requests 100

abbrev sizes : List ℕ
sizes = 40 ∷ 0 ∷ 60 ∷ 16 ∷ []

record_all_lem_example : record_all small_limit sizes ≡ recorded small_limit sizes
record_all_lem_example = record_all_lem small_limit sizes (omega arith)

abbrev no_memory : ℕ → ℕ
no_memory address = 0

abbrev asked : SafepointState
asked = record {
  requests = request_gc initial_requests;
  current_thread_is_mutator = true;
  installed_stack_map_registry = some [];
  has_runtime_threads = true;
  last_root_scan_summary = empty_summary;
}

poll-Polled_example : Polled no_memory asked 64 7 (mvm_gc_safepoint_poll no_memory asked 64 7)
poll-Polled_example = poll-Polled no_memory asked 64 7
