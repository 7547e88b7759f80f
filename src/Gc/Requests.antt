-- ===== src/Gc/Requests.antt =====
-- gc.cc: the count of managed bytes, the limit, and the request flag. The atomics are the fields of a
-- record; a notification of the runtime threads is counted.
pub mod Laws
use lona_mvm.Prelude.{ℕ, ◌+◌, ◌*◌, ◌%◌, Bool, true, false, if◌then◌else◌, leb, ◌==◌}
use lona_mvm.Memory.Words.{word}

pub record GcRequests : Type 0 where
  pub gc_requested : Bool
  pub gc_tracked_heap_bytes : ℕ
  pub gc_heap_limit_bytes : ℕ
  pub notifications : ℕ

abbrev pub initial_requests : GcRequests
initial_requests = record {
  gc_requested = false;
  gc_tracked_heap_bytes = 0;
  gc_heap_limit_bytes = 8 * 1024 * 1024;
  notifications = 0;
}

unfoldable pub request_gc : GcRequests → GcRequests
request_gc g =
    if g.gc_requested
    then g
    else record g { gc_requested = true; notifications = g.notifications + 1 }

abbrev pub clear_gc_request : GcRequests → GcRequests
clear_gc_request g = record g { gc_requested = false }

abbrev pub update_managed_heap_usage : GcRequests → ℕ → GcRequests
update_managed_heap_usage g bytes = record g { gc_tracked_heap_bytes = bytes }

abbrev pub configure_managed_heap_limit : GcRequests → ℕ → GcRequests
configure_managed_heap_limit g bytes = record g { gc_heap_limit_bytes = bytes }

unfoldable pub record_managed_allocation : GcRequests → ℕ → GcRequests
record_managed_allocation g bytes =
    let total = (g.gc_tracked_heap_bytes + bytes) % word in
    let g1 = record g { gc_tracked_heap_bytes = total } in
    if bytes == 0 then g else if leb g.gc_heap_limit_bytes total then request_gc g1 else g1
