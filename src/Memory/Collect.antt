-- ===== src/Memory/Collect.antt =====
-- runtime_memory.cc: a whole collection, `collectManagedHeap`. The walks along the list of active
-- allocations and the worklist loop run on one bound of fuel.
pub mod Correct
use lona_mvm.Prelude.{ℕ, zero, suc, ◌+◌, ◌-◌, true, false, not, List, [], if◌then◌else◌, ◌==◌}
use lona_mvm.Memory.Header.{GcCollectionStats, is_slab}
use lona_mvm.Memory.Registry.{
  Registry, Outcome, done, aborted, out_of_fuel, ◌>>=◌, invalid_live_count, modify_header,
  modify_page, DenseMapKeys, blank_stats,
}
use lona_mvm.Memory.Active.{unlink_active_allocation}
use lona_mvm.Memory.Slab.{slab_page_has_free_slots, link_non_full_slab_page, release_slab_page}
use lona_mvm.Memory.System.{unregister_system_allocation_pages}
use lona_mvm.Memory.Mark.{mark_roots, drain}
use lona_mvm.Memory.Sweep.{sweep}

-- The counts of objects and bytes along the list.
unfoldable pub count_heap : ℕ → Registry → ℕ → ℕ × ℕ → Outcome (ℕ × ℕ)
count_heap fuel r zero acc = done acc
count_heap zero r (suc p) acc = out_of_fuel
count_heap (suc fuel) r (suc p) (objects, bytes) =
    count_heap fuel r (r.headers (suc p)).next
      (objects + 1, bytes + (r.headers (suc p)).payload_size)

module _ (keys : DenseMapKeys) (read : ℕ → ℕ) where
  -- The statistics are returned with the new state; their heap_bytes_after is what the caller
  -- hands to updateManagedHeapUsage.
  unfoldable pub collect_managed_heap :
      ℕ → Registry → List ℕ → Outcome (Registry × GcCollectionStats)
  collect_managed_heap fuel r roots = do
    let r0 = record r { collection_count = r.collection_count + 1 }
    (objects, bytes) ← count_heap fuel r0 r0.active_allocation_head (0, 0)
    let (root_count, marking) = mark_roots keys read roots 0 (r0, [])
    marked ← drain keys read fuel marking
    let stats = record blank_stats {
      collection_count = r0.collection_count;
      root_count = root_count;
      heap_object_count_before = objects;
      heap_bytes_before = bytes;
    }
    (r', s) ← sweep fuel marked marked.active_allocation_head stats
    (left, _) ← count_heap fuel r' r'.active_allocation_head (0, 0)
    let s' = record s { heap_object_count_after = left }
    done (record r' { last_collection_stats = s' }, s')
