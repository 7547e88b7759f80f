-- ===== src/Memory/Sweep.antt =====
-- runtime_memory.cc: reclaiming an allocation, the sweep phase, and a whole collection. The walks
-- along the list of active allocations run on fuel.
pub mod Reclaim
pub mod Tally
pub mod Round
pub mod Correct
use lona_mvm.Prelude.{ℕ, zero, suc, ◌+◌, ◌-◌, true, false, not, List, [], if◌then◌else◌, ◌==◌}
use lona_mvm.Memory.Header.{GcCollectionStats, is_slab}
use lona_mvm.Memory.Registry.{
  Registry, Outcome, done, aborted, out_of_fuel, ◌>>=◌, invalid_live_count, modify_header,
  modify_page, DenseMapKeys, blank_stats,
}
use lona_mvm.Memory.Active.{unlink_active_allocation}
use lona_mvm.Memory.Slab.{slab_page_has_free_slots, link_non_full_slab_page, release_slab_page}
use lona_mvm.Memory.System.{unregister_system_allocation_pages}
use lona_mvm.Memory.Mark.{mark_roots, drain}

-- The header goes back to the free list of its page, and an empty page is released.
unfoldable pub reclaim_slot : Registry → ℕ → ℕ → Outcome Registry
reclaim_slot r header page =
    let was_full = not (slab_page_has_free_slots r page) in
    let r1 = modify_header r header (λ h. record h { next = (r.pages page).free_list }) in
    let r2 = modify_page r1 page (λ s. record s { free_list = header }) in
    if (r2.pages page).live_count == 0
    then aborted invalid_live_count
    else let r3 = modify_page r2 page (λ s. record s { live_count = s.live_count - 1 }) in
      if (r3.pages page).live_count == 0
      then done (release_slab_page r3 page)
      else done (if was_full then link_non_full_slab_page r3 page else r3)

unfoldable pub reclaim_allocation : Registry → ℕ → Outcome Registry
reclaim_allocation r header =
    let r1 = unlink_active_allocation r header in
    let r2 = modify_header r1 header (λ h. record h { live = false; marked = false }) in
    if is_slab (r1.headers header).storage_kind
    then reclaim_slot r2 header (r1.headers header).storage_owner
    else done (unregister_system_allocation_pages r2 header)

abbrev pub survived : GcCollectionStats → ℕ → GcCollectionStats
survived s size = record s {
  live_object_count = s.live_object_count + 1;
  heap_bytes_after = s.heap_bytes_after + size;
}

abbrev pub swept : GcCollectionStats → ℕ → GcCollectionStats
swept s size = record s {
  swept_object_count = s.swept_object_count + 1;
  swept_bytes = s.swept_bytes + size;
}

unfoldable pub sweep : ℕ → Registry → ℕ → GcCollectionStats → Outcome (Registry × GcCollectionStats)
sweep fuel r zero s = done (r, s)
sweep zero r (suc p) s = out_of_fuel
sweep (suc fuel) r (suc p) s =
    let header = r.headers (suc p) in
    elim header.marked [
      | true ↦
          sweep fuel (modify_header r (suc p) (λ h. record h { marked = false })) header.next
            (survived s header.payload_size)
      | false ↦ reclaim_allocation r (suc p) >>= λ r'.
          sweep fuel r' header.next (swept s header.payload_size)
    ]
