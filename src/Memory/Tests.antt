-- ===== src/Memory/Tests.antt =====
-- Runs on the heap of Sample, and the theorems at concrete inputs.
use lona_mvm.Prelude.{
  ℕ, ◌+◌, ◌%◌, ◌^◌, ◌≡◌, ◌<◌, ◌≤◌, ◌↔◌, refl, true, List, [], ◌∷◌, map, Option, none, some,
  if◌then◌else◌, ltb, arith, has,
}
use lona_mvm.Memory.Words.{
  word, size_max, allocation_page_for_address, checked_add, align_up, is_power_of_two,
  allocation_last_address,
}
use lona_mvm.Memory.Words.Laws.{align_up_bounds, checked_add_lem, is_power_of_two_iff}
use lona_mvm.Memory.Header.{GcCollectionStats}
use lona_mvm.Memory.Registry.{Registry, Outcome, done, aborted, out_of_fuel, blank_stats}
use lona_mvm.Memory.Active.{link_active_allocation, unlink_active_allocation}
use lona_mvm.Memory.Active.Chain.{next_without, prev_without}
use lona_mvm.Memory.Active.Laws.{IsActive, nexts, prevs, with_links, unlink-IsActive, link-IsActive}
use lona_mvm.Memory.Slab.{
  release_slab_page, is_slab_page_linked, link_non_full_slab_page, slab_header_at,
  slab_page_has_free_slots, unlink_non_full_slab_page, unregister_slab_page_mappings,
}
use lona_mvm.Memory.Find.{
  find_owning_allocation, find_in_bucket, find_owning_slab_allocation, find_system_allocation,
  payload_contains,
}
use lona_mvm.Memory.Find.Exact.{Holds, find_owning_allocation_lem}
use lona_mvm.Memory.Mark.{
  mark_roots, mark_address, mark_allocation, scan_marked, scan_elements, scan_slots,
  scan_allocation_payload, drain,
}
use lona_mvm.Memory.Mark.Search.{Marks}
use lona_mvm.Memory.Mark.Scan.{mark_addresses, payload_slots, scan-payload_slots}
use lona_mvm.Memory.Mark.Refine.{with_marks, marking}
use lona_mvm.Memory.Mark.Correct.{no_marks}
use lona_mvm.Memory.Mark.Reachable.{Reachable, marks-Reachable}
use lona_mvm.Memory.Sweep.{sweep, reclaim_slot, reclaim_allocation}
use lona_mvm.Memory.Sweep.Reclaim.{Removed, reclaim-Removed}
use lona_mvm.Memory.Sweep.Correct.{Sweeps, sweep_lem}
use lona_mvm.Memory.Collect.{count_heap, collect_managed_heap}
use lona_mvm.Memory.Collect.Correct.{stats_of, Collected, collect-Collected}
use lona_mvm.Memory.Sample.{
  keys, headers, heap, objects, read, heap-IsActive, heap-HeapInv, heap-Mapped, heap-clear,
}

-- One root, to the first object.
abbrev roots : List ℕ
roots = 0 ∷ 4176 ∷ []

owner_of_slot : find_owning_allocation keys heap 8272 ≡ some 8192
unfolding find_owning_allocation allocation_page_for_address allocation_last_address
owner_of_slot = refl

-- What a collection leaves of the list, and what it counts.
abbrev summary : Outcome (Registry × GcCollectionStats) → Option (ℕ × ℕ × ℕ × ℕ)
summary (done (r, s)) =
    some (r.active_allocation_head, s.live_object_count, s.swept_object_count, s.swept_bytes)
summary (aborted e) = none
summary out_of_fuel = none

collect_run_test : summary (collect_managed_heap keys read 4 heap roots) ≡ some (4096, 2, 1, 16)
unfolding collect_managed_heap count_heap drain mark_roots mark_address find_owning_allocation
    allocation_page_for_address allocation_last_address mark_allocation scan_marked
    scan_allocation_payload scan_elements scan_slots sweep reclaim_allocation
    unlink_active_allocation reclaim_slot release_slab_page find_in_bucket
    find_owning_slab_allocation find_system_allocation payload_contains is_slab_page_linked
    link_non_full_slab_page slab_header_at slab_page_has_free_slots unlink_non_full_slab_page
    unregister_slab_page_mappings
collect_run_test = refl

collect-Collected_example :
    (live : List ℕ) × (r' : Registry) × (collect_managed_heap keys read 3 heap roots
      ≡ done (r', stats_of heap objects live roots))
    × Collected read heap r' objects roots live
collect-Collected_example =
    collect-Collected keys read heap objects roots 3 heap-HeapInv heap-Mapped heap-clear
      (omega arith)

marks-Reachable_example :
    (m : Marks) × (drain keys read 3
        (mark_addresses keys read (marking keys heap (no_marks, [])) roots)
      ≡ done (with_marks heap m))
    × ((p : ℕ) → m p ≡ true → Reachable read heap objects roots p)
    × ((p : ℕ) → Reachable read heap objects roots p → m p ≡ true)
marks-Reachable_example =
    marks-Reachable keys read heap objects heap-HeapInv heap-Mapped roots 3 (omega arith)

sweep_lem_example : Sweeps 3 heap [] objects 4096 blank_stats
sweep_lem_example = sweep_lem 3 heap [] objects 4096 blank_stats heap-HeapInv refl (omega arith)

reclaim-Removed_example :
    (s : Registry) × (reclaim_allocation heap 12288 ≡ done s)
    × Removed heap s 12288 (4096 ∷ 8192 ∷ [])
reclaim-Removed_example = reclaim-Removed heap 12288 (4096 ∷ 8192 ∷ []) [] heap-HeapInv

unlink-IsActive_example :
    IsActive (unlink_active_allocation heap 8192) (4096 ∷ 12288 ∷ [])
    × (unlink_active_allocation heap 8192
        ≡ with_links heap
            (unlink_active_allocation heap 8192).active_allocation_head
            (next_without (nexts heap) (prevs heap) 8192)
            (prev_without (nexts heap) (prevs heap) 8192))
unlink-IsActive_example = unlink-IsActive heap 8192 (4096 ∷ []) (12288 ∷ []) heap-IsActive

link-IsActive_example :
    IsActive (link_active_allocation heap 16384) (16384 ∷ objects)
    × ((next prev : ℕ → ℕ) × (link_active_allocation heap 16384 ≡ with_links heap 16384 next prev))
link-IsActive_example = link-IsActive heap 16384 objects heap-IsActive (omega arith) refl

scan-payload_slots_example :
    scan_allocation_payload keys read (headers 4096) 4176 (heap, [])
    ≡ mark_addresses keys read (heap, []) (map read (payload_slots (headers 4096) 4176))
scan-payload_slots_example =
    scan-payload_slots keys read (headers 4096) 4176 (heap, []) (omega arith)

find_owning_allocation_lem_example :
    (find_owning_allocation keys heap 8272 ≡ some 8192)
    ↔ ((has objects 8192 ≡ true) × Holds heap 8192 8272)
find_owning_allocation_lem_example =
    find_owning_allocation_lem keys heap objects heap-HeapInv heap-Mapped 8272 8192

align_up_bounds_example :
    (4177 ≤ align_up 4177 (2 ^ 4))
    × (align_up 4177 (2 ^ 4) < 4177 + 2 ^ 4)
    × (align_up 4177 (2 ^ 4) % 2 ^ 4 ≡ 0)
align_up_bounds_example = align_up_bounds 4177 4 (omega arith) (omega arith)

checked_add_lem_example :
    checked_add size_max 1 ≡ (if ltb (size_max + 1) word then some (size_max + 1) else none)
checked_add_lem_example = checked_add_lem size_max 1 (omega arith) (omega arith)

is_power_of_two_iff_example : (is_power_of_two 64 ≡ true) ↔ ((k : ℕ) × (64 ≡ 2 ^ k))
is_power_of_two_iff_example = is_power_of_two_iff 64 (omega arith)
