-- ===== src/Roots/Scan.antt =====
-- gc.cc: which safepoint a return address belongs to, and the walk along the frame pointers. The
-- registry is its list of safepoints.
pub mod Walk
pub mod Lookup
pub mod Stack
pub mod Values
pub mod Scanned
use lona_mvm.Prelude.{
  ℕ, zero, suc, ◌+◌, ◌-◌, ◌*◌, ◌%◌, Bool, true, false, not, ◌&&◌, ◌||◌, Option, none, some, List,
  [], ◌∷◌, if◌then◌else◌, ltb, leb, ◌==◌,
}
use lona_mvm.Prelude.Expected.{Expected, success, failure, ◌>>=◌}
use lona_mvm.Memory.Words.{word}
use lona_mvm.Threads.{GcRootScanSummary, empty_summary}
use lona_mvm.Roots.{SafepointRecord, ScanError}
use lona_mvm.Roots.ScanError.{no_statepoint, no_safepoint}
use lona_mvm.Roots.Frame.{scan_single_managed_frame}

unfoldable pub find_safepoint_record : List SafepointRecord → ℕ → Option SafepointRecord
find_safepoint_record [] address = none
find_safepoint_record (r ∷ rs) address =
    if r.instruction_address == address then some r else find_safepoint_record rs address

-- The loop of findSafepointRecordForReturnAddress, with the best safepoint so far.
unfoldable pub nearest_before :
    List SafepointRecord → ℕ → Option SafepointRecord → Option SafepointRecord
nearest_before [] address best = best
nearest_before (r ∷ rs) address best =
    let is_closer : Bool = elim best [
      | none ↦ true
      | some b ↦ ltb (address - r.instruction_address) (address - b.instruction_address)
    ] in
    nearest_before rs address
      (if not (ltb address r.instruction_address) && is_closer then some r else best)

abbrev pub max_return_address_distance : ℕ
max_return_address_distance = 4096

abbrev pub within_reach : ℕ → Option SafepointRecord → Option SafepointRecord
within_reach address none = none
within_reach address (some best) =
    if leb (address - best.instruction_address) max_return_address_distance then some best else none

unfoldable pub find_safepoint_record_for_return_address :
    List SafepointRecord → ℕ → Option SafepointRecord
find_safepoint_record_for_return_address rs address =
    within_reach address (nearest_before rs address none)

unfoldable pub find_record_by_id : List SafepointRecord → ℕ → Option SafepointRecord
find_record_by_id [] id = none
find_record_by_id (r ∷ rs) id = if r.id == id then some r else find_record_by_id rs id

-- The exact safepoint, or else the nearest one before the address.
unfoldable pub find_caller_record : List SafepointRecord → ℕ → Option SafepointRecord
find_caller_record rs address = elim (find_safepoint_record rs address) [
  | none ↦ find_safepoint_record_for_return_address rs address
  | some r ↦ some r
]

-- The nearest safepoint on either side with its distance, for the message.
unfoldable pub nearest_safepoint : List SafepointRecord → ℕ → Option (ℕ × ℕ) → Option (ℕ × ℕ)
nearest_safepoint [] address nearest = nearest
nearest_safepoint (r ∷ rs) address nearest =
    let distance =
      if ltb address r.instruction_address
      then r.instruction_address - address
      else address - r.instruction_address in
    let is_nearer : Bool = elim nearest [ none ↦ true | some (_, d) ↦ ltb distance d ] in
    nearest_safepoint rs address
      (if is_nearer then some (r.instruction_address, distance) else nearest)

abbrev pub max_managed_frame_depth : ℕ
max_managed_frame_depth = 256

abbrev pub max_start_frame_probe_depth : ℕ
max_start_frame_probe_depth = 8

module _ (read : ℕ → ℕ) (safepoints : List SafepointRecord) where
  abbrev pub next_frame_pointer : ℕ → ℕ
  next_frame_pointer frame_pointer = read frame_pointer

  abbrev pub next_return_address : ℕ → ℕ
  next_return_address frame_pointer = read ((frame_pointer + 8) % word)

  -- The loop over the callers' frames, with the count of rounds left.
  unfoldable pub walk_frames :
      ℕ → (frame_pointer : ℕ) → GcRootScanSummary → Expected ScanError GcRootScanSummary
  walk_frames zero frame_pointer s = success s
  walk_frames (suc n) frame_pointer s =
      let next = next_frame_pointer frame_pointer in
      let return_address = next_return_address frame_pointer in
      let scan =
        elim (find_caller_record safepoints return_address)
          as (λ _. Expected ScanError GcRootScanSummary) [
            | none ↦ success s
            | some r ↦
                scan_single_managed_frame read r ((frame_pointer + 16) % word) next s
                >>= walk_frames n next
          ] in
      if frame_pointer == 0 || return_address == 0 then success s else scan

  -- The frame of the safepoint, and the frames of its callers.
  unfoldable pub scan_from :
      SafepointRecord → (caller_sp caller_bp : ℕ) → Expected ScanError GcRootScanSummary
  scan_from r caller_sp caller_bp =
      scan_single_managed_frame read r caller_sp caller_bp empty_summary
      >>= walk_frames max_managed_frame_depth caller_bp

  unfoldable pub scan_current_safepoint_by_id :
      (statepoint_id caller_sp caller_bp : ℕ) → Expected ScanError GcRootScanSummary
  scan_current_safepoint_by_id statepoint_id caller_sp caller_bp =
      elim (find_record_by_id safepoints statepoint_id) [
        | none ↦ failure (no_statepoint statepoint_id)
        | some r ↦ scan_from r caller_sp caller_bp
      ]

  -- The loop that looks for the frame to start at, with the count of probes left. The nearest
  -- safepoint serves from the second probe on.
  unfoldable pub probe_frames :
      ℕ
      → (is_first : Bool) → (return_address caller_sp frame_pointer : ℕ)
      → Option (SafepointRecord × ℕ × ℕ)
  probe_frames zero is_first return_address caller_sp frame_pointer = none
  probe_frames (suc n) is_first return_address caller_sp frame_pointer =
      let found =
        if is_first
        then find_safepoint_record safepoints return_address
        else find_caller_record safepoints return_address in
      let rest =
        probe_frames n false (next_return_address frame_pointer) ((frame_pointer + 16) % word)
          (next_frame_pointer frame_pointer) in
      elim found [
        | some r ↦ some (r, caller_sp, frame_pointer)
        | none ↦ if frame_pointer == 0 then none else rest
      ]

  unfoldable pub scan_current_safepoint :
      (return_address caller_sp caller_bp : ℕ) → Expected ScanError GcRootScanSummary
  scan_current_safepoint return_address caller_sp caller_bp =
      elim (probe_frames max_start_frame_probe_depth true return_address caller_sp caller_bp) [
        | none ↦
            failure (no_safepoint return_address (nearest_safepoint safepoints return_address none))
        | some (r, sp, bp) ↦ scan_from r sp bp
      ]
