-- ===== src/Roots/Frame.antt =====
-- gc.cc: the value of a root location in a frame, and the scan of one frame. `read` is the word of
-- memory at an address.
pub mod Laws
use lona_mvm.Prelude.{
  ℕ, ◌+◌, ◌-◌, ◌*◌, ◌%◌, ◌^◌, Bool, not, ◌&&◌, List, [], ◌∷◌, ◌++◌, if◌then◌else◌, ltb, ◌==◌,
  length,
}
use lona_mvm.Prelude.Expected.{Expected, success, failure, ◌>>=◌}
use lona_mvm.Memory.Words.{word}
use lona_mvm.Threads.{GcRootScanSummary}
use lona_mvm.Roots.{RootKind, GcRootLocation, GcRootLocationPair, SafepointRecord, ScanError}
use lona_mvm.Roots.ScanError.{unsupported_register, unexpected_size}

abbrev pub rbp_dwarf_register : ℕ
rbp_dwarf_register = 6

abbrev pub rsp_dwarf_register : ℕ
rsp_dwarf_register = 7

unfoldable pub resolve_tracked_register_value :
    (dwarf_register caller_sp caller_bp : ℕ) → Expected ScanError ℕ
resolve_tracked_register_value dwarf_register caller_sp caller_bp =
    if dwarf_register == rsp_dwarf_register
    then success caller_sp
    else if dwarf_register == rbp_dwarf_register
    then success caller_bp
    else failure (unsupported_register dwarf_register)

-- base + offset, for an offset of 32 bits with a sign.
unfoldable pub displaced : (base offset : ℕ) → ℕ
displaced base offset =
    (base + (if ltb offset (2 ^ 31) then offset else offset + (word - 2 ^ 32))) % word

abbrev pub is_constant : RootKind → Bool
is_constant RootKind.constant = Bool.true
is_constant _ = Bool.false

module _ (read : ℕ → ℕ) where
  -- The switch on the kind of a location.
  unfoldable pub located_value : GcRootLocation → (caller_sp caller_bp : ℕ) → Expected ScanError ℕ
  located_value l caller_sp caller_bp =
      let base = resolve_tracked_register_value l.dwarf_register caller_sp caller_bp in
      elim l.kind [
        | RootKind.constant ↦ success l.constant
        | RootKind.register ↦ base
        | RootKind.direct ↦ base >>= λ b. success (displaced b l.offset)
        | RootKind.indirect ↦ base >>= λ b. success (read (displaced b l.offset))
      ]

  unfoldable pub resolve_root_value :
      GcRootLocation → (caller_sp caller_bp : ℕ) → Expected ScanError ℕ
  resolve_root_value l caller_sp caller_bp =
      if not (is_constant l.kind) && not (l.size == 8)
      then failure (unexpected_size l.size)
      else located_value l caller_sp caller_bp

  -- A root that is not null is counted and kept.
  abbrev pub add_root : GcRootScanSummary → ℕ → GcRootScanSummary
  add_root s value = if value == 0 then s else record s {
    non_null_root_count = s.non_null_root_count + 1;
    root_values = s.root_values ++ value ∷ [];
  }

  unfoldable pub scan_pairs :
      List GcRootLocationPair
      → (frame_sp frame_bp : ℕ) → GcRootScanSummary
      → Expected ScanError GcRootScanSummary
  scan_pairs [] sp bp s = success s
  scan_pairs (p ∷ ps) sp bp s = do
    base ← resolve_root_value p.base sp bp
    derived ← resolve_root_value p.derived sp bp
    scan_pairs ps sp bp (add_root (add_root s base) derived)

  -- The counts are below 2 ^ 64: at most 257 frames are scanned.
  unfoldable pub scan_single_managed_frame :
      SafepointRecord
      → (frame_sp frame_bp : ℕ) → GcRootScanSummary
      → Expected ScanError GcRootScanSummary
  scan_single_managed_frame r sp bp s = scan_pairs r.root_pairs sp bp (record s {
    safepoint_address =
        if s.safepoint_address == 0 then r.instruction_address else s.safepoint_address;
    root_pair_count = s.root_pair_count + length r.root_pairs;
    root_location_count = s.root_location_count + length r.root_pairs * 2;
  })
