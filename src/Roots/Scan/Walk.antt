-- ===== src/Roots/Scan/Walk.antt =====
-- The walk along the frame pointers, as a list of frames and a scan of this list.
use mathlib.Core.List.{append_assoc, append-nil}
use lona_mvm.Prelude.{
  ℕ, zero, suc, ◌+◌, ◌*◌, ◌%◌, ◌≡◌, refl, inl, inr, ◌||◌, none, some, List, [], ◌∷◌, ◌++◌,
  if◌then◌else◌, ◌==◌, length, length-append, arith, ap, ◌∙◌, sym, Bool-cases, Option-cases,
}
use lona_mvm.Prelude.Expected.{Expected, success, failure, ◌>>=◌, >>=-congr}
use lona_mvm.Memory.Words.{word}
use lona_mvm.Threads.{GcRootScanSummary, empty_summary}
use lona_mvm.Roots.{SafepointRecord, ScanError}
use lona_mvm.Roots.Frame.{scan_single_managed_frame}
use lona_mvm.Roots.Frame.Laws.{roots_of_pairs, with_frame, scan_single_managed_frame_lem}
use lona_mvm.Roots.Scan.{
  find_caller_record, next_frame_pointer, next_return_address, walk_frames, scan_from,
  max_managed_frame_depth,
}

-- A frame of managed code, with the stack pointer and the frame pointer that its roots are read by.
pub record ManagedFrame : Type 0 where
  pub safepoint : SafepointRecord
  pub sp : ℕ
  pub bp : ℕ

module _ (read : ℕ → ℕ) where
  -- The frames of the loop, as long as return addresses belong to managed code.
  unfoldable pub caller_frames :
      List SafepointRecord → (depth : ℕ) → (frame_pointer : ℕ) → List ManagedFrame
  caller_frames safepoints zero frame_pointer = []
  caller_frames safepoints (suc n) frame_pointer =
      let return_address = next_return_address read safepoints frame_pointer in
      let next = next_frame_pointer read safepoints frame_pointer in
      let rest = caller_frames safepoints n next in
      if frame_pointer == 0 || return_address == 0
      then []
      else elim (find_caller_record safepoints return_address) [
        | none ↦ []
        | some r ↦ record { safepoint = r; sp = (frame_pointer + 16) % word; bp = next } ∷ rest
      ]

  -- The roots of a list of frames, in order.
  unfoldable pub roots_of_frames : List ManagedFrame → Expected ScanError (List ℕ)
  roots_of_frames [] = success []
  roots_of_frames (f ∷ fs) = do
    values ← roots_of_pairs read f.safepoint.root_pairs f.sp f.bp
    rest ← roots_of_frames fs
    success (values ++ rest)

  scan_frames : List ManagedFrame → GcRootScanSummary → Expected ScanError GcRootScanSummary
  scan_frames [] s = success s
  scan_frames (f ∷ fs) s = scan_single_managed_frame read f.safepoint f.sp f.bp s >>= scan_frames fs

  walk_frames-scan_frames :
      (safepoints : List SafepointRecord) (n fp : ℕ) (s : GcRootScanSummary)
      → walk_frames read safepoints n fp s ≡ scan_frames (caller_frames safepoints n fp) s
  unfolding walk_frames caller_frames scan_frames
  walk_frames-scan_frames rs zero fp s = refl
  walk_frames-scan_frames rs (suc n) fp s =
      elim (Bool-cases (fp == 0 || next_return_address read rs fp == 0)) [
        | inl stop ↦ rw stop refl
        | inr go ↦ elim (Option-cases (find_caller_record rs (next_return_address read rs fp))) [
          | inl missing ↦ rw (go, missing) refl
          | inr (r, found) ↦
              rw (go, found) (>>=-congr _ _ _ (walk_frames-scan_frames rs n (read fp)))
        ]
      ]

-- The pairs of a list of frames.
abbrev pub pair_count : List ManagedFrame → ℕ
pair_count [] = 0
pair_count (f ∷ fs) = length f.safepoint.root_pairs + pair_count fs

-- The first address that is not zero.
abbrev pub first_address : ℕ → List ManagedFrame → ℕ
first_address a [] = a
first_address a (f ∷ fs) = first_address (if a == 0 then f.safepoint.instruction_address else a) fs

abbrev pub with_frames : GcRootScanSummary → List ManagedFrame → List ℕ → GcRootScanSummary
with_frames s frames values = record s {
  safepoint_address = first_address s.safepoint_address frames;
  root_pair_count = s.root_pair_count + pair_count frames;
  root_location_count = s.root_location_count + pair_count frames * 2;
  non_null_root_count = s.non_null_root_count + length values;
  root_values = s.root_values ++ values;
}

module _ (read : ℕ → ℕ) where
  with_frames-cons :
      (s : GcRootScanSummary) (f : ManagedFrame) (fs : List ManagedFrame) (vs ws : List ℕ)
      → with_frames (with_frame read s f.safepoint vs) fs ws ≡ with_frames s (f ∷ fs) (vs ++ ws)
  with_frames-cons s f fs vs ws =
      ground (arith, length-append vs ws, append_assoc s.root_values vs ws)

  combined :
      (s : GcRootScanSummary) (f : ManagedFrame) (fs : List ManagedFrame)
      (m n : Expected ScanError (List ℕ))
      → (m >>= (λ vs. success (with_frame read s f.safepoint vs)) >>= λ t.
          n >>= λ ws. success (with_frames t fs ws))
        ≡ (m >>= (λ vs. n >>= λ ws. success (vs ++ ws)) >>= λ vs.
            success (with_frames s (f ∷ fs) vs))
  combined s f fs (failure e) n = refl
  combined s f fs (success vs) (failure e) = refl
  combined s f fs (success vs) (success ws) = ap success (with_frames-cons s f fs vs ws)

  scan_frames_lem :
      (fs : List ManagedFrame) (s : GcRootScanSummary)
      → scan_frames read fs s ≡ (roots_of_frames read fs >>= λ vs. success (with_frames s fs vs))
  unfolding scan_frames roots_of_frames
  scan_frames_lem [] s = ap success (sym (ground (arith, append-nil s.root_values)))
  scan_frames_lem (f ∷ fs) s =
      ap (λ m. m >>= scan_frames read fs)
        (scan_single_managed_frame_lem read f.safepoint f.sp f.bp s)
      ∙ >>=-congr _ _ _ (scan_frames_lem fs)
      ∙ combined s f fs (roots_of_pairs read f.safepoint.root_pairs f.sp f.bp)
          (roots_of_frames read fs)

  -- The scan, by the frames of the loop.
  pub scan_from-caller_frames :
      (safepoints : List SafepointRecord) (r : SafepointRecord) (sp bp : ℕ)
      → let frames =
          record { safepoint = r; sp = sp; bp = bp }
          ∷ caller_frames read safepoints max_managed_frame_depth bp in
        scan_from read safepoints r sp bp
        ≡ (roots_of_frames read frames >>= λ vs. success (with_frames empty_summary frames vs))
  unfolding scan_from scan_frames
  scan_from-caller_frames rs r sp bp =
      >>=-congr _ _ _ (walk_frames-scan_frames read rs max_managed_frame_depth bp)
      ∙ scan_frames_lem
          (record { safepoint = r; sp = sp; bp = bp }
            ∷ caller_frames read rs max_managed_frame_depth bp)
          empty_summary
