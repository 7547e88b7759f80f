-- ===== src/Roots/Frame/Laws.antt =====
-- The scan of a frame, described by the list of roots in it.
use mathlib.Core.List.{append_assoc, append-nil}
use lona_mvm.Prelude.{
  ℕ, ◌+◌, ◌*◌, ◌≡◌, refl, inl, inr, List, [], ◌∷◌, ◌++◌, if◌then◌else◌, ◌==◌, length, length-append,
  arith, ap, ◌∙◌, sym,
}
use lona_mvm.Prelude.Expected.{Expected, success, failure, ◌>>=◌, Expected-cases}
use lona_mvm.Threads.{GcRootScanSummary}
use lona_mvm.Roots.{GcRootLocationPair, SafepointRecord, ScanError}
use lona_mvm.Roots.Frame.{resolve_root_value, add_root, scan_pairs, scan_single_managed_frame}

abbrev pub if_not_null : ℕ → List ℕ
if_not_null value = if value == 0 then [] else value ∷ []

module _ (read : ℕ → ℕ) where
  -- The values of the pairs that are not null, base before derived.
  unfoldable pub roots_of_pairs :
      List GcRootLocationPair → (frame_sp frame_bp : ℕ) → Expected ScanError (List ℕ)
  roots_of_pairs [] sp bp = success []
  roots_of_pairs (p ∷ ps) sp bp = do
    base ← resolve_root_value read p.base sp bp
    derived ← resolve_root_value read p.derived sp bp
    rest ← roots_of_pairs ps sp bp
    success (if_not_null base ++ if_not_null derived ++ rest)

  abbrev pub with_roots : GcRootScanSummary → List ℕ → GcRootScanSummary
  with_roots s values = record s {
    non_null_root_count = s.non_null_root_count + length values;
    root_values = s.root_values ++ values;
  }

  add_root_lem : (s : GcRootScanSummary) (v : ℕ) → add_root read s v ≡ with_roots s (if_not_null v)
  add_root_lem s v = ground (arith, append-nil s.root_values)

  with_roots-append :
      (s : GcRootScanSummary) (vs ws : List ℕ)
      → with_roots (with_roots s vs) ws ≡ with_roots s (vs ++ ws)
  with_roots-append s vs ws = ground (arith, length-append vs ws, append_assoc s.root_values vs ws)

  add_roots_lem :
      (s : GcRootScanSummary) (b d : ℕ)
      → add_root read (add_root read s b) d ≡ with_roots s (if_not_null b ++ if_not_null d)
  add_roots_lem s b d =
      ap (λ t. add_root read t d) (add_root_lem s b)
      ∙ add_root_lem (with_roots s (if_not_null b)) d
      ∙ with_roots-append s (if_not_null b) (if_not_null d)

  scan_pairs_lem :
      (ps : List GcRootLocationPair) (sp bp : ℕ) (s : GcRootScanSummary)
      → scan_pairs read ps sp bp s
        ≡ (roots_of_pairs ps sp bp >>= λ values. success (with_roots s values))
  unfolding scan_pairs roots_of_pairs
  scan_pairs_lem [] sp bp s = ap success (sym (ground (arith, append-nil s.root_values)))
  scan_pairs_lem (p ∷ ps) sp bp s = elim (Expected-cases (resolve_root_value read p.base sp bp)) [
    | inr (e, failed) ↦ rw failed refl
    | inl (b, base) ↦ elim (Expected-cases (resolve_root_value read p.derived sp bp)) [
      | inr (e, failed) ↦ rw (base, failed) refl
      | inl (d, derived) ↦
          rw (base, derived)
            (ap (scan_pairs read ps sp bp) (add_roots_lem s b d)
              ∙ scan_pairs_lem ps sp bp (with_roots s (if_not_null b ++ if_not_null d))
              ∙ rest_of s b d (roots_of_pairs ps sp bp))
    ]
  ]
    where
      rest_of :
          (s : GcRootScanSummary) (b d : ℕ) (m : Expected ScanError (List ℕ))
          → (m >>= λ values.
              success (with_roots (with_roots s (if_not_null b ++ if_not_null d)) values))
            ≡ ((m >>= λ rest. success (if_not_null b ++ if_not_null d ++ rest)) >>= λ values.
                success (with_roots s values))
      rest_of s b d (failure e) = refl
      rest_of s b d (success rest) =
          ap success (with_roots-append s (if_not_null b ++ if_not_null d) rest)

  abbrev pub with_frame : GcRootScanSummary → SafepointRecord → List ℕ → GcRootScanSummary
  with_frame s r values = record s {
    safepoint_address =
        if s.safepoint_address == 0 then r.instruction_address else s.safepoint_address;
    root_pair_count = s.root_pair_count + length r.root_pairs;
    root_location_count = s.root_location_count + length r.root_pairs * 2;
    non_null_root_count = s.non_null_root_count + length values;
    root_values = s.root_values ++ values;
  }

  pub scan_single_managed_frame_lem :
      (r : SafepointRecord) (sp bp : ℕ) (s : GcRootScanSummary)
      → scan_single_managed_frame read r sp bp s
        ≡ (roots_of_pairs r.root_pairs sp bp >>= λ values. success (with_frame s r values))
  unfolding scan_single_managed_frame
  scan_single_managed_frame_lem r sp bp s = scan_pairs_lem r.root_pairs sp bp _
