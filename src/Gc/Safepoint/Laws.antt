-- ===== src/Gc/Safepoint/Laws.antt =====
-- How a poll can end.
use lona_mvm.Prelude.{
  ℕ, ◌≡◌, refl, inl, inr, true, false, not, some, List, arith, ap, if_both, Option-cases, sym,
}
use lona_mvm.Prelude.Expected.{Expected, success, failure}
use lona_mvm.Threads.{GcRootScanSummary}
use lona_mvm.Gc.Requests.{GcRequests, clear_gc_request}
use lona_mvm.Roots.{SafepointRecord, ScanError}
use lona_mvm.Gc.Safepoint.{
  SafepointState, Outcome, returned, parks, fatal, has_registry, scan_with_registry, after_scan,
  scan_current_runtime_safepoint_from_frame, remember_current_runtime_safepoint_or_fatal,
  handle_pending_runtime_gc_safepoint, mvm_gc_safepoint_poll,
}

module _ (read : ℕ → ℕ) where
  -- There is a request, the thread is a mutator, and the registry in place answers so.
  pub record Scanned (s : SafepointState) (runtime_frame statepoint_id : ℕ)
      (answer : Expected ScanError GcRootScanSummary) : Type 0 where
    pub requested : s.requests.gc_requested ≡ true
    pub mutator : s.current_thread_is_mutator ≡ true
    pub safepoints : List SafepointRecord
    pub installed : s.installed_stack_map_registry ≡ some safepoints
    pub scanned : scan_with_registry read safepoints runtime_frame statepoint_id ≡ answer

  -- What each way to end a poll means.
  abbrev pub Polled : SafepointState → ℕ → ℕ → Outcome → Type 0
  Polled s frame id (returned t) = t.requests ≡ clear_gc_request s.requests
  Polled s frame id (parks t summary) =
      Scanned s frame id (success summary) × (s.has_runtime_threads ≡ true) × (t ≡ s)
  Polled s frame id (fatal e) = Scanned s frame id (failure e)

  not_requested : (g : GcRequests) → g.gc_requested ≡ false → g ≡ clear_gc_request g
  not_requested g h = ap (λ b. record g { gc_requested = b }) h

  after_scan-Polled :
      (s : SafepointState) (frame id : ℕ) (m : Expected ScanError GcRootScanSummary)
      → Scanned s frame id m
      → Polled s frame id (after_scan read s m)
  after_scan-Polled s frame id (failure e) h = h
  after_scan-Polled s frame id (success summary) h =
      if_both (Polled s frame id) s.has_runtime_threads (λ threads. (h, threads, refl))
        (λ alone. refl)

  remember-Polled :
      (s : SafepointState) (frame id : ℕ)
      → s.requests.gc_requested ≡ true
      → s.current_thread_is_mutator ≡ true
      → has_registry s.installed_stack_map_registry ≡ true
      → Polled s frame id (remember_current_runtime_safepoint_or_fatal read s frame id)
  unfolding remember_current_runtime_safepoint_or_fatal scan_current_runtime_safepoint_from_frame
  remember-Polled s frame id requested mutator present =
      elim (Option-cases s.installed_stack_map_registry) [
        | inl missing ↦ absurd (ground arith)
        | inr (safepoints, installed) ↦
            let answer : scan_current_runtime_safepoint_from_frame read s frame id
                ≡ scan_with_registry read safepoints frame id =
              simp (mutator, installed) in
            after_scan-Polled s frame id (scan_current_runtime_safepoint_from_frame read s frame id)
              (record {
                requested = requested;
                mutator = mutator;
                safepoints = safepoints;
                installed = installed;
                scanned = sym answer;
              })
      ]

  handle-Polled :
      (s : SafepointState) (frame id : ℕ)
      → Polled s frame id (handle_pending_runtime_gc_safepoint read s frame id)
  unfolding handle_pending_runtime_gc_safepoint
  handle-Polled s frame id =
      if_both (Polled s frame id) (not s.requests.gc_requested)
        (λ idle. not_requested s.requests (ground arith))
        (λ requested.
          if_both (Polled s frame id) (not s.current_thread_is_mutator) (λ other. refl)
            (λ mutator.
              if_both (Polled s frame id) (not (has_registry s.installed_stack_map_registry))
                (λ missing. refl)
                (λ present.
                  remember-Polled s frame id (ground arith) (ground arith) (ground arith))))

  -- A poll returns only with the request taken back and with the other counters kept. It lets the
  -- thread park, with nothing changed, only if a request is up, the thread is a mutator, a registry
  -- and runtime threads are in place, and the registry scanned the frame to these roots. It stops the
  -- process only with an error of that scan: never for want of a mutator or a registry.
  pub poll-Polled :
      (s : SafepointState) (frame id : ℕ)
      → Polled s frame id (mvm_gc_safepoint_poll read s frame id)
  unfolding mvm_gc_safepoint_poll
  poll-Polled s frame id =
      if_both (Polled s frame id) (not s.requests.gc_requested)
        (λ idle. not_requested s.requests (ground arith)) (λ requested. handle-Polled s frame id)
