-- ===== src/Threads/Tests.antt =====
-- Two mutators. After the first cycle one of them asks for another and parks again before the other
-- has left its wait.
use lona_mvm.Prelude.{ℕ, ◌≡◌, refl, [], ◌∷◌, length, arith}
use lona_mvm.Threads.{GcRootScanSummary, empty_summary}
use lona_mvm.Threads.Steps.{System, Parked, initial_system, Step, Reached}
use lona_mvm.Threads.Safety.{world_stopped}
use lona_mvm.Threads.Roots.{roots_since, pending_roots}
use lona_mvm.Threads.Release.{CollectorRun, ResumeRun, parked_released}

abbrev with_root : ℕ → GcRootScanSummary
with_root root = record empty_summary { root_values = root ∷ [] }

-- Both mutators wait, the first one with the root 1, the second one with the root 2, and the
-- collecting thread has seen the request.
abbrev both_parked : (s : System) × Reached s
both_parked =
    let r1 = Reached.next Reached.here (Step.start initial_system) in
    let r2 = Reached.next r1 (Step.start _) in
    let r3 = Reached.next r2 (Step.request _) in
    let r4 = Reached.next r3 (Step.wait_at_safepoint _ (with_root 1) (omega arith)) in
    let r5 = Reached.next r4 (Step.wait_at_safepoint _ (with_root 2) (omega arith)) in
    (_, Reached.next r5 (Step.begin_stop _ refl refl))

-- The second mutator left its wait, asked for a collection and waits again; the first one has not
-- left yet.
abbrev parked_again : (s : System) × Reached s
parked_again =
    let r1 = Reached.next both_parked.1 (Step.collect _ refl refl refl refl) in
    let first : Parked = record { cycle_epoch = 0; roots = 1 ∷ [] } in
    let second : Parked = record { cycle_epoch = 0; roots = 2 ∷ [] } in
    let r2 = Reached.next r1 (Step.resume _ (first ∷ []) second [] refl refl) in
    let r3 = Reached.next r2 (Step.request _) in
    let r4 = Reached.next r3 (Step.wait_at_safepoint _ (with_root 2) (omega arith)) in
    (_, Reached.next r4 (Step.begin_stop _ refl refl))

abbrev second_cycle : (s : System) × Reached s
second_cycle = (_, Reached.next parked_again.1 (Step.collect _ refl refl refl refl))

-- The second cycle was given the root of the second mutator only, while the first one waits.
lost_root_test : second_cycle.0.cycles ≡ (2 ∷ []) ∷ (1 ∷ 2 ∷ []) ∷ []
lost_root_test = refl

first_waits_test :
    second_cycle.0.parked
    ≡ record { cycle_epoch = 0; roots = 1 ∷ [] } ∷ record { cycle_epoch = 1; roots = 2 ∷ [] } ∷ []
first_waits_test = refl

world_stopped_example :
    (both_parked.0.running ≡ 0)
    × (both_parked.0.threads.active_mutator_count ≡ length both_parked.0.parked)
world_stopped_example = world_stopped both_parked.0 both_parked.1 refl

pending_roots_example :
    parked_again.0.threads.pending_root_summary.root_values
    ≡ roots_since parked_again.0.threads.gc_cycle_epoch parked_again.0.parked
pending_roots_example = pending_roots parked_again.0 parked_again.1 (omega arith)

parked_released_example :
    (c : System) × CollectorRun both_parked.0 c
    × (c.cycles ≡ (1 ∷ 2 ∷ []) ∷ [])
    × (c.parked ≡ both_parked.0.parked)
    × ((t : System) × ResumeRun c t × (t.parked ≡ []) × (t.running ≡ 2))
parked_released_example =
    parked_released both_parked.0 both_parked.1 (omega arith) refl refl (omega arith)
