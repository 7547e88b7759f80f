-- ===== src/Threads/Safety.antt =====
-- A collection runs while the world is stopped, and with which roots.
use lona_mvm.Prelude.{◌+◌, ◌≡◌, refl, true, List, [], ◌∷◌, length, length-append, arith, ap}
use lona_mvm.Threads.{mark_mutator_stopped, is_stopped}
use lona_mvm.Threads.Steps.{Parked, System, Step, Reached}

-- The counts of the mutex's owner are those of the threads.
pub record Counted (s : System) : Type 0 where
  pub active : s.threads.active_mutator_count ≡ s.running + length s.parked
  pub waiting : s.threads.parked_mutator_count ≡ length s.parked

Step-Counted : {s t : System} → Step s t → Counted s → Counted t
unfolding mark_mutator_stopped
Step-Counted (Step.start s) c = record { active = omega (arith, c.active); waiting = c.waiting }
Step-Counted (Step.stop s pos) c = record {
  active = ground (arith, c.active, pos);
  waiting = ground (arith, c.waiting);
}
Step-Counted (Step.request s) c = record { active = c.active; waiting = c.waiting }
Step-Counted (Step.wait_at_safepoint s summary pos) c = record {
  active = omega (arith, c.active, pos, length-append s.parked (_ ∷ []));
  waiting = omega (arith, c.waiting, length-append s.parked (_ ∷ []));
}
Step-Counted (Step.resume s before p after e m) c =
    let whole = ap (λ (l : List Parked). length l) e in
    record {
      active =
          omega
            (arith, c.active, whole, length-append before (p ∷ after), length-append before after);
      waiting =
          omega
            (arith, c.waiting, whole, length-append before (p ∷ after), length-append before after);
    }
Step-Counted (Step.begin_stop s v g) c = record { active = c.active; waiting = c.waiting }
Step-Counted (Step.give_up s v w g) c = record { active = c.active; waiting = c.waiting }
Step-Counted (Step.collect s v w g n) c = record { active = c.active; waiting = c.waiting }

pub reached-Counted : {s : System} → Reached s → Counted s
reached-Counted Reached.here = record { active = omega arith; waiting = refl }
reached-Counted (Reached.next r step) = Step-Counted step (reached-Counted r)

-- In a state that the threads can reach, if the collecting thread sees the mutators stopped, then no
-- mutator runs: each one waits in a safepoint.
pub world_stopped :
    (s : System)
    → Reached s
    → is_stopped s.threads ≡ true
    → (s.running ≡ 0) × (s.threads.active_mutator_count ≡ length s.parked)
world_stopped s r stopped =
    let c = reached-Counted r in
    (ground (arith, c.active, c.waiting, stopped), ground (arith, c.active, c.waiting, stopped))
