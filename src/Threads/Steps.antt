-- ===== src/Threads/Steps.antt =====
-- The threads together: mutators that run, mutators that wait in a safepoint with the epoch they saw
-- and the roots they reported, the place of the collecting thread, and the roots of each cycle.
use lona_mvm.Prelude.{ℕ, ◌+◌, ◌-◌, ◌<◌, ◌≡◌, true, false, List, [], ◌∷◌, ◌++◌, if◌then◌else◌, ◌==◌}
use lona_mvm.Threads.{
  GcRootScanSummary, RuntimeThreads, initial_threads, mark_mutator_started, mark_mutator_stopped,
  notify_gc_requested, park, may_leave, leave, is_stopped, finish_cycle,
}

-- Waiting for a request, or for the mutators to stop.
pub data VmPlace : Type 0 where
  idle stopping : VmPlace

pub record Parked : Type 0 where
  pub cycle_epoch : ℕ
  pub roots : List ℕ

pub record System : Type 0 where
  pub threads : RuntimeThreads
  pub running : ℕ
  pub parked : List Parked
  pub vm : VmPlace
  pub cycles : List (List ℕ)

abbrev pub initial_system : System
initial_system = record {
  threads = initial_threads;
  running = 0;
  parked = [];
  vm = VmPlace.idle;
  cycles = [];
}

-- One thread's move.
pub data Step : System → System → Type 0 where
  start :
      (s : System)
      → Step s (record s { threads = mark_mutator_started s.threads; running = s.running + 1 })
  stop :
      (s : System)
      → 0 < s.running
      → Step s (record s { threads = mark_mutator_stopped s.threads; running = s.running - 1 })
  request : (s : System) → Step s (record s { threads = notify_gc_requested s.threads })
  wait_at_safepoint :
      (s : System) (summary : GcRootScanSummary)
      → 0 < s.running
      → Step s (record s {
        threads = park s.threads summary;
        running = s.running - 1;
        parked =
            s.parked
            ++ record { cycle_epoch = s.threads.gc_cycle_epoch; roots = summary.root_values } ∷ [];
      })
  resume :
      (s : System) (before : List Parked) (p : Parked) (after : List Parked)
      → s.parked ≡ before ++ p ∷ after
      → may_leave s.threads p.cycle_epoch ≡ true
      → Step s (record s {
        threads = leave s.threads;
        running = s.running + 1;
        parked = before ++ after;
      })
  begin_stop :
      (s : System)
      → s.vm ≡ VmPlace.idle
      → s.threads.gc_pending ≡ true
      → Step s (record s {
        vm = if s.threads.active_mutator_count == 0 then VmPlace.idle else VmPlace.stopping;
      })
  give_up :
      (s : System)
      → s.vm ≡ VmPlace.stopping
      → is_stopped s.threads ≡ true
      → (if s.threads.gc_pending then s.threads.active_mutator_count == 0 else true) ≡ true
      → Step s (record s { vm = VmPlace.idle })
  collect :
      (s : System)
      → s.vm ≡ VmPlace.stopping
      → is_stopped s.threads ≡ true
      → s.threads.gc_pending ≡ true
      → (s.threads.active_mutator_count == 0) ≡ false
      → Step s (record s {
        threads = finish_cycle s.threads;
        vm = VmPlace.idle;
        cycles = s.threads.pending_root_summary.root_values ∷ s.cycles;
      })

pub data Reached : System → Type 0 where
  here : Reached initial_system
  next : {s t : System} → Reached s → Step s t → Reached t
