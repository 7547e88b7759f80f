-- ===== src/Threads/Release.antt =====
-- The mutators that wait for a collection go on.
use lona_mvm.Prelude.{
  ℕ, ◌+◌, ◌%◌, ◌<◌, ◌≡◌, refl, Bool, true, false, not, List, [], ◌∷◌, ◌==◌, length, arith,
}
use native.Mathlib.Nat.{mod-eq_of_lt}
use lona_mvm.Memory.Words.{word}
use lona_mvm.Threads.{is_stopped}
use lona_mvm.Threads.Steps.{VmPlace, Parked, System, Step, Reached}
use lona_mvm.Threads.Safety.{reached-Counted}
use lona_mvm.Threads.Roots.{AllUpTo, reached-Rooted}

-- A step of the collecting thread, and one with which a mutator leaves its wait.
abbrev pub is_of_collector : {s t : System} → Step s t → Bool
is_of_collector (Step.begin_stop s v g) = true
is_of_collector (Step.collect s v w g n) = true
is_of_collector _ = false

abbrev pub is_resume : {s t : System} → Step s t → Bool
is_resume (Step.resume s before p after e m) = true
is_resume _ = false

-- Steps of the collecting thread alone.
pub data CollectorRun (s : System) : System → Type 0 where
  here : CollectorRun s s
  next :
      {t u : System}
      → CollectorRun s t
      → (step : Step t u) → is_of_collector step ≡ true
      → CollectorRun s u

-- Steps with which mutators leave, in the order of the list.
pub data ResumeRun : System → System → Type 0 where
  here : {s : System} → ResumeRun s s
  first : {s t u : System} (step : Step s t) → is_resume step ≡ true → ResumeRun t u → ResumeRun s u

abbrev AllMayLeave : (cycle_epoch : ℕ) → List Parked → Type 0
AllMayLeave now [] = Unit {0}
AllMayLeave now (p ∷ ps) = (not (now == p.cycle_epoch) ≡ true) × AllMayLeave now ps

up_to-may_leave : (e now : ℕ) (ps : List Parked) → e < now → AllUpTo e ps → AllMayLeave now ps
up_to-may_leave e now [] lt h = tt
up_to-may_leave e now (p ∷ ps) lt h = (ground (arith, lt, h.0), up_to-may_leave e now ps lt h.1)

all_leave :
    (ps : List Parked) (s : System)
    → s.parked ≡ ps
    → AllMayLeave s.threads.gc_cycle_epoch ps
    → (t : System) × ResumeRun s t × (t.parked ≡ []) × (t.running ≡ s.running + length ps)
all_leave [] s e m = (s, ResumeRun.here, e, omega arith)
all_leave (p ∷ ps) s e m =
    let (t, run, none_left, count) = all_leave ps _ refl m.1 in
    (t, ResumeRun.first (Step.resume s [] p ps e m.0) refl run, none_left, omega (arith, count))

-- The collecting thread's way to a collection.
to_collection :
    (vm : VmPlace) (s : System)
    → s.vm ≡ vm
    → is_stopped s.threads ≡ true
    → s.threads.gc_pending ≡ true
    → (s.threads.active_mutator_count == 0) ≡ false
    → (c : System) × CollectorRun s c
      × (c.cycles ≡ s.threads.pending_root_summary.root_values ∷ s.cycles)
      × (c.parked ≡ s.parked)
      × (c.running ≡ s.running)
      × (c.threads.gc_cycle_epoch ≡ (s.threads.gc_cycle_epoch + 1) % word)
to_collection VmPlace.stopping s v stopped pending some_active = (
  _,
  CollectorRun.next CollectorRun.here (Step.collect s v stopped pending some_active) refl,
  refl,
  refl,
  refl,
  refl,
)
to_collection VmPlace.idle s v stopped pending some_active = (
  _,
  CollectorRun.next (CollectorRun.next CollectorRun.here (Step.begin_stop s v pending) refl)
      (Step.collect _ (rw some_active) stopped pending some_active) refl,
  refl,
  refl,
  refl,
  refl,
)

-- In a state that the threads can reach within fewer than 2 ^ 64 - 1 cycles, where a collection is
-- requested and every mutator waits in a safepoint, the collecting thread by itself gets to a cycle,
-- which is given the roots that are pending, and then every one of these mutators leaves its wait.
pub parked_released :
    (s : System)
    → Reached s
    → length s.cycles + 1 < word
    → s.threads.gc_pending ≡ true
    → s.running ≡ 0
    → 0 < length s.parked
    → (c : System) × CollectorRun s c
      × (c.cycles ≡ s.threads.pending_root_summary.root_values ∷ s.cycles)
      × (c.parked ≡ s.parked)
      × ((t : System) × ResumeRun c t × (t.parked ≡ []) × (t.running ≡ length s.parked))
parked_released s r h pending still some =
    let counted = reached-Counted r in
    let rooted = reached-Rooted r (omega arith) in
    let (c, run, cycles, parked, running, epoch) =
      to_collection s.vm s refl (ground (arith, counted.active, counted.waiting)) pending
        (ground (arith, counted.active)) in
    let later : (s.threads.gc_cycle_epoch + 1) % word ≡ s.threads.gc_cycle_epoch + 1 =
      mod-eq_of_lt (omega (arith, rooted.epoch)) in
    let (t, leaving, none_left, count) = all_leave s.parked c parked (
      up_to-may_leave s.threads.gc_cycle_epoch c.threads.gc_cycle_epoch s.parked
        (omega (arith, epoch, later)) rooted.bounded) in
    (c, run, cycles, parked, (t, leaving, none_left, omega (arith, count, running, still)))
