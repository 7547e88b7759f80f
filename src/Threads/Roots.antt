-- ===== src/Threads/Roots.antt =====
-- Which roots a cycle is given.
use mathlib.Core.List.{append_assoc, append-nil}
use lona_mvm.Prelude.{
  ℕ, ◌+◌, ◌-◌, ◌%◌, ◌≤◌, ◌<◌, ◌≡◌, refl, true, List, [], ◌∷◌, ◌++◌, if◌then◌else◌, ◌==◌, ==_refl,
  length, arith, ap, ◌∙◌, sym, subst, Bool-cases, inl, inr, not,
}
use native.Mathlib.Nat.{mod-eq_of_lt}
use lona_mvm.Memory.Words.{word}
use lona_mvm.Threads.{mark_mutator_stopped}
use lona_mvm.Threads.Steps.{Parked, System, Step, Reached}
use lona_mvm.Threads.Safety.{Counted, reached-Counted}

-- The roots of the mutators that wait since the epoch, in the order in which they parked.
unfoldable pub roots_since : ℕ → List Parked → List ℕ
roots_since epoch [] = []
roots_since epoch (p ∷ ps) =
    if p.cycle_epoch == epoch then p.roots ++ roots_since epoch ps else roots_since epoch ps

abbrev pub AllUpTo : ℕ → List Parked → Type 0
AllUpTo epoch [] = Unit {0}
AllUpTo epoch (p ∷ ps) = (p.cycle_epoch ≤ epoch) × AllUpTo epoch ps

roots_since-append :
    (epoch : ℕ) (ps qs : List Parked)
    → roots_since epoch (ps ++ qs) ≡ roots_since epoch ps ++ roots_since epoch qs
unfolding roots_since
roots_since-append epoch [] qs = refl
roots_since-append epoch (p ∷ ps) qs = elim (Bool-cases (p.cycle_epoch == epoch)) [
  | inl now ↦
      rw now (ap (◌++◌ p.roots) (roots_since-append epoch ps qs) ∙ sym (append_assoc p.roots _ _))
  | inr old ↦ rw old (roots_since-append epoch ps qs)
]

none_since_later :
    (epoch : ℕ) (ps : List Parked) → AllUpTo epoch ps → roots_since (epoch + 1) ps ≡ []
unfolding roots_since
none_since_later epoch [] h = refl
none_since_later epoch (p ∷ ps) h = ground (arith, h.0, none_since_later epoch ps h.1)

up_to_append :
    (epoch : ℕ) (ps qs : List Parked)
    → AllUpTo epoch ps
    → AllUpTo epoch qs
    → AllUpTo epoch (ps ++ qs)
up_to_append epoch [] qs a b = b
up_to_append epoch (p ∷ ps) qs a b = (a.0, up_to_append epoch ps qs a.1 b)

up_to_split :
    (epoch : ℕ) (ps qs : List Parked)
    → AllUpTo epoch (ps ++ qs)
    → AllUpTo epoch ps × AllUpTo epoch qs
up_to_split epoch [] qs h = (tt, h)
up_to_split epoch (p ∷ ps) qs h = let (a, b) = up_to_split epoch ps qs h.1 in ((h.0, a), b)

up_to_later : (epoch : ℕ) (ps : List Parked) → AllUpTo epoch ps → AllUpTo (epoch + 1) ps
up_to_later epoch [] h = tt
up_to_later epoch (p ∷ ps) h = (omega (arith, h.0), up_to_later epoch ps h.1)

pub record Rooted (s : System) : Type 0 where
  pub epoch : s.threads.gc_cycle_epoch ≡ length s.cycles
  pub bounded : AllUpTo s.threads.gc_cycle_epoch s.parked
  pub pending :
      s.threads.pending_root_summary.root_values ≡ roots_since s.threads.gc_cycle_epoch s.parked

no_parked : (ps : List Parked) → length ps ≡ 0 → (epoch : ℕ) → roots_since epoch ps ≡ []
unfolding roots_since
no_parked [] h epoch = refl
no_parked (p ∷ ps) h epoch = absurd (omega arith)

one_now :
    (e : ℕ) (roots : List ℕ)
    → roots_since e (record { cycle_epoch = e; roots = roots } ∷ []) ≡ roots
unfolding roots_since
one_now e roots = rw (==_refl e) (append-nil roots)

passed :
    (now : ℕ) (p : Parked) (ps : List Parked)
    → not (now == p.cycle_epoch) ≡ true
    → roots_since now (p ∷ ps) ≡ roots_since now ps
unfolding roots_since
passed now p ps m = ground arith

Step-Rooted :
    {s t : System}
    → Step s t
    → Counted s
    → length t.cycles < word
    → (length s.cycles < word → Rooted s)
    → Rooted t
unfolding mark_mutator_stopped roots_since
Step-Rooted (Step.start s) c h r =
    let i = r h in record { epoch = i.epoch; bounded = i.bounded; pending = i.pending }
Step-Rooted (Step.stop s pos) c h r =
    let i = r h in
    record {
      epoch = ground (arith, i.epoch);
      bounded = elim (Bool-cases (s.threads.active_mutator_count - 1 == 0)) [
        | inl last ↦ ground (arith, i.bounded)
        | inr more ↦ ground (arith, i.bounded)
      ];
      pending = elim (Bool-cases (s.threads.active_mutator_count - 1 == 0)) [
        | inl last ↦ ground (
          arith,
          i.pending,
          no_parked s.parked (ground (arith, c.active, pos)) s.threads.gc_cycle_epoch,
        )
        | inr more ↦ ground (arith, i.pending, c.active)
      ];
    }
Step-Rooted (Step.request s) c h r =
    let i = r h in record { epoch = i.epoch; bounded = i.bounded; pending = i.pending }
Step-Rooted (Step.wait_at_safepoint s summary pos) c h r =
    let i = r h in
    let e = s.threads.gc_cycle_epoch in
    record {
      epoch = i.epoch;
      bounded = up_to_append e s.parked _ i.bounded (omega arith, tt);
      pending =
          ap (λ (l : List ℕ). l ++ summary.root_values) i.pending
          ∙ sym (
              roots_since-append e s.parked
                (record { cycle_epoch = e; roots = summary.root_values } ∷ [])
              ∙ ap (λ (l : List ℕ). roots_since e s.parked ++ l) (one_now e summary.root_values));
    }
Step-Rooted (Step.resume s before p after e m) c h r =
    let i = r h in
    let now = s.threads.gc_cycle_epoch in
    let (a, b) = up_to_split now before (p ∷ after) (subst (AllUpTo now) e i.bounded) in
    record {
      epoch = i.epoch;
      bounded = up_to_append now before after a b.1;
      pending =
          i.pending
          ∙ ap (roots_since now) e
          ∙ roots_since-append now before (p ∷ after)
          ∙ ap (◌++◌ (roots_since now before)) (passed now p after m)
          ∙ sym (roots_since-append now before after);
    }
Step-Rooted (Step.begin_stop s v g) c h r =
    let i = r h in record { epoch = i.epoch; bounded = i.bounded; pending = i.pending }
Step-Rooted (Step.give_up s v w g) c h r =
    let i = r h in record { epoch = i.epoch; bounded = i.bounded; pending = i.pending }
Step-Rooted (Step.collect s v w g n) c h r =
    let i = r (omega arith) in
    let now = s.threads.gc_cycle_epoch in
    let later : (now + 1) % word ≡ now + 1 = mod-eq_of_lt (omega (arith, i.epoch)) in
    record {
      epoch = omega (arith, later, i.epoch);
      bounded = subst (λ e. AllUpTo e s.parked) (sym later) (up_to_later now s.parked i.bounded);
      pending =
          sym (ap (λ e. roots_since e s.parked) later ∙ none_since_later now s.parked i.bounded);
    }

pub reached-Rooted : {s : System} → Reached s → length s.cycles < word → Rooted s
reached-Rooted Reached.here h = record {
  epoch = refl;
  bounded = tt;
  pending = unfold roots_since in refl;
}
reached-Rooted (Reached.next r step) h = Step-Rooted step (reached-Counted r) h (reached-Rooted r)

-- In a state that the threads can reach within fewer than 2 ^ 64 cycles, the roots that the next
-- cycle is given are those of the mutators that wait since the last cycle, in the order in which
-- they parked.
pub pending_roots :
    (s : System)
    → Reached s
    → length s.cycles < word
    → s.threads.pending_root_summary.root_values ≡ roots_since s.threads.gc_cycle_epoch s.parked
pending_roots s r h = (reached-Rooted r h).pending
