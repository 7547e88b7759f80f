-- ===== src/Managed/Visit/Quiet.antt =====
-- What follows for the states where an update says that it changes nothing.
use lona_mvm.Prelude.{
  ℕ, ◌+◌, ◌≡◌, inl, inr, Bool, true, false, List, [], ◌∷◌, if◌then◌else◌, Among, here, there, arith,
  Bool-cases, subst,
}
use lona_mvm.Managed.State.{PointerState, state_raw, empty, merged, merge_changes}
use lona_mvm.Managed.Module.{ModuleView}
use lona_mvm.Managed.Store.{
  Cell, States, Update, ◌then_also◌, with_states, when, merge_cell, get_value_state,
}
use lona_mvm.Managed.Store.Progress.{
  Progress, when-Progress, with_states-Progress, merge_cell-Progress,
}
use lona_mvm.Managed.Visit.{merge_all, visit_args, visit_params}
use lona_mvm.Managed.Visit.Progress.{merge_when-Progress}
use lona_mvm.Managed.Visit.Consistent.{Within, ArgsFlow, OpenParams}

-- The update says that it changes nothing.
abbrev pub Quiet : Update → States → Type 0
Quiet f s = (f s).1 ≡ false

pub Quiet-then_also :
    {cells : List Cell} (f g : Update) (s : States)
    → Progress cells f
    → Quiet (f then_also g) s
    → Quiet f s × Quiet g s
unfolding ◌then_also◌
Quiet-then_also f g s p h =
    let first : (f s).1 ≡ false = ground arith in
    (first, subst (λ t. (g t).1 ≡ false) (p.kept s first) (ground arith))

quiet_else :
    (b : Bool) (x y : States × Bool) → (if b then x else y).1 ≡ false → b ≡ false → y.1 ≡ false
quiet_else true x y h e = absurd (ground arith)
quiet_else false x y h e = h

pub Quiet-merge :
    (c : Cell) (state : PointerState) (s : States)
    → Quiet (merge_cell c state) s
    → Within state (s c)
unfolding merge_cell
Quiet-merge c state s h = elim (Bool-cases (empty state)) [
  | inl nothing ↦ record {
    null = λ e. absurd (ground arith);
    raw = λ e. absurd (ground arith);
    managed_object = λ e. absurd (ground arith);
    managed_array = λ e. absurd (ground arith);
  }
  | inr something ↦
      let still : merge_changes (s c) state ≡ false = quiet_else (empty state) _ _ h something in
      record {
        null = λ e. ground arith;
        raw = λ e. ground arith;
        managed_object = λ e. ground arith;
        managed_array = λ e. ground arith;
      }
]

pub Quiet-when : (b : Bool) (f : Update) (s : States) → Quiet (when b f) s → b ≡ true → Quiet f s
Quiet-when true f s h e = h
Quiet-when false f s h e = absurd (ground arith)

pub Within-trans : {p q r : PointerState} → Within p q → Within q r → Within p r
Within-trans a b = record {
  null = λ e. b.null (a.null e);
  raw = λ e. b.raw (a.raw e);
  managed_object = λ e. b.managed_object (a.managed_object e);
  managed_array = λ e. b.managed_array (a.managed_array e);
}

pub Within-left : (p q : PointerState) → Within p (merged p q)
Within-left p q = record {
  null = λ e. ground arith;
  raw = λ e. ground arith;
  managed_object = λ e. ground arith;
  managed_array = λ e. ground arith;
}

pub Within-right : (p q : PointerState) → Within q (merged p q)
Within-right p q = record {
  null = λ e. ground arith;
  raw = λ e. ground arith;
  managed_object = λ e. ground arith;
  managed_array = λ e. ground arith;
}

pub Within-merge_all_start :
    (f : ℕ → PointerState) (vs : List ℕ) (p : PointerState) → Within p (merge_all f vs p)
unfolding merge_all
Within-merge_all_start f [] p = record {
  null = λ e. e;
  raw = λ e. e;
  managed_object = λ e. e;
  managed_array = λ e. e;
}
Within-merge_all_start f (v ∷ vs) p =
    Within-trans (Within-left p (f v)) (Within-merge_all_start f vs (merged p (f v)))

pub Within-merge_all :
    (f : ℕ → PointerState) (vs : List ℕ) (p : PointerState) (x : ℕ)
    → Among x vs
    → Within (f x) (merge_all f vs p)
unfolding merge_all
Within-merge_all f [] p x a = elim a [ ]
Within-merge_all f (v ∷ vs) p x here =
    Within-trans (Within-right p (f x)) (Within-merge_all_start f vs (merged p (f x)))
Within-merge_all f (v ∷ vs) p x (there a) = Within-merge_all f vs (merged p (f v)) x a

module _ (m : ModuleView) (s : States) where
  pub Quiet-merge_when :
      (b : Bool) (c : Cell) (state : States → PointerState)
      → Quiet (with_states λ t. when b (merge_cell c (state t))) s
      → b ≡ true
      → Within (state s) (s c)
  Quiet-merge_when b c state h e = Quiet-merge c (state s) s (Quiet-when b _ s h e)

  pub Quiet-params :
      (f : ℕ) (is_open : Bool) (i : ℕ) (ps : List ℕ)
      → Quiet (visit_params m f is_open i ps) s
      → is_open ≡ true
      → OpenParams m s f i ps
  unfolding visit_params
  Quiet-params f is_open i [] h e = tt
  Quiet-params f is_open i (a ∷ more) h e =
      let (first, rest) =
        Quiet-then_also {cells = Cell.param f i ∷ []} _ _ s
          (when-Progress (m.is_pointer a) _
            (when-Progress is_open _ (merge_cell-Progress (Cell.param f i) state_raw here)))
          h in
      (
        (λ pointer.
            Quiet-merge (Cell.param f i) state_raw s
              (Quiet-when is_open _ s (Quiet-when (m.is_pointer a) _ s first pointer) e)),
        Quiet-params f is_open (i + 1) more rest e,
      )

  pub Quiet-args :
      (f i : ℕ) (ps args : List ℕ) → Quiet (visit_args m f i ps args) s → ArgsFlow m s f i ps args
  unfolding visit_args
  Quiet-args f i [] args h = tt
  Quiet-args f i (p ∷ ps) [] h = tt
  Quiet-args f i (p ∷ ps) (a ∷ more) h =
      let (first, rest) =
        Quiet-then_also {cells = Cell.param f i ∷ []} _ _ s
          (when-Progress (m.is_pointer a) _ (
            with_states-Progress _
              (λ t. merge_cell-Progress (Cell.param f i) (get_value_state m t a) here)))
          h in
      (
        (λ pointer.
            Quiet-merge (Cell.param f i) (get_value_state m s a) s
              (Quiet-when (m.is_pointer a) _ s first pointer)),
        Quiet-args f (i + 1) ps more rest,
      )

  pub Quiet-pair :
      (v : ℕ) (a b : Bool) (x y : States → PointerState)
      → Quiet
          ((with_states λ t. when a (merge_cell (Cell.value v) (x t)))
            then_also (with_states λ t. when b (merge_cell (Cell.location v) (y t))))
          s
      → (a ≡ true → Within (x s) (s (Cell.value v)))
        × (b ≡ true → Within (y s) (s (Cell.location v)))
  Quiet-pair v a b x y h =
      let (first, rest) =
        Quiet-then_also {cells = Cell.value v ∷ []} _ _ s
          (merge_when-Progress a (Cell.value v) x here) h in
      (Quiet-merge_when a (Cell.value v) x first, Quiet-merge_when b (Cell.location v) y rest)
