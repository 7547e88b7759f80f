-- ===== src/Dispatch/Settled.antt =====
-- When a round changes nothing, and which clone a call finds.
use lona_mvm.Prelude.{
  ℕ, ◌≡◌, refl, Bool, true, false, ◌||◌, ◌&&◌, List, [], ◌∷◌, if◌then◌else◌, Bool-cases, inl, inr,
  ◌⊎◌, ◌↔◌, Among, ap, sym, ◌∙◌, subst, some, none,
}
use lona_mvm.Prelude.Among.{here, there}
use mathlib.Core.Bool.{or-false, false≢true}
use lona_mvm.Managed.Module.{ModuleView, FunctionView}
use lona_mvm.Managed.Store.{States}
use lona_mvm.Dispatch.{
  DispatchSignature, CallRecord, same_signature, has_specialization, contains_signature,
  specialized_signatures, saw_generic_call, must_clone, needs_clones, make_clones, find_clone,
  should_specialize_function, Round, specialize_function, calls_of, specialize_functions,
}
use lona_mvm.Dispatch.Signatures.{
  same_signature-eq, same_signature_refl, specialized-Among, Every, specialized-Every,
  find_clone-make_clones,
}

-- No call can be specialised, or all of them have one signature that can.
abbrev pub Settled : List CallRecord → Type 0
Settled rs =
    ((r : CallRecord) → Among r rs → has_specialization r.signature ≡ false)
    ⊎ ((signature : DispatchSignature) × (has_specialization signature ≡ true)
        × ((r : CallRecord) → Among r rs → r.signature ≡ signature))

not_generic :
    {r : CallRecord} {rs : List CallRecord}
    → Among r rs
    → saw_generic_call rs ≡ false
    → has_specialization r.signature ≡ true
not_generic (here {x = r}) h = elim (Bool-cases (has_specialization r.signature)) [
  | inl special ↦ special
  | inr plain ↦ absurd (false≢true (sym h ∙ rw plain refl))
]
not_generic (there {y = q} m) h = elim (Bool-cases (has_specialization q.signature)) [
  | inl special ↦ not_generic m (rw special at h)
  | inr plain ↦ absurd (false≢true (sym h ∙ rw plain refl))
]

must_clone-Settled :
    (rs : List CallRecord) (signatures : List DispatchSignature)
    → specialized_signatures rs [] ≡ signatures
    → must_clone signatures (saw_generic_call rs) ≡ false
    → Settled rs
must_clone-Settled rs [] e h = inl (λ r m. elim (Bool-cases (has_specialization r.signature)) [
  | inr plain ↦ plain
  | inl special ↦ absurd (
      false≢true
        (subst (λ ks. contains_signature ks r.signature ≡ true) e (specialized-Among [] m special)))
])
must_clone-Settled rs (signature ∷ []) e h = inr (
  signature,
  (subst (Every (λ k. has_specialization k ≡ true)) e
      (specialized-Every (λ k. has_specialization k ≡ true) rs [] (λ r m special. special) tt)).0,
  λ r m. sym (
      same_signature-eq signature r.signature (
        sym (or-false (same_signature signature r.signature))
        ∙ subst (λ ks. contains_signature ks r.signature ≡ true) e
            (specialized-Among [] m (not_generic m h)))),
)
must_clone-Settled rs (signature ∷ other ∷ more) e h = cc

none_collected :
    (signatures : List DispatchSignature) (saw : Bool)
    → Every (λ k. ⊥) signatures
    → must_clone signatures saw ≡ false
none_collected [] saw h = refl
none_collected (k ∷ ks) saw h = absurd h.0

all_special :
    (rs : List CallRecord)
    → ((r : CallRecord) → Among r rs → has_specialization r.signature ≡ true)
    → saw_generic_call rs ≡ false
all_special [] h = refl
all_special (r ∷ rs) h = rw (h r here) (all_special rs (λ q m. h q (there m)))

one_collected :
    (signature : DispatchSignature) (rs : List CallRecord)
    → has_specialization signature ≡ true
    → ((r : CallRecord) → Among r rs → r.signature ≡ signature)
    → specialized_signatures rs (signature ∷ []) ≡ signature ∷ []
unfolding specialized_signatures
one_collected signature [] special h = refl
one_collected signature (r ∷ rs) special h =
    rw (h r here, special, same_signature_refl signature)
      (one_collected signature rs special (λ q m. h q (there m)))

same_collected :
    (signature : DispatchSignature) (rs : List CallRecord)
    → has_specialization signature ≡ true
    → ((r : CallRecord) → Among r rs → r.signature ≡ signature)
    → must_clone (specialized_signatures rs []) false ≡ false
unfolding specialized_signatures
same_collected signature [] special h = refl
same_collected signature (r ∷ rs) special h =
    rw (h r here, special, one_collected signature rs special (λ q m. h q (there m))) refl

pub needs_clones_lem : (rs : List CallRecord) → (needs_clones rs ≡ false) ↔ Settled rs
needs_clones_lem rs = (
  must_clone-Settled rs (specialized_signatures rs []) refl,
  λ settled. elim settled [
    | inl plain ↦ none_collected (specialized_signatures rs []) (saw_generic_call rs) (
        specialized-Every (λ k. ⊥) rs [] (λ r m special. false≢true (sym (plain r m) ∙ special)) tt)
    | inr (signature, special, same) ↦
        rw (all_special rs (λ r m. rw (same r m) special))
          (same_collected signature rs special same)
  ],
)

-- The clone of each call: that for its signature, if it can be specialised.
pub clone_of_call :
    (clone : DispatchSignature → ℕ) (rs : List CallRecord) (r : CallRecord)
    → Among r rs
    → find_clone (make_clones clone (specialized_signatures rs [])) r.signature
      ≡ (if has_specialization r.signature then some (clone r.signature) else none)
clone_of_call clone rs r m =
    find_clone-make_clones clone (specialized_signatures rs []) r.signature
    ∙ elim (Bool-cases (has_specialization r.signature)) [
      | inl special ↦ rw (special, specialized-Among [] m special) refl
      | inr plain ↦
          rw
            (
              plain,
              never_collected r.signature plain (specialized_signatures rs []) (
                  specialized-Every (λ k. has_specialization k ≡ true) rs []
                    (λ q n special. special) tt),
            )
            refl
    ]
  where
    never_collected :
        (signature : DispatchSignature)
        → has_specialization signature ≡ false
        → (ks : List DispatchSignature) → Every (λ k. has_specialization k ≡ true) ks
        → contains_signature ks signature ≡ false
    never_collected signature plain [] h = refl
    never_collected signature plain (k ∷ ks) h = elim (Bool-cases (same_signature k signature)) [
      | inr other ↦ rw other (never_collected signature plain ks h.1)
      | inl same ↦ absurd (
          false≢true
            (sym plain ∙ sym (ap has_specialization (same_signature-eq k signature same)) ∙ h.0))
    ]

or_parts : (b n c : Bool) → ((b && n) || c) ≡ false → (c ≡ false) × (b ≡ true → n ≡ false)
or_parts true true c h = cc
or_parts true false c h = (h, λ e. refl)
or_parts false n c h = (h, λ e. cc)

or_whole : (b n c : Bool) → c ≡ false → (b ≡ true → n ≡ false) → ((b && n) || c) ≡ false
or_whole true n c h first = rw (first refl) h
or_whole false n c h first = h

module _ (is_var_arg : ℕ → Bool) (clone : ℕ → DispatchSignature → ℕ) (m : ModuleView)
    (s : States) where
  abbrev pub AllSettled : List (ℕ × CallRecord) → List FunctionView → Type 0
  AllSettled calls fs =
      (f : FunctionView)
      → Among f fs
      → should_specialize_function is_var_arg clone f ≡ true
      → Settled (calls_of is_var_arg clone m s f.address calls)

  changed_by :
      (f : FunctionView) (rs : List CallRecord) (round : Round)
      → (specialize_function is_var_arg clone m s f rs round).changed
        ≡ ((should_specialize_function is_var_arg clone f && needs_clones rs) || round.changed)
  changed_by f rs round =
      elim (Bool-cases (should_specialize_function is_var_arg clone f && needs_clones rs)) [
        | inl cloned ↦ rw cloned refl
        | inr kept ↦ rw kept refl
      ]

  cons-AllSettled :
      (calls : List (ℕ × CallRecord)) (f : FunctionView) (fs : List FunctionView)
      → (should_specialize_function is_var_arg clone f ≡ true
          → Settled (calls_of is_var_arg clone m s f.address calls))
      → AllSettled calls fs
      → AllSettled calls (f ∷ fs)
  cons-AllSettled calls f fs own others g here b = own b
  cons-AllSettled calls f fs own others g (there a) b = others g a b

  pub unchanged_iff :
      (calls : List (ℕ × CallRecord)) (fs : List FunctionView)
      → ((specialize_functions is_var_arg clone m s calls fs).changed ≡ false) ↔ AllSettled calls fs
  unfolding specialize_functions
  unchanged_iff calls [] = (λ e f a. elim a [ ], λ all. refl)
  unchanged_iff calls (f ∷ fs) =
      let (sound, complete) = unchanged_iff calls fs in
      let may = should_specialize_function is_var_arg clone f in
      let own = calls_of is_var_arg clone m s f.address calls in
      let round = specialize_functions is_var_arg clone m s calls fs in
      let e = changed_by f own round in
      (
        λ h.
            let (others, first) = or_parts may (needs_clones own) round.changed (sym e ∙ h) in
            cons-AllSettled calls f fs (λ b. (needs_clones_lem own).0 (first b)) (sound others),
        λ all.
            e
            ∙ or_whole may (needs_clones own) round.changed (complete (λ g a. all g (there a)))
                (λ b. (needs_clones_lem own).1 (all f here b)),
      )
