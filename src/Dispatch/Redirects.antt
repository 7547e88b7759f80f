-- ===== src/Dispatch/Redirects.antt =====
-- The clones of one function, and its calls that are redirected to them.
use lona_mvm.Prelude.{
  ℕ, ◌≡◌, Bool, true, false, List, [], ◌∷◌, if◌then◌else◌, Bool-cases, inl, inr, ◌↔◌, Among, ap,
  sym, ◌∙◌, subst, some, none, Among-cons_cases, Option,
}
use lona_mvm.Prelude.Among.{here, there}
use mathlib.Core.Bool.{false≢true}
use lona_mvm.Dispatch.{
  DispatchSignature, CallRecord, same_signature, has_specialization, contains_signature,
  specialized_signatures, needs_clones, make_clones, redirect, redirect_calls,
}
use lona_mvm.Dispatch.Signatures.{same_signature-eq, Every}
use lona_mvm.Dispatch.Settled.{Settled, needs_clones_lem, clone_of_call}

-- A call that is redirected, with its clone: it can be specialised, and the clone is for its signature.
abbrev pub Retargeted : (DispatchSignature → ℕ) → List CallRecord → (call target : ℕ) → Type 0
Retargeted clone rs call target =
    (r : CallRecord) × Among r rs
    × (r.call ≡ call)
    × (has_specialization r.signature ≡ true)
    × (target ≡ clone r.signature)

module _ (clone : DispatchSignature → ℕ) (all : List CallRecord) where
  abbrev clones_of_all : List (DispatchSignature × ℕ)
  clones_of_all = make_clones clone (specialized_signatures all [])

  module _ (r : CallRecord) (rs : List CallRecord) (m : Among r all) where
    redirects_special :
        has_specialization r.signature ≡ true
        → redirect_calls clones_of_all (r ∷ rs)
          ≡ (r.call, clone r.signature) ∷ redirect_calls clones_of_all rs
    redirects_special special =
        ap (λ (o : Option ℕ). redirect r o (redirect_calls clones_of_all rs))
          (clone_of_call clone all r m
            ∙ ap (λ (b : Bool). if b then some (clone r.signature) else none) special)

    redirects_plain :
        has_specialization r.signature ≡ false
        → redirect_calls clones_of_all (r ∷ rs) ≡ redirect_calls clones_of_all rs
    redirects_plain plain =
        ap (λ (o : Option ℕ). redirect r o (redirect_calls clones_of_all rs))
          (clone_of_call clone all r m
            ∙ ap (λ (b : Bool). if b then some (clone r.signature) else none) plain)

  pub redirect_calls-Retargeted :
      (rs : List CallRecord)
      → ((r : CallRecord) → Among r rs → Among r all)
      → (call target : ℕ) → Among (call, target) (redirect_calls clones_of_all rs)
      → Retargeted clone rs call target
  redirect_calls-Retargeted [] within call target m = elim m [ ]
  redirect_calls-Retargeted (r ∷ rs) within call target m =
      let later : Among (call, target) (redirect_calls clones_of_all rs)
          → Retargeted clone (r ∷ rs) call target =
        λ k.
          let (q, among, same, special, t) =
            redirect_calls-Retargeted rs (λ q n. within q (there n)) call target k in
          (q, there among, same, special, t) in
      elim (Bool-cases (has_specialization r.signature)) [
        | inr plain ↦
            later (subst (Among (call, target)) (redirects_plain r rs (within r here) plain) m)
        | inl special ↦
            elim (Among-cons_cases
              (subst (Among (call, target)) (redirects_special r rs (within r here) special) m)) [
                | inl same ↦ (
                  r,
                  here,
                  sym (ap (λ (p : ℕ × ℕ). p.0) same),
                  special,
                  ap (λ (p : ℕ × ℕ). p.1) same,
                )
                | inr k ↦ later k
              ]
      ]

  pub Retargeted-redirect_calls :
      {r : CallRecord} {rs : List CallRecord}
      → ((q : CallRecord) → Among q rs → Among q all)
      → Among r rs
      → has_specialization r.signature ≡ true
      → Among (r.call, clone r.signature) (redirect_calls clones_of_all rs)
  Retargeted-redirect_calls within (here {x = r} {xs = rs}) special =
      subst (Among (r.call, clone r.signature))
        (sym (redirects_special r rs (within r here) special)) here
  Retargeted-redirect_calls {r = r} within (there {y = q} {xs = rs} m) special =
      let rest =
        Retargeted-redirect_calls {r = r} {rs = rs} (λ p n. within p (there n)) m special in
      elim (Bool-cases (has_specialization q.signature)) [
        | inl also ↦
            subst (Among (r.call, clone r.signature))
              (sym (redirects_special q rs (within q here) also)) (there rest)
        | inr plain ↦
            subst (Among (r.call, clone r.signature))
              (sym (redirects_plain q rs (within q here) plain)) rest
      ]

-- The entries of the clones of a function.
pub Among-make_clones :
    (clone : DispatchSignature → ℕ) (ks : List DispatchSignature) (k : DispatchSignature)
    → contains_signature ks k ≡ true
    → Among (k, clone k) (make_clones clone ks)
Among-make_clones clone [] k h = absurd (false≢true h)
Among-make_clones clone (j ∷ ks) k h = elim (Bool-cases (same_signature j k)) [
  | inl same ↦
      subst (λ i. Among (k, clone k) ((i, clone i) ∷ make_clones clone ks))
        (sym (same_signature-eq j k same)) here
  | inr other ↦ there (Among-make_clones clone ks k (rw other at h))
]

pub make_clones-Every :
    (P : DispatchSignature → Type 0) (clone : DispatchSignature → ℕ) (ks : List DispatchSignature)
    → Every P ks
    → (k : DispatchSignature) (target : ℕ) → Among (k, target) (make_clones clone ks)
    → P k × (target ≡ clone k)
make_clones-Every P clone [] each k target m = elim m [ ]
make_clones-Every P clone (j ∷ ks) each k target m = elim (Among-cons_cases m) [
  | inl same ↦
      let first = ap (λ (p : DispatchSignature × ℕ). p.0) same in
      (
        subst P (sym first) each.0,
        ap (λ (p : DispatchSignature × ℕ). p.1) same ∙ ap clone (sym first),
      )
  | inr rest ↦ make_clones-Every P clone ks each.1 k target rest
]

pub needs_clones_iff : (rs : List CallRecord) → (needs_clones rs ≡ true) ↔ (¬ Settled rs)
needs_clones_iff rs = (
  λ e settled. false≢true (sym ((needs_clones_lem rs).1 settled) ∙ e),
  λ open_calls. elim (Bool-cases (needs_clones rs)) [
    | inl needed ↦ needed
    | inr kept ↦ absurd (open_calls ((needs_clones_lem rs).0 kept))
  ],
)
