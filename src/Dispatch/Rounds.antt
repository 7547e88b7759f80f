-- ===== src/Dispatch/Rounds.antt =====
-- A whole round: when it changes nothing, its clones, and the calls that it redirects.
use lona_mvm.Prelude.{
  ℕ, ◌≡◌, refl, Bool, true, false, ◌&&◌, List, [], ◌∷◌, ◌++◌, Bool-cases, inl, inr, ◌↔◌, Among, ap,
  sym, ◌∙◌, subst, Among-append_cases, Among-append_left, Among-append_right, Among-cons_cases,
}
use lona_mvm.Prelude.Among.{here, there}
use mathlib.Core.Bool.{and-eq-true_iff}
use lona_mvm.Managed.Module.{ModuleView, FunctionView}
use lona_mvm.Managed.Store.{States}
use lona_mvm.Dispatch.{
  DispatchSignature, CallRecord, has_specialization, specialized_signatures, needs_clones,
  make_clones, redirect_calls, should_specialize_function, Round, calls_of, collect_all_calls,
  specialize_functions, specialize_managed_dispatch_round,
}
use lona_mvm.Dispatch.Signatures.{specialized-Among, specialized-Every}
use lona_mvm.Dispatch.Settled.{Settled, AllSettled, unchanged_iff}
use lona_mvm.Dispatch.Redirects.{
  Retargeted, redirect_calls-Retargeted, Retargeted-redirect_calls, Among-make_clones,
  make_clones-Every, needs_clones_iff,
}

module _ (is_var_arg : ℕ → Bool) (clone : ℕ → DispatchSignature → ℕ) (m : ModuleView)
    (s : States) where
  module _ (calls : List (ℕ × CallRecord)) where
    abbrev calls_to : FunctionView → List CallRecord
    calls_to f = calls_of is_var_arg clone m s f.address calls

    -- A function of the list that may be specialised, and whose calls are not settled.
    pub record IsSpecialized (fs : List FunctionView) (f : FunctionView) : Type 0 where
      pub declared : Among f fs
      pub allowed : should_specialize_function is_var_arg clone f ≡ true
      pub unsettled : ¬ Settled (calls_of is_var_arg clone m s f.address calls)

    -- A clone is made of a specialised function for each signature of its calls that can be
    -- specialised.
    pub record IsClone (fs : List FunctionView) (function : ℕ) (signature : DispatchSignature)
        (target : ℕ) : Type 0 where
      pub original : FunctionView
      pub specialized : IsSpecialized fs original
      pub function_is : function ≡ original.address
      pub user : CallRecord
      pub user_calls : Among user (calls_of is_var_arg clone m s original.address calls)
      pub user_has : user.signature ≡ signature
      pub special : has_specialization signature ≡ true
      pub target_is : target ≡ clone original.address signature

    -- A call of a specialised function is redirected if its signature can be specialised, to the clone
    -- for its signature.
    pub record IsRedirected (fs : List FunctionView) (call target : ℕ) : Type 0 where
      pub callee : FunctionView
      pub specialized : IsSpecialized fs callee
      pub retargeted :
          Retargeted
            (clone callee.address)
            (calls_of is_var_arg clone m s callee.address calls)
            call
            target

    abbrev round_of : List FunctionView → Round
    round_of fs = specialize_functions is_var_arg clone m s calls fs

    module _ (f : FunctionView) (fs : List FunctionView) where
      abbrev is_cloned : Bool
      is_cloned = should_specialize_function is_var_arg clone f && needs_clones (calls_to f)

      abbrev clones_of : List (DispatchSignature × ℕ)
      clones_of = make_clones (clone f.address) (specialized_signatures (calls_to f) [])

      kept_round : is_cloned ≡ false → round_of (f ∷ fs) ≡ round_of fs
      unfolding specialize_functions
      kept_round kept = rw (specialize_functions, kept) refl

      cloned_round :
          is_cloned ≡ true
          → round_of (f ∷ fs) ≡ record {
            changed = true;
            clones = (f.address, clones_of) ∷ (round_of fs).clones;
            redirects = redirect_calls clones_of (calls_to f) ++ (round_of fs).redirects;
          }
      unfolding specialize_functions
      cloned_round cloned = rw (specialize_functions, cloned) refl

      cloned-IsSpecialized : is_cloned ≡ true → IsSpecialized (f ∷ fs) f
      cloned-IsSpecialized cloned =
          let (may, needed) =
            (and-eq-true_iff (should_specialize_function is_var_arg clone f)
                (needs_clones (calls_to f))).0
              cloned in
          record {
            declared = here;
            allowed = may;
            unsettled = (needs_clones_iff (calls_to f)).0 needed;
          }

      later-IsSpecialized : {g : FunctionView} → IsSpecialized fs g → IsSpecialized (f ∷ fs) g
      later-IsSpecialized x = record {
        declared = there x.declared;
        allowed = x.allowed;
        unsettled = x.unsettled;
      }

    will_clone :
        (f : FunctionView)
        → should_specialize_function is_var_arg clone f ≡ true
        → ¬ Settled (calls_to f)
        → (should_specialize_function is_var_arg clone f && needs_clones (calls_to f)) ≡ true
    will_clone f may open_calls =
        (and-eq-true_iff (should_specialize_function is_var_arg clone f)
            (needs_clones (calls_to f))).1
          (may, (needs_clones_iff (calls_to f)).1 open_calls)

    redirects-IsRedirected :
        (fs : List FunctionView) (call target : ℕ)
        → Among (call, target) (round_of fs).redirects
        → IsRedirected fs call target
    unfolding specialize_functions
    redirects-IsRedirected [] call target k = elim k [ ]
    redirects-IsRedirected (f ∷ fs) call target k =
        let later : Among (call, target) (round_of fs).redirects
            → IsRedirected (f ∷ fs) call target =
          λ n.
            let x = redirects-IsRedirected fs call target n in
            record {
              callee = x.callee;
              specialized = later-IsSpecialized f fs x.specialized;
              retargeted = x.retargeted;
            } in
        elim (Bool-cases (is_cloned f fs)) [
          | inr kept ↦
              later
                (subst (λ (o : Round). Among (call, target) o.redirects) (kept_round f fs kept) k)
          | inl cloned ↦
              elim (Among-append_cases (redirect_calls (clones_of f fs) (calls_to f)) (
                subst (λ (o : Round). Among (call, target) o.redirects) (cloned_round f fs cloned)
                  k)) [
                    | inl own ↦ record {
                      callee = f;
                      specialized = cloned-IsSpecialized f fs cloned;
                      retargeted =
                          redirect_calls-Retargeted (clone f.address) (calls_to f) (calls_to f)
                            (λ r n. n) call target own;
                    }
                    | inr others ↦ later others
                  ]
        ]

    IsRedirected-redirects :
        {f : FunctionView} {fs : List FunctionView}
        → Among f fs
        → should_specialize_function is_var_arg clone f ≡ true
        → ¬ Settled (calls_to f)
        → (r : CallRecord) → Among r (calls_to f)
        → has_specialization r.signature ≡ true
        → Among (r.call, clone f.address r.signature) (round_of fs).redirects
    IsRedirected-redirects (here {x = f} {xs = fs}) may open_calls r k special =
        subst (λ (o : Round). Among (r.call, clone f.address r.signature) o.redirects)
          (sym (cloned_round f fs (will_clone f may open_calls)))
          (Among-append_left (round_of fs).redirects
            (Retargeted-redirect_calls (clone f.address) (calls_to f) (λ q n. n) k special))
    IsRedirected-redirects {f = f} (there {y = g} {xs = fs} n) may open_calls r k special =
        let rest = IsRedirected-redirects n may open_calls r k special in
        elim (Bool-cases (is_cloned g fs)) [
          | inr kept ↦
              subst (λ (o : Round). Among (r.call, clone f.address r.signature) o.redirects)
                (sym (kept_round g fs kept)) rest
          | inl cloned ↦
              subst (λ (o : Round). Among (r.call, clone f.address r.signature) o.redirects)
                (sym (cloned_round g fs cloned))
                (Among-append_right (redirect_calls (clones_of g fs) (calls_to g)) rest)
        ]

    -- An entry of the clones of a round.
    abbrev pub HasClone : Round → (function : ℕ) → DispatchSignature → (target : ℕ) → Type 0
    HasClone round function signature target =
        (entries : List (DispatchSignature × ℕ)) × Among (function, entries) round.clones
        × Among (signature, target) entries

    Used : (f : FunctionView) → DispatchSignature → Type 0
    Used f signature =
        (r : CallRecord) × Among r (calls_to f)
        × (r.signature ≡ signature)
        × (has_specialization signature ≡ true)

    own-IsClone :
        (f : FunctionView) (fs : List FunctionView) (signature : DispatchSignature) (target : ℕ)
        → is_cloned f fs ≡ true
        → Among (signature, target) (clones_of f fs)
        → IsClone (f ∷ fs) f.address signature target
    unfolding Used
    own-IsClone f fs signature target cloned k =
        let ((r, n, same, special), t) =
          make_clones-Every (Used f) (clone f.address) (specialized_signatures (calls_to f) [])
            (specialized-Every (Used f) (calls_to f) [] (λ r n special. (r, n, refl, special)) tt)
            signature target k in
        record {
          original = f;
          specialized = cloned-IsSpecialized f fs cloned;
          function_is = refl;
          user = r;
          user_calls = n;
          user_has = same;
          special = special;
          target_is = t;
        }

    clones-IsClone :
        (fs : List FunctionView) (function : ℕ) (signature : DispatchSignature) (target : ℕ)
        → HasClone (round_of fs) function signature target
        → IsClone fs function signature target
    unfolding specialize_functions
    clones-IsClone [] function signature target (entries, k, n) = elim k [ ]
    clones-IsClone (f ∷ fs) function signature target (entries, k, n) =
        let later : Among (function, entries) (round_of fs).clones
            → IsClone (f ∷ fs) function signature target =
          λ j.
            let x = clones-IsClone fs function signature target (entries, j, n) in
            record {
              original = x.original;
              specialized = later-IsSpecialized f fs x.specialized;
              function_is = x.function_is;
              user = x.user;
              user_calls = x.user_calls;
              user_has = x.user_has;
              special = x.special;
              target_is = x.target_is;
            } in
        elim (Bool-cases (is_cloned f fs)) [
          | inr kept ↦
              later
                (subst (λ (o : Round). Among (function, entries) o.clones) (kept_round f fs kept) k)
          | inl cloned ↦
              elim (Among-cons_cases (
                subst (λ (o : Round). Among (function, entries) o.clones) (cloned_round f fs cloned)
                  k)) [
                    | inl same ↦
                        subst (λ a. IsClone (f ∷ fs) a signature target)
                          (sym (ap (λ (p : ℕ × List (DispatchSignature × ℕ)). p.0) same))
                          (own-IsClone f fs signature target cloned (
                            subst (Among (signature, target))
                              (ap (λ (p : ℕ × List (DispatchSignature × ℕ)). p.1) same) n))
                    | inr others ↦ later others
                  ]
        ]

    IsClone-clones :
        {f : FunctionView} {fs : List FunctionView}
        → Among f fs
        → should_specialize_function is_var_arg clone f ≡ true
        → ¬ Settled (calls_to f)
        → (r : CallRecord) → Among r (calls_to f)
        → has_specialization r.signature ≡ true
        → HasClone (round_of fs) f.address r.signature (clone f.address r.signature)
    IsClone-clones (here {x = f} {xs = fs}) may open_calls r k special = (
      clones_of f fs,
      subst (λ (o : Round). Among (f.address, clones_of f fs) o.clones)
          (sym (cloned_round f fs (will_clone f may open_calls))) here,
      Among-make_clones (clone f.address) (specialized_signatures (calls_to f) []) r.signature
          (specialized-Among [] k special),
    )
    IsClone-clones {f = f} (there {y = g} {xs = fs} n) may open_calls r k special =
        let (entries, j, e) = IsClone-clones n may open_calls r k special in
        (
          entries,
          elim (Bool-cases (is_cloned g fs)) [
            | inr kept ↦
                subst (λ (o : Round). Among (f.address, entries) o.clones)
                  (sym (kept_round g fs kept)) j
            | inl cloned ↦
                subst (λ (o : Round). Among (f.address, entries) o.clones)
                  (sym (cloned_round g fs cloned)) (there j)
          ],
          e,
        )

  -- A round changes nothing exactly when, for each function that may be specialised, either no call of
  -- it can be specialised or all its calls have one signature. The other functions that may be
  -- specialised get one clone for each signature of their calls that can be specialised, and there
  -- are no other clones. Their calls with such a signature are redirected to the clone for it, and no
  -- other call is.
  pub specialize_managed_dispatch_round_lem :
      (let round = specialize_managed_dispatch_round is_var_arg clone m s in
        let calls = collect_all_calls is_var_arg clone m s m.functions in
        ((round.changed ≡ false) ↔ AllSettled is_var_arg clone m s calls m.functions)
        × ((function : ℕ) (signature : DispatchSignature) (target : ℕ)
            → HasClone calls round function signature target
              ↔ IsClone calls m.functions function signature target)
        × ((call target : ℕ)
            → Among (call, target) round.redirects ↔ IsRedirected calls m.functions call target))
  unfolding specialize_managed_dispatch_round
  specialize_managed_dispatch_round_lem =
      let calls = collect_all_calls is_var_arg clone m s m.functions in
      (
        unchanged_iff is_var_arg clone m s calls m.functions,
        λ function signature target. (
          clones-IsClone calls m.functions function signature target,
          λ x.
              subst (λ t. HasClone calls (round_of calls m.functions) function signature t)
                (sym x.target_is)
                (subst
                  (λ k.
                    HasClone calls (round_of calls m.functions) function k
                      (clone x.original.address k))
                  x.user_has
                  (subst
                    (λ a.
                      HasClone calls (round_of calls m.functions) a x.user.signature
                        (clone x.original.address x.user.signature))
                    (sym x.function_is)
                    (IsClone-clones calls x.specialized.declared x.specialized.allowed
                      x.specialized.unsettled x.user x.user_calls
                      (ap has_specialization x.user_has ∙ x.special)))),
        ),
        λ call target. (
          redirects-IsRedirected calls m.functions call target,
          λ x.
              let (r, k, same, special, t) = x.retargeted in
              subst (λ c. Among (c, target) (round_of calls m.functions).redirects) same
                (subst (λ u. Among (r.call, u) (round_of calls m.functions).redirects) (sym t)
                  (IsRedirected-redirects calls x.specialized.declared x.specialized.allowed
                    x.specialized.unsettled r k special)),
        ),
      )
