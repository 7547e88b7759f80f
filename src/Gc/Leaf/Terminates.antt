-- ===== src/Gc/Leaf/Terminates.antt =====
-- The inference of leaf functions comes to an end.
use lona_mvm.Prelude.{
  ℕ, zero, suc, ◌+◌, ◌≤◌, ◌<◌, ◌≡◌, refl, ap, Bool, true, false, not, ◌||◌, Option, some, List, [],
  ◌∷◌, if◌then◌else◌, ==_refl, length, Among, here, there, arith, Sublist, ◌∙◌, if_both,
}
use lona_mvm.Gc.Leaf.{
  FunctionSummary, LeafState, function_has_loop, blocks_can_remain_leaf, insert_address,
  infer_function, infer_functions, infer_rounds,
}

-- How many functions do not have the attribute.
abbrev pub unattributed : List FunctionSummary → (ℕ → Bool) → ℕ
unattributed [] attribute = 0
unattributed (f ∷ fs) attribute = (if attribute f.address then 0 else 1) + unattributed fs attribute

pub unattributed-le :
    (fs : List FunctionSummary) (attribute : ℕ → Bool) → unattributed fs attribute ≤ length fs
unattributed-le [] attribute = omega arith
unattributed-le (f ∷ fs) attribute = ground (arith, unattributed-le fs attribute)

insert-le :
    (fs : List FunctionSummary) (a : ℕ) (attribute : ℕ → Bool)
    → unattributed fs (insert_address a attribute) ≤ unattributed fs attribute
insert-le [] a attribute = omega arith
insert-le (f ∷ fs) a attribute = ground (arith, insert-le fs a attribute)

insert-lt :
    (fs : List FunctionSummary) (f : FunctionSummary) (attribute : ℕ → Bool)
    → Among f fs
    → attribute f.address ≡ false
    → unattributed fs (insert_address f.address attribute) < unattributed fs attribute
insert-lt [] f attribute m h = elim m [ ]
insert-lt (g ∷ fs) f attribute here h =
    ground (arith, insert-le fs f.address attribute, ==_refl f.address)
insert-lt (g ∷ fs) f attribute (there m) h = ground (arith, insert-lt fs f attribute m h)

-- What a step of a round does, seen from the state that the round starts with: with the flag, some
-- function got the attribute; without it, nothing happened.
abbrev RoundStep : List FunctionSummary → LeafState → LeafState × Bool → Type 0
RoundStep fs s0 (s, changed) =
    if changed then unattributed fs s.attribute < unattributed fs s0.attribute else (s ≡ s0)

RoundStep-le :
    (fs : List FunctionSummary) (s0 s : LeafState) (changed : Bool)
    → RoundStep fs s0 (s, changed)
    → unattributed fs s.attribute ≤ unattributed fs s0.attribute
RoundStep-le fs s0 s true h = omega (arith, h)
RoundStep-le fs s0 s false h = omega (arith, ap (λ (t : LeafState). unattributed fs t.attribute) h)

infer_function-RoundStep :
    (fs : List FunctionSummary) (s0 : LeafState) (f : FunctionSummary) (r : LeafState × Bool)
    → Among f fs
    → RoundStep fs s0 r
    → RoundStep fs s0 (infer_function fs f r)
unfolding infer_function
infer_function-RoundStep fs s0 f (s, changed) m h =
    if_both (RoundStep fs s0) (f.is_declaration || f.is_intrinsic || s.attribute f.address)
      (λ skip. h)
      (λ open_function.
        if_both (RoundStep fs s0) (function_has_loop f) (λ looping. h)
          (λ straight.
            if_both (RoundStep fs s0) (not (blocks_can_remain_leaf fs s f.blocks)) (λ calling. h)
              (λ leaf.
                let less = insert-lt fs f s.attribute m (ground arith) in
                omega (arith, less, RoundStep-le fs s0 s changed h))))

infer_functions-RoundStep :
    (all rest : List FunctionSummary) (s0 : LeafState) (r : LeafState × Bool)
    → Sublist rest all
    → RoundStep all s0 r
    → RoundStep all s0 (infer_functions all rest r)
unfolding infer_functions
infer_functions-RoundStep all [] s0 r sub h = h
infer_functions-RoundStep all (f ∷ fs) s0 r sub h =
    infer_functions-RoundStep all fs s0 (infer_function all f r) (λ g m. sub g (there m))
      (infer_function-RoundStep all s0 f r (sub f here) h)

-- The rounds end in a state that another round leaves as it is.
abbrev pub Ends : List FunctionSummary → Option LeafState → Type 0
Ends fs end = (t : LeafState) × (end ≡ some t) × (infer_functions fs fs (t, false) ≡ (t, false))

pub infer_rounds-Ends :
    (fs : List FunctionSummary) (n : ℕ) (s : LeafState)
    → unattributed fs s.attribute < n
    → Ends fs (infer_rounds fs n s)
unfolding infer_rounds
infer_rounds-Ends fs zero s h = absurd (omega (arith, h))
infer_rounds-Ends fs (suc n) s h =
    by_flag (infer_rounds-Ends fs n) (infer_functions fs fs (s, false)) refl
      (infer_functions-RoundStep fs fs s (s, false) (λ g m. m) refl)
  where
    by_flag :
        ((t : LeafState) → unattributed fs t.attribute < n → Ends fs (infer_rounds fs n t))
        → (r : LeafState × Bool) → infer_functions fs fs (s, false) ≡ r
        → RoundStep fs s r
        → Ends fs (if r.1 then infer_rounds fs n r.0 else some r.0)
    by_flag next (t, true) e step = next t (omega (arith, h, step))
    by_flag next (t, false) e step = (s, ap some step, e ∙ ap (λ u. (u, false)) step)
