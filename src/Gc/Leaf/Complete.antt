-- ===== src/Gc/Leaf/Complete.antt =====
-- The inference as a whole: it ends, what it finds is safe, and it misses nothing.
use lona_mvm.Prelude.{
  ℕ, suc, ◌≡◌, refl, ap, ◌⊎◌, inl, inr, Bool, true, false, not, ◌||◌, some, List, [], ◌∷◌, length,
  Among, here, there, arith, if_both, sym, ◌∙◌,
}
use lona_mvm.Gc.Leaf.{
  FunctionSummary, LeafState, function_has_loop, blocks_can_remain_leaf, infer_function,
  infer_functions, mark_known_runtime_gc_leaf_functions, attributed,
  infer_managed_gc_leaf_functions,
}
use lona_mvm.Gc.Leaf.Terminates.{unattributed-le, infer_rounds-Ends}
use lona_mvm.Gc.Leaf.Safe.{SafeAddress, infer_rounds-Safe, attributed-marked, Refused}

module _ (fs : List FunctionSummary) where
  infer_function-flag :
      (f : FunctionSummary) (s : LeafState) → (infer_function fs f (s, true)).1 ≡ true
  unfolding infer_function
  infer_function-flag f s =
      if_both (λ (r : LeafState × Bool). r.1 ≡ true)
        (f.is_declaration || f.is_intrinsic || s.attribute f.address) (λ skip. refl)
        (λ open_function.
          if_both (λ (r : LeafState × Bool). r.1 ≡ true) (function_has_loop f) (λ looping. refl)
            (λ straight.
              if_both (λ (r : LeafState × Bool). r.1 ≡ true)
                (not (blocks_can_remain_leaf fs s f.blocks)) (λ calling. refl) (λ leaf. refl)))

  infer_functions-flag :
      (rest : List FunctionSummary) (r : LeafState × Bool)
      → r.1 ≡ true
      → (infer_functions fs rest r).1 ≡ true
  unfolding infer_functions
  infer_functions-flag [] r h = h
  infer_functions-flag (f ∷ rest) r h =
      infer_functions-flag rest (infer_function fs f r)
        (ap (λ b. (infer_function fs f (r.0, b)).1) h ∙ infer_function-flag f r.0)

  -- A function that a round passes over.
  Passed : LeafState → FunctionSummary → LeafState × Bool → Type 0
  Passed s f r =
      (r.1 ≡ true) ⊎ ((r ≡ (s, false)) × (s.attribute f.address ≡ false → Refused fs s f))

  infer_function-Passed :
      (f : FunctionSummary) (s : LeafState) → Passed s f (infer_function fs f (s, false))
  unfolding infer_function Passed
  infer_function-Passed f s =
      if_both (Passed s f) (f.is_declaration || f.is_intrinsic || s.attribute f.address)
        (λ skip. inr (refl, λ lacks. inl (ground arith)))
        (λ open_function.
          if_both (Passed s f) (function_has_loop f)
            (λ looping. inr (refl, λ lacks. inr (inl looping)))
            (λ straight.
              if_both (Passed s f) (not (blocks_can_remain_leaf fs s f.blocks))
                (λ calling. inr (refl, λ lacks. inr (inr (ground arith)))) (λ leaf. inl refl)))

  -- A function that a quiet rest of a round begins with.
  first-Refused :
      (g : FunctionSummary) (rest : List FunctionSummary) (s : LeafState)
      → (infer_functions fs rest (infer_function fs g (s, false))).1 ≡ false
      → (infer_function fs g (s, false) ≡ (s, false))
        × (s.attribute g.address ≡ false → Refused fs s g)
  unfolding Passed
  first-Refused g rest s h = elim (infer_function-Passed g s) [
    | inl changed ↦
        absurd (ground (arith, infer_functions-flag rest (infer_function fs g (s, false)) changed))
    | inr passed ↦ passed
  ]

  infer_functions-Refused :
      (rest : List FunctionSummary) (s : LeafState) (f : FunctionSummary)
      → (infer_functions fs rest (s, false)).1 ≡ false
      → Among f rest
      → s.attribute f.address ≡ false
      → Refused fs s f
  unfolding infer_functions
  infer_functions-Refused [] s f h m lacks = elim m [ ]
  infer_functions-Refused (g ∷ rest) s f h here lacks = (first-Refused f rest s h).1 lacks
  infer_functions-Refused (g ∷ rest) s f h (there m) lacks =
      infer_functions-Refused rest s f
        (ap (λ (r : LeafState × Bool). (infer_functions fs rest r).1)
            (sym (first-Refused g rest s h).0)
          ∙ h)
        m lacks

-- The inference of leaf functions ends: one round more than there are functions suffices. In its
-- result, every function with the attribute had it from the start, or has no loop, allocates nothing,
-- and makes only calls that come to no safepoint; and a function of the module without it is not
-- defined there, has a loop, or makes a call that cannot remain a leaf.
pub infer_leaf_functions_lem :
    (fs : List FunctionSummary) (attribute : ℕ → Bool)
    → let marked = mark_known_runtime_gc_leaf_functions fs attribute in
      (t : LeafState) × (infer_managed_gc_leaf_functions fs attribute (suc (length fs)) ≡ some t)
      × ((a : ℕ) → t.attribute a ≡ true → SafeAddress fs marked a)
      × ((f : FunctionSummary) → Among f fs → t.attribute f.address ≡ false → Refused fs t f)
unfolding infer_managed_gc_leaf_functions
infer_leaf_functions_lem fs attribute =
    let marked = mark_known_runtime_gc_leaf_functions fs attribute in
    let s : LeafState = record { attribute = marked; leaf_functions = attributed fs marked } in
    let (t, e, still) =
      infer_rounds-Ends fs (suc (length fs)) s (omega (arith, unattributed-le fs marked)) in
    let safe =
      infer_rounds-Safe fs marked (suc (length fs)) s t
        ((λ a h. inl h), λ a h. inl (attributed-marked fs marked a h)) e in
    (
      t,
      e,
      safe.0,
      λ f m lacks.
          infer_functions-Refused fs fs t f (ap (λ (r : LeafState × Bool). r.1) still) m lacks,
    )
