-- ===== src/Gc/Leaf/Safe.antt =====
-- What the inference finds: functions without loops that reach no allocation and no safepoint.
use lona_mvm.Prelude.{
  ℕ, zero, suc, ◌≡◌, refl, ◌⊎◌, inl, inr, Bool, true, false, not, ◌||◌, Option, none, some, List,
  [], ◌∷◌, if◌then◌else◌, ◌==◌, ==_iff, Among, here, there, Sublist, arith, if_both, Bool-cases,
  subst, sym,
}
use mathlib.Core.Option.{some-injective}
use lona_mvm.Gc.Leaf.{
  CallSite, FunctionSummary, LeafState, function_has_loop, calls_can_remain_leaf,
  blocks_can_remain_leaf, insert_address, infer_function, infer_functions, infer_rounds, called,
  is_runtime_allocation_call, call_can_remain_leaf, callee_can_remain_leaf,
  is_explicit_runtime_safepoint_function_name, attributed,
}

module _ (fs : List FunctionSummary) (marked : ℕ → Bool) where
  -- A call that comes to no safepoint: of an intrinsic, of a function that was marked at the start,
  -- or of a function without loops whose calls are all of this kind, and of no allocator. A chain of
  -- calls through functions of the last kind ends.
  pub data SafeCall : CallSite → Type 0 where
    intrinsic :
        {c : CallSite} {f : FunctionSummary}
        → called fs c ≡ some f
        → f.is_intrinsic ≡ true
        → SafeCall c
    marked_leaf :
        {c : CallSite} {f : FunctionSummary}
        → called fs c ≡ some f
        → is_explicit_runtime_safepoint_function_name f.name ≡ false
        → marked f.address ≡ true
        → SafeCall c
    inferred_leaf :
        {c : CallSite} {f g : FunctionSummary}
        → called fs c ≡ some f
        → is_explicit_runtime_safepoint_function_name f.name ≡ false
        → Among g fs
        → g.address ≡ f.address
        → function_has_loop g ≡ false
        → ((b : List CallSite) (d : CallSite) → Among b g.blocks → Among d b → SafeCall d)
        → ((b : List CallSite) (d : CallSite)
            → Among b g.blocks
            → Among d b
            → is_runtime_allocation_call fs d ≡ false)
        → SafeCall c

  -- The function is defined, has no loop, and its calls are safe and allocate nothing.
  pub record SafeFunction (g : FunctionSummary) : Type 0 where
    pub among : Among g fs
    pub straight : function_has_loop g ≡ false
    pub calls : (b : List CallSite) (d : CallSite) → Among b g.blocks → Among d b → SafeCall d
    pub allocates_nothing :
        (b : List CallSite) (d : CallSite)
        → Among b g.blocks
        → Among d b
        → is_runtime_allocation_call fs d ≡ false

  -- An address that was marked, or that has a safe function.
  abbrev pub SafeAddress : ℕ → Type 0
  SafeAddress a = (marked a ≡ true) ⊎ ((g : FunctionSummary) × (g.address ≡ a) × SafeFunction g)

  abbrev pub Safe : LeafState → Type 0
  Safe s =
      ((a : ℕ) → s.attribute a ≡ true → SafeAddress a)
      × ((a : ℕ) → s.leaf_functions a ≡ true → SafeAddress a)

  callee-SafeCall :
      (s : LeafState) (c : CallSite) (o : Option FunctionSummary)
      → Safe s
      → called fs c ≡ o
      → callee_can_remain_leaf s o ≡ true
      → SafeCall c
  callee-SafeCall s c none safe e h = absurd (ground arith)
  callee-SafeCall s c (some f) safe e h = elim (Bool-cases f.is_intrinsic) [
    | inl yes_intrinsic ↦ SafeCall.intrinsic e yes_intrinsic
    | inr ordinary ↦ by_address (ground arith) (elim (Bool-cases (s.attribute f.address)) [
      | inl has ↦ safe.0 f.address has
      | inr lacks ↦ safe.1 f.address (ground arith)
    ])
  ]
    where
      by_address :
          is_explicit_runtime_safepoint_function_name f.name ≡ false
          → SafeAddress f.address
          → SafeCall c
      by_address name (inl m) = SafeCall.marked_leaf e name m
      by_address name (inr (g, same, leaf)) =
          SafeCall.inferred_leaf e name leaf.among same leaf.straight leaf.calls
            leaf.allocates_nothing

  call-SafeCall :
      (s : LeafState) (c : CallSite) → Safe s → call_can_remain_leaf fs s c ≡ true → SafeCall c
  call-SafeCall s c safe h = callee-SafeCall s c (called fs c) safe refl (ground arith)

  calls-Safe :
      (s : LeafState) (cs : List CallSite) (d : CallSite)
      → Safe s
      → calls_can_remain_leaf fs s cs ≡ true
      → Among d cs
      → SafeCall d × (is_runtime_allocation_call fs d ≡ false)
  unfolding calls_can_remain_leaf
  calls-Safe s [] d safe h m = elim m [ ]
  calls-Safe s (c ∷ cs) d safe h here = (call-SafeCall s d safe (ground arith), ground arith)
  calls-Safe s (c ∷ cs) d safe h (there m) = calls-Safe s cs d safe (ground arith) m

  blocks-Safe :
      (s : LeafState) (bs : List (List CallSite)) (b : List CallSite) (d : CallSite)
      → Safe s
      → blocks_can_remain_leaf fs s bs ≡ true
      → Among b bs
      → Among d b
      → SafeCall d × (is_runtime_allocation_call fs d ≡ false)
  unfolding blocks_can_remain_leaf
  blocks-Safe s [] b d safe h m n = elim m [ ]
  blocks-Safe s (b0 ∷ bs) b d safe h here n = calls-Safe s b d safe (ground arith) n
  blocks-Safe s (b0 ∷ bs) b d safe h (there m) n = blocks-Safe s bs b d safe (ground arith) m n

  insert-SafeAddress :
      (g : FunctionSummary) (set : ℕ → Bool)
      → SafeFunction g
      → ((a : ℕ) → set a ≡ true → SafeAddress a)
      → (a : ℕ) → insert_address g.address set a ≡ true
      → SafeAddress a
  insert-SafeAddress g set leaf safe a h = elim (Bool-cases (a == g.address)) [
    | inl same ↦ inr (g, sym ((==_iff a g.address).0 same), leaf)
    | inr other ↦ safe a (ground arith)
  ]

  infer_function-Safe :
      (g : FunctionSummary) (s : LeafState) (changed : Bool)
      → Among g fs
      → Safe s
      → Safe (infer_function fs g (s, changed)).0
  unfolding infer_function
  infer_function-Safe g s changed m safe =
      if_both (λ (r : LeafState × Bool). Safe r.0)
        (g.is_declaration || g.is_intrinsic || s.attribute g.address) (λ skip. safe)
        (λ open_function.
          if_both (λ (r : LeafState × Bool). Safe r.0) (function_has_loop g) (λ looping. safe)
            (λ straight.
              if_both (λ (r : LeafState × Bool). Safe r.0)
                (not (blocks_can_remain_leaf fs s g.blocks)) (λ calling. safe)
                (λ leaf.
                  let blocks : blocks_can_remain_leaf fs s g.blocks ≡ true = ground arith in
                  let safe_function : SafeFunction g = record {
                    among = m;
                    straight = straight;
                    calls = λ b d n k. (blocks-Safe s g.blocks b d safe blocks n k).0;
                    allocates_nothing = λ b d n k. (blocks-Safe s g.blocks b d safe blocks n k).1;
                  } in
                  (
                    insert-SafeAddress g s.attribute safe_function safe.0,
                    insert-SafeAddress g s.leaf_functions safe_function safe.1,
                  ))))

  infer_functions-Safe :
      (rest : List FunctionSummary) (r : LeafState × Bool)
      → Sublist rest fs
      → Safe r.0
      → Safe (infer_functions fs rest r).0
  unfolding infer_functions
  infer_functions-Safe [] r sub safe = safe
  infer_functions-Safe (g ∷ rest) r sub safe =
      infer_functions-Safe rest (infer_function fs g r) (λ f m. sub f (there m))
        (infer_function-Safe g r.0 r.1 (sub g here) safe)

  pub infer_rounds-Safe : (n : ℕ) (s t : LeafState) → Safe s → infer_rounds fs n s ≡ some t → Safe t
  unfolding infer_rounds
  infer_rounds-Safe zero s t safe h = cc
  infer_rounds-Safe (suc n) s t safe h =
      by_flag (infer_functions fs fs (s, false)) (infer_rounds-Safe n)
        (infer_functions-Safe fs (s, false) (λ g m. m) safe) h
    where
      by_flag :
          (r : LeafState × Bool)
          → ((s t : LeafState) → Safe s → infer_rounds fs n s ≡ some t → Safe t)
          → Safe r.0
          → (if r.1 then infer_rounds fs n r.0 else some r.0) ≡ some t
          → Safe t
      by_flag (u, true) next safe_u e = next u t safe_u e
      by_flag (u, false) next safe_u e = subst Safe (some-injective _ _ e) safe_u

pub attributed-marked :
    (fs : List FunctionSummary) (marked : ℕ → Bool) (a : ℕ)
    → attributed fs marked a ≡ true
    → marked a ≡ true
unfolding attributed
attributed-marked [] marked a h = cc
attributed-marked (f ∷ fs) marked a h = ground (arith, attributed-marked fs marked a)

-- Why a function without the attribute keeps its polls: it is not defined here, it has a loop, or
-- one of its calls cannot remain a leaf.
abbrev pub Refused : List FunctionSummary → LeafState → FunctionSummary → Type 0
Refused fs t f =
    ((f.is_declaration || f.is_intrinsic) ≡ true)
    ⊎ (function_has_loop f ≡ true)
    ⊎ (blocks_can_remain_leaf fs t f.blocks ≡ false)
