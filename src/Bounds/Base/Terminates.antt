-- ===== src/Bounds/Base/Terminates.antt =====
-- The search for managed arrays ends, and what it finds are arrays.
use text.Mathlib.TextEquality.{eq_iff}
use lona_mvm.Prelude.{
  ℕ, zero, suc, ◌+◌, ◌≤◌, ◌<◌, ◌≡◌, refl, ◌≢◌, true, false, Option, none, some, List, [], ◌∷◌,
  if◌then◌else◌, has, length, Among, Bool-cases, Option-cases, inl, inr, arith, ◌∙◌, sym, ap, subst,
  some-injective,
}
use lona_mvm.Prelude.Among.{here, there}
use lona_mvm.Bounds.Base.{
  Body, BaseKind, SlotUser, Search, out_of_fuel, not_array, is_array, stored_value, alone,
  sources_of, and_then, all_arrays, is_managed_array_base_impl, is_managed_array_base, holds_array,
}

-- The values of the list that are not visited yet.
abbrev pub unvisited : (visiting : List ℕ) → List ℕ → ℕ
unvisited visiting [] = 0
unvisited visiting (v ∷ vs) = (if has visiting v then 0 else 1) + unvisited visiting vs

unvisited_none : (vs : List ℕ) → unvisited [] vs ≡ length vs
unvisited_none [] = refl
unvisited_none (v ∷ vs) = omega (arith, unvisited_none vs)

unvisited_mono :
    (x : ℕ) (visiting vs : List ℕ) → unvisited (x ∷ visiting) vs ≤ unvisited visiting vs
unvisited_mono x visiting [] = omega arith
unvisited_mono x visiting (v ∷ vs) = ground (arith, unvisited_mono x visiting vs)

unvisited_less :
    (x : ℕ) (visiting vs : List ℕ)
    → has vs x ≡ true
    → has visiting x ≡ false
    → unvisited (x ∷ visiting) vs < unvisited visiting vs
unvisited_less x visiting [] h new = cc
unvisited_less x visiting (v ∷ vs) h new =
    ground (arith, unvisited_less x visiting vs, unvisited_mono x visiting vs)

no_value {ℓ} : {A : Type ℓ} {x : A} → none ≢ some x
no_value h = cc

module _ (body : Body) where
  -- What a user of a slot may be, if the slot only ever holds that value when it is read.
  abbrev pub KeepsSlot : (slot reader value : ℕ) → SlotUser → Type 0
  KeepsSlot slot reader value SlotUser.ignorable_intrinsic = Unit {0}
  KeepsSlot slot reader value (SlotUser.load address) = Unit {0}
  KeepsSlot slot reader value (SlotUser.store address stored pointer) =
      (stored ≡ value) × (pointer ≡ slot) × (body.dominates address reader ≡ true)
  KeepsSlot slot reader value SlotUser.other_user = ⊥

  -- A value all of whose origins are calls of __mvm_array_malloc.
  mutual
    pub data IsArray : ℕ → Type 0 where
      allocated :
          {v : ℕ}
          → body.kind (body.strip_pointer_casts v) ≡ BaseKind.call (some "__mvm_array_malloc")
          → IsArray v
      loaded :
          {v slot value : ℕ}
          → body.kind (body.strip_pointer_casts v) ≡ BaseKind.load (some slot)
          → ((u : SlotUser)
              → Among u (body.users slot)
              → KeepsSlot slot (body.strip_pointer_casts v) value u)
          → IsArray value
          → IsArray v
      merged :
          {v : ℕ} {incoming : List ℕ}
          → body.kind (body.strip_pointer_casts v) ≡ BaseKind.phi incoming
          → AreArrays incoming
          → IsArray v
      selected :
          {v a b : ℕ}
          → body.kind (body.strip_pointer_casts v) ≡ BaseKind.select a b
          → AreArrays (a ∷ b ∷ [])
          → IsArray v

    pub data AreArrays : List ℕ → Type 0 where
      none_left : AreArrays []
      one_more : {v : ℕ} {vs : List ℕ} → IsArray v → AreArrays vs → AreArrays (v ∷ vs)

  stored_value-starts :
      (slot reader : ℕ) (users : List SlotUser) (w value : ℕ)
      → stored_value body slot reader users (some w) ≡ some value
      → w ≡ value
  unfolding stored_value
  stored_value-starts slot reader [] w value e = cc
  stored_value-starts slot reader (SlotUser.ignorable_intrinsic ∷ us) w value e =
      stored_value-starts slot reader us w value e
  stored_value-starts slot reader (SlotUser.load a ∷ us) w value e =
      stored_value-starts slot reader us w value e
  stored_value-starts slot reader (SlotUser.store a x p ∷ us) w value e =
      ground (arith, stored_value-starts slot reader us x value)
  stored_value-starts slot reader (SlotUser.other_user ∷ us) w value e = cc

  stored_value-step :
      (slot reader a x p : ℕ) (us : List SlotUser) (stored : Option ℕ) (value : ℕ)
      → stored_value body slot reader (SlotUser.store a x p ∷ us) stored ≡ some value
      → (stored_value body slot reader us (some x) ≡ some value)
        × (p ≡ slot)
        × (body.dominates a reader ≡ true)
  unfolding stored_value
  stored_value-step slot reader a x p us stored value e = (ground arith, ground arith, ground arith)

  stored_value-KeepsSlot :
      (slot reader : ℕ) (users : List SlotUser) (stored : Option ℕ) (value : ℕ)
      → stored_value body slot reader users stored ≡ some value
      → (u : SlotUser) → Among u users
      → KeepsSlot slot reader value u
  unfolding stored_value
  stored_value-KeepsSlot slot reader (SlotUser.ignorable_intrinsic ∷ us) stored value e _ here = tt
  stored_value-KeepsSlot slot reader (SlotUser.ignorable_intrinsic ∷ us) stored value e u
        (there m) =
      stored_value-KeepsSlot slot reader us stored value e u m
  stored_value-KeepsSlot slot reader (SlotUser.load a ∷ us) stored value e _ here = tt
  stored_value-KeepsSlot slot reader (SlotUser.load a ∷ us) stored value e u (there m) =
      stored_value-KeepsSlot slot reader us stored value e u m
  stored_value-KeepsSlot slot reader (SlotUser.store a x p ∷ us) stored value e _ here =
      let (rest, same, first) = stored_value-step slot reader a x p us stored value e in
      (stored_value-starts slot reader us x value rest, same, first)
  stored_value-KeepsSlot slot reader (SlotUser.store a x p ∷ us) stored value e u (there m) =
      stored_value-KeepsSlot slot reader us (some x) value
        ((stored_value-step slot reader a x p us stored value e).0) u m
  stored_value-KeepsSlot slot reader (SlotUser.other_user ∷ us) stored value e u m = cc
  stored_value-KeepsSlot slot reader [] stored value e u m = elim m [ ]

  first_of : {v : ℕ} {vs : List ℕ} → AreArrays (v ∷ vs) → IsArray v
  first_of (AreArrays.one_more first rest) = first

  -- Origins that are arrays make the value one.
  IsArray_of_sources :
      (v : ℕ) (kind : BaseKind) (sources : List ℕ)
      → body.kind (body.strip_pointer_casts v) ≡ kind
      → sources_of body (body.strip_pointer_casts v) kind ≡ some sources
      → AreArrays sources
      → IsArray v
  IsArray_of_sources v (BaseKind.call none) sources k e arrays = cc
  IsArray_of_sources v (BaseKind.call (some name)) sources k e arrays =
      IsArray.allocated (k ∙ ground (arith, eq_iff name "__mvm_array_malloc"))
  IsArray_of_sources v (BaseKind.load none) sources k e arrays = cc
  IsArray_of_sources v (BaseKind.load (some slot)) sources k e arrays =
      elim (Option-cases
        (stored_value body slot (body.strip_pointer_casts v) (body.users slot) none)) [
          | inl bad ↦ absurd (no_value (sym (ap alone bad) ∙ e))
          | inr (value, s) ↦
              IsArray.loaded k
                (stored_value-KeepsSlot slot (body.strip_pointer_casts v) (body.users slot) none
                  value s)
                (first_of (subst AreArrays (sym (some-injective (sym (ap alone s) ∙ e))) arrays))
        ]
  IsArray_of_sources v (BaseKind.phi []) sources k e arrays = cc
  IsArray_of_sources v (BaseKind.phi (w ∷ ws)) sources k e arrays =
      IsArray.merged k (subst AreArrays (sym (some-injective e)) arrays)
  IsArray_of_sources v (BaseKind.select a b) sources k e arrays =
      IsArray.selected k (subst AreArrays (sym (some-injective e)) arrays)
  IsArray_of_sources v BaseKind.other_value sources k e arrays = cc

  abbrev pub AllIn : List ℕ → List ℕ → Type 0
  AllIn values [] = Unit {0}
  AllIn values (v ∷ vs) = (has values v ≡ true) × AllIn values vs

  -- The values of a function: what the casts of one lead to, and its origins, are among them.
  pub record IsClosed (values : List ℕ) : Type 0 where
    pub stripped : (v : ℕ) → has values v ≡ true → has values (body.strip_pointer_casts v) ≡ true
    pub sources :
        (v : ℕ) (ws : List ℕ)
        → has values v ≡ true
        → sources_of body (body.strip_pointer_casts v) (body.kind (body.strip_pointer_casts v))
          ≡ some ws
        → AllIn values ws

  -- An answer, which visits no fewer values, and is right where it is positive.
  abbrev Found : (values visiting : List ℕ) → Type 0 → Search → Type 0
  Found values visiting P out_of_fuel = ⊥
  Found values visiting P not_array = Unit {0}
  Found values visiting P (is_array visited) =
      (unvisited visited values ≤ unvisited visiting values) × P

  Found-wider :
      (values inner outer ws : List ℕ) (v : ℕ) (r : Search)
      → unvisited inner values ≤ unvisited outer values
      → (AreArrays ws → IsArray v)
      → Found values inner (AreArrays ws) r
      → Found values outer (IsArray v) r
  Found-wider values inner outer ws v out_of_fuel le up f = f
  Found-wider values inner outer ws v not_array le up f = tt
  Found-wider values inner outer ws v (is_array visited) le up f = (omega (arith, f.0), up f.1)

  and_then-Found :
      (values visiting : List ℕ) (first : Search) (next : List ℕ → Search) (v : ℕ) (vs : List ℕ)
      → Found values visiting (IsArray v) first
      → ((visited : List ℕ)
          → unvisited visited values ≤ unvisited visiting values
          → Found values visited (AreArrays vs) (next visited))
      → Found values visiting (AreArrays (v ∷ vs)) (and_then first next)
  and_then-Found values visiting out_of_fuel next v vs f g = f
  and_then-Found values visiting not_array next v vs f g = tt
  and_then-Found values visiting (is_array visited) next v vs f g =
      later visited (next visited) f.0 f.1 (g visited f.0)
    where
      later :
          (visited : List ℕ) (r : Search)
          → unvisited visited values ≤ unvisited visiting values
          → IsArray v
          → Found values visited (AreArrays vs) r
          → Found values visiting (AreArrays (v ∷ vs)) r
      later visited out_of_fuel le a h = h
      later visited not_array le a h = tt
      later visited (is_array end) le a h = (omega (arith, h.0), AreArrays.one_more a h.1)

  module _ (values : List ℕ) (closed : IsClosed values) where
    all_arrays-Found :
        (seek : List ℕ → ℕ → Search) (n : ℕ) (vs visiting : List ℕ)
        → ((visited : List ℕ) (v : ℕ)
            → unvisited visited values < n
            → has values v ≡ true
            → Found values visited (IsArray v) (seek visited v))
        → AllIn values vs
        → unvisited visiting values < n
        → Found values visiting (AreArrays vs) (all_arrays seek vs visiting)
    all_arrays-Found seek n [] visiting ih inside h = (omega arith, AreArrays.none_left)
    all_arrays-Found seek n (v ∷ vs) visiting ih inside h =
        and_then-Found values visiting (seek visiting v) (all_arrays seek vs) v vs
          (ih visiting v h inside.0)
          (λ visited le. all_arrays-Found seek n vs visited ih inside.1 (omega arith))

    impl-Found :
        (fuel : ℕ) (visiting : List ℕ) (v : ℕ)
        → unvisited visiting values < fuel
        → has values v ≡ true
        → Found values visiting (IsArray v) (is_managed_array_base_impl body fuel visiting v)
    unfolding is_managed_array_base_impl
    impl-Found zero visiting v h inside = absurd (omega arith)
    impl-Found (suc fuel) visiting v h inside =
        let x = body.strip_pointer_casts v in
        elim (Bool-cases (body.is_pointer x)) [
          | inr not_pointer ↦ rw not_pointer tt
          | inl pointer ↦ elim (Bool-cases (has visiting x)) [
            | inl old ↦ rw (pointer, old) tt
            | inr new ↦ elim (Option-cases (sources_of body x (body.kind x))) [
              | inl e ↦ rw (pointer, new, e) tt
              | inr (ws, e) ↦
                  let less = unvisited_less x visiting values (closed.stripped v inside) new in
                  rw (pointer, new, e)
                    (Found-wider values (x ∷ visiting) visiting ws v
                      (all_arrays (is_managed_array_base_impl body fuel) ws (x ∷ visiting))
                      (omega (arith, less)) (IsArray_of_sources v (body.kind x) ws refl e)
                      (all_arrays-Found (is_managed_array_base_impl body fuel) fuel ws
                        (x ∷ visiting) (λ visited w. impl-Found fuel visited w)
                        (closed.sources v ws inside e) (omega (arith, less))))
            ]
          ]
        ]

    -- With fuel for more steps than the function has values, the search for a managed array ends, and
    -- where its answer is positive, every origin of the value is a call of __mvm_array_malloc, through
    -- casts, phis, selects, and slots that only ever hold one such value when they are read.
    pub is_managed_array_base_lem :
        (fuel v : ℕ)
        → has values v ≡ true
        → length values < fuel
        → (is_managed_array_base_impl body fuel [] v ≢ out_of_fuel)
          × (is_managed_array_base body fuel v ≡ true → IsArray v)
    is_managed_array_base_lem fuel v inside enough =
        answer (is_managed_array_base_impl body fuel [] v)
          (impl-Found fuel [] v (omega (arith, unvisited_none values)) inside)
      where
        answer :
            (r : Search)
            → Found values [] (IsArray v) r
            → (r ≢ out_of_fuel) × (holds_array r ≡ true → IsArray v)
        answer out_of_fuel f = absurd f
        answer not_array f = (λ e. cc, λ e. cc)
        answer (is_array visited) f = (λ e. cc, λ e. f.1)
