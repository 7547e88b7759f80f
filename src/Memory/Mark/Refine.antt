-- ===== src/Memory/Mark/Refine.antt =====
-- The mark phase works on the marks alone, and works there as the search of `Search`.
use lona_mvm.Prelude.{
  ℕ, zero, suc, ◌+◌, ◌-◌, ◌≡◌, refl, Bool, true, List, [], ◌∷◌, ◌++◌, map, none, some,
  if◌then◌else◌, ◌==◌, ==_iff, has, has_self, update, arith, ◌∙◌, ap, sym, fun_ext, Bool-cases,
  Option-cases, inl, inr,
}
use mathlib.Core.Option.{some-injective}
use lona_mvm.Memory.Words.{allocation_magic, header_size}
use lona_mvm.Memory.Header.{AllocationHeader, payload_address}
use lona_mvm.Memory.Registry.{Registry, done, modify_header, DenseMapKeys}
use lona_mvm.Memory.Find.{find_owning_allocation}
use lona_mvm.Memory.Find.Laws.{find-relabelled}
use lona_mvm.Memory.Invariant.{IsAllocated}
use lona_mvm.Memory.Mark.{
  Marking, mark_allocation, mark_address, mark_roots, scan_marked, drain, scan_allocation_payload,
}
use lona_mvm.Memory.Mark.Search.{
  Marks, visit, visits, visits-append, visits-marks, visits-stack, visits-Within, search, Within,
}
use lona_mvm.Memory.Mark.Scan.{mark_addresses, payload_slots, scan-payload_slots}

-- The registry with other marks.
abbrev pub with_marks : Registry → Marks → Registry
with_marks r m = record r { headers = λ q. record (r.headers q) { marked = m q } }

module _ (keys : DenseMapKeys) (r : Registry) where
  -- The headers that a list of words points into.
  unfoldable pub owners : List ℕ → List ℕ
  owners [] = []
  owners (a ∷ rest) =
      if a == 0
      then owners rest
      else elim (find_owning_allocation keys r a) [ none ↦ owners rest | some h ↦ h ∷ owners rest ]

  abbrev pub marking : Marks × List ℕ → Marking
  marking (m, stack) = (with_marks r m, map payload_address stack)

  marks-update :
      (m : Marks) (p : ℕ)
      → modify_header (with_marks r m) p (λ h. record h { marked = true })
        ≡ with_marks r (update m p true)
  marks-update m p = ap {B = Registry} (λ hs. record r { headers = hs }) (fun_ext λ q. same q)
    where
      same :
          (q : ℕ)
          → (modify_header (with_marks r m) p (λ h. record h { marked = true })).headers q
            ≡ (with_marks r (update m p true)).headers q
      same q = ground (arith, ==_iff p q, ap r.headers)

  mark_allocation-visit :
      (m : Marks) (stack : List ℕ) (p : ℕ)
      → mark_allocation (marking (m, stack)) p ≡ marking (visit (m, stack) p)
  unfolding mark_allocation visit
  mark_allocation-visit m stack p = elim (Bool-cases (m p)) [
    | inl old ↦ simp old
    | inr new ↦ simp new (
        ap (λ (s : Registry). (s, (payload_address p) ∷ map payload_address stack))
          (marks-update m p))
  ]

-- How many words are not null.
unfoldable pub non_null : List ℕ → ℕ
non_null [] = 0
non_null (a ∷ rest) = (if a == 0 then 0 else 1) + non_null rest

module _ (keys : DenseMapKeys) (read : ℕ → ℕ) (r : Registry) where
  mark_address-visits :
      (m : Marks) (stack : List ℕ) (a : ℕ)
      → mark_address keys read (marking keys r (m, stack)) a
        ≡ marking keys r (visits (m, stack) (owners keys r (a ∷ [])))
  unfolding mark_address owners visits
  mark_address-visits m stack a = elim (Option-cases (find_owning_allocation keys r a)) [
    | inl e ↦ ground (arith, find-relabelled keys r m r.collection_count a)
    | inr (h, e) ↦ ground (
      arith,
      find-relabelled keys r m r.collection_count a,
      mark_allocation-visit keys r m stack h,
    )
  ]

  owners-cons :
      (a : ℕ) (rest : List ℕ)
      → owners keys r (a ∷ rest) ≡ owners keys r (a ∷ []) ++ owners keys r rest
  unfolding owners
  owners-cons a rest = elim (Option-cases (find_owning_allocation keys r a)) [
    | inl e ↦ ground arith
    | inr (h, e) ↦ ground arith
  ]

  pub mark_addresses-visits :
      (m : Marks) (stack addresses : List ℕ)
      → mark_addresses keys read (marking keys r (m, stack)) addresses
        ≡ marking keys r (visits (m, stack) (owners keys r addresses))
  unfolding mark_addresses
  mark_addresses-visits m stack [] = unfold visits owners in refl
  mark_addresses-visits m stack (a ∷ rest) =
      let (m', stack') = visits (m, stack) (owners keys r (a ∷ [])) in
      rw (mark_address-visits m stack a, mark_addresses-visits m' stack' rest, owners-cons a rest)
        (ap (marking keys r) (sym (visits-append (m, stack) (owners keys r (a ∷ [])) _)))

  pub mark_roots_lem :
      (roots : List ℕ) (count : ℕ) (s : Marking)
      → mark_roots keys read roots count s
        ≡ (count + non_null roots, mark_addresses keys read s roots)
  unfolding mark_roots non_null mark_addresses mark_address
  mark_roots_lem [] count s = ground arith
  mark_roots_lem (a ∷ rest) count (r', stack) = ground (
    arith,
    mark_roots_lem rest count (r', stack),
    mark_roots_lem rest (count + 1) (mark_address keys read (r', stack) a),
  )

  -- The headers that the payload of a header points into.
  unfoldable pub targets : ℕ → List ℕ
  targets p = owners keys r (map read (payload_slots (r.headers p) (payload_address p)))

  scan_marked-scan :
      (s : Registry) (worklist : List ℕ) (address p : ℕ)
      → address - header_size ≡ p
      → (s.headers p).live ≡ true
      → (s.headers p).marked ≡ true
      → (s.headers p).magic ≡ allocation_magic
      → scan_marked keys read s address worklist
        ≡ scan_allocation_payload keys read (s.headers p) address (s, worklist)
  unfolding scan_marked
  scan_marked-scan s worklist address p e in_use marked genuine = ground (arith, ap s.headers e)

  payload_slots-marked :
      (h : AllocationHeader) (b : Bool) (start : ℕ)
      → payload_slots (record h { marked = b }) start ≡ payload_slots h start
  unfolding payload_slots
  payload_slots-marked h b start = refl

  scan_marked-visits :
      (m : Marks) (stack : List ℕ) (p : ℕ)
      → IsAllocated (r.headers p) p
      → m p ≡ true
      → scan_marked keys read (with_marks r m) (payload_address p) (map payload_address stack)
        ≡ marking keys r (visits (m, stack) (targets p))
  unfolding targets
  scan_marked-visits m stack p a marked =
      scan_marked-scan (with_marks r m) (map payload_address stack) (payload_address p) p
        (omega arith) a.in_use marked a.genuine
      ∙ scan-payload_slots keys read (record (r.headers p) { marked = m p }) (payload_address p)
          (marking keys r (m, stack)) a.fits
      ∙ mark_addresses-visits m stack _
      ∙ ap (λ slots. marking keys r (visits (m, stack) (owners keys r (map read slots))))
          (payload_slots-marked (r.headers p) (m p) (payload_address p))

  -- On fuel for which the search ends the worklist loop ends, with the marks of the search.
  pub drain-search :
      (xs : List ℕ)
      → ((p : ℕ) → has xs p ≡ true → IsAllocated (r.headers p) p × Within xs (targets p))
      → (fuel : ℕ) (m m' : Marks) (stack : List ℕ) → Within xs stack
      → ((q : ℕ) → has stack q ≡ true → m q ≡ true)
      → search targets fuel (m, stack) ≡ some m'
      → drain keys read fuel (marking keys r (m, stack)) ≡ done (with_marks r m')
  unfolding drain search
  drain-search xs ok zero m m' [] w s e =
      ap (λ (k : Marks). done (with_marks r k)) (some-injective _ _ e)
  drain-search xs ok (suc fuel) m m' [] w s e =
      ap (λ (k : Marks). done (with_marks r k)) (some-injective _ _ e)
  drain-search xs ok zero m m' (p ∷ stack) w s e = cc
  drain-search xs ok (suc fuel) m m' (p ∷ stack) w s e =
      let (a, t) = ok p w.0 in
      let next = visits (m, stack) (targets p) in
      let marks = visits-marks m stack (targets p) in
      let stacks = visits-stack m stack (targets p) in
      ap (drain keys read fuel) (scan_marked-visits m stack p a (s p (has_self p stack)))
      ∙ drain-search xs ok fuel next.0 m' next.1 (visits-Within xs m stack (targets p) w.1 t)
          (λ q h. ground (arith, marks q, stacks q, s q)) e
