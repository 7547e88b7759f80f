-- ===== src/Memory/Active/Chain.antt =====
-- Doubly linked lists as pairs of pointer functions, and what unlinking an entry does to one.
use lona_mvm.Prelude.{
  ℕ, ◌≡◌, ◌≢◌, refl, true, false, not, ◌&&◌, List, [], ◌∷◌, ◌++◌, ◌⊎◌, inl, inr, if◌then◌else◌,
  ◌==◌, ==_iff, has, has-append, Distinct, arith, ap,
}

-- From `p` the next pointers lead through `xs` to null, and the prev pointers back to `before`.
abbrev pub Chain : (next prev : ℕ → ℕ) (before p : ℕ) → List ℕ → Type 0
Chain next prev before p [] = p ≡ 0
Chain next prev before p (x ∷ xs) =
    (p ≡ x) × (x ≢ 0) × (prev x ≡ before) × Chain next prev x (next x) xs

pub Chain-frame :
    {next prev : ℕ → ℕ} (next' prev' : ℕ → ℕ) (before p : ℕ) (xs : List ℕ)
    → ((q : ℕ) → has xs q ≡ true → (next' q ≡ next q) × (prev' q ≡ prev q))
    → Chain next prev before p xs
    → Chain next' prev' before p xs
Chain-frame next' prev' before p [] same c = c
Chain-frame {next} next' prev' before p (x ∷ xs) same c =
    let (n, v) = same x (ground arith) in
    let rest = Chain-frame next' prev' x (next x) xs (λ q h. same q (ground arith)) c.3 in
    (c.0, c.1, ground arith, rw n rest)

module _ (next prev : ℕ → ℕ) where
  next_of :
      (before p x : ℕ) (ys zs : List ℕ)
      → Chain next prev before p (ys ++ x ∷ zs)
      → (next x ≡ 0) ⊎ (has zs (next x) ≡ true)
  next_of before p x [] [] c = inl c.3
  next_of before p x [] (z ∷ zs) c = inr (ground arith)
  next_of before p x (y ∷ ys) zs c = next_of y (next y) x ys zs c.3

  prev_of :
      (before p x w : ℕ) (ys zs : List ℕ)
      → Chain next prev before p (w ∷ (ys ++ x ∷ zs))
      → has (w ∷ ys) (prev x) ≡ true
  prev_of before p x w [] zs c = ground arith
  prev_of before p x w (y ∷ ys) zs c = ground (arith, prev_of w (next w) x y ys zs c.3)

  -- The pointers after `x` was unlinked.
  abbrev pub next_without : ℕ → ℕ → ℕ
  next_without x q =
      if x == q then 0 else if not (prev x == 0) && (prev x == q) then next x else next q

  abbrev pub prev_without : ℕ → ℕ → ℕ
  prev_without x q =
      if x == q then 0 else if not (next x == 0) && (next x == q) then prev x else prev q

  -- Unlinking the first entry.
  unlink_first :
      (before x : ℕ) (zs : List ℕ)
      → Distinct (x ∷ zs)
      → has (x ∷ zs) before ≡ false
      → Chain next prev before x (x ∷ zs)
      → Chain (next_without x) (prev_without x) before (next x) zs
  unlink_first before x [] d out c = c.3
  unlink_first before x (z ∷ zs) d out c =
      let n : next x ≡ z = c.3.0 in
      let v : prev x ≡ before = c.2 in
      let rest =
        Chain-frame (next_without x) (prev_without x) z (next z) zs
          (λ q h. (
            ground (arith, ==_iff x q, ==_iff z q, ==_iff before q),
            ground (arith, ==_iff x q, ==_iff z q),
          ))
          c.3.3 in
      let same : next_without x z ≡ next z = ground (arith, ==_iff before z) in
      (n, c.3.1, ground arith, rw same rest)

  -- What an entry before `x` points to next.
  next_of_before :
      (before p x y : ℕ) (ys zs : List ℕ)
      → Distinct (y ∷ (ys ++ x ∷ zs))
      → Chain next prev before p (y ∷ (ys ++ x ∷ zs))
      → next_without x y ≡ (if next y == x then next x else next y)
  next_of_before before p x y [] zs d c = ground (arith, ==_iff x y)
  next_of_before before p x y (w ∷ ys) zs d c = ground (
    arith,
    prev_of y (next y) x w ys zs c.3,
    has-append ys (x ∷ zs) y,
    has-append ys (x ∷ zs) w,
    ==_iff x y,
    ==_iff (prev x) y,
    ap (has (w ∷ ys)),
  )

  -- Unlinking any entry: the list pointer moves on where it stood at the entry.
  pub unlink :
      (before p x : ℕ) (ys zs : List ℕ)
      → Distinct (ys ++ x ∷ zs)
      → has (ys ++ x ∷ zs) before ≡ false
      → has (ys ++ x ∷ zs) 0 ≡ false
      → Chain next prev before p (ys ++ x ∷ zs)
      → Chain (next_without x) (prev_without x) before (if p == x then next x else p) (ys ++ zs)
  unlink before p x [] zs d out nz c =
      let at : (p == x) ≡ true = ground arith in
      rw at (unlink_first before x zs d out (refl, c.1, c.2, c.3))
  unlink before p x (y ∷ ys) zs d out nz c =
      let apart = has-append ys (x ∷ zs) y in
      let follows = next_of before p x (y ∷ ys) zs c in
      let link = next_of_before before p x y ys zs d c in
      let ih = unlink y (next y) x ys zs d.1 d.0 (ground arith) c.3 in
      (
        ground (arith, ==_iff x y),
        c.1,
        ground (arith, follows, ==_iff x y, ==_iff (next x) y, ap (has zs)),
        rw link ih,
      )

  -- An entry points neither to nor back to itself.
  pub neighbours :
      (before p x : ℕ) (ys zs : List ℕ)
      → Distinct (ys ++ x ∷ zs)
      → has (ys ++ x ∷ zs) before ≡ false
      → has (ys ++ x ∷ zs) 0 ≡ false
      → Chain next prev before p (ys ++ x ∷ zs)
      → (prev x ≢ x) × (next x ≢ x)
  neighbours before p x [] zs d out nz c = (
    ground (arith, ==_iff x before),
    ground (arith, next_of before p x [] zs c, ap (has zs), ==_iff x 0),
  )
  neighbours before p x (y ∷ ys) zs d out nz c =
      neighbours y (next y) x ys zs d.1 d.0 (ground arith) c.3

  -- The entry that the list pointer stands at has nothing before it.
  pub first_of_Chain :
      (before p x : ℕ) (ys zs : List ℕ)
      → Distinct (ys ++ x ∷ zs)
      → Chain next prev before p (ys ++ x ∷ zs)
      → p ≡ x
      → prev x ≡ before
  first_of_Chain before p x [] zs d c e = c.2
  first_of_Chain before p x (y ∷ ys) zs d c e =
      absurd (ground (arith, has-append ys (x ∷ zs) y, ==_iff x y))

  pub nonzero : (before p : ℕ) (xs : List ℕ) → Chain next prev before p xs → has xs 0 ≡ false
  nonzero before p [] c = refl
  nonzero before p (x ∷ xs) c = ground (arith, nonzero x (next x) xs c.3, ==_iff x 0)

pub Distinct-remove : (x : ℕ) (ys zs : List ℕ) → Distinct (ys ++ x ∷ zs) → Distinct (ys ++ zs)
Distinct-remove x [] zs d = d.1
Distinct-remove x (y ∷ ys) zs d =
    (ground (arith, has-append ys (x ∷ zs) y, has-append ys zs y), Distinct-remove x ys zs d.1)

pub Distinct-absent : (x : ℕ) (ys zs : List ℕ) → Distinct (ys ++ x ∷ zs) → has (ys ++ zs) x ≡ false
Distinct-absent x [] zs d = d.0
Distinct-absent x (y ∷ ys) zs d =
    ground (arith, has-append ys (x ∷ zs) y, Distinct-absent x ys zs d.1, ==_iff x y, ==_iff y x)
