-- ===== src/Memory/Find/Laws.antt =====
-- Looking an address up: what it returns is in use and holds it, and it depends neither on marks nor on the count of
-- collections.
use lona_mvm.Prelude.{
  ℕ, ◌≡◌, refl, Bool, true, List, [], ◌∷◌, some, arith, Option-cases, Bool-cases, inl, inr, ◌&&◌,
  subst, ◌∙◌,
}
use mathlib.Core.Option.{some-injective}
use lona_mvm.Memory.Words.{allocation_page_for_address}
use lona_mvm.Memory.Registry.{Registry, DenseMapKeys}
use lona_mvm.Memory.Find.{
  payload_contains, find_owning_allocation, find_system_allocation, find_in_bucket,
  find_owning_slab_allocation,
}

-- The registry with other marks and another count of collections.
abbrev pub relabelled : Registry → (ℕ → Bool) → ℕ → Registry
relabelled r m n = record r {
  headers = λ q. record (r.headers q) { marked = m q };
  collection_count = n;
}

-- A header in use whose payload holds the address.
pub record Owns (r : Registry) (header address : ℕ) : Type 0 where
  pub in_use : (r.headers header).live ≡ true
  pub holds : payload_contains r header address ≡ true

find_in_bucket-Owns :
    (r : Registry) (address : ℕ) (bucket : List ℕ) (h : ℕ)
    → find_in_bucket r address bucket ≡ some h
    → Owns r h address
unfolding find_in_bucket
find_in_bucket-Owns r address [] h e = cc
find_in_bucket-Owns r address (x ∷ rest) h e =
    elim (Bool-cases ((r.headers x).live && payload_contains r x address)) [
      | inl hit ↦ found hit (some-injective _ _ (ground arith))
      | inr miss ↦ find_in_bucket-Owns r address rest h (ground arith)
    ]
  where
    found : ((r.headers x).live && payload_contains r x address) ≡ true → x ≡ h → Owns r h address
    found hit same =
        subst (λ p. Owns r p address) same (record { in_use = ground arith; holds = ground arith })

find_system-Owns :
    (r : Registry) (address h : ℕ) → find_system_allocation r address ≡ some h → Owns r h address
unfolding find_system_allocation
find_system-Owns r address h e =
    elim (Option-cases (r.system_headers_by_page (allocation_page_for_address address))) [
      | inl missing ↦ absurd (ground arith)
      | inr (bucket, found) ↦ find_in_bucket-Owns r address bucket h (ground arith)
    ]

find_slab-Owns :
    (r : Registry) (address page h : ℕ)
    → find_owning_slab_allocation r address page ≡ some h
    → Owns r h address
unfolding find_owning_slab_allocation
find_slab-Owns r address page h e = record { in_use = ground arith; holds = ground arith }

-- The allocation that an address is found in is in use, and its payload holds the address.
pub find-Owns :
    (keys : DenseMapKeys) (r : Registry) (address h : ℕ)
    → find_owning_allocation keys r address ≡ some h
    → Owns r h address
unfolding find_owning_allocation
find-Owns keys r address h e =
    let page = allocation_page_for_address address in
    elim (Option-cases (r.slab_pages_by_address_page page)) [
      | inl missing ↦ find_system-Owns r address h (ground arith)
      | inr (slab, found) ↦ elim (Option-cases (find_owning_slab_allocation r address slab)) [
        | inl none_here ↦ find_system-Owns r address h (ground arith)
        | inr (k, hit) ↦ find_slab-Owns r address slab h (hit ∙ ground arith)
      ]
    ]

module _ (keys : DenseMapKeys) (r : Registry) (m : ℕ → Bool) (n : ℕ) where
  find_in_bucket-relabelled :
      (address : ℕ) (bucket : List ℕ)
      → find_in_bucket (relabelled r m n) address bucket ≡ find_in_bucket r address bucket
  unfolding find_in_bucket
  find_in_bucket-relabelled address [] = refl
  find_in_bucket-relabelled address (h ∷ rest) =
      ground (arith, find_in_bucket-relabelled address rest)

  find_system-relabelled :
      (address : ℕ)
      → find_system_allocation (relabelled r m n) address ≡ find_system_allocation r address
  unfolding find_system_allocation
  find_system-relabelled address =
      elim (Option-cases (r.system_headers_by_page (allocation_page_for_address address))) [
        | inl e ↦ ground arith
        | inr (bucket, e) ↦ ground (arith, find_in_bucket-relabelled address bucket)
      ]

  find_slab-relabelled :
      (address page : ℕ)
      → find_owning_slab_allocation (relabelled r m n) address page
        ≡ find_owning_slab_allocation r address page
  unfolding find_owning_slab_allocation
  find_slab-relabelled address page = refl

  pub find-relabelled :
      (address : ℕ)
      → find_owning_allocation keys (relabelled r m n) address
        ≡ find_owning_allocation keys r address
  unfolding find_owning_allocation
  find-relabelled address =
      let page = allocation_page_for_address address in
      elim (Option-cases (r.slab_pages_by_address_page page)) [
        | inl e ↦ ground (arith, find_system-relabelled address)
        | inr (slab, e) ↦
            ground (arith, find_system-relabelled address, find_slab-relabelled address slab)
      ]
