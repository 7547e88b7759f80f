-- ===== src/Memory/Allocate/Register.antt =====
-- Registering an allocation for its address pages, where no page is a reserved key.
use lona_mvm.Prelude.{
  ℕ, zero, suc, ◌+◌, ◌-◌, ◌/◌, ◌^◌, ◌≤◌, ◌<◌, ◌++◌, update, ◌≡◌, refl, Option, none, some, List, [],
  ◌∷◌, arith, ◌∙◌, ap, subst, Bool-cases, inl, inr, true, has, has-append, ==_iff, ==_refl, ◌==◌,
}
use lona_mvm.Memory.Words.{word, allocation_page_for_address, allocation_last_address}
use lona_mvm.Memory.Words.Laws.{allocation_last_address_lem}
use lona_mvm.Memory.Header.{payload_address}
use lona_mvm.Memory.Registry.{Registry, done, DenseMapKeys}
use lona_mvm.Memory.System.{
  register_system_pages, register_system_allocation_pages, first_page, last_page,
}

-- The reserved keys are no address pages.
pub record AboveAddressPages (keys : DenseMapKeys) : Type 0 where
  pub empty_above : 2 ^ 52 ≤ keys.empty_key
  pub tombstone_above : 2 ^ 52 ≤ keys.tombstone_key

-- A page has a bucket with this header.
abbrev pub InBucket : (ℕ → Option (List ℕ)) → (page header : ℕ) → Type 0
InBucket buckets page header =
    (bucket : List ℕ) × (buckets page ≡ some bucket) × (has bucket header ≡ true)

abbrev bucket_at : (ℕ → Option (List ℕ)) → ℕ → List ℕ
bucket_at buckets page = elim (buckets page) [ none ↦ [] | some b ↦ b ]

-- Putting a header into the bucket of a page.
module _ (buckets : ℕ → Option (List ℕ)) (header current : ℕ) where
  abbrev pushed : ℕ → Option (List ℕ)
  pushed = update buckets current (some (bucket_at buckets current ++ header ∷ []))

  pushed-here : InBucket pushed current header
  pushed-here = (
    bucket_at buckets current ++ header ∷ [],
    ground (arith, ==_refl current),
    ground (arith, has-append (bucket_at buckets current) (header ∷ []) header),
  )

  pushed-kept : (page q : ℕ) → InBucket buckets page q → InBucket pushed page q
  pushed-kept page q (bucket, e, h) = elim (Bool-cases (current == page)) [
    | inr other ↦ (bucket, rw other e, h)
    | inl same ↦
        let there : buckets current ≡ some bucket = ap buckets ((==_iff current page).0 same) ∙ e in
        (
          bucket ++ header ∷ [],
          rw same (
              ap
                (λ (o : Option (List ℕ)).
                  some ((elim o as (λ _. List ℕ) [ none ↦ [] | some b ↦ b ]) ++ header ∷ []))
                there),
          ground (arith, has-append bucket (header ∷ []) q),
        )
  ]

module _ (keys : DenseMapKeys) (above : AboveAddressPages keys) where
  -- Registering changes the map from pages and nothing else: the pages keep their headers, and those
  -- of the allocation get its header.
  register_pages-InBucket :
      (r : Registry) (header current n : ℕ)
      → current + n ≤ 2 ^ 52
      → (buckets : ℕ → Option (List ℕ)) × (register_system_pages keys r header current n
          ≡ done (record r { system_headers_by_page = buckets }))
        × ((page q : ℕ) → InBucket r.system_headers_by_page page q → InBucket buckets page q)
        × ((page : ℕ) → current ≤ page → page < current + n → InBucket buckets page header)
  unfolding register_system_pages
  register_pages-InBucket r header current zero h =
      (r.system_headers_by_page, refl, λ page q i. i, λ page lo hi. absurd (omega arith))
  register_pages-InBucket r header current (suc n) h =
      let next = record r {
        system_headers_by_page = pushed r.system_headers_by_page header current;
      } in
      let (buckets, e, kept, new) =
        register_pages-InBucket next header (current + 1) n (omega arith) in
      (
        buckets,
        ground (arith, e, above.empty_above, above.tombstone_above),
        λ page q i. kept page q (pushed-kept r.system_headers_by_page header current page q i),
        λ page lo hi. elim (Bool-cases (current == page)) [
          | inl same ↦
              subst (λ p. InBucket buckets p header) ((==_iff current page).0 same)
                (kept current header (pushed-here r.system_headers_by_page header current))
          | inr other ↦ new page (ground (arith, ==_iff current page)) (omega arith)
        ],
      )

  pub register_lem :
      (r : Registry) (header : ℕ)
      → 0 < (r.headers header).payload_size
      → payload_address header + (r.headers header).payload_size ≤ word
      → (buckets : ℕ → Option (List ℕ)) × (register_system_allocation_pages keys r header
          ≡ done (record r { system_headers_by_page = buckets }))
        × ((page q : ℕ) → InBucket r.system_headers_by_page page q → InBucket buckets page q)
        × ((a : ℕ)
            → payload_address header ≤ a
            → a < payload_address header + (r.headers header).payload_size
            → InBucket buckets (a / 2 ^ 12) header)
  unfolding register_system_allocation_pages allocation_page_for_address
  register_lem r header pos fits =
      let size = (r.headers header).payload_size in
      let start = payload_address header in
      let last : allocation_last_address start size ≡ start + size - 1 =
        allocation_last_address_lem start size (omega arith) pos (omega arith) ∙ ground arith in
      let (buckets, e, kept, new) =
        register_pages-InBucket r header (first_page r header)
          (suc (last_page r header) - first_page r header) (omega (arith, last)) in
      (buckets, e, kept, λ a lo hi. new (a / 2 ^ 12) (omega arith) (omega (arith, last)))
