-- ===== src/Memory/System.antt =====
-- runtime_memory.cc: the address pages of allocations that come straight from malloc.
use lona_mvm.Prelude.{
  ℕ, zero, suc, ◌+◌, ◌-◌, Option, none, some, List, [], ◌∷◌, ◌++◌, if◌then◌else◌, ◌==◌, update, has,
  Bool, true, false,
}
use lona_mvm.Memory.Words.{allocation_page_for_address, allocation_last_address}
use lona_mvm.Memory.Header.{payload_address}
use lona_mvm.Memory.Registry.{
  Registry, Outcome, done, aborted, system_page_key_collision, DenseMapKeys,
  is_reserved_dense_map_key,
}

-- The loop over the pages from `current` on, with the count of pages left.
unfoldable pub register_system_pages : DenseMapKeys → Registry → ℕ → ℕ → ℕ → Outcome Registry
register_system_pages keys r header current zero = done r
register_system_pages keys r header current (suc n) =
    let bucket : List ℕ = elim (r.system_headers_by_page current) [ none ↦ [] | some b ↦ b ] in
    let rest =
      register_system_pages keys
        (record r {
          system_headers_by_page =
              update r.system_headers_by_page current (some (bucket ++ header ∷ []));
        })
        header (current + 1) n in
    if is_reserved_dense_map_key keys current then aborted system_page_key_collision else rest

abbrev pub first_page : Registry → ℕ → ℕ
first_page r header = allocation_page_for_address (payload_address header)

abbrev pub last_page : Registry → ℕ → ℕ
last_page r header =
    allocation_page_for_address
      (allocation_last_address (payload_address header) (r.headers header).payload_size)

unfoldable pub register_system_allocation_pages : DenseMapKeys → Registry → ℕ → Outcome Registry
register_system_allocation_pages keys r header =
    register_system_pages keys r header (first_page r header)
      (suc (last_page r header) - first_page r header)

-- The last entry of a vector with `x` as its first entry.
back : ℕ → List ℕ → ℕ
back x [] = x
back x (y ∷ ys) = back y ys

-- The vector without its last entry.
pop_back : List ℕ → List ℕ
pop_back [] = []
pop_back (x ∷ xs) = elim xs [ [] ↦ [] | y ∷ ys ↦ x ∷ pop_back xs ]

-- Puts `v` at the place of the first occurrence of `x`.
replace_first : ℕ → ℕ → List ℕ → List ℕ
replace_first x v [] = []
replace_first x v (y ∷ ys) = if y == x then v ∷ ys else y ∷ replace_first x v ys

-- std::find, then the last entry moves to the place found and the back is popped.
unfoldable pub swap_remove : ℕ → List ℕ → List ℕ
unfolding back pop_back replace_first
swap_remove x [] = []
swap_remove x (y ∷ ys) =
    if has (y ∷ ys) x then pop_back (replace_first x (back y ys) (y ∷ ys)) else y ∷ ys

is_empty : List ℕ → Bool
is_empty [] = true
is_empty (x ∷ xs) = false

-- One page of the loop: the header leaves the bucket, and an empty bucket leaves the map.
unfoldable pub unregister_page : (ℕ → Option (List ℕ)) → ℕ → ℕ → ℕ → Option (List ℕ)
unfolding swap_remove is_empty
unregister_page buckets header page = elim (buckets page) [
  | none ↦ buckets
  | some bucket ↦
      let left = swap_remove header bucket in
      update buckets page (if is_empty left then none else some left)
]

unregister_pages : (ℕ → Option (List ℕ)) → ℕ → ℕ → ℕ → ℕ → Option (List ℕ)
unregister_pages buckets header current zero = buckets
unregister_pages buckets header current (suc n) =
    unregister_pages (unregister_page buckets header current) header (current + 1) n

unfoldable pub unregister_system_allocation_pages : Registry → ℕ → Registry
unfolding unregister_pages unregister_page
unregister_system_allocation_pages r header = record r {
  system_headers_by_page =
      unregister_pages r.system_headers_by_page header (first_page r header)
        (suc (last_page r header) - first_page r header);
}
