-- ===== src/Memory/Sweep/Tally.antt =====
-- Selections from the active list, and the statistics over them.
use lona_mvm.Prelude.{
  ℕ, ◌+◌, ◌≡◌, refl, Bool, true, false, List, [], ◌∷◌, if◌then◌else◌, has, has_self, length, arith,
  ap, not, ◌&&◌, ==_iff,
}
use lona_mvm.Memory.Header.{AllocationHeader, GcCollectionStats}
use lona_mvm.Memory.Registry.{Registry}
use lona_mvm.Memory.Invariant.{data_of}
use lona_mvm.Memory.Sweep.{survived, swept}

-- The entries that pass a test, in order.
unfoldable pub select : (ℕ → Bool) → List ℕ → List ℕ
select t [] = []
select t (x ∷ xs) = if t x then x ∷ select t xs else select t xs

unfoldable pub bytes_in : (ℕ → AllocationHeader) → List ℕ → ℕ
bytes_in hs [] = 0
bytes_in hs (x ∷ xs) = (hs x).payload_size + bytes_in hs xs

abbrev pub head_of : List ℕ → ℕ
head_of [] = 0
head_of (x ∷ xs) = x

abbrev pub marks : Registry → ℕ → Bool
marks r q = (r.headers q).marked

-- The statistics after the entries `kept` survived and the entries `dead` were reclaimed.
unfoldable pub tallied :
    (ℕ → AllocationHeader) → GcCollectionStats → (kept dead : List ℕ) → GcCollectionStats
tallied hs s kept dead = record s {
  live_object_count = s.live_object_count + length kept;
  heap_bytes_after = s.heap_bytes_after + bytes_in hs kept;
  swept_object_count = s.swept_object_count + length dead;
  swept_bytes = s.swept_bytes + bytes_in hs dead;
}

pub tallied-nil : (hs : ℕ → AllocationHeader) (s : GcCollectionStats) → tallied hs s [] [] ≡ s
unfolding tallied bytes_in
tallied-nil hs s = ground arith

pub tallied-survived :
    (hs : ℕ → AllocationHeader) (s : GcCollectionStats) (x : ℕ) (kept dead : List ℕ)
    → tallied hs (survived s (hs x).payload_size) kept dead ≡ tallied hs s (x ∷ kept) dead
unfolding tallied bytes_in
tallied-survived hs s x kept dead = ground arith

pub tallied-swept :
    (hs : ℕ → AllocationHeader) (s : GcCollectionStats) (x : ℕ) (kept dead : List ℕ)
    → tallied hs (swept s (hs x).payload_size) kept dead ≡ tallied hs s kept (x ∷ dead)
unfolding tallied bytes_in
tallied-swept hs s x kept dead = ground arith

pub select_same :
    (t u : ℕ → Bool) (xs : List ℕ)
    → ((q : ℕ) → has xs q ≡ true → t q ≡ u q)
    → select t xs ≡ select u xs
unfolding select
select_same t u [] same = refl
select_same t u (x ∷ xs) same =
    ground (arith, same x (has_self x xs), select_same t u xs (λ q h. same q (ground arith)))

pub not-has-select :
    (t : ℕ → Bool) (xs : List ℕ) (q : ℕ) → has xs q ≡ false → has (select t xs) q ≡ false
unfolding select
not-has-select t [] q h = refl
not-has-select t (x ∷ xs) q h = ground (arith, not-has-select t xs q)

-- The bytes of a selection from a list on whose entries two stores agree.
pub bytes_in_same :
    (hs hs' : ℕ → AllocationHeader) (t : ℕ → Bool) (xs : List ℕ)
    → ((q : ℕ) → has xs q ≡ true → data_of (hs' q) ≡ data_of (hs q))
    → bytes_in hs' (select t xs) ≡ bytes_in hs (select t xs)
unfolding bytes_in select
bytes_in_same hs hs' t [] same = refl
bytes_in_same hs hs' t (x ∷ xs) same = ground (
  arith,
  ap (λ (h : AllocationHeader). h.payload_size) (same x (has_self x xs)),
  bytes_in_same hs hs' t xs (λ q h. same q (ground arith)),
)

pub select_hit :
    (t : ℕ → Bool) (x : ℕ) (xs : List ℕ) → t x ≡ true → select t (x ∷ xs) ≡ x ∷ select t xs
unfolding select
select_hit t x xs h = rw h

pub select_miss :
    (t : ℕ → Bool) (x : ℕ) (xs : List ℕ) → t x ≡ false → select t (x ∷ xs) ≡ select t xs
unfolding select
select_miss t x xs h = rw h

pub length-select :
    (t : ℕ → Bool) (xs : List ℕ)
    → length (select t xs) + length (select (λ q. not (t q)) xs) ≡ length xs
unfolding select
length-select t [] = omega arith
length-select t (x ∷ xs) = ground (arith, length-select t xs)

pub bytes_in-select :
    (hs : ℕ → AllocationHeader) (t : ℕ → Bool) (xs : List ℕ)
    → bytes_in hs (select t xs) + bytes_in hs (select (λ q. not (t q)) xs) ≡ bytes_in hs xs
unfolding select bytes_in
bytes_in-select hs t [] = omega arith
bytes_in-select hs t (x ∷ xs) = ground (arith, bytes_in-select hs t xs)

pub has-select : (t : ℕ → Bool) (xs : List ℕ) (q : ℕ) → has (select t xs) q ≡ (has xs q && t q)
unfolding select
has-select t [] q = refl
has-select t (x ∷ xs) q = ground (arith, has-select t xs q, ==_iff x q, ap t)
