-- ===== src/Gc/Requests/Laws.antt =====
-- When the count of managed bytes asks for a collection.
use lona_mvm.Prelude.{
  ℕ, ◌+◌, ◌%◌, ◌<◌, ◌≡◌, refl, Bool, false, not, ◌&&◌, ◌||◌, List, [], ◌∷◌, if◌then◌else◌, leb,
  ◌==◌, arith, ◌∙◌,
}
use native.Mathlib.Nat.{mod-eq_of_lt}
use lona_mvm.Memory.Words.{word}
use lona_mvm.Gc.Requests.{GcRequests, request_gc, record_managed_allocation}

abbrev pub sum : List ℕ → ℕ
sum [] = 0
sum (n ∷ ns) = n + sum ns

-- Recording a run of allocations.
unfoldable pub record_all : GcRequests → List ℕ → GcRequests
record_all g [] = g
record_all g (bytes ∷ rest) = record_all (record_managed_allocation g bytes) rest

abbrev pub is_some_allocated : List ℕ → Bool
is_some_allocated [] = false
is_some_allocated (n ∷ ns) = not (n == 0) || is_some_allocated ns

-- What the run leaves.
abbrev pub recorded : GcRequests → List ℕ → GcRequests
recorded g sizes =
    let total = g.gc_tracked_heap_bytes + sum sizes in
    let reached = is_some_allocated sizes && leb g.gc_heap_limit_bytes total in
    record g {
      gc_tracked_heap_bytes = total;
      gc_requested = g.gc_requested || reached;
      notifications = g.notifications + (if not g.gc_requested && reached then 1 else 0);
    }

none_allocated : (sizes : List ℕ) → is_some_allocated sizes ≡ false → sum sizes ≡ 0
none_allocated [] h = refl
none_allocated (n ∷ ns) h = ground (arith, none_allocated ns)

record_one :
    (g : GcRequests) (n : ℕ)
    → g.gc_tracked_heap_bytes + n < word
    → record_managed_allocation g n ≡ recorded g (n ∷ [])
unfolding record_managed_allocation request_gc
record_one g n h =
    let total : (g.gc_tracked_heap_bytes + n) % word ≡ g.gc_tracked_heap_bytes + n =
      mod-eq_of_lt h in
    ground (arith, total)

recorded_cons :
    (g : GcRequests) (n : ℕ) (ns : List ℕ) → recorded (recorded g (n ∷ [])) ns ≡ recorded g (n ∷ ns)
recorded_cons g n ns = ground (arith, none_allocated ns)

-- While the count of managed bytes stays below 2 ^ 64, recording a run of allocations adds up their
-- bytes and raises the request flag exactly if one of them is not empty and the count has reached
-- the limit. The runtime threads are notified once if the flag was down before, and else not.
pub record_all_lem :
    (g : GcRequests) (sizes : List ℕ)
    → g.gc_tracked_heap_bytes + sum sizes < word
    → record_all g sizes ≡ recorded g sizes
unfolding record_all
record_all_lem g [] h = ground arith
record_all_lem g (n ∷ ns) h =
    rw (record_one g n (omega arith))
      (record_all_lem (recorded g (n ∷ [])) ns (omega arith) ∙ recorded_cons g n ns)
