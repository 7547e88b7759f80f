-- ===== src/Memory/Sweep/Correct.antt =====
-- The sweep phase: what it keeps, what it reclaims, and what it counts.
use mathlib.Core.List.{append_assoc}
use lona_mvm.Prelude.{
  ℕ, zero, suc, ◌≤◌, ◌≡◌, ◌≢◌, refl, true, false, not, List, [], ◌∷◌, ◌++◌, inl, inr, ==_iff, has,
  Distinct, has-append, length, arith, ap, ◌∙◌, sym, subst, ap₂, Bool-cases, ==_refl,
}
use lona_mvm.Memory.Header.{GcCollectionStats}
use lona_mvm.Memory.Registry.{Registry, done, modify_header}
use lona_mvm.Memory.Active.Chain.{Chain, nonzero}
use lona_mvm.Memory.Active.Laws.{nexts, prevs}
use lona_mvm.Memory.Invariant.{HeapInv, HeapInv-marks, data_of}
use lona_mvm.Memory.Sweep.{sweep, survived, swept, reclaim_allocation}
use lona_mvm.Memory.Sweep.Reclaim.{Removed, reclaim-Removed}
use lona_mvm.Memory.Sweep.Tally.{
  select, head_of, marks, tallied, tallied-nil, tallied-survived, tallied-swept, select_hit,
  select_miss,
}
use lona_mvm.Memory.Sweep.Round.{Swept, tally_same, Swept-cons}

next_head :
    (next prev : ℕ → ℕ) (before p x : ℕ) (ys zs : List ℕ)
    → Chain next prev before p (ys ++ x ∷ zs)
    → next x ≡ head_of zs
next_head next prev before p x [] [] c = c.3
next_head next prev before p x [] (z ∷ zs) c = c.3.0
next_head next prev before p x (y ∷ ys) zs c = next_head next prev y (next y) x ys zs c.3

-- One survivor.
unmark-HeapInv :
    (r : Registry) (xs : List ℕ) (x : ℕ)
    → HeapInv r xs
    → HeapInv (modify_header r x (λ h. record h { marked = false })) xs
unmark-HeapInv r xs x v = HeapInv-marks r xs _ (λ q. ground (arith, ==_iff x q, ap r.headers)) v

absent_after : (ys : List ℕ) (x : ℕ) (zs : List ℕ) → Distinct (ys ++ x ∷ zs) → has zs x ≡ false
absent_after [] x zs d = d.0
absent_after (y ∷ ys) x zs d = absent_after ys x zs d.1

nonzero_entry : (r : Registry) (ys zs : List ℕ) → HeapInv r (ys ++ 0 ∷ zs) → ⊥
nonzero_entry r ys zs v = ground (
  arith,
  nonzero (nexts r) (prevs r) 0 r.active_allocation_head (ys ++ 0 ∷ zs) v.active.chain,
  has-append ys (0 ∷ zs) 0,
)

module _ (fuel : ℕ) (r : Registry) (k : ℕ) (s : GcCollectionStats) where
  abbrev spared : Registry
  spared = modify_header r (suc k) (λ h. record h { marked = false })

  sweep_marked :
      marks r (suc k) ≡ true
      → sweep (suc fuel) r (suc k) s
        ≡ sweep fuel spared (nexts r (suc k)) (survived s (r.headers (suc k)).payload_size)
  unfolding sweep
  sweep_marked h = rw (h, sweep)

  sweep_unmarked :
      (t : Registry)
      → marks r (suc k) ≡ false
      → reclaim_allocation r (suc k) ≡ done t
      → sweep (suc fuel) r (suc k) s
        ≡ sweep fuel t (nexts r (suc k)) (swept s (r.headers (suc k)).payload_size)
  unfolding sweep
  sweep_unmarked t h e = rw (h, sweep) (rw e)

-- What the loop gives from `zs` on.
abbrev pub Sweeps : ℕ → Registry → (ys zs : List ℕ) → ℕ → GcCollectionStats → Type 0
Sweeps fuel r ys zs p s =
    (r' : Registry) × (sweep fuel r p s
      ≡ done (r', tallied r.headers s (select (marks r) zs) (select (λ q. not (marks r q)) zs)))
    × Swept r r' ys zs

module _ (fuel : ℕ) (r : Registry) (ys : List ℕ) (k : ℕ) (zs : List ℕ) (s : GcCollectionStats)
    (v : HeapInv r (ys ++ suc k ∷ zs)) where
  abbrev size : ℕ
  size = (r.headers (suc k)).payload_size

  spared_same :
      (q : ℕ) → q ≢ suc k → data_of ((spared fuel r k s).headers q) ≡ data_of (r.headers q)
  spared_same q ne = ground (arith, ==_iff (suc k) q)

  sweep_survivor :
      marks r (suc k) ≡ true
      → Sweeps fuel (spared fuel r k s) (ys ++ suc k ∷ []) zs (nexts r (suc k)) (survived s size)
      → Sweeps (suc fuel) r ys (suc k ∷ zs) (suc k) s
  sweep_survivor live (r', e, w) =
      let x = suc k in
      let out = absent_after ys x zs v.active.distinct in
      let r1 = spared fuel r k s in
      let hit = select_hit (marks r) x zs live in
      let miss = select_miss (λ q. not (marks r q)) x zs (ap not live) in
      (
        r',
        sweep_marked fuel r k s live
            ∙ e
            ∙ ap (λ (t : GcCollectionStats). done (r', t))
                (tally_same r r1 x zs out spared_same (survived s size)
                  ∙ tallied-survived r.headers s x _ _
                  ∙ ap₂ (tallied r.headers s) (sym hit) (sym miss)),
        Swept-cons r r1 x zs out spared_same r' ys (ys ++ x ∷ []) (ground (arith, ==_refl x))
            (append_assoc ys (x ∷ []) _ ∙ ap (◌++◌ ys) (sym hit)) (λ _. ground (arith, ==_refl x))
            w,
      )

  sweep_victim :
      (t : Registry)
      → marks r (suc k) ≡ false
      → reclaim_allocation r (suc k) ≡ done t
      → Removed r t (suc k) (ys ++ zs)
      → Sweeps fuel t ys zs (nexts r (suc k)) (swept s size)
      → Sweeps (suc fuel) r ys (suc k ∷ zs) (suc k) s
  sweep_victim t dead gone m (r', e, w) =
      let x = suc k in
      let out = absent_after ys x zs v.active.distinct in
      let miss = select_miss (marks r) x zs dead in
      let hit = select_hit (λ q. not (marks r q)) x zs (ap not dead) in
      (
        r',
        sweep_unmarked fuel r k s t dead gone
            ∙ e
            ∙ ap (λ (g : GcCollectionStats). done (r', g))
                (tally_same r t x zs out m.kept (swept s size)
                  ∙ tallied-swept r.headers s x _ _
                  ∙ ap₂ (tallied r.headers s) (sym miss) (sym hit)),
        Swept-cons r t x zs out m.kept r' ys ys m.unmarked (ap (◌++◌ ys) (sym miss)) (λ live. cc) w,
      )

sweep_end :
    (fuel : ℕ) (r : Registry) (ys : List ℕ) (p : ℕ) (s : GcCollectionStats)
    → HeapInv r (ys ++ [])
    → p ≡ 0
    → Sweeps fuel r ys [] p s
unfolding sweep select
sweep_end fuel r ys p s v e = (
  r,
  rw e (ap (λ (k : GcCollectionStats). done (r, k)) (sym (tallied-nil r.headers s))),
  record { inv = v; kept = λ q h. refl; cleared = λ q h. cc; others = λ q h. refl },
)

-- In a heap that satisfies the invariant, sweeping from an entry of the active list to its end
-- returns on fuel for the entries that are left. It takes the entries without a mark out of the heap
-- and keeps the others in order, contents unchanged and marks cleared. It counts the objects and
-- bytes of both. The entries before the first keep their places and their marks, and the invariant
-- of the heap holds.
pub sweep_lem :
    (fuel : ℕ) (r : Registry) (ys zs : List ℕ) (p : ℕ) (s : GcCollectionStats)
    → HeapInv r (ys ++ zs)
    → p ≡ head_of zs
    → length zs ≤ fuel
    → Sweeps fuel r ys zs p s
sweep_lem fuel r ys [] p s v e f = sweep_end fuel r ys p s v e
sweep_lem fuel r ys (zero ∷ zs) p s v e f = absurd (nonzero_entry r ys zs v)
sweep_lem zero r ys (suc k ∷ zs) p s v e f = absurd (omega arith)
sweep_lem (suc fuel) r ys (suc k ∷ zs) p s v e f =
    let next =
      next_head (nexts r) (prevs r) 0 r.active_allocation_head (suc k) ys zs v.active.chain in
    let size = (r.headers (suc k)).payload_size in
    subst (λ q. Sweeps (suc fuel) r ys (suc k ∷ zs) q s) (sym e)
      (elim (Bool-cases (marks r (suc k))) [
        | inl live ↦ sweep_survivor fuel r ys k zs s v live (
            sweep_lem fuel (spared fuel r k s) (ys ++ suc k ∷ []) zs (nexts r (suc k))
              (survived s size)
              (subst (HeapInv (spared fuel r k s)) (sym (append_assoc ys (suc k ∷ []) zs))
                (unmark-HeapInv r (ys ++ suc k ∷ zs) (suc k) v))
              next (omega arith))
        | inr dead ↦
            let (t, gone, m) = reclaim-Removed r (suc k) ys zs v in
            sweep_victim fuel r ys k zs s v t dead gone m
              (sweep_lem fuel t ys zs (nexts r (suc k)) (swept s size) m.inv next (omega arith))
      ])
