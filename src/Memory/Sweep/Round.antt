-- ===== src/Memory/Sweep/Round.antt =====
-- One round of the sweep loop: what the rounds behind it give, seen from the state before it.
use lona_mvm.Prelude.{
  ℕ, ◌≡◌, ◌≢◌, true, false, not, List, ◌∷◌, ◌++◌, inl, inr, ◌==◌, ==_iff, has, arith, ap, ◌∙◌,
  subst, Bool-cases,
}
use lona_mvm.Memory.Header.{AllocationHeader, GcCollectionStats}
use lona_mvm.Memory.Registry.{Registry}
use lona_mvm.Memory.Invariant.{HeapInv, body_of, data_of}
use lona_mvm.Memory.Sweep.Tally.{select, marks, tallied, select_same, bytes_in_same, not-has-select}

-- From a state whose active list is `ys ++ zs`: the state after sweeping `zs`.
pub record Swept (r r' : Registry) (ys zs : List ℕ) : Type 0 where
  pub inv : HeapInv r' (ys ++ select (marks r) zs)
  pub kept :
      (q : ℕ)
      → has (select (λ p. not (marks r p)) zs) q ≡ false
      → body_of (r'.headers q) ≡ body_of (r.headers q)
  pub cleared : (q : ℕ) → has zs q ≡ true → marks r' q ≡ false
  pub others : (q : ℕ) → has zs q ≡ false → marks r' q ≡ marks r q

-- One round of the loop, from the state before it to the one after it.
module _ (r r1 : Registry) (x : ℕ) (zs : List ℕ) (out : has zs x ≡ false)
    (same : (q : ℕ) → q ≢ x → data_of (r1.headers q) ≡ data_of (r.headers q)) where
  apart : (q : ℕ) → has zs q ≡ true → q ≢ x
  apart q h e = cc (out, ap (has zs) e)

  marks_same : (q : ℕ) → q ≢ x → marks r1 q ≡ marks r q
  marks_same q ne = ap (λ (h : AllocationHeader). h.marked) (same q ne)

  kept_same : select (marks r1) zs ≡ select (marks r) zs
  kept_same = select_same (marks r1) (marks r) zs (λ q h. marks_same q (apart q h))

  dead_same : select (λ q. not (marks r1 q)) zs ≡ select (λ q. not (marks r q)) zs
  dead_same =
      select_same (λ q. not (marks r1 q)) (λ q. not (marks r q)) zs
        (λ q h. ap not (marks_same q (apart q h)))

  pub tally_same :
      (s : GcCollectionStats)
      → tallied r1.headers s (select (marks r1) zs) (select (λ q. not (marks r1 q)) zs)
        ≡ tallied r.headers s (select (marks r) zs) (select (λ q. not (marks r q)) zs)
  unfolding tallied
  tally_same s =
      let on_zs = λ (q : ℕ) (h : has zs q ≡ true). same q (apart q h) in
      rw (kept_same, dead_same)
        (ground (
          arith,
          bytes_in_same r.headers r1.headers (marks r) zs on_zs,
          bytes_in_same r.headers r1.headers (λ q. not (marks r q)) zs on_zs,
        ))

  passed :
      (q : ℕ)
      → has (select (λ p. not (marks r p)) (x ∷ zs)) q ≡ false
      → (x == q) ≡ false
      → has (select (λ p. not (marks r p)) zs) q ≡ false
  unfolding select
  passed q h miss = ground arith

  pub Swept-cons :
      (r' : Registry) (ys ys' : List ℕ)
      → marks r1 x ≡ false
      → ys' ++ select (marks r) zs ≡ ys ++ select (marks r) (x ∷ zs)
      → ((marks r x ≡ true) → body_of (r1.headers x) ≡ body_of (r.headers x))
      → Swept r1 r' ys' zs
      → Swept r r' ys (x ∷ zs)
  unfolding select
  Swept-cons r' ys ys' clear lists body w = record {
    inv = subst (HeapInv r') (ap (◌++◌ ys') kept_same ∙ lists) w.inv;
    kept = λ q h. elim (Bool-cases (x == q)) [
      | inl hit ↦
          subst (λ k. body_of (r'.headers k) ≡ body_of (r.headers k)) ((==_iff x q).0 hit)
            (w.kept x (not-has-select (λ p. not (marks r1 p)) zs x out) ∙ body (ground arith))
      | inr miss ↦
          w.kept q (ap (λ (l : List ℕ). has l q) dead_same ∙ passed q h miss)
          ∙ ap body_of (same q (ground (arith, ==_iff x q)))
    ];
    cleared = λ q h. elim (Bool-cases (x == q)) [
      | inl hit ↦ subst (λ k. marks r' k ≡ false) ((==_iff x q).0 hit) (w.others x out ∙ clear)
      | inr miss ↦ w.cleared q (ground arith)
    ];
    others = λ q h. w.others q (ground arith) ∙ marks_same q (ground (arith, ==_iff x q));
  }
