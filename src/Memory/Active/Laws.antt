-- ===== src/Memory/Active/Laws.antt =====
-- What linking and unlinking an allocation does to the registry, and that the list of active
-- allocations stays one.
use lona_mvm.Prelude.{
  ℕ, ◌≡◌, ◌≢◌, refl, sym, subst, false, not, ◌&&◌, List, [], ◌∷◌, ◌++◌, if◌then◌else◌, ◌==◌, ==_iff,
  has, Distinct, arith, ap, fun_ext, ◌∙◌, ap₂,
}
use lona_mvm.Memory.Header.{AllocationHeader}
use lona_mvm.Memory.Registry.{Registry}
use lona_mvm.Memory.Active.{link_active_allocation, unlink_active_allocation}
use lona_mvm.Memory.Active.Chain.{
  Chain, Chain-frame, next_without, prev_without, unlink, neighbours, first_of_Chain, nonzero,
  Distinct-remove,
}

abbrev pub nexts : Registry → ℕ → ℕ
nexts r q = (r.headers q).next

abbrev pub prevs : Registry → ℕ → ℕ
prevs r q = (r.headers q).prev

-- The registry with other pointers of the list.
abbrev pub with_links : Registry → (head : ℕ) (next prev : ℕ → ℕ) → Registry
with_links r head next prev = record r {
  active_allocation_head = head;
  headers = λ q. record (r.headers q) { prev = prev q; next = next q };
}

module _ (r : Registry) (p : ℕ) (prev_ne : prevs r p ≢ p) (next_ne : nexts r p ≢ p) where
  abbrev head_without : ℕ
  head_without =
      if (prevs r p == 0) && (r.active_allocation_head == p)
      then nexts r p
      else r.active_allocation_head

  unlink_header :
      (q : ℕ)
      → (unlink_active_allocation r p).headers q ≡ record (r.headers q) {
        prev = prev_without (nexts r) (prevs r) p q;
        next = next_without (nexts r) (prevs r) p q;
      }
  unfolding unlink_active_allocation
  unlink_header q =
      ground (arith, ==_iff p q, ==_iff (prevs r p) q, ==_iff (nexts r p) q, ap r.headers)

  unlink_head : (unlink_active_allocation r p).active_allocation_head ≡ head_without
  unfolding unlink_active_allocation
  unlink_head = ground arith

  unlink_rest : unlink_active_allocation r p ≡ record r {
    active_allocation_head = (unlink_active_allocation r p).active_allocation_head;
    headers = (unlink_active_allocation r p).headers;
  }
  unfolding unlink_active_allocation
  unlink_rest = ground arith

  -- Unlinking changes the pointers of the list and nothing else.
  pub unlink-with_links :
      unlink_active_allocation r p
      ≡ with_links r head_without
          (next_without (nexts r) (prevs r) p)
          (prev_without (nexts r) (prevs r) p)
  unlink-with_links =
      unlink_rest
      ∙ ap₂
          (λ (h : ℕ) (hs : ℕ → AllocationHeader). record r {
            active_allocation_head = h;
            headers = hs;
          })
          unlink_head (fun_ext unlink_header)

-- The list of active allocations holds `xs`, each once.
pub record IsActive (r : Registry) (xs : List ℕ) : Type 0 where
  pub chain : Chain (nexts r) (prevs r) 0 r.active_allocation_head xs
  pub distinct : Distinct xs

-- Unlinking an active allocation takes it out of the list, keeps the others in order, and changes
-- nothing but the links and the head of the list.
pub unlink-IsActive :
    (r : Registry) (x : ℕ) (ys zs : List ℕ)
    → IsActive r (ys ++ x ∷ zs)
    → IsActive (unlink_active_allocation r x) (ys ++ zs)
      × (unlink_active_allocation r x
          ≡ with_links r
              (unlink_active_allocation r x).active_allocation_head
              (next_without (nexts r) (prevs r) x)
              (prev_without (nexts r) (prevs r) x))
unlink-IsActive r x ys zs a =
    let nz = nonzero (nexts r) (prevs r) 0 r.active_allocation_head (ys ++ x ∷ zs) a.chain in
    let (v, n) =
      neighbours (nexts r) (prevs r) 0 r.active_allocation_head x ys zs a.distinct nz nz a.chain in
    let e = unlink-with_links r x v n in
    let c =
      unlink (nexts r) (prevs r) 0 r.active_allocation_head x ys zs a.distinct nz nz a.chain in
    let first =
      first_of_Chain (nexts r) (prevs r) 0 r.active_allocation_head x ys zs a.distinct a.chain in
    let head : head_without r x v n
        ≡ (if r.active_allocation_head == x then nexts r x else r.active_allocation_head) =
      ground (arith, ==_iff r.active_allocation_head x, first) in
    let whole : IsActive
        (with_links r (head_without r x v n) (next_without (nexts r) (prevs r) x)
          (prev_without (nexts r) (prevs r) x))
        (ys ++ zs) =
      record { chain = rw head c; distinct = Distinct-remove x ys zs a.distinct } in
    (
      subst (λ s. IsActive s (ys ++ zs)) (sym e) whole,
      e
          ∙ ap
              (λ h.
                with_links r h (next_without (nexts r) (prevs r) x)
                  (prev_without (nexts r) (prevs r) x))
              (sym (unlink_head r x v n)),
    )

module _ (r : Registry) (x : ℕ) (fresh : r.active_allocation_head ≢ x) where
  abbrev next_with : ℕ → ℕ
  next_with q = if x == q then r.active_allocation_head else nexts r q

  abbrev prev_with : ℕ → ℕ
  prev_with q =
      if x == q
      then 0
      else if not (r.active_allocation_head == 0) && (r.active_allocation_head == q)
      then x
      else prevs r q

  link_header :
      (q : ℕ)
      → (link_active_allocation r x).headers q
        ≡ record (r.headers q) { prev = prev_with q; next = next_with q }
  unfolding link_active_allocation
  link_header q = ground (arith, ==_iff x q, ==_iff r.active_allocation_head q, ap r.headers)

  link_rest :
      link_active_allocation r x
      ≡ record r { active_allocation_head = x; headers = (link_active_allocation r x).headers }
  unfolding link_active_allocation
  link_rest = ground arith

  -- Linking changes the pointers of the list and nothing else.
  pub link-with_links : link_active_allocation r x ≡ with_links r x next_with prev_with
  link-with_links =
      link_rest
      ∙ ap (λ (hs : ℕ → AllocationHeader). record r { active_allocation_head = x; headers = hs })
          (fun_ext link_header)

  link-Chain :
      (xs : List ℕ)
      → x ≢ 0
      → has xs x ≡ false
      → Distinct xs
      → Chain (nexts r) (prevs r) 0 r.active_allocation_head xs
      → Chain next_with prev_with 0 x (x ∷ xs)
  link-Chain [] nz out d c = (refl, nz, ground arith, ground arith)
  link-Chain (y ∷ ys) nz out d c =
      let same : next_with y ≡ nexts r y = ground arith in
      let rest =
        Chain-frame next_with prev_with y (nexts r y) ys
          (λ q h. (
            ground (arith, ==_iff x q),
            ground (arith, ==_iff x q, ==_iff r.active_allocation_head q, c.0),
          ))
          c.3 in
      (
        refl,
        nz,
        ground arith,
        (ground arith, c.1, ground (arith, ==_iff r.active_allocation_head y), rw same rest),
      )

head_fresh :
    (r : Registry) (x : ℕ) (xs : List ℕ)
    → IsActive r xs
    → x ≢ 0
    → has xs x ≡ false
    → r.active_allocation_head ≢ x
head_fresh r x [] a nz out = ground (arith, a.chain)
head_fresh r x (y ∷ ys) a nz out = ground (arith, a.chain, ==_iff y x)

-- Linking a non-null allocation that is not active puts it in front of the list, keeps the others in order,
-- and changes nothing but the links and the head of the list.
pub link-IsActive :
    (r : Registry) (x : ℕ) (xs : List ℕ)
    → IsActive r xs
    → x ≢ 0
    → has xs x ≡ false
    → IsActive (link_active_allocation r x) (x ∷ xs)
      × ((next prev : ℕ → ℕ) × (link_active_allocation r x ≡ with_links r x next prev))
link-IsActive r x xs a nz out =
    let fresh = head_fresh r x xs a nz out in
    let linked : IsActive (with_links r x (next_with r x fresh) (prev_with r x fresh)) (x ∷ xs) =
      record {
        chain = link-Chain r x fresh xs nz out a.distinct a.chain;
        distinct = (out, a.distinct);
      } in
    let e = link-with_links r x fresh in
    (subst (λ s. IsActive s (x ∷ xs)) (sym e) linked, (next_with r x fresh, prev_with r x fresh, e))
