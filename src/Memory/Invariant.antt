-- ===== src/Memory/Invariant.antt =====
-- The invariant of the managed heap: which allocations are active, and that the pages count theirs.
use lona_mvm.Prelude.{
  ℕ, ◌+◌, ◌≡◌, ◌≢◌, ◌<◌, refl, true, false, ◌&&◌, List, [], ◌∷◌, ◌++◌, if◌then◌else◌, ◌==◌, ==_iff,
  has, has-append, arith, ap, ◌∙◌, sym, subst, Bool-cases, inl, inr,
}
use lona_mvm.Memory.Words.{word, allocation_magic, header_size}
use lona_mvm.Memory.Header.{AllocationHeader, is_slab}
use lona_mvm.Memory.Registry.{Registry}
use lona_mvm.Memory.Active.Chain.{Chain-frame, Distinct-absent}
use lona_mvm.Memory.Active.Laws.{IsActive}

-- A header that is in use, and whose payload ends before the end of the address space.
pub record IsAllocated (h : AllocationHeader) (address : ℕ) : Type 0 where
  pub in_use : h.live ≡ true
  pub genuine : h.magic ≡ allocation_magic
  pub fits : address + header_size + h.payload_size + 8 < word

-- Whether a header occupies a slot of a page.
abbrev pub occupies : AllocationHeader → ℕ → ℕ
occupies h page = if is_slab h.storage_kind && (h.storage_owner == page) then 1 else 0

abbrev pub slots_in : (ℕ → AllocationHeader) → ℕ → List ℕ → ℕ
slots_in hs page [] = 0
slots_in hs page (x ∷ xs) = occupies (hs x) page + slots_in hs page xs

pub record HeapInv (r : Registry) (xs : List ℕ) : Type 0 where
  pub active : IsActive r xs
  pub allocated : (p : ℕ) → has xs p ≡ true → IsAllocated (r.headers p) p
  pub tracked : (p : ℕ) → (r.headers p).live ≡ true → has xs p ≡ true
  pub counted : (page : ℕ) → (r.pages page).live_count ≡ slots_in r.headers page xs

-- A header without its links and its mark.
abbrev pub body_of : AllocationHeader → AllocationHeader
body_of h = record h { prev = 0; next = 0; marked = false }

-- A header without its links.
abbrev pub data_of : AllocationHeader → AllocationHeader
data_of h = record h { prev = 0; next = 0 }

slots_in-append :
    (hs : ℕ → AllocationHeader) (page : ℕ) (xs ys : List ℕ)
    → slots_in hs page (xs ++ ys) ≡ slots_in hs page xs + slots_in hs page ys
slots_in-append hs page [] ys = omega arith
slots_in-append hs page (x ∷ xs) ys = omega (arith, slots_in-append hs page xs ys)

pub slots_in-mid :
    (hs : ℕ → AllocationHeader) (page x : ℕ) (ys zs : List ℕ)
    → slots_in hs page (ys ++ x ∷ zs) ≡ occupies (hs x) page + slots_in hs page (ys ++ zs)
slots_in-mid hs page x ys zs =
    omega (arith, slots_in-append hs page ys (x ∷ zs), slots_in-append hs page ys zs)

slots_in_same :
    (hs hs' : ℕ → AllocationHeader) (page : ℕ) (xs : List ℕ)
    → ((q : ℕ) → has xs q ≡ true → body_of (hs' q) ≡ body_of (hs q))
    → slots_in hs' page xs ≡ slots_in hs page xs
slots_in_same hs hs' page [] same = refl
slots_in_same hs hs' page (x ∷ xs) same = ground (
  arith,
  ap (λ (h : AllocationHeader). occupies h page) (same x (ground arith)),
  slots_in_same hs hs' page xs (λ q h. same q (ground arith)),
)

pub IsAllocated-same :
    (h h' : AllocationHeader) (p : ℕ) → body_of h' ≡ body_of h → IsAllocated h p → IsAllocated h' p
IsAllocated-same h h' p e a = record {
  in_use = ap (λ (k : AllocationHeader). k.live) e ∙ a.in_use;
  genuine = ap (λ (k : AllocationHeader). k.magic) e ∙ a.genuine;
  fits = omega (arith, a.fits, ap (λ (k : AllocationHeader). k.payload_size) e);
}

-- Taking one allocation out of the heap: what a state has to satisfy for the rest to stay a heap.
module _ (r s : Registry) (x : ℕ) (ys zs : List ℕ) (v : HeapInv r (ys ++ x ∷ zs)) where
  pub HeapInv-remove :
      IsActive s (ys ++ zs)
      → ((q : ℕ) → q ≢ x → data_of (s.headers q) ≡ data_of (r.headers q))
      → (s.headers x).live ≡ false
      → ((page : ℕ)
          → (s.pages page).live_count + occupies (r.headers x) page ≡ (r.pages page).live_count)
      → HeapInv s (ys ++ zs)
  HeapInv-remove a same dead counts = record {
    active = a;
    allocated = λ p h.
        IsAllocated-same (r.headers p) (s.headers p) p (ap body_of (same p (other p h)))
          (v.allocated p (ground (arith, has-append ys (x ∷ zs) p, has-append ys zs p)));
    tracked = λ p l. ground (
      arith,
      dead,
      ap s.headers,
      ==_iff x p,
      ap (λ (h : AllocationHeader). h.live) (same p (moved p l)),
      v.tracked p,
      has-append ys (x ∷ zs) p,
      has-append ys zs p,
    );
    counted = λ page. omega (
      arith,
      counts page,
      v.counted page,
      slots_in-append r.headers page ys (x ∷ zs),
      slots_in-append r.headers page ys zs,
      slots_in_same r.headers s.headers page (ys ++ zs) (λ q h. ap body_of (same q (other q h))),
    );
  }
    where
      absent : has (ys ++ zs) x ≡ false
      absent = Distinct-absent x ys zs v.active.distinct

      moved : (p : ℕ) → (s.headers p).live ≡ true → p ≢ x
      moved p l e = cc (dead, l, ap (λ (q : ℕ). (s.headers q).live) e)

      other : (p : ℕ) → has (ys ++ zs) p ≡ true → p ≢ x
      other p h e = cc (absent, ap (has (ys ++ zs)) e)

-- Putting a new allocation in front of the active ones.
pub HeapInv-add :
    (r s : Registry) (x : ℕ) (xs : List ℕ)
    → HeapInv r xs
    → has xs x ≡ false
    → IsActive s (x ∷ xs)
    → ((q : ℕ) → q ≢ x → data_of (s.headers q) ≡ data_of (r.headers q))
    → IsAllocated (s.headers x) x
    → ((page : ℕ)
        → (s.pages page).live_count ≡ occupies (s.headers x) page + (r.pages page).live_count)
    → HeapInv s (x ∷ xs)
HeapInv-add r s x xs v out a same new counts = record {
  active = a;
  allocated = λ p h. elim (Bool-cases (x == p)) [
    | inl hit ↦ subst (λ q. IsAllocated (s.headers q) q) ((==_iff x p).0 hit) new
    | inr miss ↦
        IsAllocated-same (r.headers p) (s.headers p) p
          (ap body_of (same p (ground (arith, ==_iff x p)))) (v.allocated p (ground arith))
  ];
  tracked = λ p l. elim (Bool-cases (x == p)) [
    | inl hit ↦ ground arith
    | inr miss ↦ ground (
      arith,
      v.tracked p
          (sym (ap (λ (h : AllocationHeader). h.live) (same p (ground (arith, ==_iff x p)))) ∙ l),
    )
  ];
  counted = λ page. omega (
    arith,
    counts page,
    v.counted page,
    slots_in_same r.headers s.headers page xs (λ q h. ap body_of (same q (other q h))),
  );
}
  where
    other : (q : ℕ) → has xs q ≡ true → q ≢ x
    other q h e = cc (out, ap (has xs) e)

-- A header without its mark.
abbrev pub unmark : AllocationHeader → AllocationHeader
unmark h = record h { marked = false }

-- Marks are no part of the invariant.
pub HeapInv-marks :
    (r : Registry) (xs : List ℕ) (hs : ℕ → AllocationHeader)
    → ((q : ℕ) → unmark (hs q) ≡ unmark (r.headers q))
    → HeapInv r xs
    → HeapInv (record r { headers = hs }) xs
HeapInv-marks r xs hs same v = record {
  active = record {
    chain =
        Chain-frame (λ q. (hs q).next) (λ q. (hs q).prev) 0 r.active_allocation_head xs
          (λ q h. (
            ap (λ (k : AllocationHeader). k.next) (same q),
            ap (λ (k : AllocationHeader). k.prev) (same q),
          ))
          v.active.chain;
    distinct = v.active.distinct;
  };
  allocated =
      λ p h. IsAllocated-same (r.headers p) (hs p) p (ap body_of (same p)) (v.allocated p h);
  tracked = λ p l. v.tracked p (sym (ap (λ (k : AllocationHeader). k.live) (same p)) ∙ l);
  counted = λ page.
      v.counted page ∙ sym (slots_in_same r.headers hs page xs (λ q h. ap body_of (same q)));
}
