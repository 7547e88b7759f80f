-- ===== src/Memory/Allocate/Mapped.antt =====
-- An allocation from system memory keeps the page maps in order: they lead to the new allocation, and to the others as
-- before.
use lona_mvm.Prelude.{
  ℕ, ◌+◌, ◌*◌, ◌/◌, ◌^◌, ◌≤◌, ◌<◌, ◌≡◌, ◌≢◌, true, false, ◌⊎◌, inl, inr, Option, some, List, ◌∷◌,
  has, ◌==◌, ==_iff, arith, ap, ◌∙◌, sym, subst, Bool-cases,
}
use mathlib.Core.Bool.{false≢true}
use lona_mvm.Memory.Slab.{class_of}
use lona_mvm.Memory.Header.{AllocationHeader, SlabClass, SlabPage, is_slab}
use lona_mvm.Memory.Registry.{Registry, DenseMapKeys}
use lona_mvm.Memory.Invariant.{data_of}
use lona_mvm.Memory.Allocate.Register.{InBucket}
use lona_mvm.Memory.Find.Exact.{Holds, InSlot, Mapped}

-- One more allocation from system memory.
module _ (keys : DenseMapKeys) (r s : Registry) (x : ℕ) (xs : List ℕ) (t : Mapped keys r xs)
    (out : has xs x ≡ false)
    (same : (q : ℕ) → q ≢ x → data_of (s.headers q) ≡ data_of (r.headers q))
    (same_pages : s.pages ≡ r.pages) (same_classes : s.slab_classes ≡ r.slab_classes)
    (same_slabs : s.slab_pages_by_address_page ≡ r.slab_pages_by_address_page)
    (kept : (page q : ℕ)
      → InBucket r.system_headers_by_page page q
      → InBucket s.system_headers_by_page page q)
    (system : is_slab (s.headers x).storage_kind ≡ false) (size : (s.headers x).payload_size ≢ 0)
    (new : (a : ℕ) → Holds s x a → InBucket s.system_headers_by_page (a / 2 ^ 12) x)
    (open_keys : (a : ℕ)
      → Holds s x a
      → (a / 2 ^ 12 ≢ keys.empty_key) × (a / 2 ^ 12 ≢ keys.tombstone_key))
    (disjoint : (p : ℕ)
      → has xs p ≡ true
      → (p + 80 + (r.headers p).payload_size ≤ x) ⊎ (x + 80 + (s.headers x).payload_size ≤ p)) where
  -- An active allocation is the new one, or an old one with its data.
  which : (p : ℕ) → has (x ∷ xs) p ≡ true → (x ≡ p) ⊎ ((has xs p ≡ true) × (p ≢ x))
  which p h = elim (Bool-cases (x == p)) [
    | inl new_one ↦ inl ((==_iff x p).0 new_one)
    | inr old ↦ inr (ground arith, λ e. ground (arith, ==_iff x p))
  ]

  old_size : (p : ℕ) → p ≢ x → (s.headers p).payload_size ≡ (r.headers p).payload_size
  old_size p ne = ap (λ (h : AllocationHeader). h.payload_size) (same p ne)

  old_Holds : (p a : ℕ) → p ≢ x → Holds s p a → Holds r p a
  old_Holds p a ne h = record {
    from_start = h.from_start;
    before_end = omega (arith, h.before_end, old_size p ne);
  }

  old_kind : (p : ℕ) → p ≢ x → (s.headers p).storage_kind ≡ (r.headers p).storage_kind
  old_kind p ne = ap (λ (h : AllocationHeader). h.storage_kind) (same p ne)

  old_owner : (p : ℕ) → p ≢ x → (s.headers p).storage_owner ≡ (r.headers p).storage_owner
  old_owner p ne = ap (λ (h : AllocationHeader). h.storage_owner) (same p ne)

  never_both : (p a : ℕ) → has xs p ≡ true → p ≢ x → Holds s p a → Holds s x a → ⊥
  never_both p a h ne i j = elim (disjoint p h) [
    | inl before ↦ omega (arith, before, i.before_end, j.from_start, old_size p ne)
    | inr after ↦ omega (arith, after, j.before_end, i.from_start)
  ]

  not_new : (p : ℕ) → x ≡ p → is_slab (s.headers p).storage_kind ≡ true → ⊥
  not_new p e k =
      false≢true (sym (subst (λ q. is_slab (s.headers q).storage_kind ≡ false) e system) ∙ k)

  old_InSlot :
      (p slot : ℕ)
      → p ≢ x
      → InSlot r (r.headers p).storage_owner p slot
      → InSlot s (s.headers p).storage_owner p slot
  old_InSlot p slot ne i =
      let owner = old_owner p ne in
      let page : s.pages (s.headers p).storage_owner ≡ r.pages (r.headers p).storage_owner =
        ap (λ (pages : ℕ → SlabPage). pages (s.headers p).storage_owner) same_pages
        ∙ ap r.pages owner in
      let start = ap (λ (k : SlabPage). k.page_start) page in
      let class : class_of s (s.headers p).storage_owner ≡ class_of r (r.headers p).storage_owner =
        ap (λ (classes : ℕ → SlabClass). classes (s.pages (s.headers p).storage_owner).slab_class)
          same_classes
        ∙ ap (λ (k : SlabPage). r.slab_classes k.slab_class) page in
      record {
        slot_exists = subst (λ (c : SlabClass). slot < c.slots_per_page) (sym class) i.slot_exists;
        at_slot =
            i.at_slot
            ∙ ap
                (λ (k : SlabPage).
                  k.page_start
                  + slot * (class_of r (r.headers p).storage_owner).slot_stride
                  + (class_of r (r.headers p).storage_owner).header_offset)
                (sym page)
            ∙ ap
                (λ (c : SlabClass).
                  (s.pages (s.headers p).storage_owner).page_start
                  + slot * c.slot_stride
                  + c.header_offset)
                (sym class);
        in_slot =
            subst
              (λ (c : SlabClass). c.header_offset + 80 + (s.headers p).payload_size ≤ c.slot_stride)
              (sym class) (omega (arith, i.in_slot, old_size p ne));
      }

  pub Mapped-add : Mapped keys s (x ∷ xs)
  Mapped-add = record {
    apart = λ p q a hp hq i j. elim (which p hp) [
      | inl e ↦ elim (which q hq) [
        | inl e' ↦ sym e ∙ e'
        | inr (old, ne) ↦ absurd (never_both q a old ne j (subst (λ k. Holds s k a) (sym e) i))
      ]
      | inr (old, ne) ↦ elim (which q hq) [
        | inl e ↦ absurd (never_both p a old ne i (subst (λ k. Holds s k a) (sym e) j))
        | inr (old', ne') ↦ t.apart p q a old old' (old_Holds p a ne i) (old_Holds q a ne' j)
      ]
    ];
    sized = λ p h. elim (which p h) [
      | inl e ↦ subst (λ k. (s.headers k).payload_size ≢ 0) e size
      | inr (old, ne) ↦ λ z. t.sized p old (sym (old_size p ne) ∙ z)
    ];
    unreserved = λ p a h i. elim (which p h) [
      | inl e ↦ open_keys a (subst (λ k. Holds s k a) (sym e) i)
      | inr (old, ne) ↦ t.unreserved p a old (old_Holds p a ne i)
    ];
    in_buckets = λ p a h k i. elim (which p h) [
      | inl e ↦
          subst (λ k. InBucket s.system_headers_by_page (a / 2 ^ 12) k) e
            (new a (subst (λ k. Holds s k a) (sym e) i))
      | inr (old, ne) ↦
          kept (a / 2 ^ 12) p
            (t.in_buckets p a old (sym (ap is_slab (old_kind p ne)) ∙ k) (old_Holds p a ne i))
    ];
    on_pages = λ p a h k i. elim (which p h) [
      | inl e ↦ absurd (not_new p e k)
      | inr (old, ne) ↦
          ap (λ (pages : ℕ → Option ℕ). pages (a / 2 ^ 12)) same_slabs
          ∙ t.on_pages p a old (sym (ap is_slab (old_kind p ne)) ∙ k) (old_Holds p a ne i)
          ∙ ap some (sym (old_owner p ne))
    ];
    in_slots = λ p h k. elim (which p h) [
      | inl e ↦ absurd (not_new p e k)
      | inr (old, ne) ↦
          let (slot, i) = t.in_slots p old (sym (ap is_slab (old_kind p ne)) ∙ k) in
          (slot, old_InSlot p slot ne i)
    ];
  }
