-- ===== src/Roots/Scan/Values.antt =====
-- The value that the scan computes for a location is the one that the location has.
use lona_mvm.Prelude.{
  ℕ, ◌^◌, ◌≡◌, ◌≢◌, refl, inl, inr, false, ltb, ◌==◌, ==_iff, arith, ◌∙◌, sym, subst, Bool-cases,
}
use lona_mvm.Prelude.Expected.{Expected, success, failure}
use lona_mvm.Roots.{RootKind, GcRootLocation, ScanError}
use lona_mvm.Roots.Frame.{
  displaced, resolve_tracked_register_value, located_value, resolve_root_value, is_constant,
}
use lona_mvm.Roots.Scan.Stack.{RegisterValue, Displaced, RootValue}

pub ==-not : (a b : ℕ) → (a == b) ≡ false → a ≢ b
==-not a b h e = ground (arith, ==_iff a b)

resolve-RegisterValue :
    (n sp bp : ℕ) → RegisterValue sp bp n (resolve_tracked_register_value n sp bp)
unfolding resolve_tracked_register_value
resolve-RegisterValue n sp bp = elim (Bool-cases (n == 7)) [
  | inl seven ↦ rw seven (RegisterValue.rsp ((==_iff n 7).0 seven))
  | inr not_seven ↦ elim (Bool-cases (n == 6)) [
    | inl six ↦ rw (not_seven, six) (RegisterValue.rbp ((==_iff n 6).0 six))
    | inr not_six ↦
        rw (not_seven, not_six) (RegisterValue.other (==-not n 6 not_six) (==-not n 7 not_seven))
  ]
]

displaced-Displaced : (base offset : ℕ) → Displaced base offset (displaced base offset)
unfolding displaced
displaced-Displaced base offset = elim (Bool-cases (ltb offset (2 ^ 31))) [
  | inl positive ↦ inl (ground arith, rw positive refl)
  | inr negative ↦ inr (ground arith, ground arith, rw negative (omega arith))
]

module _ (read : ℕ → ℕ) (sp bp : ℕ) where
  -- A location has the value that it is computed to be.
  has_value :
      (l : GcRootLocation) {m n : Expected ScanError ℕ}
      → m ≡ n
      → RootValue read sp bp l n
      → RootValue read sp bp l m
  has_value l e v = subst (RootValue read sp bp l) (sym e) v

  -- The value of a location whose size is right.
  located-RootValue :
      (l : GcRootLocation) (k : RootKind)
      → l.kind ≡ k
      → l.size ≡ 8
      → k ≢ RootKind.constant
      → RootValue read sp bp l (located_value read l sp bp)
  unfolding located_value
  located-RootValue l k e size movable =
      by_register (resolve_tracked_register_value l.dwarf_register sp bp) k e movable refl
        (resolve-RegisterValue l.dwarf_register sp bp)
    where
      by_register :
          (m : Expected ScanError ℕ) (k : RootKind)
          → l.kind ≡ k
          → k ≢ RootKind.constant
          → resolve_tracked_register_value l.dwarf_register sp bp ≡ m
          → RegisterValue sp bp l.dwarf_register m
          → RootValue read sp bp l (located_value read l sp bp)
      by_register m RootKind.constant e movable found v = absurd (movable refl)
      by_register (failure err) RootKind.register e movable found v =
          has_value l (rw (located_value, e, found) refl)
            (RootValue.no_register (subst (λ k. k ≢ RootKind.constant) (sym e) movable) size v)
      by_register (success b) RootKind.register e movable found v =
          has_value l (rw (located_value, e, found) refl) (RootValue.register e size v)
      by_register (failure err) RootKind.direct e movable found v =
          has_value l (rw (located_value, e, found) refl)
            (RootValue.no_register (subst (λ k. k ≢ RootKind.constant) (sym e) movable) size v)
      by_register (success b) RootKind.direct e movable found v =
          has_value l (rw (located_value, e, found) refl)
            (RootValue.direct e size v (displaced-Displaced b l.offset))
      by_register (failure err) RootKind.indirect e movable found v =
          has_value l (rw (located_value, e, found) refl)
            (RootValue.no_register (subst (λ k. k ≢ RootKind.constant) (sym e) movable) size v)
      by_register (success b) RootKind.indirect e movable found v =
          has_value l (rw (located_value, e, found) refl)
            (RootValue.indirect e size v (displaced-Displaced b l.offset))

  located_constant :
      (l : GcRootLocation)
      → l.kind ≡ RootKind.constant
      → located_value read l sp bp ≡ success l.constant
  unfolding located_value
  located_constant l e = rw (located_value, e) refl

  -- The value that the scan computes for a location.
  pub resolve-RootValue :
      (l : GcRootLocation) → RootValue read sp bp l (resolve_root_value read l sp bp)
  unfolding resolve_root_value
  resolve-RootValue l = by_kind l.kind refl
    where
      by_size :
          (k : RootKind)
          → l.kind ≡ k
          → k ≢ RootKind.constant
          → is_constant k ≡ false
          → RootValue read sp bp l (resolve_root_value read l sp bp)
      by_size k e movable plain = elim (Bool-cases (l.size == 8)) [
        | inl eight ↦
            has_value l (rw (resolve_root_value, e, plain, eight) refl)
              (located-RootValue l k e ((==_iff l.size 8).0 eight) movable)
        | inr odd ↦ has_value l (rw (resolve_root_value, e, plain, odd) refl) (
            RootValue.wrong_size (subst (λ k. k ≢ RootKind.constant) (sym e) movable)
              (==-not l.size 8 odd))
      ]

      unchecked :
          l.kind ≡ RootKind.constant → resolve_root_value read l sp bp ≡ located_value read l sp bp
      unchecked e = rw (resolve_root_value, e) refl

      by_kind :
          (k : RootKind) → l.kind ≡ k → RootValue read sp bp l (resolve_root_value read l sp bp)
      by_kind RootKind.constant e =
          has_value l (unchecked e ∙ located_constant l e) (RootValue.constant e)
      by_kind RootKind.register e = by_size RootKind.register e (λ h. cc) refl
      by_kind RootKind.direct e = by_size RootKind.direct e (λ h. cc) refl
      by_kind RootKind.indirect e = by_size RootKind.indirect e (λ h. cc) refl
