-- ===== src/Roots/Scan/Scanned.antt =====
-- The scan finds the managed frames of the stack and the roots in them.
use mathlib.Core.List.{append_assoc}
use lona_mvm.Prelude.{
  Among, here, there, ℕ, zero, suc, ◌-◌, ◌≤◌, ◌≡◌, refl, ◌⊎◌, inl, inr, ◌==◌, ==_iff, none, some,
  List, [], ◌∷◌, ◌++◌, arith, ap, ◌∙◌, sym, subst, Bool-cases, Option-cases,
}
use mathlib.Core.Option.{some-injective}
use lona_mvm.Prelude.Expected.{Expected, success, failure, ◌>>=◌}
use lona_mvm.Threads.{empty_summary}
use lona_mvm.Roots.{GcRootLocationPair, SafepointRecord, ScanError}
use lona_mvm.Roots.Frame.{resolve_root_value}
use lona_mvm.Roots.Frame.Laws.{if_not_null, roots_of_pairs}
use lona_mvm.Roots.Scan.{
  find_safepoint_record, find_caller_record, next_return_address, scan_from,
  max_managed_frame_depth,
}
use lona_mvm.Roots.Scan.Walk.{
  ManagedFrame, caller_frames, roots_of_frames, with_frames, scan_from-caller_frames,
}
use lona_mvm.Roots.Scan.Lookup.{Nearest, NoneInReach, find_safepoint_record_for_return_address_lem}
use lona_mvm.Roots.Scan.Stack.{Callers, RootValue, RootAt, RootsOf, pair_locations, frame_locations}
use lona_mvm.Roots.Scan.Values.{==-not, resolve-RootValue}

Nearest-exact :
    (rs : List SafepointRecord) (address : ℕ) (r : SafepointRecord)
    → find_safepoint_record rs address ≡ some r
    → Among r rs × (r.instruction_address ≡ address)
unfolding find_safepoint_record
Nearest-exact [] address r e = cc
Nearest-exact (q ∷ rs) address r e = elim (Bool-cases (q.instruction_address == address)) [
  | inl same ↦
      let found : q ≡ r = some-injective q r (rw same at e) in
      (
        subst (λ x. Among x (q ∷ rs)) found here,
        subst (λ (x : SafepointRecord). x.instruction_address ≡ address) found
            ((==_iff q.instruction_address address).0 same),
      )
  | inr other ↦ let (m, at) = Nearest-exact rs address r (rw other at e) in (there m, at)
]

-- The safepoint of a caller is the nearest one in reach.
find_caller_record_lem :
    (rs : List SafepointRecord) (address : ℕ)
    → ((find_caller_record rs address ≡ none) × NoneInReach rs address)
      ⊎ ((r : SafepointRecord) × (find_caller_record rs address ≡ some r)
          × Nearest rs address r
          × (address - r.instruction_address ≤ 4096))
unfolding find_caller_record
find_caller_record_lem rs address = elim (Option-cases (find_safepoint_record rs address)) [
  | inl missing ↦
      rw (find_caller_record, missing) (find_safepoint_record_for_return_address_lem rs address)
  | inr (r, e) ↦
      let (m, at) = Nearest-exact rs address r e in
      inr (
        r,
        rw (find_caller_record, e) refl,
        record { among = m; before = omega (arith, at); none_closer = λ q k le. omega (arith, at) },
        omega (arith, at),
      )
]

module _ (read : ℕ → ℕ) (rs : List SafepointRecord) where
  caller_frames-Callers : (n fp : ℕ) → Callers read rs n fp (caller_frames read rs n fp)
  unfolding caller_frames
  caller_frames-Callers zero fp = Callers.at_limit
  caller_frames-Callers (suc n) fp = elim (Bool-cases (fp == 0)) [
    | inl bottom ↦ rw bottom (Callers.no_frame ((==_iff fp 0).0 bottom))
    | inr frame ↦ elim (Bool-cases (next_return_address read rs fp == 0)) [
      | inl no_address ↦
          rw (frame, no_address)
            (Callers.no_return ((==_iff (next_return_address read rs fp) 0).0 no_address))
      | inr address ↦ elim (find_caller_record_lem rs (next_return_address read rs fp)) [
        | inl (missing, none_near) ↦ rw (frame, address, missing) (Callers.unmanaged none_near)
        | inr (r, found, nearest, near) ↦
            rw (frame, address, found)
              (Callers.managed (==-not fp 0 frame)
                (==-not (next_return_address read rs fp) 0 address) nearest near
                (caller_frames-Callers n (read fp)))
      ]
    ]
  ]

module _ (read : ℕ → ℕ) where
  -- One more location in front.
  RootsOf-cons :
      (l : RootAt) (ls : List RootAt) (m : Expected ScanError ℕ) (n : Expected ScanError (List ℕ))
      → RootValue read l.sp l.bp l.location m
      → RootsOf read ls n
      → RootsOf read (l ∷ ls) (m >>= λ v. n >>= λ vs. success (if_not_null v ++ vs))
  RootsOf-cons l ls (failure e) n v rest = RootsOf.failed v
  RootsOf-cons l ls (success a) (failure e) v rest = RootsOf.failed_later v rest
  RootsOf-cons l ls (success a) (success vs) v rest = elim (Bool-cases (a == 0)) [
    | inl zero_value ↦ rw zero_value (
        RootsOf.null
          (subst (λ k. RootValue read l.sp l.bp l.location (success k)) ((==_iff a 0).0 zero_value)
            v)
          rest)
    | inr there_is ↦ rw there_is (RootsOf.kept (==-not a 0 there_is) v rest)
  ]

  abbrev value_at : RootAt → Expected ScanError ℕ
  value_at l = resolve_root_value read l.location l.sp l.bp

  roots_in_order :
      (m n : Expected ScanError ℕ) (p q : Expected ScanError (List ℕ))
      → ((m >>= λ b. n >>= λ d. p >>= λ r. success (if_not_null b ++ if_not_null d ++ r)) >>= λ vs.
          q >>= λ ws. success (vs ++ ws))
        ≡ (m >>= λ b.
            (n >>= λ d.
            (p >>= λ r. q >>= λ ws. success (r ++ ws)) >>= λ vs. success (if_not_null d ++ vs))
            >>= λ vs. success (if_not_null b ++ vs))
  roots_in_order (failure e) n p q = refl
  roots_in_order (success b) (failure e) p q = refl
  roots_in_order (success b) (success d) (failure e) q = refl
  roots_in_order (success b) (success d) (success r) (failure e) = refl
  roots_in_order (success b) (success d) (success r) (success ws) = ap success (
      append_assoc (if_not_null b ++ if_not_null d) r ws
      ∙ append_assoc (if_not_null b) (if_not_null d) (r ++ ws))

  pairs-RootsOf :
      (ps : List GcRootLocationPair) (sp bp : ℕ) (ls : List RootAt)
      (n : Expected ScanError (List ℕ))
      → RootsOf read ls n
      → RootsOf read
          (pair_locations ps sp bp ls)
          (roots_of_pairs read ps sp bp >>= λ vs. n >>= λ ws. success (vs ++ ws))
  unfolding roots_of_pairs
  pairs-RootsOf [] sp bp ls (failure e) rest = rest
  pairs-RootsOf [] sp bp ls (success ws) rest = rest
  pairs-RootsOf (p ∷ ps) sp bp ls n rest =
      subst (RootsOf read (pair_locations (p ∷ ps) sp bp ls))
        (sym (
          roots_in_order (resolve_root_value read p.base sp bp)
            (resolve_root_value read p.derived sp bp) (roots_of_pairs read ps sp bp) n))
        (RootsOf-cons _ _ _ _ (resolve-RootValue read sp bp p.base) (
          RootsOf-cons _ _ _ _ (resolve-RootValue read sp bp p.derived)
            (pairs-RootsOf ps sp bp ls n rest)))

  frames-RootsOf :
      (fs : List ManagedFrame) → RootsOf read (frame_locations fs) (roots_of_frames read fs)
  unfolding roots_of_frames
  frames-RootsOf [] = RootsOf.nothing
  frames-RootsOf (f ∷ fs) =
      pairs-RootsOf f.safepoint.root_pairs f.sp f.bp (frame_locations fs) (roots_of_frames read fs)
        (frames-RootsOf fs)

  -- The scan from a safepoint and its frame finds the frames of the managed callers on the stack, at
  -- most 256 of them. It yields the roots of that frame and of these that are not null, base before
  -- derived, in this order, with their number, the number of pairs and of locations, and the first
  -- instruction address that is not zero. It fails with the first error among these roots, and
  -- exactly if there is one.
  pub scan_from_lem :
      (safepoints : List SafepointRecord) (r : SafepointRecord) (sp bp : ℕ)
      → (callers : List ManagedFrame) × (roots : Expected ScanError (List ℕ)) × Callers read
          safepoints 256 bp callers
        × RootsOf read
            (frame_locations (record { safepoint = r; sp = sp; bp = bp } ∷ callers))
            roots
        × (scan_from read safepoints r sp bp ≡ (
            roots >>= λ vs.
            success (
              with_frames empty_summary (record { safepoint = r; sp = sp; bp = bp } ∷ callers) vs)))
  scan_from_lem rs r sp bp =
      let callers = caller_frames read rs max_managed_frame_depth bp in
      let frames = record { safepoint = r; sp = sp; bp = bp } ∷ callers in
      (
        callers,
        roots_of_frames read frames,
        caller_frames-Callers read rs 256 bp,
        frames-RootsOf frames,
        scan_from-caller_frames read rs r sp bp,
      )
