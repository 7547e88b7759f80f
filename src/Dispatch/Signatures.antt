-- ===== src/Dispatch/Signatures.antt =====
-- The signatures that are collected from the calls.
use lona_mvm.Prelude.{
  ℕ, ◌≡◌, refl, Bool, true, not, ◌||◌, List, [], ◌∷◌, ◌++◌, if◌then◌else◌, Bool-cases, inl, inr,
  Among, ap, sym, ◌∙◌, some, none, if_both,
}
use lona_mvm.Prelude.Among.{here, there}
use mathlib.Core.Bool.{or-false, or_assoc, and-eq-true_iff}
use lona_mvm.Dispatch.{
  DispatchArgKind, generic, raw, object, array, DispatchSignature, CallRecord, same_arg_kind,
  same_signature, has_specialization, contains_signature, add_signature, specialized_signatures,
  make_clones, find_clone,
}

same_arg_kind-eq : (a b : DispatchArgKind) → same_arg_kind a b ≡ true → a ≡ b
same_arg_kind-eq generic generic h = refl
same_arg_kind-eq generic raw h = cc
same_arg_kind-eq generic object h = cc
same_arg_kind-eq generic array h = cc
same_arg_kind-eq raw generic h = cc
same_arg_kind-eq raw raw h = refl
same_arg_kind-eq raw object h = cc
same_arg_kind-eq raw array h = cc
same_arg_kind-eq object generic h = cc
same_arg_kind-eq object raw h = cc
same_arg_kind-eq object object h = refl
same_arg_kind-eq object array h = cc
same_arg_kind-eq array generic h = cc
same_arg_kind-eq array raw h = cc
same_arg_kind-eq array object h = cc
same_arg_kind-eq array array h = refl

same_arg_kind_refl : (a : DispatchArgKind) → same_arg_kind a a ≡ true
same_arg_kind_refl generic = refl
same_arg_kind_refl raw = refl
same_arg_kind_refl object = refl
same_arg_kind_refl array = refl

pub same_signature-eq : (a b : DispatchSignature) → same_signature a b ≡ true → a ≡ b
same_signature-eq [] [] h = refl
same_signature-eq [] (b ∷ bs) h = cc
same_signature-eq (a ∷ kinds) [] h = cc
same_signature-eq (a ∷ kinds) (b ∷ others) h =
    let (first, rest) = (and-eq-true_iff (same_arg_kind a b) (same_signature kinds others)).0 h in
    cc (same_arg_kind-eq a b first, same_signature-eq kinds others rest)

pub same_signature_refl : (a : DispatchSignature) → same_signature a a ≡ true
same_signature_refl [] = refl
same_signature_refl (a ∷ kinds) = rw (same_arg_kind_refl a) (same_signature_refl kinds)

contains-append :
    (known : List DispatchSignature) (signature candidate : DispatchSignature)
    → contains_signature (known ++ candidate ∷ []) signature
      ≡ (contains_signature known signature || same_signature candidate signature)
contains-append [] signature candidate = or-false (same_signature candidate signature)
contains-append (k ∷ known) signature candidate =
    ap (λ (b : Bool). same_signature k signature || b) (contains-append known signature candidate)
    ∙ sym (or_assoc (same_signature k signature) _ _)

-- What is added is there, and what was there stays.
add-contains :
    (added signature : DispatchSignature) (known : List DispatchSignature)
    → contains_signature known signature ≡ true
    → contains_signature (add_signature added known) signature ≡ true
add-contains added signature known h =
    if_both (λ (ks : List DispatchSignature). contains_signature ks signature ≡ true)
      (not (has_specialization added)) (λ _. h)
      (λ _.
        if_both (λ (ks : List DispatchSignature). contains_signature ks signature ≡ true)
          (contains_signature known added) (λ _. h)
          (λ _. contains-append known signature added ∙ rw h refl))

add-contains_self :
    (added : DispatchSignature) (known : List DispatchSignature)
    → has_specialization added ≡ true
    → contains_signature (add_signature added known) added ≡ true
add-contains_self added known special = elim (Bool-cases (contains_signature known added)) [
  | inl old ↦ rw (special, old) old
  | inr new ↦
      rw (special, new) (contains-append known added added ∙ rw (new, same_signature_refl added))
]

specialized-contains :
    (rs : List CallRecord) (known : List DispatchSignature) (signature : DispatchSignature)
    → contains_signature known signature ≡ true
    → contains_signature (specialized_signatures rs known) signature ≡ true
unfolding specialized_signatures
specialized-contains [] known signature h = h
specialized-contains (r ∷ rs) known signature h =
    specialized-contains rs (add_signature r.signature known) signature
      (add-contains r.signature signature known h)

-- Each signature of a call that can be specialised is collected.
pub specialized-Among :
    {r : CallRecord} {rs : List CallRecord} (known : List DispatchSignature)
    → Among r rs
    → has_specialization r.signature ≡ true
    → contains_signature (specialized_signatures rs known) r.signature ≡ true
unfolding specialized_signatures
specialized-Among known (here {x = r} {xs = rs}) special =
    specialized-contains rs (add_signature r.signature known) r.signature
      (add-contains_self r.signature known special)
specialized-Among known (there {y = q} m) special =
    specialized-Among (add_signature q.signature known) m special

-- A property of all that is known, and of the signatures of the calls that can be specialised.
abbrev pub Every : (DispatchSignature → Type 0) → List DispatchSignature → Type 0
Every P [] = Unit {0}
Every P (k ∷ known) = P k × Every P known

Every-append :
    (P : DispatchSignature → Type 0) (known : List DispatchSignature) (added : DispatchSignature)
    → Every P known
    → P added
    → Every P (known ++ added ∷ [])
Every-append P [] added h p = (p, tt)
Every-append P (k ∷ known) added h p = (h.0, Every-append P known added h.1 p)

-- What is collected is a signature of a call, and is specialised.
pub specialized-Every :
    (P : DispatchSignature → Type 0) (rs : List CallRecord) (known : List DispatchSignature)
    → ((r : CallRecord) → Among r rs → has_specialization r.signature ≡ true → P r.signature)
    → Every P known
    → Every P (specialized_signatures rs known)
unfolding specialized_signatures
specialized-Every P [] known each h = h
specialized-Every P (r ∷ rs) known each h =
    specialized-Every P rs (add_signature r.signature known) (λ q m. each q (there m))
      (elim (Bool-cases (has_specialization r.signature)) [
        | inr plain ↦ rw plain h
        | inl special ↦ elim (Bool-cases (contains_signature known r.signature)) [
          | inl old ↦ rw (special, old) h
          | inr new ↦ rw (special, new) (Every-append P known r.signature h (each r here special))
        ]
      ])

-- The clone that is found for a signature is the one that was made for it.
pub find_clone-make_clones :
    (clone : DispatchSignature → ℕ) (signatures : List DispatchSignature)
    (signature : DispatchSignature)
    → find_clone (make_clones clone signatures) signature
      ≡ (if contains_signature signatures signature then some (clone signature) else none)
unfolding find_clone
find_clone-make_clones clone [] signature = refl
find_clone-make_clones clone (k ∷ ks) signature = elim (Bool-cases (same_signature k signature)) [
  | inl same ↦
      rw same (ap (λ (x : DispatchSignature). some (clone x)) (same_signature-eq k signature same))
  | inr other ↦ rw other (find_clone-make_clones clone ks signature)
]
