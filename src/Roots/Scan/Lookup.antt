-- ===== src/Roots/Scan/Lookup.antt =====
-- Which safepoint a return address belongs to.
use lona_mvm.Prelude.{
  Among, here, there, ℕ, ◌-◌, ◌≤◌, ◌<◌, ◌≡◌, refl, ◌⊎◌, inl, inr, Bool, not, ◌&&◌, none, some, List,
  [], ◌∷◌, ltb, leb, ltb→lt, leb→le, arith, ap, ◌∙◌, subst, sym, Bool-cases,
}
use lona_mvm.Roots.{SafepointRecord}
use lona_mvm.Roots.Scan.{
  nearest_before, within_reach, max_return_address_distance,
  find_safepoint_record_for_return_address,
}

-- No safepoint of the list lies between the one found and the address.
abbrev pub NoneCloser : List SafepointRecord → ℕ → ℕ → Type 0
NoneCloser rs address from =
    (r : SafepointRecord)
    → Among r rs
    → r.instruction_address ≤ address
    → r.instruction_address ≤ from

NoneCloser-nil : (address from : ℕ) → NoneCloser [] address from
NoneCloser-nil address from r m le = elim m [ ]

NoneCloser-cons :
    (q : SafepointRecord) (rs : List SafepointRecord) (address from : ℕ)
    → (q.instruction_address ≤ address → q.instruction_address ≤ from)
    → NoneCloser rs address from
    → NoneCloser (q ∷ rs) address from
NoneCloser-cons q rs address from first rest r here le = first le
NoneCloser-cons q rs address from first rest r (there m) le = rest r m le

-- The greatest instruction address up to the address is that of this safepoint of the list.
pub record Nearest (rs : List SafepointRecord) (address : ℕ) (r : SafepointRecord) : Type 0 where
  pub among : Among r rs
  pub before : r.instruction_address ≤ address
  pub none_closer : NoneCloser rs address r.instruction_address

-- The search with a safepoint in hand ends with this or a closer one.
record Improved (b : SafepointRecord) (rs : List SafepointRecord) (address : ℕ)
    (r : SafepointRecord) : Type 0 where
  source : (r ≡ b) ⊎ Among r rs
  before : r.instruction_address ≤ address
  not_worse : b.instruction_address ≤ r.instruction_address
  none_closer : NoneCloser rs address r.instruction_address

is_hit : ℕ → SafepointRecord → SafepointRecord → Bool
is_hit address r b =
    not (ltb address r.instruction_address)
    && ltb (address - r.instruction_address) (address - b.instruction_address)

nearest_before-some :
    (rs : List SafepointRecord) (address : ℕ) (b : SafepointRecord)
    → b.instruction_address ≤ address
    → (r : SafepointRecord) × (nearest_before rs address (some b) ≡ some r)
      × Improved b rs address r
unfolding nearest_before is_hit
nearest_before-some [] address b le = (
  b,
  refl,
  record {
    source = inl refl;
    before = le;
    not_worse = omega arith;
    none_closer = NoneCloser-nil address _;
  },
)
nearest_before-some (q ∷ rs) address b le = elim (Bool-cases (is_hit address q b)) [
  | inl hit ↦
      let (r, e, i) = nearest_before-some rs address q (ground arith) in
      (
        r,
        rw hit e,
        record {
          source = inr (elim i.source [
            | inl same ↦ subst (λ x. Among x (q ∷ rs)) (sym same) here
            | inr m ↦ there m
          ]);
          before = i.before;
          not_worse = ground arith;
          none_closer = NoneCloser-cons q rs address _ (λ h. i.not_worse) i.none_closer;
        },
      )
  | inr miss ↦
      let (r, e, i) = nearest_before-some rs address b le in
      (
        r,
        rw miss e,
        record {
          source = elim i.source [ inl same ↦ inl same | inr m ↦ inr (there m) ];
          before = i.before;
          not_worse = i.not_worse;
          none_closer =
              NoneCloser-cons q rs address _ (λ h. ground (arith, i.not_worse)) i.none_closer;
        },
      )
]

-- Every safepoint of the list is beyond the address.
abbrev pub AllBeyond : List SafepointRecord → ℕ → Type 0
AllBeyond rs address = (r : SafepointRecord) → Among r rs → address < r.instruction_address

AllBeyond-nil : (address : ℕ) → AllBeyond [] address
AllBeyond-nil address r m = elim m [ ]

AllBeyond-cons :
    (q : SafepointRecord) (rs : List SafepointRecord) (address : ℕ)
    → address < q.instruction_address
    → AllBeyond rs address
    → AllBeyond (q ∷ rs) address
AllBeyond-cons q rs address first rest r here = first
AllBeyond-cons q rs address first rest r (there m) = rest r m

nearest_before-none :
    (rs : List SafepointRecord) (address : ℕ)
    → ((nearest_before rs address none ≡ none) × AllBeyond rs address)
      ⊎ ((r : SafepointRecord) × (nearest_before rs address none ≡ some r) × Nearest rs address r)
unfolding nearest_before
nearest_before-none [] address = inl (refl, AllBeyond-nil address)
nearest_before-none (q ∷ rs) address = elim (Bool-cases (ltb address q.instruction_address)) [
  | inl beyond ↦ elim (nearest_before-none rs address) [
    | inl (e, all) ↦ inl (rw beyond e, AllBeyond-cons q rs address (ltb→lt _ _ beyond) all)
    | inr (r, e, n) ↦ inr (
      r,
      rw beyond e,
      record {
        among = there n.among;
        before = n.before;
        none_closer = NoneCloser-cons q rs address _ (λ h. ground arith) n.none_closer;
      },
    )
  ]
  | inr before ↦
      let (r, e, i) = nearest_before-some rs address q (ground arith) in
      inr (
        r,
        rw before e,
        record {
          among = elim i.source [
            | inl same ↦ subst (λ x. Among x (q ∷ rs)) (sym same) here
            | inr m ↦ there m
          ];
          before = i.before;
          none_closer = NoneCloser-cons q rs address _ (λ h. i.not_worse) i.none_closer;
        },
      )
]

-- No safepoint of the list is one that a return to the address can come from.
abbrev pub NoneInReach : List SafepointRecord → ℕ → Type 0
NoneInReach rs address =
    (r : SafepointRecord)
    → Among r rs
    → r.instruction_address ≤ address
    → max_return_address_distance < address - r.instruction_address

-- A safepoint found for a return address is one of the list, stands at most 4096 bytes before the
-- address, and no safepoint of the list stands between the two. Without an answer, every safepoint
-- of the list is beyond the address or more than 4096 bytes before it.
pub find_safepoint_record_for_return_address_lem :
    (rs : List SafepointRecord) (address : ℕ)
    → ((find_safepoint_record_for_return_address rs address ≡ none) × NoneInReach rs address)
      ⊎ ((r : SafepointRecord) × (find_safepoint_record_for_return_address rs address ≡ some r)
          × Nearest rs address r
          × (address - r.instruction_address ≤ max_return_address_distance))
unfolding find_safepoint_record_for_return_address
find_safepoint_record_for_return_address_lem rs address = elim (nearest_before-none rs address) [
  | inl (e, all) ↦ inl (ap (within_reach address) e, λ r m le. absurd (omega (arith, all r m)))
  | inr (r, e, n) ↦
      elim (Bool-cases (leb (address - r.instruction_address) max_return_address_distance)) [
        | inl near ↦ inr (r, ap (within_reach address) e ∙ rw near refl, n, leb→le _ _ near)
        | inr far ↦ inl (
          ap (within_reach address) e ∙ rw far refl,
          λ q m le. ground (arith, n.none_closer q m le),
        )
      ]
]
