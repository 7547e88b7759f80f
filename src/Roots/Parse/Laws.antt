-- ===== src/Roots/Parse/Laws.antt =====
-- When the locations of a stack map are accepted, and the pairs they stand for.
use lona_mvm.Prelude.{
  ℕ, zero, suc, ◌+◌, ◌-◌, ◌*◌, ◌%◌, ◌≤◌, ◌<◌, ◌≡◌, refl, inl, inr, true, false, some, List, [], ◌∷◌,
  ltb, ◌==◌, length, arith, Bool-cases, ap, subst, ◌^◌,
}
use lona_mvm.Prelude.Expected.{success, ◌>>=◌, Expected-cases}
use lona_mvm.Roots.{LocationKind, Location, RootKind, GcRootLocation, GcRootLocationPair}
use lona_mvm.Roots.Parse.{
  get_elem?, read_constant, read_stack_map_constant, parse_root_location, is_constant_kind,
  skip_prefix, parse_pairs, parse_root_pairs, sized_location, constant_location,
}

-- A location whose constant is there.
abbrev pub InRange : List ℕ → Location → Type 0
InRange constants l = l.kind ≡ LocationKind.constant_index → l.constant_index < length constants

get_elem?-lt :
    (constants : List ℕ) (i : ℕ) → i < length constants → (v : ℕ) × (get_elem? constants i ≡ some v)
get_elem?-lt [] i h = absurd (omega arith)
get_elem?-lt (c ∷ cs) zero h = (c, refl)
get_elem?-lt (c ∷ cs) (suc i) h = get_elem?-lt cs i (omega arith)

-- What a location of the stack map stands for: a register, an address or a word at an address keeps
-- its register, its offset and the low 16 bits of its size; a constant is its value, from the location
-- itself or from the table.
pub data Stands (constants : List ℕ) (l : Location) : GcRootLocation → Type 0 where
  in_register :
      l.kind ≡ LocationKind.register
      → Stands constants l (record {
        kind = RootKind.register;
        dwarf_register = l.dwarf_reg_num;
        offset = 0;
        size = l.size_in_bytes % 2 ^ 16;
        constant = 0;
      })
  at_address :
      l.kind ≡ LocationKind.direct
      → Stands constants l (record {
        kind = RootKind.direct;
        dwarf_register = l.dwarf_reg_num;
        offset = l.offset;
        size = l.size_in_bytes % 2 ^ 16;
        constant = 0;
      })
  in_memory :
      l.kind ≡ LocationKind.indirect
      → Stands constants l (record {
        kind = RootKind.indirect;
        dwarf_register = l.dwarf_reg_num;
        offset = l.offset;
        size = l.size_in_bytes % 2 ^ 16;
        constant = 0;
      })
  small :
      l.kind ≡ LocationKind.constant
      → Stands constants l (record {
        kind = RootKind.constant;
        dwarf_register = 0;
        offset = 0;
        size = l.size_in_bytes % 2 ^ 16;
        constant = l.small_constant;
      })
  in_table :
      (v : ℕ)
      → l.kind ≡ LocationKind.constant_index
      → get_elem? constants l.constant_index ≡ some v
      → Stands constants l (record {
        kind = RootKind.constant;
        dwarf_register = 0;
        offset = 0;
        size = l.size_in_bytes % 2 ^ 16;
        constant = v;
      })

-- The locations in twos, each first one the base and each second one the derived pointer of its pair.
pub data PairsOf (constants : List ℕ) : List Location → List GcRootLocationPair → Type 0 where
  no_pair : PairsOf constants [] []
  one_more :
      {b d : Location} {ls : List Location} {base derived : GcRootLocation}
      {ps : List GcRootLocationPair}
      → Stands constants b base
      → Stands constants d derived
      → PairsOf constants ls ps
      → PairsOf constants (b ∷ d ∷ ls) (record { base = base; derived = derived } ∷ ps)

abbrev pub drop {ℓ} : {A : Type ℓ} → ℕ → List A → List A
drop zero xs = xs
drop (suc n) [] = []
drop (suc n) (x ∷ xs) = drop n xs

parse_root_location-ok :
    (l : Location) (constants : List ℕ)
    → InRange constants l
    → (g : GcRootLocation) × (parse_root_location l constants ≡ success g) × Stands constants l g
unfolding parse_root_location read_stack_map_constant read_constant
parse_root_location-ok l constants h = by_kind l.kind refl
  where
    as_constant :
        {v : ℕ}
        → read_stack_map_constant l constants ≡ success v
        → (read_stack_map_constant l constants >>= λ value. success (constant_location l value))
          ≡ success (constant_location l v)
    as_constant e = ap (λ m. m >>= λ value. success (constant_location l value)) e

    by_kind :
        (k : LocationKind)
        → l.kind ≡ k
        → (g : GcRootLocation) × (parse_root_location l constants ≡ success g)
          × Stands constants l g
    by_kind LocationKind.register e = (
      sized_location l RootKind.register 0,
      rw (parse_root_location, e) refl,
      Stands.in_register e,
    )
    by_kind LocationKind.direct e = (
      sized_location l RootKind.direct l.offset,
      rw (parse_root_location, e) refl,
      Stands.at_address e,
    )
    by_kind LocationKind.indirect e = (
      sized_location l RootKind.indirect l.offset,
      rw (parse_root_location, e) refl,
      Stands.in_memory e,
    )
    by_kind LocationKind.constant e = (
      constant_location l l.small_constant,
      rw (parse_root_location, e) (as_constant (rw (read_stack_map_constant, e) refl)),
      Stands.small e,
    )
    by_kind LocationKind.constant_index e =
        let (v, found) = get_elem?-lt constants l.constant_index (h e) in
        (
          constant_location l v,
          rw (parse_root_location, e)
              (as_constant (rw (read_stack_map_constant, e) (rw (read_constant, found) refl))),
          Stands.in_table v e found,
        )

-- The locations of a list have their constants.
abbrev pub AllInRange : List ℕ → List Location → Type 0
AllInRange constants [] = Unit {0}
AllInRange constants (l ∷ ls) = InRange constants l × AllInRange constants ls

-- The first locations, up to a number, are constants.
abbrev pub ConstantPrefix : ℕ → List Location → Type 0
ConstantPrefix zero ls = Unit {0}
ConstantPrefix (suc n) [] = Unit {0}
ConstantPrefix (suc n) (l ∷ ls) = (is_constant_kind l.kind ≡ true) × ConstantPrefix n ls

parse_pairs-ok :
    (n : ℕ) (ls : List Location) (constants : List ℕ)
    → length ls ≡ n * 2
    → AllInRange constants ls
    → (ps : List GcRootLocationPair) × (parse_pairs ls constants ≡ success ps)
      × (length ps ≡ n)
      × PairsOf constants ls ps
unfolding parse_pairs
parse_pairs-ok n [] cs even all = ([], refl, omega arith, PairsOf.no_pair)
parse_pairs-ok n (l ∷ []) cs even all = absurd (omega arith)
parse_pairs-ok zero (b ∷ d ∷ ls) cs even all = absurd (omega arith)
parse_pairs-ok (suc n) (b ∷ d ∷ ls) cs even all =
    let (base, eb, first) = parse_root_location-ok b cs all.0 in
    let (derived, ed, second) = parse_root_location-ok d cs all.1.0 in
    let (pairs, ep, count, paired) = parse_pairs-ok n ls cs (omega arith) all.1.1 in
    (
      record { base = base; derived = derived } ∷ pairs,
      rw (eb, ed, ep) refl,
      omega arith,
      PairsOf.one_more first second paired,
    )

skip_prefix-ok :
    (n index : ℕ) (ls : List Location) (constants : List ℕ)
    → n ≤ length ls
    → ConstantPrefix n ls
    → AllInRange constants ls
    → (roots : List Location) × (skip_prefix n index ls ≡ success roots)
      × (length ls ≡ n + length roots)
      × (roots ≡ drop n ls)
      × AllInRange constants roots
unfolding skip_prefix
skip_prefix-ok zero index ls cs le prefix all = (ls, refl, omega arith, refl, all)
skip_prefix-ok (suc n) index [] cs le prefix all = absurd (omega arith)
skip_prefix-ok (suc n) index (l ∷ ls) cs le prefix all =
    let (roots, e, count, left, rest) =
      skip_prefix-ok n (index + 1) ls cs (omega arith) prefix.1 all.1 in
    (roots, rw prefix.0 e, omega arith, left, rest)

-- A statepoint whose first three locations are constants, with an even number of locations after
-- them and every constant in range, is parsed to one pair for every two of these locations, in order:
-- the first of the two is the base and the second the derived pointer, and each keeps its kind, its
-- register, its offset, the low 16 bits of its size, and its constant.
pub parse_root_pairs-ok :
    (n : ℕ) (ls : List Location) (constants : List ℕ)
    → length ls ≡ 3 + n * 2
    → ConstantPrefix 3 ls
    → AllInRange constants ls
    → (ps : List GcRootLocationPair) × (parse_root_pairs ls constants ≡ success ps)
      × (length ps ≡ n)
      × PairsOf constants (drop 3 ls) ps
unfolding parse_root_pairs
parse_root_pairs-ok n ls cs count prefix all =
    let (roots, e, left, same, rest) = skip_prefix-ok 3 0 ls cs (omega arith) prefix all in
    let (ps, parsed, pairs, paired) = parse_pairs-ok n roots cs (omega arith) rest in
    let long : ltb (length ls) 3 ≡ false = ground arith in
    let even : ((length ls - 3) % 2 == 0) ≡ true = ground arith in
    (ps, rw (long, e, even) parsed, pairs, subst (λ rs. PairsOf cs rs ps) same paired)

skip_prefix-length :
    (n index : ℕ) (ls roots : List Location)
    → skip_prefix n index ls ≡ success roots
    → (length ls ≡ n + length roots) × ConstantPrefix n ls
unfolding skip_prefix
skip_prefix-length zero index ls roots h = (ground arith, tt)
skip_prefix-length (suc n) index [] roots h = cc
skip_prefix-length (suc n) index (l ∷ ls) roots h = elim (Bool-cases (is_constant_kind l.kind)) [
  | inl first ↦
      let (count, prefix) = skip_prefix-length n (index + 1) ls roots (ground arith) in
      (omega arith, (first, prefix))
  | inr other ↦ absurd (ground arith)
]

parse_pairs-length :
    (ls : List Location) (constants : List ℕ) (ps : List GcRootLocationPair)
    → parse_pairs ls constants ≡ success ps
    → length ls ≡ length ps * 2
unfolding parse_pairs
parse_pairs-length [] cs ps h = ground arith
parse_pairs-length (l ∷ []) cs ps h = cc
parse_pairs-length (b ∷ d ∷ ls) cs ps h = elim (Expected-cases (parse_root_location b cs)) [
  | inr (e, failed) ↦ absurd (ground arith)
  | inl (base, eb) ↦ elim (Expected-cases (parse_root_location d cs)) [
    | inr (e, failed) ↦ absurd (ground arith)
    | inl (derived, ed) ↦ elim (Expected-cases (parse_pairs ls cs)) [
      | inr (e, failed) ↦ absurd (ground arith)
      | inl (pairs, ep) ↦ ground (arith, parse_pairs-length ls cs pairs ep)
    ]
  ]
]

-- The locations that are parsed are three constants and two locations for each pair.
pub parse_root_pairs-length :
    (ls : List Location) (constants : List ℕ) (ps : List GcRootLocationPair)
    → parse_root_pairs ls constants ≡ success ps
    → (length ls ≡ 3 + length ps * 2) × ConstantPrefix 3 ls
unfolding parse_root_pairs
parse_root_pairs-length ls cs ps h = elim (Bool-cases (ltb (length ls) 3)) [
  | inl short ↦ absurd (ground arith)
  | inr long ↦ elim (Expected-cases (skip_prefix 3 0 ls)) [
    | inr (e, failed) ↦ absurd (ground arith)
    | inl (roots, e) ↦
        let (count, prefix) = skip_prefix-length 3 0 ls roots e in
        elim (Bool-cases ((length ls - 3) % 2 == 0)) [
          | inl even ↦
              let twos = parse_pairs-length roots cs ps (ground arith) in
              (omega (arith, count, twos), prefix)
          | inr odd ↦ absurd (ground arith)
        ]
  ]
]
