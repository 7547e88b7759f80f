-- ===== src/Managed/Store/Progress.antt =====
-- What every update does: the states grow, the flag tells the truth, and a change is at a known cell.
use lona_mvm.Prelude.{
  ℕ, ◌+◌, ◌*◌, ◌≤◌, ◌<◌, ◌≡◌, refl, ap, ap₂, fun_ext, inl, inr, Bool, true, false, ◌||◌, List, [],
  ◌∷◌, if◌then◌else◌, ◌==◌, ==_refl, length, Among, here, there, Sublist, arith, Bool-cases,
  if_both, ◌∙◌, subst,
}
use lona_mvm.Managed.State.{PointerState, empty, merged, merge_changes, is_new}
use lona_mvm.Managed.Store.{
  Cell, same_cell, States, Update, no_change, ◌then_also◌, with_states, when, merge_cell,
}

==→≡ : (a b : ℕ) → (a == b) ≡ true → a ≡ b
==→≡ a b h = ground arith

same_cell-eq : (c d : Cell) → same_cell c d ≡ true → c ≡ d
same_cell-eq (Cell.value a) (Cell.value b) h = ap Cell.value (==→≡ _ _ h)
same_cell-eq (Cell.value a) (Cell.location b) h = cc
same_cell-eq (Cell.value a) (Cell.slot b) h = cc
same_cell-eq (Cell.value a) (Cell.param b j) h = cc
same_cell-eq (Cell.value a) (Cell.returned b) h = cc
same_cell-eq (Cell.location a) (Cell.value b) h = cc
same_cell-eq (Cell.location a) (Cell.location b) h = ap Cell.location (==→≡ _ _ h)
same_cell-eq (Cell.location a) (Cell.slot b) h = cc
same_cell-eq (Cell.location a) (Cell.param b j) h = cc
same_cell-eq (Cell.location a) (Cell.returned b) h = cc
same_cell-eq (Cell.slot a) (Cell.value b) h = cc
same_cell-eq (Cell.slot a) (Cell.location b) h = cc
same_cell-eq (Cell.slot a) (Cell.slot b) h = ap Cell.slot (==→≡ _ _ h)
same_cell-eq (Cell.slot a) (Cell.param b j) h = cc
same_cell-eq (Cell.slot a) (Cell.returned b) h = cc
same_cell-eq (Cell.param a i) (Cell.value b) h = cc
same_cell-eq (Cell.param a i) (Cell.location b) h = cc
same_cell-eq (Cell.param a i) (Cell.slot b) h = cc
same_cell-eq (Cell.param a i) (Cell.param b j) h =
    ap₂ Cell.param (==→≡ _ _ (ground arith)) (==→≡ _ _ (ground arith))
same_cell-eq (Cell.param a i) (Cell.returned b) h = cc
same_cell-eq (Cell.returned a) (Cell.value b) h = cc
same_cell-eq (Cell.returned a) (Cell.location b) h = cc
same_cell-eq (Cell.returned a) (Cell.slot b) h = cc
same_cell-eq (Cell.returned a) (Cell.param b j) h = cc
same_cell-eq (Cell.returned a) (Cell.returned b) h = ap Cell.returned (==→≡ _ _ h)

same_cell_self : (c : Cell) → same_cell c c ≡ true
same_cell_self (Cell.value a) = ==_refl a
same_cell_self (Cell.location a) = ==_refl a
same_cell_self (Cell.slot a) = ==_refl a
same_cell_self (Cell.param f i) = ground (arith, ==_refl f, ==_refl i)
same_cell_self (Cell.returned f) = ==_refl f

abbrev flag_size : Bool → ℕ
flag_size b = if b then 1 else 0

-- The count of flags.
abbrev pub size : PointerState → ℕ
size s = flag_size s.null + flag_size s.raw + flag_size s.managed_object + flag_size s.managed_array

pub size-le : (s : PointerState) → size s ≤ 4
size-le s = ground arith

flag-merged : (a b : Bool) → flag_size (a || b) ≡ flag_size a + flag_size (is_new a b)
flag-merged a b = ground arith

flag-kept : (a b : Bool) → is_new a b ≡ false → (a || b) ≡ a
flag-kept a b h = ground arith

-- The count of the flags that a merge adds.
abbrev added : PointerState → PointerState → ℕ
added s other =
    flag_size (is_new s.null other.null)
    + flag_size (is_new s.raw other.raw)
    + flag_size (is_new s.managed_object other.managed_object)
    + flag_size (is_new s.managed_array other.managed_array)

size-merged : (s other : PointerState) → size (merged s other) ≡ size s + added s other
size-merged s other = omega (
  arith,
  flag-merged s.null other.null,
  flag-merged s.raw other.raw,
  flag-merged s.managed_object other.managed_object,
  flag-merged s.managed_array other.managed_array,
)

added_of_changes : (s other : PointerState) → merge_changes s other ≡ true → 1 ≤ added s other
added_of_changes s other h = ground arith

merged_of_unchanged : (s other : PointerState) → merge_changes s other ≡ false → merged s other ≡ s
merged_of_unchanged s other h = ground (
  arith,
  flag-kept s.null other.null,
  flag-kept s.raw other.raw,
  flag-kept s.managed_object other.managed_object,
  flag-kept s.managed_array other.managed_array,
)

-- The cell grows from the first states to the second.
abbrev pub Grows : States → States → Cell → Type 0
Grows s t c = size (s c) < size (t c)

-- An update only adds flags; without its flag it leaves the states as they are, and with it, it adds
-- a flag at one of the cells.
pub record Progress (cells : List Cell) (f : Update) : Type 0 where
  pub larger : (s : States) (c : Cell) → size (s c) ≤ size ((f s).0 c)
  pub kept : (s : States) → (f s).1 ≡ false → (f s).0 ≡ s
  pub grown : (s : States) → (f s).1 ≡ true → (c : Cell) × Among c cells × Grows s ((f s).0) c

pub no_change-Progress : (cells : List Cell) → Progress cells no_change
no_change-Progress cells = record {
  larger = λ s c. omega arith;
  kept = λ s h. refl;
  grown = λ s h. cc;
}

pub Progress-widen :
    {cells wide : List Cell} {f : Update} → Sublist cells wide → Progress cells f → Progress wide f
Progress-widen sub p = record {
  larger = p.larger;
  kept = p.kept;
  grown = λ s h. let (c, among, grows) = p.grown s h in (c, sub c among, grows);
}

pub with_states-Progress :
    {cells : List Cell} (f : States → Update)
    → ((s : States) → Progress cells (f s))
    → Progress cells (with_states f)
with_states-Progress f p = record {
  larger = λ s. (p s).larger s;
  kept = λ s. (p s).kept s;
  grown = λ s. (p s).grown s;
}

pub when-Progress :
    {cells : List Cell} (b : Bool) (f : Update) → Progress cells f → Progress cells (when b f)
when-Progress true f p = p
when-Progress false f p = no_change-Progress _

pub then_also-Progress :
    {cells : List Cell} (f g : Update)
    → Progress cells f
    → Progress cells g
    → Progress cells (f then_also g)
unfolding ◌then_also◌
then_also-Progress {cells} f g p q = record {
  larger = λ s c. omega (arith, p.larger s c, q.larger (f s).0 c);
  kept = λ s h. q.kept (f s).0 (ground arith) ∙ p.kept s (ground arith);
  grown = λ s h. elim (Bool-cases (f s).1) [
    | inl first ↦
        let (c, among, grows) = p.grown s first in
        (c, among, omega (arith, grows, q.larger (f s).0 c))
    | inr still ↦
        let (c, among, grows) = q.grown (f s).0 (ground arith) in
        (c, among, omega (arith, grows, p.larger s c))
  ];
}

-- The states after a merge that is not of the empty state.
abbrev set_cell : Cell → PointerState → States → States
set_cell c state s d = if same_cell c d then merged (s c) state else s d

set_cell-larger :
    (c : Cell) (state : PointerState) (s : States) (d : Cell)
    → size (s d) ≤ size (set_cell c state s d)
set_cell-larger c state s d =
    if_both (λ t. size (s d) ≤ size t) (same_cell c d)
      (λ same.
        subst (λ e. size (s e) ≤ size (merged (s c) state)) (same_cell-eq c d same)
          (omega (arith, size-merged (s c) state)))
      (λ apart. omega arith)

set_cell-kept :
    (c : Cell) (state : PointerState) (s : States)
    → merge_changes (s c) state ≡ false
    → set_cell c state s ≡ s
set_cell-kept c state s h = fun_ext λ d.
    if_both (λ t. t ≡ s d) (same_cell c d)
      (λ same. merged_of_unchanged (s c) state h ∙ ap s (same_cell-eq c d same)) (λ apart. refl)

set_cell-Grows :
    (c : Cell) (state : PointerState) (s : States)
    → merge_changes (s c) state ≡ true
    → Grows s (set_cell c state s) c
set_cell-Grows c state s h =
    if_both (λ t. size (s c) < size t) (same_cell c c)
      (λ same. omega (arith, size-merged (s c) state, added_of_changes (s c) state h))
      (λ apart. absurd (ground (arith, same_cell_self c)))

pub merge_cell-Progress :
    {cells : List Cell} (c : Cell) (state : PointerState)
    → Among c cells
    → Progress cells (merge_cell c state)
unfolding merge_cell
merge_cell-Progress {cells} c state among = by_empty (empty state)
  where
    by_empty :
        (b : Bool)
        → Progress cells
            (λ s. if b then (s, false) else (set_cell c state s, merge_changes (s c) state))
    by_empty true = no_change-Progress _
    by_empty false = record {
      larger = set_cell-larger c state;
      kept = set_cell-kept c state;
      grown = λ s h. (c, among, set_cell-Grows c state s h);
    }

-- The count of flags at the cells of a list.
abbrev pub weight : List Cell → States → ℕ
weight [] s = 0
weight (c ∷ cs) s = size (s c) + weight cs s

pub weight-le : (cells : List Cell) (s : States) → weight cells s ≤ 4 * length cells
weight-le [] s = omega arith
weight-le (c ∷ cs) s = omega (arith, size-le (s c), weight-le cs s)

weight-larger :
    (cells : List Cell) (s t : States)
    → ((c : Cell) → size (s c) ≤ size (t c))
    → weight cells s ≤ weight cells t
weight-larger [] s t h = omega arith
weight-larger (c ∷ cs) s t h = omega (arith, h c, weight-larger cs s t h)

weight-Grows :
    (cells : List Cell) (s t : States) (c : Cell)
    → ((c : Cell) → size (s c) ≤ size (t c))
    → Among c cells
    → Grows s t c
    → weight cells s < weight cells t
weight-Grows [] s t c h m grows = elim m [ ]
weight-Grows (d ∷ cs) s t c h here grows = omega (arith, grows, weight-larger cs s t h)
weight-Grows (d ∷ cs) s t c h (there m) grows = omega (arith, h d, weight-Grows cs s t c h m grows)

-- A changing update adds to the weight.
pub Progress-weight :
    {cells : List Cell} {f : Update} (p : Progress cells f) (s : States)
    → (f s).1 ≡ true
    → weight cells s < weight cells (f s).0
Progress-weight {cells} {f} p s h =
    let (c, among, grows) = p.grown s h in weight-Grows cells s (f s).0 c (p.larger s) among grows
