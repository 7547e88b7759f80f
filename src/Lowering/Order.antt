-- ===== src/Lowering/Order.antt =====
-- The order in which the blocks of a function are rewritten.
use lona_mvm.Prelude.{
  ℕ, ◌≡◌, refl, Bool, true, false, ◌||◌, List, [], ◌∷◌, ◌++◌, ◌==◌, has, has-append, has_self,
  Distinct, some, Bool-cases, inl, inr, arith, ap, sym, ◌∙◌, subst, ==_iff,
}
use mathlib.Core.List.{append_assoc, append-nil}
use mathlib.Core.Bool.{or-true, and-false, not, ◌&&◌, false≢true}
use lona_mvm.Lowering.Replace.{DomTree, DomTrees, node, no_more, child, OldBlock, OldFunction}
use lona_mvm.Lowering.Functions.{dominance_preorder, children_preorder, unscheduled, lowering_order}

-- The blocks of a tree, each one before those that it dominates.
unfoldable mutual
  pub tree_blocks : DomTree → List ℕ
  tree_blocks (node block children) = block ∷ all_tree_blocks children

  pub all_tree_blocks : DomTrees → List ℕ
  all_tree_blocks no_more = []
  all_tree_blocks (child tree more) = tree_blocks tree ++ all_tree_blocks more

-- The first block is above the second one in the tree.
mutual
  pub data Above (p c : ℕ) : DomTree → Type 0 where
    root :
        {b : ℕ} {children : DomTrees}
        → b ≡ p
        → has (all_tree_blocks children) c ≡ true
        → Above p c (node b children)
    inner : {b : ℕ} {children : DomTrees} → AnyAbove p c children → Above p c (node b children)

  pub data AnyAbove (p c : ℕ) : DomTrees → Type 0 where
    first : {tree : DomTree} {more : DomTrees} → Above p c tree → AnyAbove p c (child tree more)
    later : {tree : DomTree} {more : DomTrees} → AnyAbove p c more → AnyAbove p c (child tree more)

-- The first block stands before the second one.
abbrev pub Before : (p c : ℕ) → List ℕ → Type 0
Before p c order =
    (before : List ℕ) × (after : List ℕ) × (order ≡ before ++ c ∷ after) × (has before p ≡ true)

has_split :
    (xs : List ℕ) (c : ℕ)
    → has xs c ≡ true
    → (before : List ℕ) × (after : List ℕ) × (xs ≡ before ++ c ∷ after)
has_split [] c h = cc
has_split (x ∷ xs) c h = elim (Bool-cases (x == c)) [
  | inl same ↦ ([], xs, ap (λ (y : ℕ). y ∷ xs) ((==_iff x c).0 same))
  | inr other ↦
      let (before, after, e) = has_split xs c (rw other at h) in (x ∷ before, after, ap (◌∷◌ x) e)
]

Before-append_right : {p c : ℕ} {xs : List ℕ} (ys : List ℕ) → Before p c xs → Before p c (xs ++ ys)
Before-append_right {c} ys (before, after, e, h) =
    (before, after ++ ys, ap (λ (l : List ℕ). l ++ ys) e ∙ append_assoc before (c ∷ after) ys, h)

Before-append_left : {p c : ℕ} (xs : List ℕ) {ys : List ℕ} → Before p c ys → Before p c (xs ++ ys)
Before-append_left {p} {c} xs (before, after, e, h) = (
  xs ++ before,
  after,
  ap (◌++◌ xs) e ∙ sym (append_assoc xs before (c ∷ after)),
  has-append xs before p ∙ rw h (or-true (has xs p)),
)

mutual
  unfolding tree_blocks all_tree_blocks

  Above-Before : {p c : ℕ} {tree : DomTree} → Above p c tree → Before p c (tree_blocks tree)
  Above-Before (Above.root {b} {children} e h) =
      let (before, after, split) = has_split (all_tree_blocks children) _ h in
      (b ∷ before, after, ap (◌∷◌ b) split, ground (arith, e))
  Above-Before (Above.inner {b} below) = Before-append_left (b ∷ []) (AnyAbove-Before below)

  AnyAbove-Before :
      {p c : ℕ} {trees : DomTrees} → AnyAbove p c trees → Before p c (all_tree_blocks trees)
  AnyAbove-Before (AnyAbove.first {tree} {more} a) =
      Before-append_right (all_tree_blocks more) (Above-Before a)
  AnyAbove-Before (AnyAbove.later {tree} {more} a) =
      Before-append_left (tree_blocks tree) (AnyAbove-Before a)

-- No element of the first list is one of the second.
abbrev Avoids : List ℕ → List ℕ → Type 0
Avoids xs ys = (x : ℕ) → has xs x ≡ true → has ys x ≡ false

not_in : (x y : ℕ) (ys : List ℕ) → has ys x ≡ false → has ys y ≡ true → (x == y) ≡ false
not_in x y ys absent present = elim (Bool-cases (x == y)) [
  | inl same ↦ absurd (false≢true (sym absent ∙ ap (has ys) ((==_iff x y).0 same) ∙ present))
  | inr other ↦ other
]

or-false_both : (a b : Bool) → (a || b) ≡ false → (a ≡ false) × (b ≡ false)
or-false_both false b e = (refl, e)
or-false_both true b e = cc

Distinct-split : (xs ys : List ℕ) → Distinct (xs ++ ys) → Distinct xs × Distinct ys × Avoids ys xs
Distinct-split [] ys d = (tt, d, λ x h. refl)
Distinct-split (x ∷ xs) ys d =
    let (dx, dy, apart) = Distinct-split xs ys d.1 in
    let absent = or-false_both (has xs x) (has ys x) (sym (has-append xs ys x) ∙ d.0) in
    ((absent.0, dx), dy, λ y h. rw (not_in x y ys absent.1 h) (apart y h))

Distinct-append : (xs ys : List ℕ) → Distinct xs → Distinct ys → Avoids xs ys → Distinct (xs ++ ys)
Distinct-append [] ys dx dy apart = dy
Distinct-append (x ∷ xs) ys dx dy apart = (
  has-append xs ys x ∙ rw (dx.0) (apart x (has_self x xs)),
  Distinct-append xs ys dx.1 dy (λ y h. apart y (rw h (or-true (x == y)))),
)

Avoids-append : (xs ys zs : List ℕ) → Avoids xs ys → Avoids xs zs → Avoids xs (ys ++ zs)
Avoids-append xs ys zs a b x h = has-append ys zs x ∙ rw (a x h) (b x h)

mutual
  unfolding tree_blocks all_tree_blocks dominance_preorder children_preorder

  dominance_preorder_lem :
      (tree : DomTree) (order : List ℕ)
      → Distinct (tree_blocks tree)
      → Avoids (tree_blocks tree) order
      → dominance_preorder tree order ≡ order ++ tree_blocks tree
  dominance_preorder_lem (node b children) order d apart =
      rw (apart b (has_self b (all_tree_blocks children))) (
        children_preorder_lem children (order ++ b ∷ []) d.1 (
          Avoids-append (all_tree_blocks children) order (b ∷ [])
            (λ x h. apart x (rw h (or-true (b == x))))
            (λ x h. rw (not_in b x (all_tree_blocks children) d.0 h)))
        ∙ append_assoc order (b ∷ []) (all_tree_blocks children))

  children_preorder_lem :
      (trees : DomTrees) (order : List ℕ)
      → Distinct (all_tree_blocks trees)
      → Avoids (all_tree_blocks trees) order
      → children_preorder trees order ≡ order ++ all_tree_blocks trees
  children_preorder_lem no_more order d apart = sym (append-nil order)
  children_preorder_lem (child tree more) order d apart =
      let xs = tree_blocks tree in
      let ys = all_tree_blocks more in
      let (dx, dy, others) = Distinct-split xs ys d in
      rw (dominance_preorder_lem tree order dx (λ x h. apart x (has-append xs ys x ∙ rw h))) (
        children_preorder_lem more (order ++ xs) dy (
          Avoids-append ys order xs
            (λ x h. apart x (has-append xs ys x ∙ rw h (or-true (has xs x)))) others)
        ∙ append_assoc order xs ys)

abbrev pub addresses : List OldBlock → List ℕ
addresses [] = []
addresses (b ∷ bs) = b.address ∷ addresses bs

has-unscheduled :
    (scheduled : List ℕ) (blocks : List OldBlock) (x : ℕ)
    → has (unscheduled scheduled blocks) x ≡ (has (addresses blocks) x && not (has scheduled x))
unfolding unscheduled
has-unscheduled scheduled [] x = refl
has-unscheduled scheduled (b ∷ bs) x = ground (arith, has-unscheduled scheduled bs x)

unscheduled-Distinct :
    (scheduled : List ℕ) (blocks : List OldBlock)
    → Distinct (addresses blocks)
    → Distinct (unscheduled scheduled blocks)
unfolding unscheduled
unscheduled-Distinct scheduled [] d = tt
unscheduled-Distinct scheduled (b ∷ bs) d = elim (Bool-cases (has scheduled b.address)) [
  | inl known ↦ simp known (unscheduled-Distinct scheduled bs d.1)
  | inr new ↦
      simp new
        (has-unscheduled scheduled bs b.address ∙ rw (d.0), unscheduled-Distinct scheduled bs d.1)
]

-- The blocks in order are those of the tree and then the others.
order-eq :
    (f : OldFunction) (tree : DomTree)
    → f.dominators ≡ some tree
    → Distinct (tree_blocks tree)
    → lowering_order f ≡ tree_blocks tree ++ unscheduled (tree_blocks tree) f.blocks
unfolding lowering_order
order-eq f tree e d = rw e (
    ap (λ (scheduled : List ℕ). scheduled ++ unscheduled scheduled f.blocks)
      (dominance_preorder_lem tree [] d (λ x h. refl)))

-- For a function whose dominator tree has some of its blocks, each one once: every block of the
-- function is rewritten, none of them twice, nothing else is, and each block of the tree comes after
-- all blocks that are above it in the tree.
pub lowering_order_lem :
    (f : OldFunction) (tree : DomTree)
    → f.dominators ≡ some tree
    → Distinct (tree_blocks tree)
    → Distinct (addresses f.blocks)
    → ((x : ℕ) → has (tree_blocks tree) x ≡ true → has (addresses f.blocks) x ≡ true)
    → Distinct (lowering_order f)
      × ((x : ℕ) → has (lowering_order f) x ≡ has (addresses f.blocks) x)
      × ((p c : ℕ) → Above p c tree → Before p c (lowering_order f))
lowering_order_lem f tree e once distinct within =
    let scheduled = tree_blocks tree in
    let rest = unscheduled scheduled f.blocks in
    let order = order-eq f tree e once in
    (
      subst Distinct (sym order) (
          Distinct-append scheduled rest once (unscheduled-Distinct scheduled f.blocks distinct)
            (λ x h.
              has-unscheduled scheduled f.blocks x
              ∙ rw h (and-false (has (addresses f.blocks) x)))),
      λ x.
          ap (λ (l : List ℕ). has l x) order
          ∙ has-append scheduled rest x
          ∙ ground (arith, has-unscheduled scheduled f.blocks x, within x),
      λ p c above. subst (Before p c) (sym order) (Before-append_right rest (Above-Before above)),
    )
