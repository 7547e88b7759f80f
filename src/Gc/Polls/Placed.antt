-- ===== src/Gc/Polls/Placed.antt =====
-- Where polls are, after they are inserted.
use lona_mvm.Prelude.{
  ℕ, ◌≡◌, refl, Bool, true, false, ◌||◌, List, [], ◌∷◌, ◌++◌, if◌then◌else◌, ◌==◌, has, arith, sym,
  ◌∙◌, has-append, if_both, ==_iff,
}
use mathlib.Core.Bool.{or-true, or-false}
use lona_mvm.Gc.Polls.{
  PolledBlock, PolledFunction, next_id, insert_allocation_polls, insert_in_blocks,
  insert_latch_poll, insert_latch_polls, all_latch_blocks, latch_blocks, insert_latches, Loop,
  Loops, loop, no_loops, one_more, insert_function_polls,
}
use lona_mvm.Gc.Polls.Inserted.{
  AllPolled, EndPolled, without_polls, insert_allocation_polls-AllPolled,
  insert_allocation_polls-without_polls, insert_before_terminator-AllPolled,
  insert_before_terminator-EndPolled, insert_before_terminator-without_polls,
}

-- The new blocks are the old ones with polls: after each allocation that something follows, and before
-- the terminators of the blocks of the set.
abbrev pub Placed : (ℕ → Bool) → List PolledBlock → List PolledBlock → Type 0
Placed at_end [] [] = Unit {0}
Placed at_end [] (new ∷ news) = ⊥
Placed at_end (old ∷ olds) [] = ⊥
Placed at_end (old ∷ olds) (new ∷ news) =
    ((new.address ≡ old.address)
      × AllPolled new.instructions
      × (without_polls new.instructions ≡ without_polls old.instructions)
      × (at_end new.address ≡ true → EndPolled new.instructions))
    × Placed at_end olds news

insert_in_blocks-Placed :
    (blocks : List PolledBlock) (id : ℕ) → Placed (λ a. false) blocks (insert_in_blocks blocks id).0
unfolding insert_in_blocks
insert_in_blocks-Placed [] id = tt
insert_in_blocks-Placed (b ∷ bs) id = (
  (
    refl,
    insert_allocation_polls-AllPolled b.instructions id,
    insert_allocation_polls-without_polls b.instructions id,
    λ e. cc,
  ),
  insert_in_blocks-Placed bs (insert_allocation_polls b.instructions id).1,
)

insert_latch_poll-Placed :
    (at_end : ℕ → Bool) (id latch : ℕ) (olds news : List PolledBlock)
    → Placed at_end olds news
    → Placed (λ a. (latch == a) || at_end a) olds (insert_latch_poll id latch news)
unfolding insert_latch_poll
insert_latch_poll-Placed at_end id latch [] [] h = tt
insert_latch_poll-Placed at_end id latch [] (new ∷ news) h = absurd h
insert_latch_poll-Placed at_end id latch (old ∷ olds) [] h = absurd h
insert_latch_poll-Placed at_end id latch (old ∷ olds) (new ∷ news) h =
    let rest = insert_latch_poll-Placed at_end id latch olds news h.1 in
    let (same, polled, kept, ended) = h.0 in
    if_both
      (λ (b : PolledBlock).
        Placed (λ a. (latch == a) || at_end a) (old ∷ olds) (b ∷ insert_latch_poll id latch news))
      (new.address == latch)
      (λ here_too. (
        (
          same,
          insert_before_terminator-AllPolled id new.instructions polled,
          insert_before_terminator-without_polls id new.instructions ∙ kept,
          λ e. insert_before_terminator-EndPolled id new.instructions,
        ),
        rest,
      ))
      (λ elsewhere. (
        (
          same,
          polled,
          kept,
          λ e. ended (not_here latch new.address (at_end new.address) elsewhere e),
        ),
        rest,
      ))
  where
    not_here : (l a : ℕ) (b : Bool) → (a == l) ≡ false → ((l == a) || b) ≡ true → b ≡ true
    not_here l a b h e = ground arith

Placed-fewer :
    (at_end fewer : ℕ → Bool) (olds news : List PolledBlock)
    → ((a : ℕ) → fewer a ≡ true → at_end a ≡ true)
    → Placed at_end olds news
    → Placed fewer olds news
Placed-fewer at_end fewer [] [] mono h = tt
Placed-fewer at_end fewer [] (new ∷ news) mono h = absurd h
Placed-fewer at_end fewer (old ∷ olds) [] mono h = absurd h
Placed-fewer at_end fewer (old ∷ olds) (new ∷ news) mono h =
    let (same, polled, kept, ended) = h.0 in
    (
      (same, polled, kept, λ e. ended (mono new.address e)),
      Placed-fewer at_end fewer olds news mono h.1,
    )

insert_latch_polls-Placed :
    (at_end : ℕ → Bool) (latches : List ℕ) (olds news : List PolledBlock) (id : ℕ)
    → Placed at_end olds news
    → Placed (λ a. has latches a || at_end a) olds (insert_latch_polls latches news id).0
unfolding insert_latch_polls
insert_latch_polls-Placed at_end [] olds news id h = h
insert_latch_polls-Placed at_end (l ∷ ls) olds news id h =
    Placed-fewer (λ a. has ls a || ((l == a) || at_end a)) (λ a. ((l == a) || has ls a) || at_end a)
      olds (insert_latch_polls ls (insert_latch_poll id l news) (next_id id)).0
      (λ a e. swapped (l == a) (has ls a) (at_end a) e)
      (insert_latch_polls-Placed (λ a. (l == a) || at_end a) ls olds (insert_latch_poll id l news)
        (next_id id) (insert_latch_poll-Placed at_end id l olds news h))
  where
    swapped : (a b c : Bool) → ((a || b) || c) ≡ true → (b || (a || c)) ≡ true
    swapped true true c e = refl
    swapped true false c e = refl
    swapped false true c e = refl
    swapped false false c e = e

-- A block that goes back to the head of a loop, or of one inside it.
mutual
  pub data IsLatch (a : ℕ) : Loop → Type 0 where
    own :
        {latches : List ℕ} {sub_loops : Loops}
        → has latches a ≡ true
        → IsLatch a (loop latches sub_loops)
    inner :
        {latches : List ℕ} {sub_loops : Loops}
        → AnyLatch a sub_loops
        → IsLatch a (loop latches sub_loops)

  pub data AnyLatch (a : ℕ) : Loops → Type 0 where
    first : {l : Loop} {more : Loops} → IsLatch a l → AnyLatch a (one_more l more)
    later : {l : Loop} {more : Loops} → AnyLatch a more → AnyLatch a (one_more l more)

insert_latches-has :
    (ls known : List ℕ) (a : ℕ)
    → (has ls a || has known a) ≡ true
    → has (insert_latches ls known) a ≡ true
insert_latches-has [] known a h = h
insert_latches-has (l ∷ ls) known a h =
    insert_latches-has ls (if has known l then known else known ++ l ∷ []) a
      (ground (arith, has-append known (l ∷ []) a, ==_iff l a))

mutual
  unfolding latch_blocks all_latch_blocks

  latch_blocks-keeps :
      (l : Loop) (known : List ℕ) (a : ℕ) → has known a ≡ true → has (latch_blocks l known) a ≡ true
  latch_blocks-keeps (loop latches sub_loops) known a h =
      all_latch_blocks-keeps sub_loops (insert_latches latches known) a
        (insert_latches-has latches known a (rw h (or-true (has latches a))))

  all_latch_blocks-keeps :
      (ls : Loops) (known : List ℕ) (a : ℕ)
      → has known a ≡ true
      → has (all_latch_blocks ls known) a ≡ true
  all_latch_blocks-keeps no_loops known a h = h
  all_latch_blocks-keeps (one_more l more) known a h =
      all_latch_blocks-keeps more (latch_blocks l known) a (latch_blocks-keeps l known a h)

mutual
  unfolding latch_blocks all_latch_blocks

  latch_blocks-has :
      {a : ℕ} {l : Loop} (known : List ℕ) → IsLatch a l → has (latch_blocks l known) a ≡ true
  latch_blocks-has {a} known (IsLatch.own {latches} {sub_loops} h) =
      all_latch_blocks-keeps sub_loops (insert_latches latches known) a
        (insert_latches-has latches known a (rw h refl))
  latch_blocks-has known (IsLatch.inner {latches} {sub_loops} below) =
      all_latch_blocks-has (insert_latches latches known) below

  all_latch_blocks-has :
      {a : ℕ} {ls : Loops} (known : List ℕ)
      → AnyLatch a ls
      → has (all_latch_blocks ls known) a ≡ true
  all_latch_blocks-has {a} known (AnyLatch.first {l} {more} h) =
      all_latch_blocks-keeps more (latch_blocks l known) a (latch_blocks-has known h)
  all_latch_blocks-has known (AnyLatch.later {l} {more} h) =
      all_latch_blocks-has (latch_blocks l known) h

-- In a function whose polls are inserted, each block has its old instructions, and polls: after each
-- allocation that something follows, and before the terminator of each block that goes back to the
-- head of a loop, also of a loop inside another one.
pub insert_function_polls_lem :
    (f : PolledFunction) (id : ℕ)
    → Placed (has (all_latch_blocks f.loops [])) f.blocks (insert_function_polls f id).0
      × ((a : ℕ) → AnyLatch a f.loops → has (all_latch_blocks f.loops []) a ≡ true)
unfolding insert_function_polls
insert_function_polls_lem f id =
    let start = insert_in_blocks f.blocks id in
    let latches = all_latch_blocks f.loops [] in
    (
      Placed-fewer (λ a. has latches a || false) (has latches) f.blocks
          (insert_latch_polls latches start.0 start.1).0
          (λ a e. sym (sym e ∙ sym (or-false (has latches a))))
          (insert_latch_polls-Placed (λ a. false) latches f.blocks start.0 start.1
            (insert_in_blocks-Placed f.blocks id)),
      λ a h. all_latch_blocks-has [] h,
    )
