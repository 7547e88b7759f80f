-- ===== src/Gc/Polls.antt =====
-- gc.cc: where the polls of safepoints are inserted. Of an instruction it counts whether it is a call
-- of an allocator or a call of the poll.
pub mod Inserted
pub mod Placed
mod Tests
use lona_mvm.Prelude.{
  ℕ, zero, suc, ◌+◌, ◌%◌, ◌^◌, Bool, true, false, not, ◌||◌, List, [], ◌∷◌, ◌++◌, if◌then◌else◌,
  ◌==◌, has,
}
use lona_mvm.Memory.Words.{word}

pub data PolledInstruction : Type 0 where
  allocation : PolledInstruction
  poll : (statepoint_id : ℕ) → PolledInstruction
  other_instruction : (text : ℕ) → PolledInstruction

pub record PolledBlock : Type 0 where
  pub address : ℕ
  pub instructions : List PolledInstruction

-- The loops of a function, with the blocks that go back to their heads.
mutual
  pub data Loop : Type 0 where
    loop : (latches : List ℕ) (sub_loops : Loops) → Loop

  pub data Loops : Type 0 where
    no_loops : Loops
    one_more : Loop → Loops → Loops

pub record PolledFunction : Type 0 where
  pub is_managed : Bool
  pub blocks : List PolledBlock
  pub loops : Loops

abbrev pub is_direct_safepoint_poll_call : PolledInstruction → Bool
is_direct_safepoint_poll_call (poll id) = true
is_direct_safepoint_poll_call _ = false

abbrev pub next_id : ℕ → ℕ
next_id id = (id + 1) % word

-- A poll after each allocation of a block that something follows, unless that is a poll.
unfoldable pub insert_allocation_polls :
    List PolledInstruction → (id : ℕ) → List PolledInstruction × ℕ
insert_allocation_polls [] id = ([], id)
insert_allocation_polls (poll old ∷ rest) id =
    let (more, end) = insert_allocation_polls rest id in (poll old ∷ more, end)
insert_allocation_polls (other_instruction text ∷ rest) id =
    let (more, end) = insert_allocation_polls rest id in (other_instruction text ∷ more, end)
insert_allocation_polls (allocation ∷ []) id = (allocation ∷ [], id)
insert_allocation_polls (allocation ∷ next ∷ rest) id =
    let insert = not (is_direct_safepoint_poll_call next) in
    let (more, end) = insert_allocation_polls (next ∷ rest) (if insert then next_id id else id) in
    (if insert then allocation ∷ poll id ∷ more else allocation ∷ more, end)

unfoldable pub insert_in_blocks : List PolledBlock → (id : ℕ) → List PolledBlock × ℕ
insert_in_blocks [] id = ([], id)
insert_in_blocks (b ∷ bs) id =
    let (instructions, next) = insert_allocation_polls b.instructions id in
    let (more, end) = insert_in_blocks bs next in
    (record { address = b.address; instructions = instructions } ∷ more, end)

abbrev pub insert_latches : List ℕ → List ℕ → List ℕ
insert_latches [] known = known
insert_latches (l ∷ ls) known = insert_latches ls (if has known l then known else known ++ l ∷ [])

-- The set of the latches of all loops and those inside them. The order of such a set is not fixed;
-- here it is that of the nest.
unfoldable mutual
  pub latch_blocks : Loop → List ℕ → List ℕ
  latch_blocks (loop latches sub_loops) known =
      all_latch_blocks sub_loops (insert_latches latches known)

  pub all_latch_blocks : Loops → List ℕ → List ℕ
  all_latch_blocks no_loops known = known
  all_latch_blocks (one_more l more) known = all_latch_blocks more (latch_blocks l known)

-- Before the last instruction, the terminator.
unfoldable pub insert_before_terminator : (id : ℕ) → List PolledInstruction → List PolledInstruction
insert_before_terminator id [] = []
insert_before_terminator id (last ∷ []) = poll id ∷ last ∷ []
insert_before_terminator id (i ∷ j ∷ rest) = i ∷ insert_before_terminator id (j ∷ rest)

unfoldable pub insert_latch_poll : (id latch : ℕ) → List PolledBlock → List PolledBlock
insert_latch_poll id latch [] = []
insert_latch_poll id latch (b ∷ bs) =
    (if b.address == latch
      then record { address = b.address; instructions = insert_before_terminator id b.instructions }
      else b)
    ∷ insert_latch_poll id latch bs

unfoldable pub insert_latch_polls : List ℕ → List PolledBlock → (id : ℕ) → List PolledBlock × ℕ
insert_latch_polls [] blocks id = (blocks, id)
insert_latch_polls (l ∷ ls) blocks id =
    insert_latch_polls ls (insert_latch_poll id l blocks) (next_id id)

unfoldable pub insert_function_polls : PolledFunction → (id : ℕ) → List PolledBlock × ℕ
insert_function_polls f id =
    let (blocks, next) = insert_in_blocks f.blocks id in
    insert_latch_polls (all_latch_blocks f.loops []) blocks next

-- The functions with their blocks, from the first free id on.
unfoldable pub insert_managed_safepoint_polls :
    List PolledFunction → (id : ℕ) → List (List PolledBlock)
insert_managed_safepoint_polls [] id = []
insert_managed_safepoint_polls (f ∷ fs) id =
    let (blocks, next) = insert_function_polls f id in
    let polled = insert_managed_safepoint_polls fs next in
    let plain = insert_managed_safepoint_polls fs id in
    if f.is_managed then blocks ∷ polled else f.blocks ∷ plain
