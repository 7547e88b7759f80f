-- ===== src/Gc/Polls/Tests.antt =====
-- A function with two allocations in a loop.
use lona_mvm.Prelude.{ℕ, ◌≡◌, refl, true, has, [], ◌∷◌}
use lona_mvm.Gc.Polls.{
  PolledFunction, Loop, Loops, allocation, poll, other_instruction, all_latch_blocks, latch_blocks,
  insert_allocation_polls, insert_in_blocks, insert_before_terminator, insert_latch_poll,
  insert_latch_polls, insert_function_polls, insert_managed_safepoint_polls,
}
use lona_mvm.Gc.Polls.Placed.{Placed, AnyLatch, insert_function_polls_lem}

abbrev function : PolledFunction
function = record {
  is_managed = true;
  blocks =
      record { address = 10; instructions = other_instruction 1 ∷ [] }
      ∷ record {
        address = 11;
        instructions = allocation ∷ allocation ∷ poll 9 ∷ other_instruction 2 ∷ [];
      }
      ∷ [];
  loops = Loops.one_more (Loop.loop (11 ∷ []) Loops.no_loops) Loops.no_loops;
}

polls_test :
    insert_managed_safepoint_polls (function ∷ []) 1
    ≡ (record { address = 10; instructions = other_instruction 1 ∷ [] }
        ∷ record {
          address = 11;
          instructions =
              allocation ∷ poll 1 ∷ allocation ∷ poll 9 ∷ poll 2 ∷ other_instruction 2 ∷ [];
        }
        ∷ [])
      ∷ []
unfolding insert_managed_safepoint_polls insert_function_polls insert_in_blocks
    insert_allocation_polls insert_latch_polls insert_latch_poll insert_before_terminator
    all_latch_blocks latch_blocks
polls_test = refl

insert_function_polls_lem_example :
    Placed
      (has (all_latch_blocks function.loops []))
      function.blocks
      (insert_function_polls function 1).0
    × ((a : ℕ) → AnyLatch a function.loops → has (all_latch_blocks function.loops []) a ≡ true)
insert_function_polls_lem_example = insert_function_polls_lem function 1
