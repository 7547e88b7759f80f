-- ===== src/Gc/Polls/Inserted.antt =====
-- Where polls are in one block, after they are inserted.
use lona_mvm.Prelude.{ℕ, ◌≡◌, refl, true, List, [], ◌∷◌, ap}
use lona_mvm.Gc.Polls.{
  PolledInstruction, allocation, poll, other_instruction, is_direct_safepoint_poll_call, next_id,
  insert_allocation_polls, insert_before_terminator,
}

-- What follows an allocation is a poll.
abbrev pub FollowsAllocation : List PolledInstruction → Type 0
FollowsAllocation [] = Unit {0}
FollowsAllocation (next ∷ rest) = is_direct_safepoint_poll_call next ≡ true

abbrev pub AllPolled : List PolledInstruction → Type 0
AllPolled [] = Unit {0}
AllPolled (allocation ∷ rest) = FollowsAllocation rest × AllPolled rest
AllPolled (poll id ∷ rest) = AllPolled rest
AllPolled (other_instruction text ∷ rest) = AllPolled rest

-- The terminator follows a poll, if there is one.
abbrev pub EndPolled : List PolledInstruction → Type 0
EndPolled [] = Unit {0}
EndPolled (last ∷ []) = ⊥
EndPolled (i ∷ last ∷ []) = is_direct_safepoint_poll_call i ≡ true
EndPolled (i ∷ j ∷ k ∷ rest) = EndPolled (j ∷ k ∷ rest)

-- The instructions that are no polls.
abbrev pub without_polls : List PolledInstruction → List PolledInstruction
without_polls [] = []
without_polls (poll id ∷ rest) = without_polls rest
without_polls (allocation ∷ rest) = allocation ∷ without_polls rest
without_polls (other_instruction text ∷ rest) = other_instruction text ∷ without_polls rest

pub insert_allocation_polls-AllPolled :
    (is : List PolledInstruction) (id : ℕ) → AllPolled (insert_allocation_polls is id).0
unfolding insert_allocation_polls
insert_allocation_polls-AllPolled [] id = tt
insert_allocation_polls-AllPolled (poll old ∷ rest) id = insert_allocation_polls-AllPolled rest id
insert_allocation_polls-AllPolled (other_instruction text ∷ rest) id =
    insert_allocation_polls-AllPolled rest id
insert_allocation_polls-AllPolled (allocation ∷ []) id = (tt, tt)
insert_allocation_polls-AllPolled (allocation ∷ poll old ∷ rest) id =
    (refl, insert_allocation_polls-AllPolled (poll old ∷ rest) id)
insert_allocation_polls-AllPolled (allocation ∷ allocation ∷ rest) id =
    (refl, insert_allocation_polls-AllPolled (allocation ∷ rest) (next_id id))
insert_allocation_polls-AllPolled (allocation ∷ other_instruction text ∷ rest) id =
    (refl, insert_allocation_polls-AllPolled (other_instruction text ∷ rest) (next_id id))

pub insert_allocation_polls-without_polls :
    (is : List PolledInstruction) (id : ℕ)
    → without_polls (insert_allocation_polls is id).0 ≡ without_polls is
unfolding insert_allocation_polls
insert_allocation_polls-without_polls [] id = refl
insert_allocation_polls-without_polls (poll old ∷ rest) id =
    insert_allocation_polls-without_polls rest id
insert_allocation_polls-without_polls (other_instruction text ∷ rest) id =
    ap (◌∷◌ (other_instruction text)) (insert_allocation_polls-without_polls rest id)
insert_allocation_polls-without_polls (allocation ∷ []) id = refl
insert_allocation_polls-without_polls (allocation ∷ poll old ∷ rest) id =
    ap (◌∷◌ allocation) (insert_allocation_polls-without_polls (poll old ∷ rest) id)
insert_allocation_polls-without_polls (allocation ∷ allocation ∷ rest) id =
    ap (◌∷◌ allocation) (insert_allocation_polls-without_polls (allocation ∷ rest) (next_id id))
insert_allocation_polls-without_polls (allocation ∷ other_instruction text ∷ rest) id =
    ap (◌∷◌ allocation)
      (insert_allocation_polls-without_polls (other_instruction text ∷ rest) (next_id id))

pub insert_before_terminator-AllPolled :
    (id : ℕ) (is : List PolledInstruction)
    → AllPolled is
    → AllPolled (insert_before_terminator id is)
unfolding insert_before_terminator
insert_before_terminator-AllPolled id [] h = tt
insert_before_terminator-AllPolled id (last ∷ []) h = h
insert_before_terminator-AllPolled id (allocation ∷ j ∷ []) h = (refl, h.1)
insert_before_terminator-AllPolled id (allocation ∷ j ∷ k ∷ rest) h =
    (h.0, insert_before_terminator-AllPolled id (j ∷ k ∷ rest) h.1)
insert_before_terminator-AllPolled id (poll old ∷ j ∷ rest) h =
    insert_before_terminator-AllPolled id (j ∷ rest) h
insert_before_terminator-AllPolled id (other_instruction text ∷ j ∷ rest) h =
    insert_before_terminator-AllPolled id (j ∷ rest) h

pub insert_before_terminator-EndPolled :
    (id : ℕ) (is : List PolledInstruction) → EndPolled (insert_before_terminator id is)
unfolding insert_before_terminator
insert_before_terminator-EndPolled id [] = tt
insert_before_terminator-EndPolled id (last ∷ []) = refl
insert_before_terminator-EndPolled id (i ∷ j ∷ []) = refl
insert_before_terminator-EndPolled id (i ∷ j ∷ k ∷ []) = refl
insert_before_terminator-EndPolled id (i ∷ j ∷ k ∷ l ∷ rest) =
    insert_before_terminator-EndPolled id (j ∷ k ∷ l ∷ rest)

pub insert_before_terminator-without_polls :
    (id : ℕ) (is : List PolledInstruction)
    → without_polls (insert_before_terminator id is) ≡ without_polls is
unfolding insert_before_terminator
insert_before_terminator-without_polls id [] = refl
insert_before_terminator-without_polls id (last ∷ []) = refl
insert_before_terminator-without_polls id (poll old ∷ j ∷ rest) =
    insert_before_terminator-without_polls id (j ∷ rest)
insert_before_terminator-without_polls id (allocation ∷ j ∷ rest) =
    ap (◌∷◌ allocation) (insert_before_terminator-without_polls id (j ∷ rest))
insert_before_terminator-without_polls id (other_instruction text ∷ j ∷ rest) =
    ap (◌∷◌ (other_instruction text)) (insert_before_terminator-without_polls id (j ∷ rest))
