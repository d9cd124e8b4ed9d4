-- ===== src/Examples/QueueExamples.antt =====
-- Tests of crates/zerem-core/src/queue.rs.
use zerem.Prelude.{true, false, List, [], ◌∷◌, ◌≡◌, refl, arith}
use zerem.Prelude.Int.{pos, negsuc}
use zerem.Queue.{Waiting, queue_order, admit}
use zerem.Queue.Admission.{admit-eq-entitled, entitled_ids}

abbrev seed_and_three : List Waiting
seed_and_three =
    record { id = 1; position = pos 5; wanted = true; complete = false }
    ∷ record { id = 2; position = pos 0; wanted = true; complete = false }
    ∷ record { id = 3; position = negsuc 0; wanted = true; complete = true }
    ∷ record { id = 4; position = pos 9; wanted = false; complete = false }
    ∷ record { id = 5; position = pos 9; wanted = true; complete = false }
    ∷ []

-- The seed of position -1 runs, and the one slot goes to the lowest position.
admit_one_slot : admit seed_and_three 1 ≡ 3 ∷ 2 ∷ []
unfolding admit
admit_one_slot = refl

admit_unlimited : admit seed_and_three 0 ≡ 3 ∷ 2 ∷ 1 ∷ 5 ∷ []
unfolding admit
admit_unlimited = refl

admit-eq-entitled_example : admit seed_and_three 2 ≡ entitled_ids 2 [] (queue_order seed_and_three)
admit-eq-entitled_example = admit-eq-entitled seed_and_three 2 (omega arith)
