-- ===== src/Queue/Tests.antt =====
-- Runs of the queue, and its theorems at concrete queues.
use fast.Prelude.{
  List, [], arith, inr, none, refl, some, ℕ, ◌%◌, ◌*◌, ◌++◌, ◌+◌, ◌<◌, ◌↔◌, ◌∷◌, ◌≡◌,
}
use fast.Prelude.Int.{pos}
use fast.Queue.{
  Message, Queue, delete, free, image_delete, no_message, queue_add_with_destructor, queue_clear,
  queue_create, queue_deadline, queue_get, queue_length,
}
use fast.Queue.Fifo.{Op, add, clear, effects, fifo_run, get, got, message, number, run, size, step}
use fast.Queue.Valid.{AllValid, IsValid, create-run-AllValid}
use fast.Queue.Refine.{contents, run_refines}
use fast.Queue.History.{removed_all, removed_all-history}
use fast.Queue.Deadline.{queue_deadline_lem}

abbrev first : Message ℕ
first = message (pos 10) (some 7) (some image_delete)

abbrev second : Message ℕ
second = message (pos 21) none (some free)

-- a queue of two messages, full
abbrev full : Queue ℕ
full = record { maximal_length = 2; length = 2; timeout = 1000; messages = first ∷ second ∷ [] }

abbrev script : List (Op ℕ)
script = add (pos 10) (some 8) (some image_delete) ∷ get ∷ size ∷ clear ∷ get ∷ []

full-IsValid : IsValid full
full-IsValid = record { counted = refl; bounded = inr (omega arith) }

run-full :
    (run (some full) script).0
    ≡ effects (delete image_delete 7 ∷ [])
      ∷ got second
      ∷ number 1
      ∷ effects (delete image_delete 8 ∷ [])
      ∷ got no_message
      ∷ []
unfolding run step queue_add_with_destructor queue_get queue_clear queue_length
run-full = refl

create-run-AllValid_example : AllValid (run (some (queue_create ℕ 2)) script).1
create-run-AllValid_example = create-run-AllValid ℕ 2 script

run_refines_example :
    let (replies, r) = run (some full) script in
    (replies, contents r) ≡ fifo_run 2 (first ∷ second ∷ []) script
run_refines_example = run_refines full script full-IsValid

removed_all-history_example :
    removed_all full script ++ contents (run (some full) script).1
    ≡ first ∷ second ∷ message (pos 10) (some 8) (some image_delete) ∷ []
removed_all-history_example = removed_all-history full script full-IsValid

-- the default timeout, 950 ms into a second
queue_deadline_lem_example :
    let (s, ns) = queue_deadline 5 950_000 100 in
    (s * 1_000_000_000 + ns ≡ (5 * 1_000_000 + 950_000) * 1000 + 100 * 1_000_000)
    × ((ns < 1_000_000_000) ↔ (950_000 + 1000 * (100 % 1000) < 1_000_000))
queue_deadline_lem_example = queue_deadline_lem 5 950_000 100
