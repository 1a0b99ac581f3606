-- ===== src/Queue/Refine.antt =====
-- A valid queue answers as the list of its messages does.

use fast.Prelude.{
  List, Option, [], ap, arith, drop, get_or, if◌then◌else◌, length, length-drop, none, refl, some,
  suc, zero, ℕ, ◌<◌, ◌∷◌, ◌≡◌, ◌≢◌,
}
use fast.Queue.{
  Message, Queue, delete_content, delete_contents, make_room, no_message, put,
  queue_add_with_destructor, queue_clear, queue_get, queue_length, queue_take, queue_waits,
  queue_wakeup,
}
use fast.Queue.Fifo.{
  Op, add, clear, delete_all, delete_oldest, fifo_run, fifo_step, get, got, is_full, message,
  room_for, run, size, step, wakeup,
}
use fast.Queue.Valid.{
  AllValid, IsValid, set-realloc, shift-length, shift-maximal_length, shift-messages, step-AllValid,
}

module _ {A : Type 0} where
  abbrev pub contents : Option (Queue A) → List (Message A)
  contents none = []
  contents (some q) = q.messages

  delete_contents-all :
      (n : ℕ) (ms : List (Message A)) → n ≡ length ms → delete_contents n ms ≡ delete_all ms
  unfolding delete_contents
  delete_contents-all n [] e = refl
  delete_contents-all zero (m ∷ ms) e = absurd (omega arith)
  delete_contents-all (suc n) (m ∷ ms) e = ground (arith, delete_contents-all n ms)

  get_or-oldest :
      (ms : List (Message A)) → delete_content (get_or ms 0 no_message) ≡ delete_oldest ms
  get_or-oldest [] = refl
  get_or-oldest (m ∷ ms) = refl

  take-none :
      (limit : ℕ) (ms : List (Message A))
      → length ms ≡ 0
      → (got no_message, ms) ≡ fifo_step limit ms get
  take-none limit [] e = refl
  take-none limit (m ∷ ms) e = absurd (omega arith)

  take-oldest :
      (limit : ℕ) (ms : List (Message A))
      → length ms ≢ 0
      → (got (get_or ms 0 no_message), drop 1 ms) ≡ fifo_step limit ms get
  take-oldest limit [] e = absurd (e refl)
  take-oldest limit (m ∷ ms) e = refl

  -- what each part of `queue_add_with_destructor` does to a valid queue
  make_room_lem :
      (q : Queue A)
      → IsValid q
      → ((make_room q).0.messages ≡ room_for q.maximal_length q.messages)
        × ((make_room q).0.length ≡ length (room_for q.maximal_length q.messages))
        × ((make_room q).1
            ≡ (if is_full q.maximal_length q.messages then delete_oldest q.messages else []))
  unfolding make_room
  make_room_lem q v = ground (
    arith,
    shift-messages q v,
    shift-length q,
    length-drop 1 q.messages,
    get_or-oldest q.messages,
  )

  take_lem :
      (q : Queue A)
      → IsValid q
      → let (m, r) = queue_take q in (got m, r.messages) ≡ fifo_step q.maximal_length q.messages get
  unfolding queue_take
  take_lem q v = ground (
    arith,
    shift-messages q v,
    take-oldest q.maximal_length q.messages,
    take-none q.maximal_length q.messages,
  )

  pub step_refines :
      (q : Queue A) (op : Op A)
      → IsValid q
      → let (reply, r) = step (some q) op in
        (reply, contents r) ≡ fifo_step q.maximal_length q.messages op
  unfolding step queue_add_with_destructor put queue_get queue_clear queue_length queue_wakeup
  step_refines q (add event content f) v = ground (
    arith,
    make_room_lem q v,
    set-realloc (make_room q).0.messages (make_room q).0.length (message event content f),
  )
  step_refines q get v = ground (arith, take_lem q v)
  step_refines q clear v = ground (arith, delete_contents-all q.length q.messages)
  step_refines q wakeup v = refl
  step_refines q size v = ground (arith)

  pub step-maximal_length :
      (q : Queue A) (op : Op A)
      → (r : Queue A) × ((step (some q) op).1 ≡ some r) × (r.maximal_length ≡ q.maximal_length)
  unfolding step queue_add_with_destructor put make_room queue_get queue_take queue_clear
  step-maximal_length q (add event content f) = (_, refl, ground (arith, shift-maximal_length q))
  step-maximal_length q get = (_, refl, ground (arith, shift-maximal_length q))
  step-maximal_length q clear = (_, refl, refl)
  step-maximal_length q wakeup = (_, refl, refl)
  step-maximal_length q size = (_, refl, refl)

  -- Whatever calls the threads make, and in whatever order, a valid queue gives the replies of the
  -- bounded list of its messages and is left holding that list.
  pub run_refines :
      (q : Queue A) (ops : List (Op A))
      → IsValid q
      → let (replies, r) = run (some q) ops in
        (replies, contents r) ≡ fifo_run q.maximal_length q.messages ops
  unfolding run fifo_run
  run_refines q [] v = refl
  run_refines q (op ∷ ops) v =
      let (r, e, same) = step-maximal_length q op in
      let valid : AllValid (some r) = rw e at (step-AllValid (some q) op v) in
      ground (arith, step_refines q op v, e, same, run_refines r ops valid)

  -- A `queue_get` that finds the queue empty and has a timeout returns what a `get` returns on the
  -- queue `r` that the others leave while it waits.
  pub get-wait :
      (q r : Queue A)
      → IsValid q
      → q.messages ≡ []
      → 0 < q.timeout
      → queue_get (some q) (λ _. r) ≡ queue_get (some r) (λ s. s)
  unfolding queue_get queue_waits
  get-wait q r v e t = ground (arith, ap length e)
