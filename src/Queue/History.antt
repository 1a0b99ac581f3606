-- ===== src/Queue/History.antt =====
-- Where the messages of a queue go: each one is still there, or has been handed to a caller of
-- `queue_get`, or has been given to its destructor.

use fast.Queue.Valid.{AllValid, IsValid, step-AllValid}
use fast.Queue.Refine.{contents, step-maximal_length, step_refines}
use fast.Prelude.{
  List, [], ap, append-nil, append_assoc, arith, drop, if◌then◌else◌, none, refl, some, take,
  take-append-drop, ℕ, ◌++◌, ◌∷◌, ◌≡◌, ◌⊎◌,
}
use fast.Queue.{Effect, Message, Queue, broadcast, delete, no_message, signal}
use fast.Queue.Fifo.{
  Op, Reply, add, clear, delete_all, effects, fifo_step, get, got, is_full, message, number, run,
  size, step, wakeup,
}

module _ {A : Type 0} where
  abbrev pub entered : List (Op A) → List (Message A)
  entered [] = []
  entered (add event content f ∷ ops) = message event content f ∷ entered ops
  entered (op ∷ ops) = entered ops

  -- what one call takes out of the queue
  abbrev pub removed : ℕ → List (Message A) → Op A → List (Message A)
  removed limit ms (add event content f) = if is_full limit ms then take 1 ms else []
  removed limit ms get = take 1 ms
  removed limit ms clear = ms
  removed limit ms wakeup = []
  removed limit ms size = []

  -- what a sequence of calls takes out, in order
  unfoldable pub removed_all : Queue A → List (Op A) → List (Message A)
  removed_all q [] = []
  removed_all q (op ∷ ops) =
      removed q.maximal_length q.messages op
      ++ (elim (step (some q) op).1 [ none ↦ [] | some r ↦ removed_all r ops ])

  abbrev pub deletes : List (Effect A) → List (Effect A)
  deletes [] = []
  deletes (delete f a ∷ es) = delete f a ∷ deletes es
  deletes (signal ∷ es) = deletes es
  deletes (broadcast ∷ es) = deletes es

  -- How a reply accounts for the messages that its call took out.
  abbrev pub Accounts : List (Message A) → Reply A → Type 0
  Accounts ms (effects es) = deletes es ≡ delete_all ms
  Accounts ms (got m) = (ms ≡ m ∷ []) ⊎ (ms ≡ []) × (m ≡ no_message)
  Accounts ms (number n) = ms ≡ []

  drop-take : (ms : List (Message A)) → take 1 ms ++ drop 1 ms ≡ ms
  drop-take ms = take-append-drop 1 ms

  fifo_step-history :
      (limit : ℕ) (ms : List (Message A)) (op : Op A)
      → removed limit ms op ++ (fifo_step limit ms op).1 ≡ ms ++ entered (op ∷ [])
  fifo_step-history limit ms (add event content f) =
      ground
        (arith, append_assoc (take 1 ms) (drop 1 ms) (message event content f ∷ []), drop-take ms)
  fifo_step-history limit [] get = refl
  fifo_step-history limit (m ∷ ms) get = rw append-nil
  fifo_step-history limit ms clear = refl
  fifo_step-history limit ms wakeup = rw append-nil
  fifo_step-history limit ms size = rw append-nil

  -- First in, first out, and nothing is lost or doubled: what the calls took out of a valid queue,
  -- followed by what is still in it, is what was in it followed by what the calls added.
  pub removed_all-history :
      (q : Queue A) (ops : List (Op A))
      → IsValid q
      → removed_all q ops ++ contents (run (some q) ops).1 ≡ q.messages ++ entered ops
  unfolding removed_all run
  removed_all-history q [] v = rw append-nil
  removed_all-history q (op ∷ ops) v =
      let (r, e, same) = step-maximal_length q op in
      let valid : AllValid (some r) = rw e at (step-AllValid (some q) op v) in
      let after : r.messages ≡ (fifo_step q.maximal_length q.messages op).1 =
        ground (arith, step_refines q op v, e) in
      rw e (
        rw
          (
            append_assoc,
            removed_all-history r ops valid,
            ← append_assoc,
            after,
            fifo_step-history q.maximal_length q.messages op,
            append_assoc,
          )
          (ap (λ t. q.messages ++ t) (entered-cons op ops)))
    where
      entered-cons :
          (op : Op A) (ops : List (Op A)) → entered (op ∷ []) ++ entered ops ≡ entered (op ∷ ops)
      entered-cons (add event content f) ops = refl
      entered-cons get ops = refl
      entered-cons clear ops = refl
      entered-cons wakeup ops = refl
      entered-cons size ops = refl
