-- ===== src/Queue/Valid.antt =====
-- The representation invariant of `queue_str`, kept by each call of queue.c.
use native.Mathlib.Numerals.{add-one}
use fast.Prelude.{
  List, Option, [], ap, arith, drop, inr, length, length-append, length-drop, none, refl, replicate,
  set, some, suc, take, take-append_length, zero, ℕ, ◌++◌, ◌+◌, ◌-◌, ◌<◌, ◌∷◌, ◌≡◌, ◌≤◌, ◌⊎◌,
}
use fast.Prelude.Int.{ℤ}
use fast.Queue.Fifo.{Op, add, clear, get, message, run, size, step, wakeup}
use fast.Queue.{
  Destructor, Message, Queue, make_room, no_message, put, queue_add_with_destructor, queue_clear,
  queue_create, queue_get, queue_shift, queue_take, realloc,
}

module _ {A : Type 0} where
  -- `length` counts the array, and a limited queue stays within its limit.
  pub record IsValid (q : Queue A) : Type 0 where
    pub counted : q.length ≡ length q.messages
    pub bounded : (q.maximal_length ≡ 0) ⊎ (q.length ≤ q.maximal_length)

  drop-nil : (ms : List (Message A)) → length ms ≡ 0 → drop 1 ms ≡ ms
  drop-nil [] e = refl
  drop-nil (m ∷ ms) e = absurd (omega arith)

  -- NULL is no queue, and valid.
  abbrev pub AllValid : Option (Queue A) → Type 0
  AllValid none = Unit {0}
  AllValid (some q) = IsValid q

  pub realloc_self : (ms : List (Message A)) (n : ℕ) → n ≡ length ms → realloc ms n ≡ ms
  realloc_self ms n e = rw e (take-append_length ms (replicate (length ms) no_message))

  set-last :
      (ms rest : List (Message A)) (n : ℕ) (j m : Message A)
      → n ≡ length ms
      → set (take (suc n) (ms ++ j ∷ rest)) n m ≡ ms ++ m ∷ []
  set-last [] rest zero j m e = refl
  set-last [] rest (suc n) j m e = absurd (omega arith)
  set-last (x ∷ ms) rest zero j m e = absurd (omega arith)
  set-last (x ∷ ms) rest (suc n) j m e = ap (λ t. x ∷ t) (set-last ms rest n j m (omega arith))

  -- The new message is behind the old ones.
  pub set-realloc :
      (ms : List (Message A)) (n : ℕ) (m : Message A)
      → n ≡ length ms
      → set (realloc ms (n + 1)) n m ≡ ms ++ (m ∷ [])
  set-realloc ms n m e = rw add-one (set-last ms (replicate n no_message) n no_message m e)

  pub shift-messages : (q : Queue A) → IsValid q → (queue_shift q).messages ≡ drop 1 q.messages
  unfolding queue_shift
  shift-messages q v = ground (
    arith,
    realloc_self (drop 1 q.messages) (q.length - 1),
    length-drop 1 q.messages,
    drop-nil q.messages,
  )

  pub shift-length : (q : Queue A) → (queue_shift q).length ≡ q.length - 1
  unfolding queue_shift
  shift-length q = ground arith

  pub shift-maximal_length : (q : Queue A) → (queue_shift q).maximal_length ≡ q.maximal_length
  unfolding queue_shift
  shift-maximal_length q = ground arith

  pub shift-IsValid : (q : Queue A) → IsValid q → IsValid (queue_shift q)
  shift-IsValid q v =
      ground (
        arith,
        shift-messages q v,
        shift-length q,
        shift-maximal_length q,
        length-drop 1 q.messages,
      )

  pub make_room-IsValid : (q : Queue A) → IsValid q → IsValid (make_room q).0
  unfolding make_room
  make_room-IsValid q v = ground (arith, shift-IsValid q v)

  -- A new message always finds room.
  pub make_room-lt :
      (q : Queue A)
      → IsValid q
      → ((make_room q).0.maximal_length ≡ 0)
        ⊎ ((make_room q).0.length < (make_room q).0.maximal_length)
  unfolding make_room
  make_room-lt q v = ground (arith, shift-length q, shift-maximal_length q)

  pub put-IsValid :
      (q : Queue A) (m : Message A)
      → IsValid q
      → (q.maximal_length ≡ 0) ⊎ (q.length < q.maximal_length)
      → IsValid (put q m).0
  unfolding put
  put-IsValid q m v room =
      ground (arith, set-realloc q.messages q.length m, length-append q.messages (m ∷ []))

  pub add-IsValid :
      (q : Queue A) (event : ℤ) (content : Option A) (f : Option Destructor)
      → IsValid q
      → AllValid (queue_add_with_destructor (some q) event content f).0
  unfolding queue_add_with_destructor
  add-IsValid q event content f v =
      put-IsValid (make_room q).0 (message event content f) (make_room-IsValid q v)
        (make_room-lt q v)

  pub take-IsValid : (q : Queue A) → IsValid q → IsValid (queue_take q).1
  unfolding queue_take
  take-IsValid q v = ground (arith, shift-IsValid q v)

  -- A call keeps the invariant.
  pub step-AllValid : (q : Option (Queue A)) (op : Op A) → AllValid q → AllValid (step q op).1
  unfolding step queue_add_with_destructor queue_get queue_clear
  step-AllValid none (add event content f) v = tt
  step-AllValid none get v = tt
  step-AllValid none clear v = tt
  step-AllValid none wakeup v = tt
  step-AllValid none size v = tt
  step-AllValid (some q) (add event content f) v = add-IsValid q event content f v
  step-AllValid (some q) get v = ground (arith, take-IsValid q v)
  step-AllValid (some q) clear v = ground arith
  step-AllValid (some q) wakeup v = v
  step-AllValid (some q) size v = v

pub run-AllValid :
    {A : Type 0} (q : Option (Queue A)) (ops : List (Op A)) → AllValid q → AllValid (run q ops).1
unfolding run
run-AllValid q [] v = v
run-AllValid q (op ∷ ops) v = run-AllValid (step q op).1 ops (step-AllValid q op v)

-- Any sequence of calls by any threads, from a new queue, leaves the count of the array and the
-- limit in order.
pub create-run-AllValid :
    (A : Type 0) (limit : ℕ) (ops : List (Op A))
    → AllValid (run (some (queue_create A limit)) ops).1
unfolding queue_create
create-run-AllValid A limit ops =
    run-AllValid (some _) ops (record { counted = refl; bounded = inr (omega arith) })
