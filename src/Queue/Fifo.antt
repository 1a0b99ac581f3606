-- ===== src/Queue/Fifo.antt =====
-- What a queue promises: a list of messages, oldest first, that drops its oldest message when a
-- new one finds it full. The calls of all threads are one sequence of `Op`s.
use fast.Prelude.{
  Bool, List, Option, [], drop, if◌then◌else◌, leb, length, not, ℕ, ◌&&◌, ◌++◌, ◌==◌, ◌∷◌,
}
use fast.Prelude.Int.{ℤ}
use fast.Queue.{
  Destructor, Effect, Message, Queue, broadcast, delete_content, no_message,
  queue_add_with_destructor, queue_clear, queue_get, queue_length, queue_wakeup, signal,
}

pub data Op (A : Type 0) : Type 0 where
  add : ℤ → Option A → Option Destructor → Op A
  get : Op A
  clear : Op A
  wakeup : Op A
  size : Op A

pub data Reply (A : Type 0) : Type 0 where
  effects : List (Effect A) → Reply A
  got : Message A → Reply A
  number : ℕ → Reply A

module _ {A : Type 0} where
  abbrev pub message : ℤ → Option A → Option Destructor → Message A
  message event content f = record { event = event; content = content; data_delete = f }

  -- One call on the queue itself. A `get` that waits is the calls of the others, then a `get`.
  unfoldable pub step : Option (Queue A) → Op A → Reply A × Option (Queue A)
  step q (add event content f) =
      let (r, es) = queue_add_with_destructor q event content f in (effects es, r)
  step q get = let (m, r) = queue_get q (λ r. r) in (got m, r)
  step q clear = let (r, es) = queue_clear q in (effects es, r)
  step q wakeup = (effects (queue_wakeup q), q)
  step q size = (number (queue_length q), q)

  unfoldable pub run : Option (Queue A) → List (Op A) → List (Reply A) × Option (Queue A)
  run q [] = ([], q)
  run q (op ∷ ops) =
      let (reply, r) = step q op in let (replies, s) = run r ops in (reply ∷ replies, s)

  -- the same calls on the list

  abbrev pub delete_all : List (Message A) → List (Effect A)
  delete_all [] = []
  delete_all (m ∷ ms) = delete_content m ++ delete_all ms

  abbrev pub is_full : ℕ → List (Message A) → Bool
  is_full limit ms = not (limit == 0) && leb limit (length ms)

  abbrev pub delete_oldest : List (Message A) → List (Effect A)
  delete_oldest [] = []
  delete_oldest (m ∷ ms) = delete_content m

  abbrev pub room_for : ℕ → List (Message A) → List (Message A)
  room_for limit ms = if is_full limit ms then drop 1 ms else ms

  abbrev pub fifo_step : ℕ → List (Message A) → Op A → Reply A × List (Message A)
  fifo_step limit ms (add event content f) = (
    effects (
        (if is_full limit ms then delete_oldest ms else [])
        ++ (if length (room_for limit ms) == 0 then signal ∷ [] else [])),
    room_for limit ms ++ (message event content f ∷ []),
  )
  fifo_step limit [] get = (got no_message, [])
  fifo_step limit (m ∷ ms) get = (got m, ms)
  fifo_step limit ms clear = (effects (delete_all ms), [])
  fifo_step limit ms wakeup = (effects (broadcast ∷ []), ms)
  fifo_step limit ms size = (number (length ms), ms)

  unfoldable pub fifo_run : ℕ → List (Message A) → List (Op A) → List (Reply A) × List (Message A)
  fifo_run limit ms [] = ([], ms)
  fifo_run limit ms (op ∷ ops) =
      let (reply, ns) = fifo_step limit ms op in
      let (replies, rest) = fifo_run limit ns ops in (reply ∷ replies, rest)
