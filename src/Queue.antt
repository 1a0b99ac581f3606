-- ===== src/Queue.antt =====
-- queue.c and queue.h: the message queue between the main loop, the grabber and the storage thread.
-- The mutex makes each call one atomic step, so what the threads do is a sequence of `Op`s; the one
-- point at which a call gives the mutex up is the wait of `queue_get`.
pub mod Fifo
pub mod Valid
pub mod Refine
pub mod History
pub mod Deadline
mod Tests
use fast.Prelude.{
  ℕ, ◌+◌, ◌-◌, ◌*◌, ◌/◌, ◌%◌, Bool, true, false, not, ◌&&◌, Option, none, some, List, [], ◌∷◌, ◌++◌,
  if◌then◌else◌, ltb, leb, ◌==◌, drop, take, set, get_or, replicate,
}
use fast.Prelude.Int.{ℤ, pos, negsuc}

-- `void (*data_delete)(void *)`: the two functions that the program passes, and any other.
pub data Destructor : Type 0 where
  free image_delete : Destructor
  other : ℕ → Destructor

-- `queue_message_str`; `A` is what `data` points to, and `none` is NULL.
pub record Message (A : Type 0) : Type 0 where
  pub event : ℤ
  pub content : Option A
  pub data_delete : Option Destructor

-- What a call does outside the structure.
pub data Effect (A : Type 0) : Type 0 where
  delete : Destructor → A → Effect A
  signal broadcast : Effect A

-- `queue_str` with its array. `maximal_length` is 0 or positive, `timeout` is in milliseconds.
pub record Queue (A : Type 0) : Type 0 where
  pub maximal_length : ℕ
  pub length : ℕ
  pub timeout : ℕ
  pub messages : List (Message A)

module _ {A : Type 0} where
  -- `{-1, NULL}`; C sets the field that is left out to NULL.
  abbrev pub no_message : Message A
  no_message = record { event = negsuc 0; content = none; data_delete = none }

  -- `realloc` to `n` elements keeps the first ones; a new one is indeterminate.
  abbrev pub realloc : List (Message A) → ℕ → List (Message A)
  realloc ms n = take n (ms ++ replicate n no_message)

  -- `if(m.data_delete && m.data) m.data_delete(m.data)`
  abbrev pub delete_content : Message A → List (Effect A)
  delete_content m = elim m.data_delete [
    | none ↦ []
    | some f ↦ elim m.content [ none ↦ [] | some a ↦ delete f a ∷ [] ]
  ]

  -- the loop `for(d = 0; d < n; d++)` of `queue_clear`, from the element that `ms` begins with
  pub delete_contents : ℕ → List (Message A) → List (Effect A)
  delete_contents n [] = []
  delete_contents n (m ∷ ms) = if n == 0 then [] else delete_content m ++ delete_contents (n - 1) ms

  pub queue_shift : Queue A → Queue A
  queue_shift q =
      if q.length == 0
      then q
      else record q { length = q.length - 1; messages = realloc (drop 1 q.messages) (q.length - 1) }

unfoldable pub queue_create : (A : Type 0) → ℕ → Queue A
queue_create A n = record { maximal_length = n; length = 0; timeout = 100; messages = [] }

module _ {A : Type 0} where
  -- A call on NULL does nothing.
  pub queue_clear : Option (Queue A) → Option (Queue A) × List (Effect A)
  unfolding delete_contents
  queue_clear none = (none, [])
  queue_clear (some q) =
      (some (record q { length = 0; messages = [] }), delete_contents q.length q.messages)

  -- The queue is freed: what is left is what was done with its messages.
  pub queue_delete : Option (Queue A) → List (Effect A)
  unfolding queue_clear
  queue_delete none = []
  queue_delete (some q) = (queue_clear (some q)).1

  pub queue_wakeup : Option (Queue A) → List (Effect A)
  queue_wakeup none = []
  queue_wakeup (some q) = broadcast ∷ []

  -- the room made for a new message, with what became of the oldest one
  pub make_room : Queue A → Queue A × List (Effect A)
  unfolding queue_shift
  make_room q =
      if not (q.maximal_length == 0) && leb q.maximal_length q.length
      then (queue_shift q, delete_content (get_or q.messages 0 no_message))
      else (q, [])

  -- the new message at the tail
  pub put : Queue A → Message A → Queue A × List (Effect A)
  put q m = (
    record q {
      length = q.length + 1;
      messages = set (realloc q.messages (q.length + 1)) q.length m;
    },
    if q.length + 1 == 1 then signal ∷ [] else [],
  )

  unfoldable pub queue_add_with_destructor :
      Option (Queue A) → ℤ → Option A → Option Destructor → Option (Queue A) × List (Effect A)
  unfolding make_room put
  queue_add_with_destructor none event content f = (none, [])
  queue_add_with_destructor (some q) event content f =
      let (r, gone) = make_room q in
      let (s, woken) = put r (record { event = event; content = content; data_delete = f }) in
      (some s, gone ++ woken)

  unfoldable pub queue_add : Option (Queue A) → ℤ → Option A → Option (Queue A) × List (Effect A)
  unfolding queue_add_with_destructor
  queue_add q event content = queue_add_with_destructor q event content (some free)

  -- `queue_get` once it has the mutex for good
  pub queue_take : Queue A → Message A × Queue A
  unfolding queue_shift
  queue_take q =
      if q.length == 0 then (no_message, q) else (get_or q.messages 0 no_message, queue_shift q)

  -- Whether `queue_get` gives the mutex up, to wait for a signal, the deadline or a wakeup.
  pub queue_waits : Queue A → Bool
  queue_waits q = (q.length == 0) && ltb 0 q.timeout

  -- `others` is what the other threads do to the queue while this call waits.
  pub queue_get : Option (Queue A) → (Queue A → Queue A) → Message A × Option (Queue A)
  unfolding queue_take queue_waits
  queue_get none others = (no_message, none)
  queue_get (some q) others =
      let (m, r) = queue_take (if queue_waits q then others q else q) in (m, some r)

  pub queue_length : Option (Queue A) → ℕ
  queue_length none = 0
  queue_length (some q) = q.length

-- The deadline of the wait, from the time of day (seconds, microseconds) and a timeout in
-- milliseconds: `tv_sec` and `tv_nsec` of the `timespec`.
pub queue_deadline : ℕ → ℕ → ℕ → ℕ × ℕ
queue_deadline sec usec timeout = (sec + timeout / 1000, 1000 * usec + 1_000_000 * (timeout % 1000))
