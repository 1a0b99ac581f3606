-- ===== src/CommandQueue/Contains.antt =====
-- What `command_queue_contains` answers after each change of the queue.
use fast.Prelude.{
  Bytes, List, Option, [], ap, arith, if◌then◌else◌, not, refl, str_eq, str_eq_refl, str_eq→eq, ℕ,
  ◌++◌, ◌∙◌, ◌∷◌, ◌≡◌,
}
use fast.Time.{TimeStr}
use fast.CommandQueue.{
  CommandQueue, CommandSent, Event, command_queue_add_with_prefix, command_queue_contains,
  command_queue_done, command_queue_failure, command_queue_remove, contains_from, free_command,
  sweep,
}
use fast.CommandQueue.Sweep.{keep, sweep-keep}

module _ {Seconds : Type 0} where
  contains-keep :
      (name other : Bytes) (cs : List (CommandSent Seconds))
      → contains_from (keep (λ c. not (str_eq c.name name)) cs) other
        ≡ (if str_eq name other then 0 else contains_from cs other)
  unfolding contains_from
  contains-keep name other [] = ground arith
  contains-keep name other (c ∷ cs) = ground (
    arith,
    contains-keep name other cs,
    str_eq→eq c.name name,
    str_eq→eq c.name other,
    str_eq→eq name other,
    str_eq_refl name,
    str_eq_refl c.name,
    str_eq_refl other,
  )

  contains-sweep :
      (name other : Bytes) (act : CommandSent Seconds → List Event)
      (cs : List (CommandSent Seconds))
      → contains_from (sweep (λ c. str_eq c.name name) act cs).0 other
        ≡ (if str_eq name other then 0 else contains_from cs other)
  contains-sweep name other act cs =
      ap (λ t. contains_from t.0 other) (sweep-keep (λ c. str_eq c.name name) act cs)
      ∙ contains-keep name other cs

  -- After a command is reported as done, reported as failed or removed, none of its name is
  -- awaited, and it is the same for every other name as before.
  pub contains-remove :
      (cq : CommandQueue Seconds) (name other : Bytes)
      → let left : ℕ = if str_eq name other then 0 else command_queue_contains cq other in
        (command_queue_contains (command_queue_done cq name).0 other ≡ left)
        × (command_queue_contains (command_queue_failure cq name).0 other ≡ left)
        × (command_queue_contains (command_queue_remove cq name).0 other ≡ left)
  unfolding command_queue_contains command_queue_done command_queue_failure command_queue_remove
  contains-remove cq name other = (
    contains-sweep name other _ cq.commands_sent,
    contains-sweep name other _ cq.commands_sent,
    contains-sweep name other free_command cq.commands_sent,
  )

  contains-append :
      (cs : List (CommandSent Seconds)) (c : CommandSent Seconds) (other : Bytes)
      → contains_from (cs ++ (c ∷ [])) other
        ≡ (if str_eq c.name other then 1 else contains_from cs other)
  unfolding contains_from
  contains-append [] c other = refl
  contains-append (d ∷ cs) c other = ground (arith, contains-append cs c other)

  -- A command that was added is awaited, and it is the same for every other name as before.
  pub contains-add :
      (cq : CommandQueue Seconds) (conn : Option ℕ) (name other : Bytes) (timeout : Seconds)
      (prefix : Option Bytes) (now : TimeStr)
      → command_queue_contains (command_queue_add_with_prefix cq conn name timeout prefix now) other
        ≡ (if str_eq name other then 1 else command_queue_contains cq other)
  unfolding command_queue_contains command_queue_add_with_prefix
  contains-add cq conn name other timeout prefix now = contains-append cq.commands_sent _ other
