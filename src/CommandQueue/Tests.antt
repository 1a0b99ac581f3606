-- ===== src/CommandQueue/Tests.antt =====
-- A queue of three commands, and the theorems at it. Timeouts are in seconds here, and a command
-- is late when its timeout is below the second of the day.
use fast.Prelude.{
  Bool, [], codes, false, if◌then◌else◌, length, ltb, none, not, refl, some, str_eq, true, ℕ, ◌+◌,
  ◌==◌, ◌∷◌, ◌≡◌,
}
use fast.Time.{TimeStr, time_zero}
use fast.CommandQueue.{
  CommandQueue, CommandSent, command_queue_check, is_connection, command_queue_contains,
  command_queue_done, command_queue_failure, command_queue_remove,
  command_queue_remove_with_connection, connection_message, free_string,
}
use fast.CommandQueue.Sweep.{
  called, check-keep, freed, gather, handled, keep, sent_to, timeout_text,
}
use fast.CommandQueue.Contains.{contains-remove}
use fast.CommandQueue.Strings.{others, picked, strings, strings-freed}

abbrev late : TimeStr → ℕ → TimeStr → Bool
late sent timeout now = ltb (sent.second + timeout) now.second

abbrev open_shutter : CommandSent ℕ
open_shutter = record {
  connection = some 4;
  name = codes "open";
  time = time_zero;
  timeout = 10;
  prefix = some (codes "ch1");
}

abbrev focus : CommandSent ℕ
focus = record {
  connection = none;
  name = codes "focus";
  time = time_zero;
  timeout = 90;
  prefix = none;
}

abbrev cq : CommandQueue ℕ
cq = record {
  commands_sent = open_shutter ∷ focus ∷ open_shutter ∷ [];
  has_handler = true;
  has_timeout_callback = false;
}

abbrev now : TimeStr
now = record time_zero { second = 30 }

done-open : command_queue_done cq (codes "open") ≡ (
  record cq { commands_sent = focus ∷ [] },
  2,
  connection_message 4 (codes "ch1___open_done")
      ∷ free_string (codes "open")
      ∷ connection_message 4 (codes "ch1___open_done")
      ∷ free_string (codes "open")
      ∷ [],
)
unfolding command_queue_done
done-open = refl

check-keep_example :
    let picks : CommandSent ℕ → Bool = λ c. late c.time c.timeout now in
    let (cq', removed, events) = command_queue_check late cq now in
    (cq' ≡ record cq { commands_sent = keep (λ c. not (picks c)) cq.commands_sent })
    × (removed ≡ length (keep picks cq.commands_sent))
    × (gather (sent_to 4) events
        ≡ gather
            (λ c. elim c.connection [
              | none ↦ []
              | some own ↦ if own == 4 then timeout_text c ∷ [] else []
            ])
            (keep picks cq.commands_sent))
    × (gather handled events
        ≡ gather
            (λ c. elim c.connection [
              | none ↦ if cq.has_handler then timeout_text c ∷ [] else []
              | some own ↦ []
            ])
            (keep picks cq.commands_sent))
    × (gather called events
        ≡ gather
            (λ c. if cq.has_timeout_callback then c.name ∷ [] else [])
            (keep picks cq.commands_sent))
check-keep_example = check-keep late cq now 4

contains-remove_example :
    let left : ℕ =
      if str_eq (codes "open") (codes "focus")
      then 0
      else command_queue_contains cq (codes "focus") in
    (command_queue_contains (command_queue_done cq (codes "open")).0 (codes "focus") ≡ left)
    × (command_queue_contains (command_queue_failure cq (codes "open")).0 (codes "focus") ≡ left)
    × (command_queue_contains (command_queue_remove cq (codes "open")).0 (codes "focus") ≡ left)
contains-remove_example = contains-remove cq (codes "open") (codes "focus")

strings-freed_example :
    let named : CommandSent ℕ → Bool = λ c. str_eq c.name (codes "open") in
    let owned : CommandSent ℕ → Bool = λ c. is_connection c.connection 4 in
    let timed_out : CommandSent ℕ → Bool = λ c. late c.time c.timeout now in
    let (c1, n1, e1) = command_queue_failure cq (codes "open") in
    let (c2, n2, e2) = command_queue_remove cq (codes "open") in
    let (c3, n3, e3) = command_queue_remove_with_connection cq 4 in
    let (c4, n4, e4) = command_queue_check late cq now in
    (c1.commands_sent ≡ others named cq)
    × (gather freed e1 ≡ gather strings (picked named cq))
    × (c2.commands_sent ≡ others named cq)
    × (gather freed e2 ≡ gather strings (picked named cq))
    × (c3.commands_sent ≡ others owned cq)
    × (gather freed e3 ≡ gather strings (picked owned cq))
    × (c4.commands_sent ≡ others timed_out cq)
    × (gather freed e4 ≡ gather strings (picked timed_out cq))
strings-freed_example = strings-freed late cq (codes "open") 4 now
