-- ===== src/CommandQueue.antt =====
-- command_queue.c: the commands that await a reply. The linked list is the list of its elements in
-- the order of `foreach`, to which `add_to_list_end` adds behind the last. The handlers that the
-- client registers are taken to leave the queue alone while it is being walked.
--
-- `Seconds` is the double of a timeout, and `expired sent timeout now` stands for
-- `time_interval(sent, now) > 1e3*timeout`, computed in double precision.
pub mod Sweep
pub mod Contains
pub mod Strings
mod Tests
use fast.Prelude.{
  Bool, Bytes, List, Option, [], codes, false, if◌then◌else◌, none, some, str_eq, true, ℕ, ◌++◌,
  ◌+◌, ◌==◌, ◌∷◌,
}
use fast.Time.{TimeStr}

-- `command_sent_str`; a connection is named by its address.
pub record CommandSent (Seconds : Type 0) : Type 0 where
  pub connection : Option ℕ
  pub name : Bytes
  pub time : TimeStr
  pub timeout : Seconds
  pub prefix : Option Bytes

-- `command_queue_str`: whether the two callbacks are set.
pub record CommandQueue (Seconds : Type 0) : Type 0 where
  pub commands_sent : List (CommandSent Seconds)
  pub has_handler : Bool
  pub has_timeout_callback : Bool

-- What a call does outside the queue.
pub data Event : Type 0 where
  connection_message : ℕ → Bytes → Event
  handler_message : Bytes → Event
  timeout_call : Bytes → Event
  free_string : Bytes → Event

module _ {Seconds : Type 0} where
  -- `make_string("%s___%s", prefix, name)`, or the name alone
  abbrev pub full_name : CommandSent Seconds → Bytes
  full_name c = elim c.prefix [ none ↦ c.name | some p ↦ p ++ (codes "___" ++ c.name) ]

  -- `command_handler_message`
  pub command_handler_message : CommandQueue Seconds → Bytes → List Event
  command_handler_message cq text = if cq.has_handler then handler_message text ∷ [] else []

  -- the message about a command, to its connection or to the handler
  pub report : CommandQueue Seconds → Bytes → CommandSent Seconds → List Event
  unfolding command_handler_message
  report cq suffix c = elim c.connection [
    | none ↦ command_handler_message cq (full_name c ++ suffix)
    | some conn ↦ connection_message conn (full_name c ++ suffix) ∷ []
  ]

  abbrev pub free_prefix : CommandSent Seconds → List Event
  free_prefix c = elim c.prefix [ none ↦ [] | some p ↦ free_string p ∷ [] ]

  -- `free(command->name); if(command->prefix) free(command->prefix)`
  abbrev pub free_command : CommandSent Seconds → List Event
  free_command c = free_string c.name ∷ free_prefix c

  -- The walk that each function below makes: what it does at a command that it picks, which is then
  -- unlinked and freed, and how many there were.
  pub sweep :
      (CommandSent Seconds → Bool)
      → (CommandSent Seconds → List Event)
      → List (CommandSent Seconds)
      → List (CommandSent Seconds) × ℕ × List Event
  sweep picks act [] = ([], 0, [])
  sweep picks act (c ∷ cs) =
      let (rest, removed, events) = sweep picks act cs in
      if picks c then (rest, removed + 1, act c ++ events) else (c ∷ rest, removed, events)

  abbrev pub with_commands :
      CommandQueue Seconds
      → List (CommandSent Seconds) × ℕ × List Event
      → CommandQueue Seconds × ℕ × List Event
  with_commands cq (cs, removed, events) = (record cq { commands_sent = cs }, removed, events)

abbrev pub command_queue_create : (Seconds : Type 0) → CommandQueue Seconds
command_queue_create Seconds = record {
  commands_sent = [];
  has_handler = false;
  has_timeout_callback = false;
}

-- `command->connection == conn`
abbrev pub is_connection : Option ℕ → ℕ → Bool
is_connection none conn = false
is_connection (some c) conn = c == conn

module _ {Seconds : Type 0} where
  -- `now` is `time_current()`.
  pub command_queue_add_with_prefix :
      CommandQueue Seconds
      → Option ℕ
      → Bytes
      → Seconds
      → Option Bytes
      → TimeStr
      → CommandQueue Seconds
  command_queue_add_with_prefix cq conn name timeout prefix now = record cq {
    commands_sent =
        cq.commands_sent
        ++ (record {
          connection = conn;
          name = name;
          time = now;
          timeout = timeout;
          prefix = prefix;
        }
            ∷ []);
  }

  pub command_queue_add :
      CommandQueue Seconds → Option ℕ → Bytes → Seconds → TimeStr → CommandQueue Seconds
  unfolding command_queue_add_with_prefix
  command_queue_add cq conn name timeout now =
      command_queue_add_with_prefix cq conn name timeout none now

  pub command_queue_done : CommandQueue Seconds → Bytes → CommandQueue Seconds × ℕ × List Event
  unfolding sweep report
  command_queue_done cq name = with_commands cq (
      sweep (λ c. str_eq c.name name)
        (λ c. report cq (codes "_done") c ++ (free_string c.name ∷ [])) cq.commands_sent)

  pub command_queue_failure : CommandQueue Seconds → Bytes → CommandQueue Seconds × ℕ × List Event
  unfolding sweep report
  command_queue_failure cq name = with_commands cq (
      sweep (λ c. str_eq c.name name) (λ c. report cq (codes "_failure") c ++ free_command c)
        cq.commands_sent)

  pub command_queue_remove : CommandQueue Seconds → Bytes → CommandQueue Seconds × ℕ × List Event
  unfolding sweep
  command_queue_remove cq name =
      with_commands cq (sweep (λ c. str_eq c.name name) free_command cq.commands_sent)

  pub command_queue_remove_with_connection :
      CommandQueue Seconds → ℕ → CommandQueue Seconds × ℕ × List Event
  unfolding sweep
  command_queue_remove_with_connection cq conn =
      with_commands cq (sweep (λ c. is_connection c.connection conn) free_command cq.commands_sent)

  pub command_queue_delete : CommandQueue Seconds → List Event
  unfolding sweep
  command_queue_delete cq = (sweep (λ _. true) free_command cq.commands_sent).2

  -- The walk stops at the first command of that name.
  pub contains_from : List (CommandSent Seconds) → Bytes → ℕ
  contains_from [] name = 0
  contains_from (c ∷ cs) name =
      let rest = contains_from cs name in if str_eq c.name name then 1 else rest

  pub command_queue_contains : CommandQueue Seconds → Bytes → ℕ
  unfolding contains_from
  command_queue_contains cq name = contains_from cq.commands_sent name

  pub command_queue_check :
      (TimeStr → Seconds → TimeStr → Bool)
      → CommandQueue Seconds
      → TimeStr
      → CommandQueue Seconds × ℕ × List Event
  unfolding sweep report
  command_queue_check expired cq now = with_commands cq (
      sweep (λ c. expired c.time c.timeout now)
        (λ c.
          report cq (codes "_timeout") c
          ++ ((if cq.has_timeout_callback then timeout_call c.name ∷ [] else []) ++ free_command c))
        cq.commands_sent)
