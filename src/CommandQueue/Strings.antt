-- ===== src/CommandQueue/Strings.antt =====
-- The strings that the queue owns: a name for each command, and a prefix for some.
use fast.Prelude.{
  Bool, Bytes, List, [], ap, ap₂, codes, if◌then◌else◌, none, not, refl, some, str_eq, ℕ, ◌++◌, ◌∙◌,
  ◌∷◌, ◌≡◌,
}
use fast.Time.{TimeStr}
use fast.CommandQueue.{
  CommandQueue, CommandSent, command_handler_message, command_queue_check, command_queue_done,
  command_queue_failure, command_queue_remove, command_queue_remove_with_connection, free_command,
  free_string, is_connection, report, timeout_call,
}
use fast.CommandQueue.Sweep.{
  freed, freed-call, freed-message, freed-prefix, gather, gather-append, gather-sweep, gather-three,
  keep, sweep-keep,
}

module _ {Seconds : Type 0} where
  -- the strings of a command
  abbrev pub strings : CommandSent Seconds → List Bytes
  strings c = c.name ∷ (elim c.prefix [ none ↦ [] | some p ↦ p ∷ [] ])

  freed-command : (c : CommandSent Seconds) → gather freed (free_command c) ≡ strings c
  freed-command c = ap (λ l. c.name ∷ l) (freed-prefix c.prefix)

  freed-report :
      (cq : CommandQueue Seconds) (suffix : Bytes) (c : CommandSent Seconds)
      → gather freed (report cq suffix c) ≡ []
  unfolding report command_handler_message
  freed-report cq suffix c = freed-message cq.has_handler _ c.connection

  -- the commands of a queue that a test picks, and the others
  abbrev pub picked :
      (CommandSent Seconds → Bool) → CommandQueue Seconds → List (CommandSent Seconds)
  picked p cq = keep p cq.commands_sent

  abbrev pub others :
      (CommandSent Seconds → Bool) → CommandQueue Seconds → List (CommandSent Seconds)
  others p cq = keep (λ c. not (p c)) cq.commands_sent

  -- A failure, a removal, a removal by connection and a check leave the other commands, and free the
  -- name and, if there is one, the prefix of each command that they take out, each string once and no
  -- other, in the order of the commands.
  pub strings-freed :
      (expired : TimeStr → Seconds → TimeStr → Bool) (cq : CommandQueue Seconds) (name : Bytes)
      (conn : ℕ) (now : TimeStr)
      → let named : CommandSent Seconds → Bool = λ c. str_eq c.name name in
        let owned : CommandSent Seconds → Bool = λ c. is_connection c.connection conn in
        let late : CommandSent Seconds → Bool = λ c. expired c.time c.timeout now in
        let (c1, n1, e1) = command_queue_failure cq name in
        let (c2, n2, e2) = command_queue_remove cq name in
        let (c3, n3, e3) = command_queue_remove_with_connection cq conn in
        let (c4, n4, e4) = command_queue_check expired cq now in
        (c1.commands_sent ≡ others named cq)
        × (gather freed e1 ≡ gather strings (picked named cq))
        × (c2.commands_sent ≡ others named cq)
        × (gather freed e2 ≡ gather strings (picked named cq))
        × (c3.commands_sent ≡ others owned cq)
        × (gather freed e3 ≡ gather strings (picked owned cq))
        × (c4.commands_sent ≡ others late cq)
        × (gather freed e4 ≡ gather strings (picked late cq))
  unfolding command_queue_failure command_queue_remove command_queue_remove_with_connection
      command_queue_check report command_handler_message
  strings-freed expired cq name conn now =
      let named : CommandSent Seconds → Bool = λ c. str_eq c.name name in
      let owned : CommandSent Seconds → Bool = λ c. is_connection c.connection conn in
      let late : CommandSent Seconds → Bool = λ c. expired c.time c.timeout now in
      let cs = cq.commands_sent in
      (
        rw sweep-keep refl,
        gather-sweep freed named _ strings
            (λ c.
              gather-append freed (report cq (codes "_failure") c) (free_command c)
              ∙ ap₂ (λ u v. u ++ v) (freed-report cq (codes "_failure") c) (freed-command c))
            cs,
        rw sweep-keep refl,
        gather-sweep freed named free_command strings freed-command cs,
        rw sweep-keep refl,
        gather-sweep freed owned free_command strings freed-command cs,
        rw sweep-keep refl,
        gather-sweep freed late _ strings
            (λ c.
              gather-three freed (report cq (codes "_timeout") c)
                (if cq.has_timeout_callback then timeout_call c.name ∷ [] else []) (free_command c)
                (freed-report cq (codes "_timeout") c) (freed-call cq.has_timeout_callback c.name)
                (freed-command c))
            cs,
      )

  -- `command_queue_done` frees the names of the commands that it takes out, and leaks their prefixes.
  pub done-strings :
      (cq : CommandQueue Seconds) (name : Bytes)
      → let named : CommandSent Seconds → Bool = λ c. str_eq c.name name in
        let (cq', removed, events) = command_queue_done cq name in
        (cq'.commands_sent ≡ others named cq)
        × (gather freed events ≡ gather (λ c. c.name ∷ []) (picked named cq))
  unfolding command_queue_done report command_handler_message
  done-strings cq name =
      let named : CommandSent Seconds → Bool = λ c. str_eq c.name name in
      (
        rw sweep-keep refl,
        gather-sweep freed named _ (λ c. c.name ∷ [])
            (λ c.
              gather-append freed (report cq (codes "_done") c) (free_string c.name ∷ [])
              ∙ ap (λ u. u ++ (c.name ∷ [])) (freed-report cq (codes "_done") c))
            cq.commands_sent,
      )
