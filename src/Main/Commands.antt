-- ===== src/Main/Commands.antt =====
-- fast.c: what the commands of clients have in common: how they answer, what they read and what
-- they send to the other threads.
pub mod Frames
pub mod Settings
pub mod Dispatch
pub mod Asker
pub mod Kept
pub mod Answers
pub mod Results
use fast.Prelude.{
  Bool, Bytes, List, Option, [], codes, if◌then◌else◌, map, none, not, some, ℕ, ◌&&◌, ◌++◌, ◌==◌,
  ◌>>=◌, ◌∷◌,
}
use fast.Prelude.Int.{pos}
use fast.Queue.{free, queue_add, queue_add_with_destructor}
use fast.Time.{TimeStr}
use fast.Command.{Command, command_match, command_name}
use fast.Command.Args.{Assigned, command_args, scanned, string}
use fast.Grabber.{Grabber}
use fast.Main.{Library, Picture, State}
use fast.Main.Images.{JpegParams}
use fast.Main.Process.{Action, command_effect, message, storage}

-- What a command takes from outside the main program: `now n` is what the n-th call of
-- `time_current` gives, and the encoders of images are those of image_fits.c and image_jpeg.c.
pub record Host (lib : Library) : Type 0 where
  pub now : ℕ → TimeStr
  pub disk_free : Bytes → ℕ
  pub grabber : Grabber lib.numbers.Double
  pub read_fits : Bytes → Option (Picture lib)
  pub to_jpeg : JpegParams lib.numbers.Double → Picture lib → Bytes

-- A text that is taken for the template of `printf`, without arguments. What stands behind a `%`
-- other than `%%` would read an argument that is not there; `after` is that a `%` came before.
unfoldable pub print_alone : (after : Bool) → Bytes → Option Bytes
print_alone after [] = if after then none else some []
print_alone after (c ∷ s) =
    let rest = print_alone (not after && (c == 37)) s in
    if c == 37
    then (if after then (rest >>= λ r. some (c ∷ r)) else rest)
    else if after
    then none
    else (rest >>= λ r. some (c ∷ r))

-- `char *` after `command_args`, which leaves it alone where nothing is given
abbrev pub text_or : Bytes → Option Assigned → Bytes
text_or old none = old
text_or old (some (string s)) = s
text_or old (some (scanned v format)) = old

abbrev pub arguments : Command → List Bytes → List (Option Assigned)
arguments command patterns = (command_args command patterns).0

abbrev pub matches : Command → Bytes → Bool
matches command word = command_match command (some word)

module _ (lib : Library) where
  -- the new state, the new parameters of the JPEGs, and what is sent
  abbrev pub Answer : Type 0
  Answer = Option (State lib × JpegParams lib.numbers.Double × List (Action (Picture lib)))

  -- `server_connection_message(connection, text)`
  pub tell : Option ℕ → Bytes → List (Action (Picture lib))
  tell none text = []
  tell (some c) text = message c text ∷ []

  -- `"%s_done"` of the name of the command, which it has, for it has matched one
  pub done : Option ℕ → Command → List (Action (Picture lib))
  unfolding tell command_name
  done connection command = elim (command_name command) [
    | none ↦ []
    | some name ↦ tell connection (name ++ codes "_done")
  ]

  -- `queue_add(fast->storage_queue, event, NULL)`
  pub tell_storage : State lib → ℕ → State lib × List (Action (Picture lib))
  unfolding queue_add
  tell_storage s event =
      let (q, effects) = queue_add (some s.storage_queue) (pos event) none in
      (elim q [ none ↦ s | some r ↦ record s { storage_queue = r } ], map storage effects)

  -- `queue_add(fast->grabber_queue, event, content)`; a text of a command is freed if it is dropped.
  pub tell_grabber : State lib → ℕ → Option Bytes → State lib × List (Action (Picture lib))
  unfolding queue_add_with_destructor
  tell_grabber s event content =
      let (q, effects) =
        queue_add_with_destructor (some s.grabber_queue) (pos event) content (some free) in
      (elim q [ none ↦ s | some r ↦ record s { grabber_queue = r } ], map command_effect effects)
