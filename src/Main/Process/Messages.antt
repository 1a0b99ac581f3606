-- ===== src/Main/Process/Messages.antt =====
-- fast.c: `process_queue_message`, the messages that the main thread takes from its queue.
use fast.Prelude.{
  Bool, List, Option, [], false, if◌then◌else◌, map, none, some, ℕ, ◌++◌, ◌==◌, ◌>>=◌,
}
use fast.Prelude.Int.{negsuc, pos}
use fast.Queue.{Message, queue_add}
use fast.Storage.{fast_msg_average_image, fast_msg_image, fast_msg_stop}
use fast.Main.{Library, Picture, State, get_average_image}
use fast.Main.Process.{Action, fast_msg_acquisition_stopped, process_image, storage, store}

module _ (lib : Library) where
  abbrev pub is_event : Message (Picture lib) → ℕ → Bool
  is_event m code = elim m.event [ pos n ↦ n == code | negsuc n ↦ false ]

  -- `case FAST_MSG_ACQUISITION_STOPPED`
  pub handle_stopped : State lib → Option (State lib × List (Action (Picture lib)))
  unfolding store get_average_image queue_add
  handle_stopped s = do
    (r, effects) ← elim s.image_total [
      | none ↦ some (s, [])
      | some total ↦ (do
        avg ← get_average_image lib s
        some (store lib s fast_msg_average_image avg))
    ]
    (let (q, more) = queue_add (some r.storage_queue) (pos fast_msg_stop) none in
        some (
          elim q [ none ↦ r | some w ↦ record r { storage_queue = w } ],
          effects ++ map storage more,
        ))

  -- `process_queue_message`; a message with another event does nothing.
  pub process_queue_message :
      List ℕ → State lib → Message (Picture lib) → Option (State lib × List (Action (Picture lib)))
  unfolding process_image store handle_stopped
  process_queue_message connected s m =
      if is_event m fast_msg_image
      then (do
        image ← m.content
        (r, annotated, events) ← process_image lib connected s image
        (let (q, effects) = store lib r fast_msg_image annotated in some (q, events ++ effects)))
      else if is_event m fast_msg_acquisition_stopped
      then handle_stopped s
      else some (s, [])
