-- ===== src/Main/Commands/Dispatch.antt =====
-- fast.c: `process_command`. `connection` is who sent the command; it is NULL for one that came by
-- the web. The messages for debugging are left out.
use fast.Prelude.{
  Bytes, List, Option, [], codes, false, if◌then◌else◌, none, some, true, ℕ, ◌++◌, ◌>>=◌, ◌||◌,
}
use fast.Storage.{fast_msg_start, fast_msg_stop}
use fast.Command.{Command, command_match, command_parse}
use fast.Grabber.{fast_msg_command}
use fast.Main.{Library, Picture, State, reset_images}
use fast.Main.Images.{JpegParams}
use fast.Main.Process.{Action}
use fast.Main.Commands.{Answer, Host, done, matches, print_alone, tell, tell_grabber, tell_storage}
use fast.Main.Commands.Frames.{get_current_frame, get_total_frame}
use fast.Main.Commands.Settings.{
  get_status_string, jpeg_params, set_accumulation, set_base, set_broadcast_flux, set_countdown,
  set_dark_file, set_keywords, set_object, set_postprocess, set_region, set_zoom,
}

module _ (lib : Library) (host : Host lib) (connection : Option ℕ) where
  open lib.numbers use {Double}

  abbrev pub Told : Type 0
  Told = State lib × List (Action (Picture lib))

  abbrev pub answered : Command → State lib → Told
  answered command s = (s, done lib connection command)

  abbrev pub and_done : Command → Told → Told
  and_done command (s, actions) = (s, actions ++ done lib connection command)

  -- the commands that set parameters and answer that it is done
  unfoldable pub process_settings : State lib → Command → Option Told
  unfolding command_match done set_base set_object set_countdown set_accumulation set_postprocess
      set_broadcast_flux set_dark_file set_region
  process_settings s command =
      if matches command (codes "set_base")
      then some (answered command (set_base lib s command))
      else if matches command (codes "set_object")
      then some (answered command (set_object lib s command))
      else if matches command (codes "set_countdown")
      then some (answered command (set_countdown lib s command))
      else if matches command (codes "set_accumulation")
      then some (answered command (set_accumulation lib s command))
      else if matches command (codes "set_postprocess")
      then some (answered command (set_postprocess lib s command))
      else if matches command (codes "set_broadcast_flux")
      then some (answered command (set_broadcast_flux lib s command))
      else if matches command (codes "set_dark")
      then some (answered command (set_dark_file lib host s command))
      else if matches command (codes "set_region")
      then some (answered command (set_region lib s command))
      else none

  -- the commands to the other threads, and the two about the program
  unfoldable pub process_control : State lib → Command → Option Told
  unfolding command_match done tell tell_storage tell_grabber set_object reset_images
  process_control s command =
      if matches command (codes "exit") || matches command (codes "quit")
      then some (record s { is_quit = true }, tell lib connection (codes "exit_ok"))
      else if matches command (codes "get_id")
      then some (s, tell lib connection (codes "id name=" ++ (s.name ++ codes " type=ccd")))
      else if matches command (codes "storage_start")
      then some (and_done command (tell_storage lib (set_object lib s command) fast_msg_start))
      else if matches command (codes "storage_stop")
      then some (and_done command (tell_storage lib s fast_msg_stop))
      else if matches command (codes "start")
      then some (and_done command (tell_grabber lib (reset_images lib s) fast_msg_start none))
      else if matches command (codes "stop")
      then some (and_done command (tell_grabber lib s fast_msg_stop none))
      else none

  -- "We will send the command to grabber thread verbatim": its text is the template of
  -- `make_string`.
  unfoldable pub send_to_grabber : State lib → Command → (text : Bytes) → Option Told
  unfolding print_alone done tell_grabber
  send_to_grabber s command text = do
    content ← print_alone false text
    some (and_done command (tell_grabber lib s fast_msg_command (some content)))

  -- The text of the status is the template of the message.
  unfoldable pub get_status : State lib → Option Told
  unfolding print_alone get_status_string tell
  get_status s = do
    status ← print_alone false (get_status_string lib host s)
    some (s, tell lib connection status)

  -- the commands that are answered by more than that they are done
  unfoldable pub process_rest :
      State lib → JpegParams Double → Command → (text : Bytes) → Answer lib
  unfolding command_match send_to_grabber get_status get_current_frame get_total_frame tell
      jpeg_params set_zoom set_keywords
  process_rest s p command text =
      if matches command (codes "set_grabber") || matches command (codes "set_window")
      then (send_to_grabber s command text >>= λ (t, sent). some (t, p, sent))
      else if matches command (codes "get_status")
      then (get_status s >>= λ (t, sent). some (t, p, sent))
      else if matches command (codes "get_current_frame")
      then get_current_frame lib host connection s p
      else if matches command (codes "get_total_frame")
      then get_total_frame lib host connection s p
      else if matches command (codes "get_running_frame")
      then some (s, p, tell lib connection (codes "running_frame_timeout"))
      else if matches command (codes "jpeg_params")
      then (let (t, q) = jpeg_params lib s p command in some (t, q, []))
      else if matches command (codes "set_zoom")
      then some (set_zoom lib s command, p, [])
      else if matches command (codes "set_keyword") || matches command (codes "set_keywords")
      then (set_keywords lib command.tokens s.kw >>= λ kws. some (record s { kw = kws }, p, []))
      else some (s, p, [])

  -- No two commands have the same name, so that the tests can stand in groups.
  unfoldable pub process_command : State lib → JpegParams Double → (text : Bytes) → Answer lib
  unfolding process_control process_settings process_rest command_parse
  process_command s p text =
      let command = command_parse text in
      elim (process_control s command) [
        | some (t, sent) ↦ some (t, p, sent)
        | none ↦ elim (process_settings s command) [
          | some (t, sent) ↦ some (t, p, sent)
          | none ↦ process_rest s p command text
        ]
      ]
