-- ===== src/Main/Commands/Answers.antt =====
-- `process_command`, all of its commands: the sums stay in order, and the one who asked is answered.

use fast.Command.{Command, command_parse}
use fast.Grabber.{fast_msg_command}
use fast.Main.Commands.Settings.{get_status_string, jpeg_params, set_keywords, set_zoom}
use fast.Main.Commands.Dispatch.{
  get_status, process_command, process_control, process_rest, process_settings, send_to_grabber,
}
use fast.Prelude.{
  Bytes, Every, Every-bind, Every-elim, Every-if, Every-none, Every-some, List, Option, [], arith,
  codes, false, none, not, refl, some, true, ℕ, ◌++◌, ◌>>=◌, ◌||◌, ◌∷◌, ◌≡◌,
}
use fast.Image.{image_convert_to_double, image_copy}
use fast.Main.{Library, Picture, State}
use fast.Main.Images.{JpegParams, postprocess_image, zoom_current, zoom_total}
use fast.Main.Process.{Action, reset_jpegs}
use fast.Main.Process.Exists.{IsReady}
use fast.Main.Commands.{Answer, Host, matches, print_alone, tell}
use fast.Main.Commands.Frames.{
  get_current_frame, get_total_frame, prepare_current, prepare_total, send_frame,
}
use fast.Main.Commands.Asker.{all_to, tell-all_to}
use fast.Main.Commands.Kept.{
  Good, GoodAnswer, and_done-Good, control-Good, grabber-Good, postprocess-IsReady, same_sums,
  settings-Good,
}

module _ (lib : Library) (host : Host lib) where
  abbrev AllTo : Option ℕ → List (Action (Picture lib)) → Type 0
  AllTo connection sent = all_to connection sent ≡ true

  send-AllTo :
      (connection : Option ℕ) (name format jpeg : Bytes)
      → Every (AllTo connection) (send_frame lib host connection name format jpeg)
  unfolding send_frame
  send-AllTo connection name format [] = Every-some (AllTo connection) [] refl
  send-AllTo none name format (b ∷ bs) = Every-none (AllTo none)
  send-AllTo (some c) name format (b ∷ bs) = Every-some (AllTo (some c)) _ (ground arith)

module _ (lib : Library) (host : Host lib) (connection : Option ℕ) where
  abbrev Prepared : State lib × Bytes → Type 0
  Prepared (t, jpeg) = IsReady lib t

  current-Prepared :
      (s : State lib) (p : JpegParams lib.numbers.Double) (image : Picture lib)
      → IsReady lib s
      → Every Prepared (prepare_current lib host connection s p image)
  unfolding prepare_current
  current-Prepared s p image ready =
      let double = image_convert_to_double lib.numbers lib.coords_empty image in
      Every-elim Prepared s.current_frame_data _ (λ jpeg. some (s, jpeg))
        (Every-bind Prepared (postprocess_image lib s double 1) _ (λ r run.
          Every-bind Prepared (zoom_current lib r.1 r.0.zoom) _ (λ picture _.
            Every-some Prepared
              (
                record r.0 { current_frame_data = some (host.to_jpeg p picture) },
                host.to_jpeg p picture,
              )
              (same_sums lib r.0 _ refl refl refl
                (postprocess-IsReady lib s double 1 ready r run)))))
        (λ jpeg. Every-some Prepared (s, jpeg) ready)

  total-Prepared :
      (s : State lib) (p : JpegParams lib.numbers.Double) (total : Picture lib)
      → IsReady lib s
      → Every Prepared (prepare_total lib host connection s p total)
  unfolding prepare_total
  total-Prepared s p total ready =
      Every-elim Prepared s.total_frame_data _ (λ jpeg. some (s, jpeg))
        (Every-bind Prepared (image_copy lib.numbers lib.coords_empty (some total)) _ (λ image _.
          Every-bind Prepared (postprocess_image lib s image s.total_length) _ (λ r run.
            Every-bind Prepared (zoom_total lib r.1 r.0.zoom) _ (λ picture _.
              Every-some Prepared
                (
                  record r.0 { total_frame_data = some (host.to_jpeg p picture) },
                  host.to_jpeg p picture,
                )
                (same_sums lib r.0 _ refl refl refl
                  (postprocess-IsReady lib s image s.total_length ready r run))))))
        (λ jpeg. Every-some Prepared (s, jpeg) ready)

  told-Good :
      (t : State lib) (q : JpegParams lib.numbers.Double) (text : Bytes)
      → IsReady lib t
      → Every (GoodAnswer lib host connection) (some (t, q, tell lib connection text))
  told-Good t q text ready =
      Every-some (GoodAnswer lib host connection) (t, q, tell lib connection text)
        (ready, tell-all_to lib connection text)

  current-Good :
      (s : State lib) (p : JpegParams lib.numbers.Double)
      → IsReady lib s
      → Every (GoodAnswer lib host connection) (get_current_frame lib host connection s p)
  unfolding get_current_frame
  current-Good s p ready =
      let P = GoodAnswer lib host connection in
      let timeout = told-Good s p (codes "current_frame_timeout") ready in
      Every-elim P s.image _ _ timeout (λ image. Every-if P (not s.is_acquisition) timeout (
        Every-bind P (prepare_current lib host connection s p image) _ (λ r run.
          Every-bind P
            (send_frame lib host connection (codes "current_frame")
              (codes " mean=" ++ lib.print_short r.0.mean) r.1)
            _
            (λ sent told.
              Every-some P (r.0, p, sent)
                (
                  current-Prepared s p image ready r run,
                  send-AllTo lib host connection (codes "current_frame")
                      (codes " mean=" ++ lib.print_short r.0.mean) r.1 sent told,
                )))))

  total-Good :
      (s : State lib) (p : JpegParams lib.numbers.Double)
      → IsReady lib s
      → Every (GoodAnswer lib host connection) (get_total_frame lib host connection s p)
  unfolding get_total_frame
  total-Good s p ready =
      let P = GoodAnswer lib host connection in
      let timeout = told-Good s p (codes "total_frame_timeout") ready in
      Every-elim P s.image_total _ _ timeout (λ total. Every-if P (not s.is_acquisition) timeout (
        Every-bind P (prepare_total lib host connection s p total) _ (λ r run.
          Every-bind P (send_frame lib host connection (codes "total_frame") [] r.1) _ (λ sent told.
            Every-some P (r.0, p, sent)
              (
                total-Prepared s p total ready r run,
                send-AllTo lib host connection (codes "total_frame") [] r.1 sent told,
              )))))

  grabber_command-Good :
      (s : State lib) (command : Command) (text : Bytes)
      → IsReady lib s
      → Every (Good lib host connection) (send_to_grabber lib host connection s command text)
  unfolding send_to_grabber
  grabber_command-Good s command text ready =
      Every-bind (Good lib host connection) (print_alone false text) _ (λ content _.
        and_done-Good lib host connection command _
          (grabber-Good lib host connection s fast_msg_command (some content) ready))

  status-Good :
      (s : State lib)
      → IsReady lib s
      → Every (Good lib host connection) (get_status lib host connection s)
  unfolding get_status
  status-Good s ready =
      Every-bind (Good lib host connection) (print_alone false (get_status_string lib host s)) _
        (λ status _.
          Every-some (Good lib host connection) (s, tell lib connection status)
            (ready, tell-all_to lib connection status))

  -- The parameters of the JPEGs go with what is told.
  with-Good :
      (p : JpegParams lib.numbers.Double) (o : Option (State lib × List (Action (Picture lib))))
      → Every (Good lib host connection) o
      → Every (GoodAnswer lib host connection) (o >>= λ (t, sent). some (t, p, sent))
  with-Good p o good =
      Every-bind (GoodAnswer lib host connection) o _ (λ told run.
        Every-some (GoodAnswer lib host connection) (told.0, p, told.1) (good told run))

  silent-Good :
      (t : State lib) (q : JpegParams lib.numbers.Double)
      → IsReady lib t
      → Every (GoodAnswer lib host connection) (some (t, q, []))
  silent-Good t q ready = Every-some (GoodAnswer lib host connection) (t, q, []) (ready, refl)

  rest-Good :
      (s : State lib) (p : JpegParams lib.numbers.Double) (command : Command) (text : Bytes)
      → IsReady lib s
      → Every (GoodAnswer lib host connection) (process_rest lib host connection s p command text)
  unfolding process_rest jpeg_params reset_jpegs set_zoom
  rest-Good s p command text ready =
      let P = GoodAnswer lib host connection in
      let (t, q) = jpeg_params lib s p command in
      Every-if P (matches command (codes "set_grabber") || matches command (codes "set_window"))
        (with-Good p _ (grabber_command-Good s command text ready))
        (Every-if P (matches command (codes "get_status")) (with-Good p _ (status-Good s ready)) (
          Every-if P (matches command (codes "get_current_frame")) (current-Good s p ready) (
            Every-if P (matches command (codes "get_total_frame")) (total-Good s p ready) (
              Every-if P (matches command (codes "get_running_frame"))
                (told-Good s p (codes "running_frame_timeout") ready)
                (Every-if P (matches command (codes "jpeg_params"))
                  (silent-Good t q (same_sums lib s t refl refl refl ready))
                  (Every-if P (matches command (codes "set_zoom"))
                    (silent-Good (set_zoom lib s command) p
                      (same_sums lib s (set_zoom lib s command) refl refl refl ready))
                    (Every-if P
                      (matches command (codes "set_keyword")
                        || matches command (codes "set_keywords"))
                      (Every-bind P (set_keywords lib command.tokens s.kw) _ (λ kws _.
                        silent-Good (record s { kw = kws }) p
                          (same_sums lib s (record s { kw = kws }) refl refl refl ready)))
                      (silent-Good s p ready))))))))

  -- A group of commands, and what comes after it for a command that is not in the group.
  group-Good :
      (p : JpegParams lib.numbers.Double) (o : Option (State lib × List (Action (Picture lib))))
      (rest : Answer lib)
      → Every (Good lib host connection) o
      → Every (GoodAnswer lib host connection) rest
      → Every
          (GoodAnswer lib host connection)
          (elim o [ some (t, sent) ↦ some (t, p, sent) | none ↦ rest ])
  group-Good p none rest first second = second
  group-Good p (some (t, sent)) rest first second =
      Every-some (GoodAnswer lib host connection) (t, p, sent) (first (t, sent) refl)

  -- A command that is carried out leaves a state whose sums are in order if they were so before,
  -- and every message and block of bytes that it sends goes to the connection it came from.
  pub command-IsReady :
      (s : State lib) (p : JpegParams lib.numbers.Double) (text : Bytes) (t : State lib)
      (q : JpegParams lib.numbers.Double) (sent : List (Action (Picture lib)))
      → IsReady lib s
      → process_command lib host connection s p text ≡ some (t, q, sent)
      → IsReady lib t × (all_to connection sent ≡ true)
  unfolding process_command
  command-IsReady s p text t q sent ready run =
      let command = command_parse text in
      group-Good p (process_control lib host connection s command) _
        (control-Good lib host connection s command ready)
        (group-Good p (process_settings lib host connection s command) _
          (settings-Good lib host connection s command ready) (rest-Good s p command text ready))
        (t, q, sent) run
