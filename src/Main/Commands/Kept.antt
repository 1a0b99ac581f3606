-- ===== src/Main/Commands/Kept.antt =====
-- `process_command`: what it keeps of the state, and who it answers.

use fast.Queue.{free, queue_add, queue_add_with_destructor}
use fast.Storage.{fast_msg_start, fast_msg_stop}
use fast.Command.{Command}
use fast.Main.Process.{Action}
use fast.Main.Commands.{Host, done, matches, tell, tell_grabber, tell_storage}
use fast.Main.Commands.Settings.{
  set_accumulation, set_base, set_broadcast_flux, set_countdown, set_dark_file, set_object,
  set_postprocess, set_region,
}
use fast.Main.Commands.Dispatch.{and_done, process_control, process_settings}
use fast.Main.Commands.Asker.{
  all_to, append-all_to, done-all_to, effect-all_to, storage-all_to, tell-all_to,
}
use fast.Prelude.{
  Bytes, Every, Every-bind, Every-if, Every-none, Every-some, List, Option, ap, arith, codes,
  if◌then◌else◌, none, refl, some, subst, sym, true, ℕ, ◌++◌, ◌||◌, ◌∙◌, ◌≡◌,
}
use fast.Prelude.Int.{ltb_ℤ, pos}
use fast.Image.{Pixels, double_data, uint16_data}
use fast.Main.{Library, Picture, State, reset_images, set_dark}
use fast.Main.Images.{
  JpegParams, check_dark, postprocess_data, postprocess_image, remove_halves, remove_rows,
  subtract_dark,
}
use fast.Main.Process.Exists.{AllSum, IsReady, is_some}

module _ (lib : Library) where
  -- A state with the same sums is in order too.
  pub same_sums :
      (s t : State lib)
      → t.image_total ≡ s.image_total
      → t.running_accum ≡ s.running_accum
      → t.total_length ≡ s.total_length
      → IsReady lib s
      → IsReady lib t
  same_sums s t total accum count ready = record {
    total_sum = subst (AllSum lib) (sym total) ready.total_sum;
    accum_sum = subst (AllSum lib) (sym accum) ready.accum_sum;
    counted = λ h. rw count (ready.counted (ap (is_some lib) (sym total) ∙ h));
  }

  check_dark-IsReady :
      (s : State lib) (image : Picture lib) → IsReady lib s → IsReady lib (check_dark lib s image)
  unfolding check_dark set_dark
  check_dark-IsReady s image ready =
      same_sums s (check_dark lib s image) (ground arith) (ground arith) (ground arith) ready

  data-IsReady :
      (s : State lib) (image : Picture lib) (n : ℕ) (d : List lib.numbers.Double)
      → IsReady lib s
      → Every (λ (r : State lib × Picture lib). IsReady lib r.0) (postprocess_data lib s image n d)
  unfolding postprocess_data
  data-IsReady s image n d ready =
      let P = λ (r : State lib × Picture lib). IsReady lib r.0 in
      let t = check_dark lib s image in
      Every-bind P (subtract_dark lib t image n d) _ (λ e _.
        Every-bind P
          (if ltb_ℤ s.postprocess (pos 2)
            then some e
            else remove_rows lib image.height 0 image.width e)
          _
          (λ f _.
            Every-bind P
              (if ltb_ℤ s.postprocess (pos 3)
                then some f
                else remove_halves lib image.width 0 image.width image.height f)
              _
              (λ g _.
                Every-some P (t, record image { pixels = double_data g })
                  (check_dark-IsReady s image ready))))

  Every-pixels :
      {B : Type 0} (P : B → Type 0) (pixels : Pixels lib.numbers.Double) (x : Option B)
      (f : List lib.numbers.Double → Option B)
      → Every P x
      → ((d : List lib.numbers.Double) → Every P (f d))
      → Every P (elim pixels [ uint16_data d ↦ x | double_data d ↦ f d ])
  Every-pixels P (uint16_data d) x f first second = first
  Every-pixels P (double_data d) x f first second = second d

  pub postprocess-IsReady :
      (s : State lib) (image : Picture lib) (n : ℕ)
      → IsReady lib s
      → Every (λ (r : State lib × Picture lib). IsReady lib r.0) (postprocess_image lib s image n)
  unfolding postprocess_image
  postprocess-IsReady s image n ready =
      let P = λ (r : State lib × Picture lib). IsReady lib r.0 in
      Every-pixels P image.pixels (some (s, image)) (postprocess_data lib s image n)
        (Every-some P (s, image) ready) (λ d. data-IsReady s image n d ready)

  dark_file-IsReady :
      (host : Host lib) (s : State lib) (command : Command)
      → IsReady lib s
      → IsReady lib (set_dark_file lib host s command)
  unfolding set_dark_file set_dark
  dark_file-IsReady host s command ready =
      same_sums s (set_dark_file lib host s command) (ground arith) (ground arith) (ground arith)
        ready

module _ (lib : Library) (host : Host lib) (connection : Option ℕ) where
  -- of the new state and what is sent, and of a whole answer
  abbrev pub Good : State lib × List (Action (Picture lib)) → Type 0
  Good told = IsReady lib told.0 × (all_to connection told.1 ≡ true)

  abbrev pub GoodAnswer :
      State lib × JpegParams lib.numbers.Double × List (Action (Picture lib)) → Type 0
  GoodAnswer (t, q, sent) = IsReady lib t × (all_to connection sent ≡ true)

  -- A setting is answered, and the sums stay.
  answered-Good :
      (command : Command) (t : State lib)
      → IsReady lib t
      → Every Good (some (t, done lib connection command))
  answered-Good command t ready =
      Every-some Good (t, done lib connection command) (ready, done-all_to lib connection command)

  pub settings-Good :
      (s : State lib) (command : Command)
      → IsReady lib s
      → Every Good (process_settings lib host connection s command)
  unfolding process_settings set_base set_object set_countdown set_accumulation set_postprocess
      set_broadcast_flux set_region
  settings-Good s command ready =
      let keep =
        λ (t : State lib) (total : t.image_total ≡ s.image_total)
            (accum : t.running_accum ≡ s.running_accum) (count : t.total_length ≡ s.total_length).
          answered-Good command t (same_sums lib s t total accum count ready) in
      Every-if Good (matches command (codes "set_base"))
        (keep (set_base lib s command) refl refl refl)
        (Every-if Good (matches command (codes "set_object"))
          (keep (set_object lib s command) refl refl refl)
          (Every-if Good (matches command (codes "set_countdown"))
            (keep (set_countdown lib s command) refl refl refl)
            (Every-if Good (matches command (codes "set_accumulation"))
              (keep (set_accumulation lib s command) refl refl refl)
              (Every-if Good (matches command (codes "set_postprocess"))
                (keep (set_postprocess lib s command) refl refl refl)
                (Every-if Good (matches command (codes "set_broadcast_flux"))
                  (keep (set_broadcast_flux lib s command) refl refl refl)
                  (Every-if Good (matches command (codes "set_dark"))
                    (answered-Good command _ (dark_file-IsReady lib host s command ready))
                    (Every-if Good (matches command (codes "set_region"))
                      (keep (set_region lib s command) refl refl refl) (Every-none Good))))))))

  -- What is sent to another thread goes to no connection.
  pub and_done-Good :
      (command : Command) (told : State lib × List (Action (Picture lib)))
      → Good told
      → Every Good (some (and_done lib host connection command told))
  and_done-Good command (t, sent) (ready, to) =
      Every-some Good (t, sent ++ done lib connection command)
        (
          ready,
          append-all_to connection sent (done lib connection command) to
              (done-all_to lib connection command),
        )

  storage-Good : (s : State lib) (event : ℕ) → IsReady lib s → Good (tell_storage lib s event)
  unfolding tell_storage queue_add queue_add_with_destructor
  storage-Good s event ready = (
    same_sums lib s (tell_storage lib s event).0 refl refl refl ready,
    storage-all_to {A = Picture lib} connection
        (queue_add (some s.storage_queue) (pos event) none).1,
  )

  pub grabber-Good :
      (s : State lib) (event : ℕ) (content : Option Bytes)
      → IsReady lib s
      → Good (tell_grabber lib s event content)
  unfolding tell_grabber queue_add_with_destructor
  grabber-Good s event content ready = (
    same_sums lib s (tell_grabber lib s event content).0 refl refl refl ready,
    effect-all_to (Picture lib) connection
        (queue_add_with_destructor (some s.grabber_queue) (pos event) content (some free)).1,
  )

  -- A start drops the sums.
  reset-IsReady : (s : State lib) → IsReady lib (reset_images lib s)
  unfolding reset_images
  reset-IsReady s = record {
    total_sum = tt;
    accum_sum = tt;
    counted = λ h. absurd (ground (arith, h));
  }

  pub control-Good :
      (s : State lib) (command : Command)
      → IsReady lib s
      → Every Good (process_control lib host connection s command)
  unfolding process_control set_object
  control-Good s command ready =
      let object = set_object lib s command in
      Every-if Good (matches command (codes "exit") || matches command (codes "quit"))
        (Every-some Good (record s { is_quit = true }, tell lib connection (codes "exit_ok"))
          (
            same_sums lib s (record s { is_quit = true }) refl refl refl ready,
            tell-all_to lib connection (codes "exit_ok"),
          ))
        (Every-if Good (matches command (codes "get_id"))
          (Every-some Good
            (s, tell lib connection (codes "id name=" ++ (s.name ++ codes " type=ccd")))
            (ready, tell-all_to lib connection (codes "id name=" ++ (s.name ++ codes " type=ccd"))))
          (Every-if Good (matches command (codes "storage_start"))
            (and_done-Good command _
              (storage-Good object fast_msg_start (same_sums lib s object refl refl refl ready)))
            (Every-if Good (matches command (codes "storage_stop"))
              (and_done-Good command _ (storage-Good s fast_msg_stop ready))
              (Every-if Good (matches command (codes "start"))
                (and_done-Good command _
                  (grabber-Good (reset_images lib s) fast_msg_start none (reset-IsReady s)))
                (Every-if Good (matches command (codes "stop"))
                  (and_done-Good command _ (grabber-Good s fast_msg_stop none ready))
                  (Every-none Good))))))
