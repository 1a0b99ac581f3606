-- ===== src/Grabber/Countdown.antt =====
-- A countdown of frames.

use fast.Queue.{Message}
use fast.Prelude.{
  Bool, Bytes, List, Option, [], arith, false, if◌then◌else◌, length, none, refl, some, suc, ℕ,
  ◌++◌, ◌∷◌, ◌≡◌,
}
use fast.Prelude.Int.{negsuc, pos}
use fast.Time.{TimeStr}
use fast.Grabber.{
  GrabberAction, Numbers, Round, Worker, grabber_acquisition_stop, handle_event, handle_frame,
  image_message, round, send, stopped_message, worker_loop,
}

abbrev pub no_command : Message Bytes
no_command = record { event = negsuc 0; content = none; data_delete = none }

-- Rounds in which there is no message and a frame.
abbrev pub frames_only : {A : Type 0} → List (A × TimeStr) → List (Round A)
frames_only [] = []
frames_only ((image, now) ∷ fs) = (no_command, some image, now) ∷ frames_only fs

-- What is sent for frames.
abbrev pub sends : {A : Type 0} → List (A × TimeStr) → List (GrabberAction A)
sends [] = []
sends ((image, now) ∷ fs) = send (image_message image) ∷ sends fs

module _ (numbers : Numbers) {A : Type 0} where
  -- a frame that is not the last of the count
  round-frame :
      (w : Worker numbers.Double) (image : A) (now : TimeStr) (n : ℕ)
      → w.is_first ≡ false
      → w.countdown ≡ pos (suc (suc n))
      → round numbers w no_command (some image) now
        ≡ (record w { countdown = pos (suc n) }, false, send (image_message image) ∷ [])
  unfolding round handle_frame handle_event
  round-frame w image now n first count = rw (first, count) refl

  round-last :
      (w : Worker numbers.Double) (image : A) (now : TimeStr)
      → w.is_first ≡ false
      → w.countdown ≡ pos 1
      → round numbers w no_command (some image) now ≡ (
        record w { countdown = negsuc 0; is_acquisition = false },
        false,
        send (image_message image)
            ∷ send stopped_message
            ∷ grabber_acquisition_stop
            ∷ send stopped_message
            ∷ [],
      )
  unfolding round handle_frame handle_event
  round-last w image now first count = rw (first, count) refl

  worker_loop-cons :
      (w v : Worker numbers.Double) (m : Message Bytes) (image : Option A) (now : TimeStr)
      (rounds : List (Round A)) (quits : Bool) (actions : List (GrabberAction A))
      → round numbers w m image now ≡ (v, quits, actions)
      → worker_loop numbers w ((m, image, now) ∷ rounds) ≡ (
          if quits
          then (v, actions ++ (grabber_acquisition_stop ∷ []))
          else ((worker_loop numbers v rounds).0, actions ++ (worker_loop numbers v rounds).1))
  unfolding worker_loop
  worker_loop-cons w v m image now rounds quits actions h = ground (arith, h)

  worker_loop-nil : (w : Worker numbers.Double) → worker_loop numbers {A = A} w [] ≡ (w, [])
  unfolding worker_loop
  worker_loop-nil w = refl

  -- From a countdown of n, n frames without a message are each sent once and in order; then the
  -- thread reports the end of the acquisition, stops the camera and reports it again, and the
  -- countdown is off.
  pub worker_loop-countdown :
      (w : Worker numbers.Double) (f : A × TimeStr) (fs : List (A × TimeStr))
      → w.is_first ≡ false
      → w.countdown ≡ pos (length (f ∷ fs))
      → worker_loop numbers w (frames_only (f ∷ fs)) ≡ (
        record w { countdown = negsuc 0; is_acquisition = false },
        sends (f ∷ fs)
            ++ (send stopped_message ∷ grabber_acquisition_stop ∷ send stopped_message ∷ []),
      )
  worker_loop-countdown w (image, now) [] first count =
      let last : Worker numbers.Double = record w {
        countdown = negsuc 0;
        is_acquisition = false;
      } in
      ground (
        arith,
        worker_loop-cons w last no_command (some image) now [] false _
            (round-last w image now first count),
        worker_loop-nil last,
      )
  worker_loop-countdown w (image, now) (g ∷ fs) first count =
      let next : Worker numbers.Double = record w { countdown = pos (length (g ∷ fs)) } in
      ground (
        arith,
        worker_loop-cons w next no_command (some image) now (frames_only (g ∷ fs)) false _
            (round-frame w image now (length fs) first count),
        worker_loop-countdown next g fs first refl,
      )
