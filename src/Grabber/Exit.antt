-- ===== src/Grabber/Exit.antt =====
-- When the grabber thread ends.

use fast.Prelude.{Bool, Bytes, Option, arith, false, none, not, some, ◌&&◌, ◌≡◌}
use fast.Queue.{Message}
use fast.Storage.{fast_msg_exit}
use fast.Time.{TimeStr}
use fast.Grabber.{Numbers, Worker, count_down, handle_event, handle_frame, has_event, round}

-- The frame of this round is the last of a countdown.
abbrev pub is_last_frame : {Double A : Type 0} → Worker Double → Option A → Bool
is_last_frame w none = false
is_last_frame w (some image) = not w.is_first && (count_down w.countdown).1

module _ (numbers : Numbers) where
  handle_event-quits :
      (B : Type 0) (w : Worker numbers.Double) (m : Message Bytes) (now : TimeStr)
      → (handle_event numbers {A = B} w m now).1 ≡ has_event m fast_msg_exit
  unfolding handle_event
  handle_event-quits B w m now = ground arith

module _ (numbers : Numbers) {A : Type 0} where
  -- A round ends the thread exactly when its message is the exit and its frame is not the last of a
  -- countdown: an exit that is taken together with that frame is lost.
  pub round-quits :
      (w : Worker numbers.Double) (m : Message Bytes) (image : Option A) (now : TimeStr)
      → (round numbers w m image now).1 ≡ (has_event m fast_msg_exit && not (is_last_frame w image))
  unfolding round handle_frame
  round-quits w m none now = ground (arith, handle_event-quits numbers A w m now)
  round-quits w m (some image) now =
      let (v, n, sent) = handle_frame numbers w m (some image) in
      ground (arith, handle_event-quits numbers A v n now)
