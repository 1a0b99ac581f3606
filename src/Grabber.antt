-- ===== src/Grabber.antt =====
-- fast_grabber.c and grabber_fake.c: the thread that takes frames from the camera, in the build for
-- the camera that is not there (FAKE). What it does outside its state is a list of `GrabberAction`s; what
-- becomes of a message that it sends to the main thread is up to the Queue.
pub mod Countdown
pub mod Exit
mod Tests
use fast.Prelude.{
  Bool, Bytes, List, Option, [], codes, false, get_or, if◌then◌else◌, none, not, some, suc, true,
  zero, ℕ, ◌&&◌, ◌++◌, ◌==◌, ◌∷◌,
}
use fast.Prelude.Int.{ltb_ℤ, negsuc, pos, ℤ}
use fast.Queue.{Message, free, image_delete}
use fast.Storage.{fast_msg_exit, fast_msg_image, fast_msg_start, fast_msg_stop, image_delete}
use fast.Main.Process.{fast_msg_acquisition_stopped}
use fast.Command.{command_match, command_parse}
use fast.Command.Args.{Assigned, command_args, scanned, string}
use fast.Time.{TimeStr}

abbrev pub fast_msg_command : ℕ
fast_msg_command = 50

abbrev pub has_event : Message Bytes → ℕ → Bool
has_event m code = elim m.event [ pos n ↦ n == code | negsuc n ↦ false ]

abbrev pub image_message : {A : Type 0} → A → Message A
image_message image = record {
  event = pos fast_msg_image;
  content = some image;
  data_delete = some image_delete;
}

abbrev pub stopped_message : {A : Type 0} → Message A
stopped_message = record {
  event = pos fast_msg_acquisition_stopped;
  content = none;
  data_delete = some free;
}

-- `fast->countdown` after a frame that was sent, and whether that was the last of its count.
abbrev pub count_down : ℤ → ℤ × Bool
count_down (pos zero) = (pos 0, false)
count_down (pos (suc zero)) = (negsuc 0, true)
count_down (pos (suc (suc n))) = (pos (suc n), false)
count_down (negsuc n) = (negsuc n, false)

-- a round of the thread's loop: the message, the frame and the time that it gets
abbrev pub Round : Type 0 → Type 0
Round A = Message Bytes × Option A × TimeStr

-- `grabber_str`
pub record Grabber (Double : Type 0) : Type 0 where
  pub exposure : Double
  pub fps : Double
  pub amplification : ℤ
  pub binning : ℤ

-- `A` is an image.
pub data GrabberAction (A : Type 0) : Type 0 where
  send : Message A → GrabberAction A
  grabber_acquisition_start : GrabberAction A
  grabber_acquisition_stop : GrabberAction A
  grabber_info : GrabberAction A
  delete_image : A → GrabberAction A
  free_command : Bytes → GrabberAction A

-- What the thread uses of `fast_str`, and its own variables.
pub record Worker (Double : Type 0) : Type 0 where
  pub grabber : Grabber Double
  pub is_acquisition : Bool
  pub time_start : TimeStr
  pub countdown : ℤ
  pub is_first : Bool

-- The variable after `command_args`, which leaves it alone where nothing is read.
abbrev pub read_value : {B : Type 0} → (Bytes → Option B) → B → Option Assigned → B
read_value reads old none = old
read_value reads old (some (string s)) = old
read_value reads old (some (scanned v format)) = elim (reads v) [ none ↦ old | some b ↦ b ]

-- The numbers of the commands: `scan_double` and `scan_int` are what `sscanf` reads.
pub record Numbers : Type 1 where
  pub Double : Type 0
  pub zero_double : Double
  pub tenth : Double
  pub minus_one : Double
  pub at_least_zero : Double → Bool
  pub scan_double : Bytes → Option Double
  pub scan_int : Bytes → Option ℤ

module _ (numbers : Numbers) where
  open numbers use {Double}

  pub grabber_create : Grabber Double
  grabber_create = record {
    exposure = numbers.tenth;
    fps = numbers.zero_double;
    amplification = pos 0;
    binning = pos 1;
  }

  pub grabber_set_exposure : Grabber Double → Double → Grabber Double
  grabber_set_exposure g exposure = record g { exposure = exposure }

  pub grabber_set_amplification : Grabber Double → ℤ → Grabber Double
  grabber_set_amplification g amplification = record g { amplification = amplification }

  pub grabber_set_binning : Grabber Double → ℤ → Grabber Double
  grabber_set_binning g binning = record g { binning = binning }

  -- The values of a `set_grabber` command that are given and in range.
  pub set_values : Grabber Double → Double → ℤ → ℤ → Grabber Double
  unfolding grabber_set_exposure grabber_set_amplification grabber_set_binning
  set_values g exposure amplification binning =
      let g1 = if numbers.at_least_zero exposure then grabber_set_exposure g exposure else g in
      let g2 =
        if ltb_ℤ amplification (pos 0) then g1 else grabber_set_amplification g1 amplification in
      if not (ltb_ℤ binning (pos 0)) && ltb_ℤ binning (pos 4)
      then grabber_set_binning g2 binning
      else g2

  pub process_grabber_command :
      {A : Type 0} → Grabber Double → Bytes → Grabber Double × List (GrabberAction A)
  unfolding set_values command_parse command_match command_args
  process_grabber_command g text =
      let command = command_parse text in
      if command_match command (some (codes "set_grabber"))
      then (let args =
            (command_args command
              (codes "exposure=%lf" ∷ codes "amplification=%d" ∷ codes "binning=%d" ∷ [])).0 in
          (
            set_values g (read_value numbers.scan_double numbers.minus_one (get_or args 0 none))
                (read_value numbers.scan_int (negsuc 0) (get_or args 1 none))
                (read_value numbers.scan_int (negsuc 0) (get_or args 2 none)),
            grabber_info ∷ [],
          ))
      else (g, [])

module _ (numbers : Numbers) {A : Type 0} where
  open numbers use {Double}

  -- The frame, if there is one: it is sent to the main thread, or deleted if it is the first one
  -- and that is to be skipped. The last frame of a count makes the message a stop.
  pub handle_frame :
      Worker Double
      → Message Bytes
      → Option A
      → Worker Double × Message Bytes × List (GrabberAction A)
  handle_frame w m none = (w, m, [])
  handle_frame w m (some image) =
      if w.is_first
      then (record w { is_first = false }, m, delete_image image ∷ [])
      else (let (left, is_last) = count_down w.countdown in
          (
            record w { countdown = left },
            (if is_last then record m { event = pos fast_msg_stop } else m),
            send (image_message image) ∷ (if is_last then send stopped_message ∷ [] else []),
          ))

  -- A command comes with its text. `switch(m.event)`: the thread's state and whether it quits. `now` is `time_current()`.
  pub handle_event :
      Worker Double → Message Bytes → TimeStr → Worker Double × Bool × List (GrabberAction A)
  unfolding process_grabber_command
  handle_event w m now =
      if has_event m fast_msg_start
      then (
        record w { time_start = now; is_acquisition = true },
        false,
        grabber_acquisition_start ∷ [],
      )
      else if has_event m fast_msg_stop
      then (
        record w { is_acquisition = false },
        false,
        grabber_acquisition_stop ∷ (send stopped_message ∷ []),
      )
      else if has_event m fast_msg_command
      then (elim m.content [
        | none ↦ (w, false, [])
        | some text ↦
            (let (g, actions) = process_grabber_command numbers w.grabber text in
              (record w { grabber = g }, false, actions ++ (free_command text ∷ [])))
      ])
      else (w, has_event m fast_msg_exit, [])

  -- One round of the loop: the message that `queue_get` gave, the frame that `grabber_wait_image`
  -- gave, and the time.
  pub round :
      Worker Double
      → Message Bytes
      → Option A
      → TimeStr
      → Worker Double × Bool × List (GrabberAction A)
  unfolding handle_frame handle_event
  round w m image now =
      let (v, n, sent) = handle_frame w m image in
      let (u, quits, done) = handle_event v n now in (u, quits, sent ++ done)

  -- The loop, over the rounds that there are: it ends when the thread quits.
  pub worker_loop : Worker Double → List (Round A) → Worker Double × List (GrabberAction A)
  unfolding round
  worker_loop w [] = (w, [])
  worker_loop w ((m, image, now) ∷ rounds) =
      let (v, quits, actions) = round w m image now in
      let (u, more) = worker_loop v rounds in
      if quits then (v, actions ++ (grabber_acquisition_stop ∷ [])) else (u, actions ++ more)

  -- The thread stops the camera before its loop.
  pub grabber_worker : Worker Double → List (Round A) → Worker Double × List (GrabberAction A)
  unfolding worker_loop
  grabber_worker w rounds =
      let (v, actions) =
        worker_loop (record w { is_acquisition = false; is_first = false }) rounds in
      (v, grabber_acquisition_stop ∷ actions)
