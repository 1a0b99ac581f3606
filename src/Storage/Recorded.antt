-- ===== src/Storage/Recorded.antt =====
-- Which frames the storage thread writes.
use fast.Prelude.{
  Bool, List, [], arith, false, if◌then◌else◌, none, refl, some, true, ◌++◌, ◌∷◌, ◌≡◌,
}
use fast.Queue.{Message, image_delete}
use fast.Time.{TimeStr}
use fast.Storage.{
  Event, Frame, Storage, dump_frame, dump_total, enter_directory, fast_msg_image, fast_msg_start,
  fast_msg_stop, handle_message, image_delete, is_exit, make_directory, storage_worker,
}
use fast.Storage.Run.{
  carries, handle_message_ready, has_code, is_ready, observe, observe-after_events, worker-cons,
  worker-nil,
}
use fast.Storage.Owner.{AllCarry}

abbrev pub dumped : List Event → List Frame
dumped [] = []
dumped (dump_frame f p ∷ es) = f ∷ dumped es
dumped (e ∷ es) = dumped es

abbrev pub next_on : Bool → Message Frame → Bool
next_on on m =
    if has_code fast_msg_start m then true else if has_code fast_msg_stop m then false else on

abbrev pub frame_of : Message Frame → List Frame
frame_of m =
    if has_code fast_msg_image m then (elim m.content [ none ↦ [] | some f ↦ f ∷ [] ]) else []

-- The frames that arrive between a start and the stop after it, before the first exit.
abbrev pub recorded : Bool → List (Message Frame × TimeStr) → List Frame
recorded on [] = []
recorded on ((m, now) ∷ ms) =
    if is_exit m then [] else (if on then frame_of m else []) ++ recorded (next_on on m) ms

dumped-append : (es fs : List Event) → dumped (es ++ fs) ≡ dumped es ++ dumped fs
dumped-append [] fs = refl
dumped-append (make_directory p ∷ es) fs = dumped-append es fs
dumped-append (enter_directory p ∷ es) fs = dumped-append es fs
dumped-append (dump_frame f p ∷ es) fs = rw (dumped-append es fs)
dumped-append (dump_total f p ∷ es) fs = dumped-append es fs
dumped-append (image_delete f ∷ es) fs = dumped-append es fs

handle_message-dumped :
    (s : Storage) (m : Message Frame) (now : TimeStr)
    → is_ready s ≡ true
    → carries m ≡ true
    → observe (λ _ es. dumped es) (handle_message s m now)
      ≡ some (if s.is_storage then frame_of m else [])
unfolding handle_message
handle_message-dumped s m now ready full = ground arith

handle_message-is_storage :
    (s : Storage) (m : Message Frame) (now : TimeStr)
    → is_ready s ≡ true
    → carries m ≡ true
    → observe (λ t _. t.is_storage) (handle_message s m now) ≡ some (next_on s.is_storage m)
unfolding handle_message
handle_message-is_storage s m now ready full = ground arith

-- From a ready state, on messages whose images are there, the thread writes the frames that arrive
-- between a start and the next stop, each once and in order, and no others.
pub storage_worker-recorded :
    (s : Storage) (ms : List (Message Frame × TimeStr))
    → is_ready s ≡ true
    → AllCarry ms
    → observe (λ _ es. dumped es) (storage_worker s ms) ≡ some (recorded s.is_storage ms)
storage_worker-recorded s [] ready full = rw worker-nil
storage_worker-recorded s ((m, now) ∷ ms) ready full =
    let (t, es, e, still) = handle_message_ready s m now ready full.0 in
    ground (
      arith,
      worker-cons s t m now ms es e,
      e,
      handle_message-dumped s m now ready full.0,
      handle_message-is_storage s m now ready full.0,
      storage_worker-recorded t ms still full.1,
      observe-after_events dumped dumped-append es (storage_worker t ms),
    )
