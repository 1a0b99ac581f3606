-- ===== src/Storage/Owner.antt =====
-- Who frees the images that the storage thread is given.

use fast.Prelude.{All, List, [], arith, if◌then◌else◌, none, refl, some, true, ◌++◌, ◌||◌, ◌∷◌, ◌≡◌}
use fast.Queue.{Message, image_delete}
use fast.Time.{TimeStr}
use fast.Storage.{
  Event, Frame, Storage, dump_frame, dump_total, enter_directory, fast_msg_average_image,
  fast_msg_image, handle_message, image_delete, is_exit, make_directory, storage_worker,
}
use fast.Storage.Run.{
  carries, handle_message_ready, has_code, is_ready, observe, observe-after_events, worker-cons,
  worker-nil,
}

abbrev pub deleted : List Event → List Frame
deleted [] = []
deleted (image_delete f ∷ es) = f ∷ deleted es
deleted (e ∷ es) = deleted es

abbrev pub image_of : Message Frame → List Frame
image_of m =
    if has_code fast_msg_image m || has_code fast_msg_average_image m
    then (elim m.content [ none ↦ [] | some f ↦ f ∷ [] ])
    else []

-- the images of the messages in front of the first exit
abbrev pub images_of : List (Message Frame × TimeStr) → List Frame
images_of [] = []
images_of ((m, now) ∷ ms) = if is_exit m then [] else image_of m ++ images_of ms

abbrev pub AllCarry : List (Message Frame × TimeStr) → Type 0
AllCarry ms = All (λ (m, now). carries m ≡ true) ms

deleted-append : (es fs : List Event) → deleted (es ++ fs) ≡ deleted es ++ deleted fs
deleted-append [] fs = refl
deleted-append (make_directory p ∷ es) fs = deleted-append es fs
deleted-append (enter_directory p ∷ es) fs = deleted-append es fs
deleted-append (dump_frame f p ∷ es) fs = deleted-append es fs
deleted-append (dump_total f p ∷ es) fs = deleted-append es fs
deleted-append (image_delete f ∷ es) fs = rw (deleted-append es fs)

-- One message's image is deleted in its step, whatever the state.
handle_message-deleted :
    (s : Storage) (m : Message Frame) (now : TimeStr)
    → is_ready s ≡ true
    → carries m ≡ true
    → observe (λ _ es. deleted es) (handle_message s m now) ≡ some (image_of m)
unfolding handle_message
handle_message-deleted s m now ready full = ground arith

-- From a ready state, on messages whose images are there, the thread never reads through NULL, and
-- it deletes the image of each message that it handles, once and in order, whether or not it was
-- stored.
pub storage_worker-deleted :
    (s : Storage) (ms : List (Message Frame × TimeStr))
    → is_ready s ≡ true
    → AllCarry ms
    → observe (λ _ es. deleted es) (storage_worker s ms) ≡ some (images_of ms)
storage_worker-deleted s [] ready full = rw worker-nil
storage_worker-deleted s ((m, now) ∷ ms) ready full =
    let (t, es, e, still) = handle_message_ready s m now ready full.0 in
    ground (
      arith,
      worker-cons s t m now ms es e,
      e,
      handle_message-deleted s m now ready full.0,
      storage_worker-deleted t ms still full.1,
      observe-after_events deleted deleted-append es (storage_worker t ms),
    )
