-- ===== src/Storage/Tests.antt =====
-- A short session of the storage thread, and its theorems there.
use fast.Prelude.{List, Option, [], codes, none, refl, some, ℕ, ◌∷◌, ◌≡◌}
use fast.Prelude.Format.{format_padded}
use fast.Prelude.Int.{pos}
use fast.Queue.{Message, image_delete}
use fast.Time.{TimeStr}
use fast.Storage.{
  Event, Frame, Storage, dump_frame, enter_directory, fast_msg_exit, fast_msg_image, fast_msg_start,
  fast_msg_stop, image_delete, make_directory, storage_create, storage_worker,
}
use fast.Storage.Run.{observe}
use fast.Storage.Owner.{AllCarry, deleted, storage_worker-deleted}
use fast.Storage.Recorded.{dumped, storage_worker-recorded}
use fast.Storage.Directory.{fill, storage_worker-fill}

abbrev moment : TimeStr
moment = record {
  year = 2016;
  month = 2;
  day = 28;
  hour = 21;
  minute = 5;
  second = 59;
  microsecond = 123;
}

abbrev frame : ℕ → Frame
frame n = record { id = n; time = moment }

abbrev to_storage : ℕ → Option Frame → Message Frame × TimeStr
to_storage code image = (record { event = pos code; content = image; data_delete = none }, moment)

abbrev session : List (Message Frame × TimeStr)
session =
    to_storage fast_msg_image (some (frame 1))
    ∷ to_storage fast_msg_start none
    ∷ to_storage fast_msg_image (some (frame 2))
    ∷ to_storage fast_msg_stop none
    ∷ to_storage fast_msg_image (some (frame 3))
    ∷ to_storage fast_msg_exit none
    ∷ []

abbrev start : Storage
start = storage_create (codes "IMG") (codes "test")

abbrev written : Option (Storage × List Event) → List Event
written none = []
written (some (s, es)) = es

storage_worker-session :
    written (storage_worker start session)
    ≡ image_delete (frame 1)
      ∷ make_directory (codes "IMG")
      ∷ make_directory (codes "IMG/2016_02_28")
      ∷ make_directory (codes "IMG/2016_02_28/test")
      ∷ enter_directory (codes "IMG/2016_02_28/test/20160228_210559")
      ∷ dump_frame
          (frame 2)
          (codes "IMG/2016_02_28/test/20160228_210559/20160228_210559.000123.fits[compress]")
      ∷ image_delete (frame 2)
      ∷ image_delete (frame 3)
      ∷ []
unfolding storage_worker format_padded
storage_worker-session = refl

session-AllCarry : AllCarry session
session-AllCarry = (refl, (refl, (refl, (refl, (refl, (refl, tt))))))

storage_worker-deleted_example :
    observe (λ _ es. deleted es) (storage_worker start session)
    ≡ some (frame 1 ∷ frame 2 ∷ frame 3 ∷ [])
storage_worker-deleted_example = storage_worker-deleted start session refl session-AllCarry

storage_worker-recorded_example :
    observe (λ _ es. dumped es) (storage_worker start session) ≡ some (frame 2 ∷ [])
storage_worker-recorded_example = storage_worker-recorded start session refl session-AllCarry

storage_worker-fill_example :
    (t : Storage) × (es : List Event) × (storage_worker start session ≡ some (t, es))
    × (fill 0 es ≡ some t.nframes)
storage_worker-fill_example = storage_worker-fill start session refl session-AllCarry
