-- ===== src/Storage.antt =====
-- fast_storage.c: the thread that writes frames to disk, as a state machine over the messages that
-- it takes from its queue. What it does to files and images is a list of `Event`s.
pub mod Run
pub mod Owner
pub mod Directory
pub mod Recorded
mod Tests
use fast.Prelude.{
  Bool, Bytes, List, Option, [], codes, false, if◌then◌else◌, leb, none, some, true, ℕ, ◌++◌, ◌+◌,
  ◌==◌, ◌∷◌,
}
use fast.Prelude.Int.{negsuc, pos}
use fast.Prelude.Format.{format_padded}
use fast.Queue.{Message}
use fast.Time.{TimeStr, time_zero}

-- An image as the storage sees it: which one it is, and its time.
pub record Frame : Type 0 where
  pub id : ℕ
  pub time : TimeStr

-- `storage_str`, and what the thread uses of `fast_str`.
pub record Storage : Type 0 where
  pub base : Bytes
  pub object : Bytes
  pub nframes : ℕ
  pub current : Option Bytes
  pub is_storage : Bool
  pub stored_length : ℕ
  pub time_last_stored : TimeStr

pub data Event : Type 0 where
  make_directory : Bytes → Event
  -- the directory that frames go to from now on
  enter_directory : Bytes → Event
  -- `image_dump_to_fits` of a frame, and of an average
  dump_frame : Frame → Bytes → Event
  dump_total : Frame → Bytes → Event
  image_delete : Frame → Event

abbrev pub max_files_per_dir : ℕ
max_files_per_dir = 10000

-- the codes of fast.h
abbrev pub fast_msg_image : ℕ
fast_msg_image = 10

abbrev pub fast_msg_average_image : ℕ
fast_msg_average_image = 12

abbrev pub fast_msg_start : ℕ
fast_msg_start = 21

abbrev pub fast_msg_stop : ℕ
fast_msg_stop = 22

abbrev pub fast_msg_exit : ℕ
fast_msg_exit = 100

abbrev pub format_date : Bytes → TimeStr → Bytes
format_date separator t =
    format_padded 4 t.year
    ++ (separator ++ (format_padded 2 t.month ++ (separator ++ format_padded 2 t.day)))

-- `%04d%02d%02d_%02d%02d%02d`
abbrev pub format_moment : TimeStr → Bytes
format_moment t =
    format_date [] t
    ++ (codes "_"
        ++ (format_padded 2 t.hour ++ (format_padded 2 t.minute ++ format_padded 2 t.second)))

abbrev pub directory_of : Bytes → Bytes → TimeStr → Bytes
directory_of base object now =
    base ++ (codes "/" ++ (format_date (codes "_") now ++ (codes "/" ++ object)))

-- `now` is `time_current()`.
pub prepare_storage : Storage → TimeStr → Storage × List Event
prepare_storage s now =
    let datedir = s.base ++ (codes "/" ++ format_date (codes "_") now) in
    let objdir = datedir ++ (codes "/" ++ s.object) in
    let current = objdir ++ (codes "/" ++ format_moment now) in
    (
      record s { nframes = 0; current = some current },
      make_directory s.base
          ∷ make_directory datedir
          ∷ make_directory objdir
          ∷ enter_directory current
          ∷ [],
    )

-- `none` is a read through NULL: a name made from no directory, or no image.
pub store_image : Storage → Option Frame → Option (Storage × List Event)
store_image s image = elim s.current [
  | none ↦ none
  | some dir ↦ elim image [
    | none ↦ none
    | some f ↦
        let filename =
          dir
          ++ (codes "/"
              ++ (format_moment f.time
                  ++ (codes "."
                      ++ (format_padded 6 f.time.microsecond ++ codes ".fits[compress]")))) in
        some (
          record s { nframes = s.nframes + 1; time_last_stored = f.time },
          dump_frame f filename ∷ image_delete f ∷ [],
        )
  ]
]

pub store_total_image : Storage → Option Frame → Option (Storage × List Event)
store_total_image s image = elim s.current [
  | none ↦ none
  | some dir ↦ elim image [
    | none ↦ none
    | some f ↦ some (s, dump_total f (dir ++ codes ".fits") ∷ image_delete f ∷ [])
  ]
]

-- `image_delete(image)`, which does nothing at NULL
abbrev pub delete_image : Option Frame → List Event
delete_image none = []
delete_image (some f) = image_delete f ∷ []

abbrev pub after_events : List Event → Option (Storage × List Event) → Option (Storage × List Event)
after_events es none = none
after_events es (some (s, fs)) = some (s, es ++ fs)

-- `fast->stored_length ++`
abbrev pub count_stored : Option (Storage × List Event) → Option (Storage × List Event)
count_stored none = none
count_stored (some (s, es)) = some (record s { stored_length = s.stored_length + 1 }, es)

-- `case FAST_MSG_IMAGE`
pub handle_image : Storage → Option Frame → TimeStr → Option (Storage × List Event)
unfolding prepare_storage store_image
handle_image s image now =
    if s.is_storage
    then (if leb max_files_per_dir s.nframes
        then (let (t, es) = prepare_storage s now in
            after_events es (count_stored (store_image (record t { nframes = 0 }) image)))
        else count_stored (store_image s image))
    else some (s, delete_image image)

-- `case FAST_MSG_START`
pub handle_start : Storage → TimeStr → Storage × List Event
unfolding prepare_storage
handle_start s now =
    let (t, es) = prepare_storage s now in (record t { is_storage = true; stored_length = 0 }, es)

-- `switch(m.event)` without `FAST_MSG_EXIT`; another event does nothing.
pub handle_message : Storage → Message Frame → TimeStr → Option (Storage × List Event)
unfolding handle_image handle_start store_total_image
handle_message s m now = elim m.event [
  | negsuc n ↦ some (s, [])
  | pos n ↦
      if n == fast_msg_start
      then some (handle_start s now)
      else if n == fast_msg_stop
      then some (record s { is_storage = false; stored_length = 0 }, [])
      else if n == fast_msg_image
      then handle_image s m.content now
      else if n == fast_msg_average_image
      then (if s.is_storage
          then store_total_image s m.content
          else some (s, delete_image m.content))
      else some (s, [])
]

abbrev pub is_exit : Message Frame → Bool
is_exit m = elim m.event [ negsuc n ↦ false | pos n ↦ n == fast_msg_exit ]

-- the state before the first message
abbrev pub storage_create : Bytes → Bytes → Storage
storage_create base object = record {
  base = base;
  object = object;
  nframes = 0;
  current = none;
  is_storage = false;
  stored_length = 0;
  time_last_stored = time_zero;
}

-- The loop over the messages that `queue_get` returns, each with the time at which it is handled,
-- up to the first exit. `object` stands still here; the loop reads it at each start.
pub storage_worker : Storage → List (Message Frame × TimeStr) → Option (Storage × List Event)
unfolding handle_message
storage_worker s [] = some (s, [])
storage_worker s ((m, now) ∷ ms) =
    let rest : Option (Storage × List Event) = elim (handle_message s m now) [
      | none ↦ none
      | some (t, es) ↦ after_events es (storage_worker t ms)
    ] in
    if is_exit m then some (s, []) else rest
