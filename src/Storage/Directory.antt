-- ===== src/Storage/Directory.antt =====
-- How many frames go to one directory.
use fast.Prelude.{
  Bool-cases, List, Option, [], arith, if◌then◌else◌, inl, inr, ltb, none, refl, some, true, ℕ,
  ◌++◌, ◌+◌, ◌∷◌, ◌≡◌,
}
use fast.Queue.{Message, image_delete}
use fast.Time.{TimeStr}
use fast.Storage.{
  Event, Frame, Storage, dump_frame, dump_total, enter_directory, handle_message, image_delete,
  is_exit, make_directory, max_files_per_dir, storage_worker,
}
use fast.Storage.Run.{carries, handle_message_ready, is_ready, observe, worker-cons, worker-nil}
use fast.Storage.Owner.{AllCarry}

-- The frames written since the last directory was entered, when there were `n` at the beginning;
-- `none` once there are more than `MAX_FILES_PER_DIR`.
pub fill : ℕ → List Event → Option ℕ
fill n [] = some n
fill n (enter_directory p ∷ es) = fill 0 es
fill n (dump_frame f p ∷ es) =
    let rest = fill (n + 1) es in if ltb n max_files_per_dir then rest else none
fill n (make_directory p ∷ es) = fill n es
fill n (dump_total f p ∷ es) = fill n es
fill n (image_delete f ∷ es) = fill n es

fill-append :
    (n : ℕ) (es fs : List Event)
    → fill n (es ++ fs) ≡ (elim (fill n es) [ none ↦ none | some k ↦ fill k fs ])
unfolding fill
fill-append n [] fs = refl
fill-append n (enter_directory p ∷ es) fs = fill-append 0 es fs
fill-append n (dump_frame f p ∷ es) fs = ground (arith, fill-append (n + 1) es fs)
fill-append n (make_directory p ∷ es) fs = fill-append n es fs
fill-append n (dump_total f p ∷ es) fs = fill-append n es fs
fill-append n (image_delete f ∷ es) fs = fill-append n es fs

handle_message-fill :
    (s : Storage) (m : Message Frame) (now : TimeStr)
    → is_ready s ≡ true
    → carries m ≡ true
    → observe (λ t es. fill s.nframes es) (handle_message s m now)
      ≡ observe (λ t es. some t.nframes) (handle_message s m now)
unfolding handle_message fill
handle_message-fill s m now ready full = ground arith

-- From a ready state, on messages whose images are there, the thread never writes more than
-- `MAX_FILES_PER_DIR` frames between one entering of a directory and the next, and its `nframes`
-- counts them. A directory that is entered again begins a new count.
pub storage_worker-fill :
    (s : Storage) (ms : List (Message Frame × TimeStr))
    → is_ready s ≡ true
    → AllCarry ms
    → (t : Storage) × (es : List Event) × (storage_worker s ms ≡ some (t, es))
      × (fill s.nframes es ≡ some t.nframes)
unfolding fill
storage_worker-fill s [] ready full = (s, [], worker-nil s, refl)
storage_worker-fill s ((m, now) ∷ ms) ready full =
    let (t, es, e, still) = handle_message_ready s m now ready full.0 in
    let (u, fs, f, counted) = storage_worker-fill t ms still full.1 in
    elim (Bool-cases (is_exit m)) [
      | inl over ↦ (s, [], ground (arith, worker-cons s t m now ms es e, over), refl)
      | inr on ↦ (
        u,
        es ++ fs,
        ground (arith, worker-cons s t m now ms es e, on, f),
        ground (
          arith,
          fill-append s.nframes es fs,
          handle_message-fill s m now ready full.0,
          e,
          counted,
        ),
      )
    ]
