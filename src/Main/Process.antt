-- ===== src/Main/Process.antt =====
-- fast.c: what the main thread does with a frame from the grabber. `connected` are the connections
-- of the server that are connected. A run without a result reads past the end of an array or
-- through NULL. The counts of frames are taken to stay below 2^31.
pub mod Sizes
pub mod Exists
pub mod Result
pub mod Total
pub mod Messages
use fast.Prelude.{
  Bytes, List, Option, [], codes, false, if◌then◌else◌, map, none, not, some, suc, true, zero, ℕ,
  ◌&&◌, ◌++◌, ◌+◌, ◌==◌, ◌>>=◌, ◌||◌, ◌∷◌,
}
use fast.Prelude.Int.{ltb_ℤ, negsuc, pos, ℤ, ◌-ℤ◌}
use fast.Queue.{Effect, image_delete, queue_add_with_destructor}
use fast.Time.{TimeStr}
use fast.Storage.{fast_msg_average_image, image_delete}
use fast.Keywords.{
  Keyword, image_keyword_add_double, image_keyword_add_type, image_keyword_get_double, key_string,
}
use fast.Image.{image_add, image_copy, image_copy_properties, image_create_double}
use fast.Main.{Library, Picture, Region, State, get_average_image, get_flux}

-- What the main thread does outside its state: messages to connections, where a message to NULL
-- is dropped, blocks of bytes, and what a queue does with messages it drops.
pub data Action (A : Type 0) : Type 0 where
  message : ℕ → Bytes → Action A
  -- without the NUL
  message_nozero : ℕ → Bytes → Action A
  write_block : ℕ → Bytes → Action A
  storage : Effect A → Action A
  command_effect : Effect Bytes → Action A

-- the code of fast.h
abbrev pub fast_msg_acquisition_stopped : ℕ
fast_msg_acquisition_stopped = 30

module _ (lib : Library) where
  open lib use {numbers, of_ratio}
  open numbers use {Double, zero_double, of_int, add_double, mul_double, ltb_double}

  -- Each keyword of `fast->kw` is added to those of the image.
  pub annotate_image : List Keyword → List Keyword → Option (List Keyword)
  unfolding image_keyword_add_type
  annotate_image [] kws = some kws
  annotate_image (k ∷ ks) kws = do
    more ←
        image_keyword_add_type lib.fitsio kws (key_string lib.fitsio k) (some k.value)
          (some k.comment) k.type_code
    annotate_image ks more

  -- A region that is not in the image becomes the whole of it.
  pub check_region : Region → Picture lib → Region
  check_region r image =
      let (w, h) : ℤ × ℤ = (pos image.width, pos image.height) in
      if ltb_ℤ r.x1 (pos 0)
        || (not (ltb_ℤ r.x1 w)
            || (not (ltb_ℤ (pos 0) r.y1)
                || (not (ltb_ℤ r.y1 h)
                    || (ltb_ℤ r.x2 (pos 0)
                        || (not (ltb_ℤ r.x2 w)
                            || (not (ltb_ℤ (pos 0) r.y2) || not (ltb_ℤ r.y2 h)))))))
      then record { x1 = pos 0; y1 = pos 0; x2 = w -ℤ pos 1; y2 = h -ℤ pos 1 }
      else r

  -- `foreach(conn, ...) if(conn->is_connected && fast->is_broadcast_flux)`
  pub broadcast_flux : List ℕ → State lib → Bytes → List (Action (Picture lib))
  broadcast_flux connected s text = elim s.is_broadcast_flux [
    | pos zero ↦ []
    | pos (suc n) ↦ map (λ c. message c text) connected
    | negsuc n ↦ map (λ c. message c text) connected
  ]

  pub flux_text : Bytes → Double → Double → Double → Bytes
  flux_text name t flux mean =
      name
      ++ (codes " time="
          ++ (lib.print_short t
              ++ (codes " flux="
                  ++ (lib.print_short flux ++ (codes " mean=" ++ lib.print_short mean)))))

  abbrev pub exposure : Picture lib → Double
  exposure image =
      image_keyword_get_double lib.fitsio lib.scan_double zero_double image.keywords
        (codes "EXPOSURE")

  -- `1e-3*time_interval(from, to)`
  abbrev pub seconds : TimeStr → TimeStr → Double
  seconds from to = mul_double (of_ratio 1 1000) (of_int (lib.time_interval from to))

  -- A sum of frames of another size is dropped.
  abbrev pub same_size : Option (Picture lib) → Picture lib → Option (Picture lib)
  same_size none image = none
  same_size (some sum) image =
      if (sum.width == image.width) && (sum.height == image.height) then some sum else none

  -- the new sum for frames like `image`
  abbrev pub new_sum : Picture lib → Picture lib
  new_sum image =
      image_copy_properties lib.numbers lib.coords_empty image
        (image_create_double lib.numbers lib.coords_empty image.width image.height)

  -- "Cumulative image for the series"; `image` is `fast->image`.
  pub add_total : State lib → Picture lib → Option (State lib)
  unfolding image_add image_create_double image_copy_properties
  add_total s image = elim (same_size s.image_total image) [
    | none ↦ (do
      sum ← image_add lib.numbers lib.coords_empty (new_sum image) image
      some (record s {
        image_total = some sum;
        total_length = 1;
        total_exposure = add_double zero_double (exposure image);
      }))
    | some total ↦ (do
      sum ← image_add lib.numbers lib.coords_empty total image
      some (record s {
        image_total = some sum;
        total_length = s.total_length + 1;
        total_exposure = add_double s.total_exposure (exposure image);
      }))
  ]

  -- "Running sum"
  pub add_running : State lib → Picture lib → Option (State lib)
  unfolding image_add image_create_double image_copy_properties
  add_running s image = elim (same_size s.running_accum image) [
    | none ↦ (do
      sum ← image_add lib.numbers lib.coords_empty (new_sum image) image
      some (record s { running_accum = some sum; running_accum_length = 1 }))
    | some accum ↦ (do
      sum ← image_add lib.numbers lib.coords_empty accum image
      some (record s {
        running_accum = some sum;
        running_accum_length = s.running_accum_length + 1;
      }))
  ]

  -- The running sum that is long enough becomes `fast->running`; `t` is the time of the frame.
  pub finish_running :
      List ℕ → State lib → Picture lib → Double → Option (State lib × List (Action (Picture lib)))
  unfolding get_flux flux_text broadcast_flux
  finish_running connected s image t = elim s.running_accum [
    | none ↦ some (s, [])
    | some accum ↦
        elim (ltb_double s.running_time
          (add_double (seconds accum.time image.time) (exposure accum))) [
            | false ↦ some (s, [])
            | true ↦ (do
              (flux, mean) ← get_flux lib s accum s.running_accum_length
              (let r : State lib = record s {
                running = some accum;
                running_accum = none;
                running_length = s.running_accum_length;
                running_accum_length = 0;
              } in
                  some (
                    r,
                    broadcast_flux connected s (flux_text (codes "accumulated_flux") t flux mean),
                  )))
          ]
  ]

  -- `queue_add_with_destructor(fast->storage_queue, event, image, image_delete)`
  pub store : State lib → ℕ → Picture lib → State lib × List (Action (Picture lib))
  unfolding queue_add_with_destructor
  store s event image =
      let (q, effects) =
        queue_add_with_destructor (some s.storage_queue) (pos event) (some image)
          (some image_delete) in
      (elim q [ none ↦ s | some r ↦ record s { storage_queue = r } ], map storage effects)

  -- The average is stored when the last one is more than five seconds old.
  pub store_average : State lib → Picture lib → Option (State lib × List (Action (Picture lib)))
  unfolding get_average_image store
  store_average s image =
      elim (ltb_ℤ (pos 5000) (lib.time_interval s.time_last_total_stored image.time)) [
        | false ↦ some (s, [])
        | true ↦ (do
          avg ← get_average_image lib s
          (let (r, effects) = store s fast_msg_average_image avg in
              some (record r { time_last_total_stored = image.time }, effects)))
      ]

  -- "Reset stored JPEGs"
  unfoldable pub reset_jpegs : State lib → State lib
  reset_jpegs s = record s {
    current_frame_data = none;
    total_frame_data = none;
    running_frame_data = none;
  }

  -- `fast->image = image_copy(image)`
  unfoldable pub keep_image : Picture lib → Option (Picture lib)
  unfolding image_copy
  keep_image image = image_copy lib.numbers lib.coords_empty (some image)

  unfoldable pub add_mean : List Keyword → Double → Option (List Keyword)
  unfolding image_keyword_add_double
  add_mean kws mean =
      image_keyword_add_double lib.fitsio lib.print_double kws (codes "MEAN") mean
        (some (codes "mean value"))

  -- The state, the image with its new keywords, and the messages. `fast->image` is a copy of the
  -- image before it gets its mean value.
  unfoldable pub process_image :
      List ℕ
      → State lib
      → Picture lib
      → Option (State lib × Picture lib × List (Action (Picture lib)))
  unfolding annotate_image check_region get_flux flux_text broadcast_flux add_total add_running
      finish_running store_average reset_jpegs
  process_image connected s image = do
    kws ← annotate_image s.kw image.keywords
    copy ← keep_image (record image { keywords = kws })
    (let t = seconds s.time_start image.time in
        let s1 : State lib = record s { image = some copy; region = check_region s.region image } in
        (do
          (flux, mean) ← get_flux lib s1 image 1
          kws' ← add_mean kws mean
          s2 ←
              add_total (record s1 { flux = flux; mean = mean; time_last_acquired = image.time })
                copy
          s3 ← add_running s2 copy
          (s4, told) ← finish_running connected s3 image t
          (s5, stored) ← store_average s4 image
          some (
            reset_jpegs s5,
            record image { keywords = kws' },
            broadcast_flux connected s1 (flux_text (codes "current_flux") t flux mean)
                ++ (told ++ stored),
          )))
