-- ===== src/Main.antt =====
-- fast.c and fast.h: the state of the main program and what it computes from images. Freeing an
-- image or a buffer shows as the field that no longer holds it.
pub mod Process
pub mod Images
pub mod Commands
pub mod Web
pub mod Start
mod Tests
use fast.Prelude.{
  Bool, Bytes, List, Option, [], codes, false, get_elem?, length, map, none, some, suc, zero, ℕ,
  ◌*◌, ◌+◌, ◌-◌, ◌>>=◌,
}
use fast.Prelude.Int.{negsuc, pos, pos_part, sub_ℕ, ℤ, ◌+ℤ◌, ◌-ℤ◌}
use fast.Time.{TimeStr, time_zero}
use fast.Keywords.{Fitsio, Keyword, image_keyword_add_double, image_keyword_add_int}
use fast.Image.{Doubles, Frame, Image, Pixels, double_data, image_copy, uint16_data}
use fast.Queue.{Queue, queue_create}

-- What the code takes from the C library, cfitsio and the floating point unit: `print_short` is
-- `%g` and `print_double` `%.12g`, `scan_double` and `scan_int` are what `sscanf` reads with `%lf`
-- and `%d`, `of_ratio a b` is the double literal of a / b, and `to_int` cuts a double to an int.
pub record Library : Type 1 where
  pub numbers : Doubles
  pub Coords : Type 0
  pub coords_empty : Coords
  pub shift_coords : Coords → ℤ → ℤ → Coords
  pub fitsio : Fitsio
  pub print_short : numbers.Double → Bytes
  pub print_double : numbers.Double → Bytes
  pub scan_double : Bytes → Option numbers.Double
  pub scan_int : Bytes → Option ℤ
  pub of_ratio : ℕ → ℕ → numbers.Double
  pub to_int : numbers.Double → ℤ
  pub time_interval : TimeStr → TimeStr → ℤ

-- The region of interest.
pub record Region : Type 0 where
  pub x1 : ℤ
  pub y1 : ℤ
  pub x2 : ℤ
  pub y2 : ℤ

-- `fast_str`, without its server and its grabber. A prepared JPEG is its bytes; NULL is none.
pub record FastStr (Double Coords : Type 0) : Type 0 where
  pub name : Bytes
  pub object : Bytes
  pub base : Bytes
  pub grabber_queue : Queue Bytes
  pub storage_queue : Queue (Image Double Coords)
  pub image : Option (Image Double Coords)
  pub image_total : Option (Image Double Coords)
  pub total_length : ℕ
  pub total_exposure : Double
  pub kw : List Keyword
  pub running : Option (Image Double Coords)
  pub running_accum : Option (Image Double Coords)
  pub running_length : ℕ
  pub running_accum_length : ℕ
  pub running_time : Double
  pub flux : Double
  pub mean : Double
  pub dark : Option (Image Double Coords)
  pub stored_length : ℕ
  pub time_start : TimeStr
  pub time_last_acquired : TimeStr
  pub time_last_stored : TimeStr
  pub time_last_total_stored : TimeStr
  pub current_frame_data : Option Bytes
  pub total_frame_data : Option Bytes
  pub running_frame_data : Option Bytes
  pub postprocess : ℤ
  pub region : Region
  pub zoom : ℤ
  pub countdown : ℤ
  pub is_acquisition : Bool
  pub is_storage : Bool
  pub is_broadcast_flux : ℤ
  pub is_quit : Bool

module _ (lib : Library) where
  open lib use {numbers, of_ratio}
  open numbers use {
    Double, zero_double, of_uint16, of_int, add_double, sub_double, mul_double, div_double,
  }

  abbrev pub Picture : Type 0
  Picture = Frame lib.numbers lib.coords_empty

  abbrev pub State : Type 0
  State = FastStr Double lib.Coords

  pub fast_create : State
  unfolding queue_create
  fast_create = record {
    name = codes "fast";
    object = codes "test";
    base = codes "IMG";
    grabber_queue = record (queue_create Bytes 100) { timeout = 0 };
    storage_queue = record (queue_create (Image Double lib.Coords) 300) { timeout = 1000 };
    image = none;
    image_total = none;
    total_length = 0;
    total_exposure = zero_double;
    kw = [];
    running = none;
    running_accum = none;
    running_length = 0;
    running_accum_length = 0;
    running_time = of_ratio 1 1;
    flux = zero_double;
    mean = zero_double;
    dark = none;
    stored_length = 0;
    time_start = time_zero;
    time_last_acquired = time_zero;
    time_last_stored = time_zero;
    time_last_total_stored = time_zero;
    current_frame_data = none;
    total_frame_data = none;
    running_frame_data = none;
    postprocess = pos 1;
    region = record { x1 = pos 0; y1 = pos 0; x2 = pos 0; y2 = pos 0 };
    zoom = pos 0;
    countdown = negsuc 0;
    is_acquisition = false;
    is_storage = false;
    is_broadcast_flux = pos 1;
    is_quit = false;
  }

  -- A dark frame of 16 bits is refused, after the old one is gone.
  pub set_dark : State → Option Picture → State
  set_dark s none = record s { dark = none }
  set_dark s (some d) = elim d.pixels [
    | double_data v ↦ record s { dark = some d }
    | uint16_data v ↦ record s { dark = none }
  ]

  pub reset_images : State → State
  reset_images s = record s { image_total = none; running = none; running_accum = none }

  -- the cumulative image, which must be there, over the number of its frames
  pub get_average_image : State → Option Picture
  unfolding image_copy image_keyword_add_int image_keyword_add_double
  get_average_image s = do
    avg ← image_copy lib.numbers lib.coords_empty s.image_total
    scaled ← elim avg.pixels [
      | uint16_data d ↦ none
      | double_data d ↦ some (
          double_data
            (map (λ v. mul_double v (div_double (of_ratio 1 1) (of_int (pos s.total_length)))) d))
    ]
    kws1 ←
        image_keyword_add_int lib.fitsio avg.keywords (codes "COADD") (pos s.total_length)
          (some (codes "Total number of frames coadded"))
    kws2 ←
        image_keyword_add_double lib.fitsio lib.print_double kws1 (codes "TOTAL EXPOSURE")
          s.total_exposure (some (codes "Total exposure of coadded frames"))
    kws3 ←
        image_keyword_add_double lib.fitsio lib.print_double kws2 (codes "EXPOSURE")
          (div_double s.total_exposure (of_int (pos s.total_length)))
          (some (codes "Normalized (average) exposure"))
    some (record avg { pixels = scaled; keywords = kws3 })

  -- An array element, as a double; past the end there is none.
  pub pixel_double : Pixels Double → ℕ → Option Double
  pixel_double (uint16_data d) i = elim (get_elem? d i) [
    | none ↦ none
    | some v ↦ some (of_uint16 v)
  ]
  pixel_double (double_data d) i = get_elem? d i

  -- What a pixel adds to the flux: `fast->dark->double_data` is subtracted, if there is a dark
  -- frame, which is one of doubles.
  pub flux_term : Option Picture → Picture → ℕ → ℕ → Option Double
  unfolding pixel_double
  flux_term none image length i = pixel_double image.pixels i
  flux_term (some dark) image length i = do
    v ← pixel_double image.pixels i
    b ← elim dark.pixels [ uint16_data d ↦ none | double_data d ↦ get_elem? d i ]
    some (sub_double v (mul_double b (of_int (pos length))))

  -- The term at an index of the array, before which there is nothing.
  pub term_at : (ℕ → Option Double) → ℤ → Option Double
  term_at term (pos i) = term i
  term_at term (negsuc i) = none

  -- `n` rounds of the loop over `x`
  pub flux_row : (ℤ → Option Double) → ℕ → ℤ → Double → Option Double
  flux_row term zero i flux = some flux
  flux_row term (suc n) i flux = do v ← term i; flux_row term n (i +ℤ pos 1) (add_double flux v)

  pub flux_rows : (ℤ → Option Double) → ℕ → ℕ → ℕ → ℤ → Double → Option Double
  unfolding flux_row
  flux_rows term width cols zero i flux = some flux
  flux_rows term width cols (suc n) i flux = do
    v ← flux_row term cols i flux
    flux_rows term width cols n (i +ℤ pos width) v

  -- `y*width`
  abbrev pub row_start : ℤ → ℕ → ℤ
  row_start (pos y) width = pos (y * width)
  row_start (negsuc y) width = sub_ℕ 0 (suc y * width)

  -- The flux and the mean of a region.
  pub get_flux : State → Picture → ℕ → Option (Double × Double)
  unfolding flux_term flux_rows term_at
  get_flux s image length =
      let cols = pos_part (s.region.x2 -ℤ s.region.x1 +ℤ pos 1) in
      let rows = pos_part (s.region.y2 -ℤ s.region.y1 +ℤ pos 1) in
      (do
        flux ←
            flux_rows (term_at (flux_term s.dark image length)) image.width cols rows
              (row_start s.region.y1 image.width +ℤ s.region.x1) zero_double
        some (flux, div_double flux (of_int (pos (cols * rows)))))
