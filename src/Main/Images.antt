-- ===== src/Main/Images.antt =====
-- fast.c and image_jpeg.c: the images that clients are shown, and the parameters of their JPEGs.
pub mod Exists
use fast.Prelude.{
  Bool, List, Option, [], false, get_elem?, if◌then◌else◌, length, none, not, some, suc, zero, ℕ,
  ◌&&◌, ◌*◌, ◌+◌, ◌-◌, ◌/◌, ◌==◌, ◌>>=◌, ◌∷◌,
}
use fast.Prelude.Int.{ltb_ℤ, negsuc, pos, ℤ, ◌+ℤ◌, ◌-ℤ◌}
use fast.Image.{add_loop, double_data, pixel_count, uint16_data}
use fast.Image.Geometry.{image_crop, update_at}
use fast.Main.{Library, Picture, State, set_dark}

abbrev pub is_zero : ℤ → Bool
is_zero (pos n) = n == 0
is_zero (negsuc n) = false

-- The rectangle that is shown.
pub record Corners : Type 0 where
  pub left : ℤ
  pub top : ℤ
  pub right : ℤ
  pub bottom : ℤ

-- the static variables of image_jpeg.c
pub record JpegParams (Double : Type 0) : Type 0 where
  pub colormap : ℤ
  pub scale : ℤ
  pub quality : ℤ
  pub minp : Double
  pub maxp : Double

module _ (lib : Library) where
  open lib use {numbers, of_ratio, to_int}
  open numbers use {
    Double, zero_double, of_int, add_double, sub_double, mul_double, div_double, ltb_double,
  }

  unfoldable pub image_jpeg_set_colormap : JpegParams Double → ℤ → JpegParams Double
  image_jpeg_set_colormap p cmap = record p { colormap = cmap }

  unfoldable pub image_jpeg_set_scale : JpegParams Double → ℤ → JpegParams Double
  image_jpeg_set_scale p scale = record p { scale = scale }

  unfoldable pub image_jpeg_set_quality : JpegParams Double → ℤ → JpegParams Double
  image_jpeg_set_quality p quality = record p { quality = quality }

  unfoldable pub image_jpeg_set_percentile : JpegParams Double → Double → Double → JpegParams Double
  image_jpeg_set_percentile p pmin pmax = record p {
    minp = (if ltb_double pmin zero_double then zero_double else pmin);
    maxp = (if ltb_double pmax (of_ratio 1 1) then pmax else of_ratio 1 1);
  }

  -- the sum of the pixels at some places
  pub sum_at : List ℕ → List Double → Double → Option Double
  sum_at [] d mean = some mean
  sum_at (i ∷ is) d mean = do v ← get_elem? d i; sum_at is d (add_double mean v)

  pub subtract_at : List ℕ → List Double → Double → Option (List Double)
  subtract_at [] d mean = some d
  subtract_at (i ∷ is) d mean = do e ← update_at d i (λ v. sub_double v mean); subtract_at is e mean

  -- The mean of some places, where `scale` is one over their number, is subtracted from them.
  pub remove_mean : List ℕ → Double → List Double → Option (List Double)
  unfolding sum_at subtract_at
  remove_mean places scale d = do
    total ← sum_at places d zero_double
    subtract_at places d (mul_double total scale)

  -- `n` places from `i`, `step` apart
  abbrev pub places : ℕ → ℕ → ℕ → List ℕ
  places zero i step = []
  places (suc n) i step = i ∷ places n (i + step) step

  -- "Remove horizontal lines", from row `y`
  pub remove_rows : ℕ → ℕ → ℕ → List Double → Option (List Double)
  unfolding remove_mean
  remove_rows zero y width d = some d
  remove_rows (suc n) y width d = do
    e ← remove_mean (places width (y * width) 1) (div_double (of_ratio 1 1) (of_int (pos width))) d
    remove_rows n (y + 1) width e

  -- "Remove vertical half-lines", from column `x`
  pub remove_halves : ℕ → ℕ → ℕ → ℕ → List Double → Option (List Double)
  unfolding remove_mean
  remove_halves zero x width height d = some d
  remove_halves (suc n) x width height d =
      let half = height / 2 in
      let scale = div_double (of_ratio 2 1) (of_int (pos height)) in
      (do
        e ← remove_mean (places half x width) scale d
        g ← remove_mean (places (height - half) (half * width + x) width) scale e
        remove_halves n (x + 1) width height g)

  -- A dark frame of other dimensions is dropped.
  unfoldable pub check_dark : State lib → Picture lib → State lib
  unfolding set_dark
  check_dark s image = elim s.dark [
    | none ↦ s
    | some dark ↦
        if not (ltb_ℤ s.postprocess (pos 1))
          && not ((dark.width == image.width) && (dark.height == image.height))
        then set_dark lib s none
        else s
  ]

  -- `image->double_data[x] -= fast->dark->double_data[x]*length`
  pub subtract_dark : State lib → Picture lib → ℕ → List Double → Option (List Double)
  unfolding add_loop
  subtract_dark s image length d = elim s.dark [
    | none ↦ some d
    | some dark ↦ if ltb_ℤ s.postprocess (pos 1) then some d else elim dark.pixels [
      | uint16_data b ↦ none
      | double_data b ↦
          add_loop (λ v w. sub_double v (mul_double w (of_int (pos length))))
            (pixel_count image.width image.height) d b
    ]
  ]

  -- the whole for an image of doubles `d`
  unfoldable pub postprocess_data :
      State lib → Picture lib → ℕ → List Double → Option (State lib × Picture lib)
  unfolding check_dark subtract_dark remove_rows remove_halves
  postprocess_data s image length d =
      let t = check_dark s image in
      (do
        e ← subtract_dark t image length d
        f ← if ltb_ℤ s.postprocess (pos 2) then some e else remove_rows image.height 0 image.width e
        g ←
            if ltb_ℤ s.postprocess (pos 3)
            then some f
            else remove_halves image.width 0 image.width image.height f
        some (t, record image { pixels = double_data g }))

  -- An image of 16 bits is left as it is.
  unfoldable pub postprocess_image : State lib → Picture lib → ℕ → Option (State lib × Picture lib)
  unfolding postprocess_data
  postprocess_image s image length = elim image.pixels [
    | uint16_data d ↦ some (s, image)
    | double_data d ↦ postprocess_data s image length d
  ]

  -- `image_crop` to a rectangle
  abbrev pub crop_to : Picture lib → Corners → Option (Picture lib)
  crop_to image c =
      image_crop lib.numbers lib.coords_empty lib.shift_coords image c.left c.top c.right c.bottom

  -- The corners are doubles in the code, which are cut to ints.
  abbrev pub corners : Double → Double → Double → Double → Corners
  corners x1 y1 x2 y2 = record {
    left = to_int x1;
    top = to_int y1;
    right = to_int x2;
    bottom = to_int y2;
  }

  -- `zoom` pixels about the centre
  pub centre_corners : ℕ → ℕ → ℤ → Corners
  centre_corners width height zoom =
      let (w, h) : ℤ × ℤ = (pos width, pos height) in
      let half = of_ratio 1 2 in
      corners (mul_double half (of_int (w -ℤ zoom))) (mul_double half (of_int (h -ℤ zoom)))
        (mul_double half (of_int (w +ℤ zoom))) (mul_double half (of_int (h +ℤ zoom)))

  -- the current frame: more than 16 is a number of pixels, up to 16 a magnification
  unfoldable pub current_corners : ℕ → ℕ → ℤ → Corners
  unfolding centre_corners
  current_corners width height zoom =
      let one = of_ratio 1 1 in
      let (w, h) : Double × Double = (
        mul_double (of_ratio 1 2) (of_int (pos width)),
        mul_double (of_ratio 1 2) (of_int (pos height)),
      ) in
      let part = div_double one (of_int zoom) in
      if ltb_ℤ (pos 16) zoom
      then centre_corners width height zoom
      else corners (mul_double w (sub_double one part)) (mul_double h (sub_double one part))
          (mul_double w (add_double one part)) (mul_double h (add_double one part))

  unfoldable pub zoom_current : Picture lib → ℤ → Option (Picture lib)
  unfolding current_corners image_crop
  zoom_current image zoom =
      if is_zero zoom
      then some image
      else crop_to image (current_corners image.width image.height zoom)

  -- the cumulative frame: more than 10 is a number of pixels
  unfoldable pub total_corners : ℕ → ℕ → ℤ → Corners
  unfolding centre_corners
  total_corners width height zoom =
      let (w, h) : Double × Double = (of_int (pos width), of_int (pos height)) in
      let (low, high) : Double × Double = (of_ratio 35 100, of_ratio 65 100) in
      if ltb_ℤ (pos 10) zoom
      then centre_corners width height zoom
      else corners (mul_double low w) (mul_double low h) (mul_double high w) (mul_double high h)

  unfoldable pub zoom_total : Picture lib → ℤ → Option (Picture lib)
  unfolding total_corners image_crop
  zoom_total image zoom =
      if is_zero zoom
      then some image
      else crop_to image (total_corners image.width image.height zoom)
