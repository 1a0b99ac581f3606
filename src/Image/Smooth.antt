-- ===== src/Image/Smooth.antt =====
-- image.c: the smoothing of an image with a Gaussian kernel, and the estimate of its errors. `exp`,
-- `sqrt`, `hypot`, `ceil` and the constant pi are parameters; `ceil` gives the int of a width that is not
-- negative. The loops that fill the kernel run over its rows and, in each, over the columns; here they
-- run over its columns, to the same array. The rows are smoothed in parallel in the
-- code, each writing its own pixels.
pub mod Within
use fast.Prelude.{
  List, Option, [], get_elem?, if◌then◌else◌, length, ltb, map, min, none, replicate, some, suc,
  take, zero, ℕ, ◌%◌, ◌*◌, ◌++◌, ◌+◌, ◌-◌, ◌/◌, ◌>>=◌, ◌∷◌,
}
use fast.Prelude.Int.{neg_part, pos, pos_part, sub_ℕ, ℤ}
use fast.Image.{
  Doubles, Frame, double_data, image_copy_properties, image_create_double, pixel_count,
}
use fast.Image.Geometry.{fill_columns}
use fast.Image.Combine.{max_double}
use fast.Image.Statistics.{doubles_of}

pub record Analysis (Double : Type 0) : Type 0 where
  pub exp : Double → Double
  pub sqrt : Double → Double
  pub hypot : Double → Double → Double
  pub ceil : Double → ℕ
  pub pi : Double

-- 0 to n - 1
abbrev pub below : ℕ → List ℕ
below zero = []
below (suc n) = below n ++ n ∷ []

-- each of the first with each of the others
pub pairs : List ℕ → List ℕ → List (ℕ × ℕ)
pairs [] ys = []
pairs (x1 ∷ xs) ys = map (λ y1. (x1, y1)) ys ++ pairs xs ys

-- the numbers from a to b - 1
abbrev pub range : ℕ → ℕ → List ℕ
range a b = map (λ i. a + i) (below (b - a))

module _ (numbers : Doubles) {Coords : Type 0} (coords_empty : Coords)
    (analysis : Analysis numbers.Double) where
  open numbers use {
    Double, zero_double, of_uint16, of_int, add_double, sub_double, mul_double, div_double,
  }

  -- `PIXEL_DOUBLE(kernel, x + size, y + size)`, for an x and a y from -size to size
  pub kernel_value : Double → ℤ → ℤ → Double
  kernel_value sigma x y =
      let square : ℤ → ℕ = λ z. (pos_part z + neg_part z) * (pos_part z + neg_part z) in
      let half = of_int (pos ((square x + square y) / 2)) in
      let arg = div_double (div_double half sigma) sigma in
      div_double
        (div_double
          (div_double (div_double (analysis.exp (sub_double zero_double arg)) (of_uint16 2))
            analysis.pi)
          sigma)
        sigma

  -- the array of `kernel`, filled from -size to size in both directions
  pub kernel_data : Double → ℕ → Option (List Double)
  unfolding kernel_value fill_columns
  kernel_data sigma size =
      let side = 2 * size + 1 in
      fill_columns (λ x y old. some (kernel_value sigma (sub_ℕ x size) (sub_ℕ y size))) side side
        side (replicate (pixel_count side side) zero_double)

  -- `value` and `kernel_sum` after the loops over x1 and y1
  pub smooth_sums :
      List Double
      → ℕ
      → List Double
      → ℕ
      → ℕ
      → ℕ
      → List (ℕ × ℕ)
      → Double × Double
      → Option (Double × Double)
  smooth_sums d width kernel size x y [] sums = some sums
  smooth_sums d width kernel size x y ((x1, y1) ∷ around) (value, kernel_sum) = do
    weight ← get_elem? kernel ((y1 + size - y) * (2 * size + 1) + (x1 + size - x))
    pixel ← get_elem? d (y1 * width + x1)
    smooth_sums d width kernel size x y around
        (add_double value (mul_double pixel weight), add_double kernel_sum weight)

  -- the pairs of the two loops around a pixel, x1 outside
  pub around : ℕ → ℕ → ℕ → ℕ → ℕ → List (ℕ × ℕ)
  unfolding pairs
  around width height size x y =
      pairs (range (x - size) (min width (x + size + 1)))
        (range (y - size) (min height (y + size + 1)))

  pub smooth_pixel : List Double → ℕ → ℕ → List Double → ℕ → ℕ → ℕ → Option Double
  unfolding smooth_sums around
  smooth_pixel d width height kernel size x y = do
    (value, kernel_sum) ←
        smooth_sums d width kernel size x y (around width height size x y)
          (zero_double, zero_double)
    some (div_double value kernel_sum)

  -- the pixels in the order of the array of `res`
  pub smooth_loop : List Double → ℕ → ℕ → List Double → ℕ → List ℕ → Option (List Double)
  unfolding smooth_pixel
  smooth_loop d width height kernel size [] = some []
  smooth_loop d width height kernel size (i ∷ places) = do
    value ← smooth_pixel d width height kernel size (i % width) (i / width)
    values ← smooth_loop d width height kernel size places
    some (value ∷ values)

  -- A result whose array is smaller than the image is written past.
  pub image_smooth : Frame numbers coords_empty → Double → Option (Frame numbers coords_empty)
  unfolding kernel_data smooth_loop image_copy_properties image_create_double
  image_smooth image sigma =
      let size = analysis.ceil (mul_double sigma (of_uint16 4)) in
      (do
        kernel ← kernel_data sigma size
        values ←
            smooth_loop (doubles_of numbers coords_empty analysis.sqrt image.pixels) image.width
              image.height kernel size (below (image.width * image.height))
        if ltb (pixel_count image.width image.height) (image.width * image.height)
            then none
            else some (
                image_copy_properties numbers coords_empty image
                  (record (image_create_double numbers coords_empty image.width image.height) {
                    pixels = double_data values;
                  })))

  -- the first n elements of two arrays, one by one
  pub pixel_pairs :
      (Double → Double → Double) → ℕ → List Double → List Double → Option (List Double)
  pixel_pairs f zero a b = some []
  pixel_pairs f (suc n) [] b = none
  pixel_pairs f (suc n) (x ∷ a) [] = none
  pixel_pairs f (suc n) (x ∷ a) (y ∷ b) = pixel_pairs f n a b >>= λ rest. some (f x y ∷ rest)

  pub image_unsharp : Frame numbers coords_empty → Double → Option (Frame numbers coords_empty)
  unfolding image_smooth pixel_pairs
  image_unsharp image sigma = do
    smooth ← image_smooth image sigma
    values ←
        pixel_pairs sub_double (pixel_count image.width image.height)
          (doubles_of numbers coords_empty analysis.sqrt image.pixels)
          (doubles_of numbers coords_empty analysis.sqrt smooth.pixels)
    some (record smooth { pixels = double_data values })

  -- `hypot(readnoise/gain, sqrt(MAX(0, value)))`
  pub error_of : Double → Double → Double → Double → Double
  error_of bias gain readnoise pixel =
      let value = div_double (sub_double pixel bias) gain in
      analysis.hypot (div_double readnoise gain)
        (analysis.sqrt (max_double numbers zero_double value))

  pub image_errors :
      Frame numbers coords_empty → Double → Double → Double → Option (Frame numbers coords_empty)
  unfolding error_of image_copy_properties image_create_double
  image_errors image bias gain readnoise =
      let n = pixel_count image.width image.height in
      let d = doubles_of numbers coords_empty analysis.sqrt image.pixels in
      if ltb (length d) n
      then none
      else some (
          image_copy_properties numbers coords_empty image
            (record (image_create_double numbers coords_empty image.width image.height) {
              pixels = double_data (map (error_of bias gain readnoise) (take n d));
            }))
