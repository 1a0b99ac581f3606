-- ===== src/Image/Statistics.antt =====
-- image.c: the statistics of an image.
use fast.Prelude.{
  List, Option, [], get_elem?, if◌then◌else◌, leb, length, ltb, map, none, some, suc, take, zero, ℕ,
  ◌%◌, ◌*◌, ◌-◌, ◌/◌, ◌>>=◌, ◌^◌, ◌∷◌,
}
use fast.Prelude.Int.{negsuc, pos, sub_ℕ, ℤ}
use fast.Image.{Doubles, Image, Pixels, double_data, pixel_count, uint16_data}
use fast.Image.Combine.{max_double, min_double}
use fast.Utils.Select.{get_median}

module _ (numbers : Doubles) {Coords : Type 0} (coords_empty : Coords)
    (sqrt : numbers.Double → numbers.Double) where
  -- A loop over the first n pixels.
  pub pixel_loop : {A : Type 0} → (A → numbers.Double → A) → ℕ → List numbers.Double → A → Option A
  pixel_loop step zero d value = some value
  pixel_loop step (suc n) [] value = none
  pixel_loop step (suc n) (x ∷ d) value = pixel_loop step n d (step value x)

  abbrev pub doubles_of : Pixels numbers.Double → List numbers.Double
  doubles_of (double_data d) = d
  doubles_of (uint16_data d) = map numbers.of_uint16 d

  abbrev pub image_size : Image numbers.Double Coords → ℕ
  image_size image = pixel_count image.width image.height

  pub image_max_value : Image numbers.Double Coords → Option numbers.Double
  unfolding pixel_loop
  image_max_value image = do
    value ← get_elem? (doubles_of image.pixels) 0
    pixel_loop (max_double numbers) (image_size image) (doubles_of image.pixels) value

  pub image_min_value : Image numbers.Double Coords → Option numbers.Double
  unfolding pixel_loop
  image_min_value image = do
    value ← get_elem? (doubles_of image.pixels) 0
    pixel_loop (min_double numbers) (image_size image) (doubles_of image.pixels) value

  pub image_sum : Image numbers.Double Coords → Option numbers.Double
  unfolding pixel_loop
  image_sum image =
      pixel_loop numbers.add_double (image_size image) (doubles_of image.pixels) numbers.zero_double

  -- `sum*1./N`
  unfoldable pub image_mean : Image numbers.Double Coords → Option numbers.Double
  unfolding image_sum
  image_mean image = do
    sum ← image_sum image
    some (
        numbers.div_double (numbers.mul_double sum (numbers.of_uint16 1))
          (numbers.of_int (pos (image_size image))))

  -- `data[d]*data[d]`, a product of two ints of 32 bits
  pub int_square : ℕ → ℤ
  int_square p = let s = p * p % 2 ^ 32 in if ltb s (2 ^ 31) then pos s else negsuc (2 ^ 32 - 1 - s)

  -- the squares of the pixels, for `sum2`
  pub squares_of : Pixels numbers.Double → List numbers.Double
  unfolding int_square
  squares_of (double_data d) = map (λ x. numbers.mul_double x x) d
  squares_of (uint16_data d) = map (λ p. numbers.of_int (int_square p)) d

  -- `sqrt((sum2 - sum*sum*1./N)*1./(N - 1))`
  pub image_sigma : Image numbers.Double Coords → Option numbers.Double
  unfolding pixel_loop squares_of
  image_sigma image = do
    sum ←
        pixel_loop numbers.add_double (image_size image) (doubles_of image.pixels)
          numbers.zero_double
    sum2 ←
        pixel_loop numbers.add_double (image_size image) (squares_of image.pixels)
          numbers.zero_double
    let one = numbers.of_uint16 1
    let mean2 =
        numbers.div_double (numbers.mul_double (numbers.mul_double sum sum) one)
          (numbers.of_int (pos (image_size image)))
    some (
        sqrt (
          numbers.div_double (numbers.mul_double (numbers.sub_double sum2 mean2) one)
            (numbers.of_int (sub_ℕ (image_size image) 1))))

  -- `sorted n data` is the array of indices after `qsort_r`.
  pub image_median : (ℕ → List ℕ → List ℕ) → Image numbers.Double Coords → Option numbers.Double
  unfolding get_median
  image_median sorted image = elim image.pixels [
    | double_data d ↦
        if leb (image_size image) (length d)
        then get_median (λ x y. numbers.ltb_double y x) (take (image_size image) d)
        else none
    | uint16_data d ↦ (do
      i ← get_elem? (sorted (image_size image) d) (image_size image / 2)
      p ← get_elem? d i
      some (numbers.of_uint16 p))
  ]
