-- ===== src/Image/Smooth/Within.antt =====
-- `image_smooth` stays in the arrays of the image and of the kernel.

use fast.Prelude.Int.{sub_ℕ}
use fast.Image.{
  Doubles, Frame, double_data, image_copy_properties, image_create_double, image_create_with_data,
  image_create_with_type, pixel_count,
}
use fast.Image.Add.{pixel_count-small}
use fast.Image.Geometry.Cells.{fill_columns-some, length-written_columns, written_columns}
use fast.Prelude.{
  All, List, [], ap, arith, bind-some, get_elem?, length, length-append, map, length-replicate, min,
  refl, replicate, some, ◌^◌, suc, zero, ℕ, ◌%◌, ◌*◌, ◌++◌, ◌+◌, ◌-◌, ◌/◌, ◌<◌, ◌∙◌, ◌∷◌, ◌≡◌, ◌≤◌,
}
use fast.Image.Statistics.{doubles_of}
use fast.Image.Smooth.{
  Analysis, around, below, image_smooth, kernel_data, kernel_value, pairs, range, smooth_loop,
  smooth_pixel, smooth_sums,
}

All-append : {A : Type 0} (P : A → Type 0) (xs ys : List A) → All P xs → All P ys → All P (xs ++ ys)
All-append P [] ys h k = k
All-append P (x ∷ xs) ys (h, l) k = (h, All-append P xs ys l k)

All-map :
    {A B : Type 0} (P : B → Type 0) (f : A → B) (xs : List A)
    → All (λ x. P (f x)) xs
    → All P (map f xs)
All-map P f [] h = tt
All-map P f (x ∷ xs) (h, l) = (h, All-map P f xs l)

All-weaken :
    {A : Type 0} (P Q : A → Type 0) → ((x : A) → P x → Q x) → (xs : List A) → All P xs → All Q xs
All-weaken P Q f [] h = tt
All-weaken P Q f (x ∷ xs) (h, l) = (f x h, All-weaken P Q f xs l)

below-All : (n : ℕ) → All (λ i. i < n) (below n)
below-All zero = tt
below-All (suc n) =
    All-append (λ i. i < suc n) (below n) (n ∷ [])
      (All-weaken (λ i. i < n) (λ i. i < suc n) (λ i h. omega (arith, h)) (below n) (below-All n))
      (omega arith, tt)

range-All : (a b : ℕ) → All (λ i. i < b) (range a b)
range-All a b =
    All-map (λ i. i < b) (λ i. a + i) (below (b - a))
      (All-weaken (λ i. i < b - a) (λ i. a + i < b) (λ i h. omega (arith, h)) (below (b - a))
        (below-All (b - a)))

-- A place before a column and a row.
abbrev Inside : ℕ → ℕ → ℕ × ℕ → Type 0
Inside width height (x1, y1) = (x1 < width) × (y1 < height)

in_row : (width height x1 y1 : ℕ) → x1 < width → y1 < height → y1 * width + x1 < width * height
in_row width height x1 y1 h k = grind arith

get_elem?-some :
    {A : Type 0} (a : List A) (i : ℕ) → i < length a → (x : A) × (get_elem? a i ≡ some x)
get_elem?-some [] i h = absurd (omega arith)
get_elem?-some (x ∷ a) zero h = (x, refl)
get_elem?-some (x ∷ a) (suc i) h = get_elem?-some a i (omega arith)

pairs-All :
    (width height : ℕ) (xs ys : List ℕ)
    → All (λ i. i < width) xs
    → All (λ i. i < height) ys
    → All (Inside width height) (pairs xs ys)
unfolding pairs
pairs-All width height [] ys h k = tt
pairs-All width height (x ∷ xs) ys (h, l) k =
    All-append (Inside width height) (map (λ y. (x, y)) ys) (pairs xs ys)
      (All-map (Inside width height) (λ y. (x, y)) ys
        (All-weaken (λ i. i < height) (λ y. Inside width height (x, y)) (λ y m. (h, m)) ys k))
      (pairs-All width height xs ys l k)

module _ (numbers : Doubles) {Coords : Type 0} (coords_empty : Coords)
    (analysis : Analysis numbers.Double) where
  -- The kernel is there when its size is an int.
  kernel-some :
      (sigma : numbers.Double) (size : ℕ)
      → (2 * size + 1) * (2 * size + 1) < 2 ^ 31
      → (kernel : List numbers.Double) × (kernel_data numbers coords_empty analysis sigma size
          ≡ some kernel)
        × (length kernel ≡ (2 * size + 1) * (2 * size + 1))
  unfolding kernel_data
  kernel-some sigma size small =
      let side = 2 * size + 1 in
      let weight = λ (x y : ℕ) (old : numbers.Double).
        kernel_value numbers coords_empty analysis sigma (sub_ℕ x size) (sub_ℕ y size) in
      let zeros = replicate (pixel_count side side) numbers.zero_double in
      let full : length zeros ≡ side * side =
        length-replicate (pixel_count side side) numbers.zero_double
        ∙ pixel_count-small side side small in
      (
        written_columns weight numbers.zero_double side side side zeros,
        fill_columns-some weight numbers.zero_double side _ side (λ i j a h k. refl) side zeros
            (omega arith) full,
        length-written_columns weight numbers.zero_double side side side zeros ∙ full,
      )

  -- A place of the image near (x, y), on which the kernel has a weight.
  abbrev Near : ℕ → ℕ → ℕ → ℕ → ℕ → ℕ × ℕ → Type 0
  Near width height size x y place =
      Inside (min width (x + size + 1)) (min height (y + size + 1)) place

  smooth_sums-some :
      (d kernel : List numbers.Double) (width height size x y : ℕ) (places : List (ℕ × ℕ))
      (sums : numbers.Double × numbers.Double)
      → width * height ≤ length d
      → length kernel ≡ (2 * size + 1) * (2 * size + 1)
      → All (Near width height size x y) places
      → (r : numbers.Double × numbers.Double) × (smooth_sums numbers coords_empty analysis d width
            kernel size x y places sums
          ≡ some r)
  unfolding smooth_sums
  smooth_sums-some d kernel width height size x y [] sums room full h = (sums, refl)
  smooth_sums-some d kernel width height size x y ((x1, y1) ∷ places) (value, kernel_sum) room full
        ((h, k), l) =
      let side = 2 * size + 1 in
      let (weight, f) = get_elem?-some kernel ((y1 + size - y) * side + (x1 + size - x)) (
        omega (
          arith,
          in_row side side (x1 + size - x) (y1 + size - y) (omega (arith, h)) (omega (arith, k)),
          full,
        )) in
      let (pixel, e) =
        get_elem?-some d (y1 * width + x1)
          (omega (arith, in_row width height x1 y1 (omega (arith, h)) (omega (arith, k)), room)) in
      let (r, run) =
        smooth_sums-some d kernel width height size x y places
          (
            numbers.add_double value (numbers.mul_double pixel weight),
            numbers.add_double kernel_sum weight,
          )
          room full l in
      (r, bind-some _ f (bind-some _ e run))

  around-All :
      (width height size x y : ℕ)
      → All
          (Near width height size x y)
          (around numbers coords_empty analysis width height size x y)
  unfolding around
  around-All width height size x y =
      let (right, bottom) : ℕ × ℕ = (min width (x + size + 1), min height (y + size + 1)) in
      pairs-All right bottom (range (x - size) right) (range (y - size) bottom)
        (range-All (x - size) right) (range-All (y - size) bottom)

  smooth_loop-some :
      (d kernel : List numbers.Double) (width height size : ℕ) (places : List ℕ)
      → width * height ≤ length d
      → length kernel ≡ (2 * size + 1) * (2 * size + 1)
      → (values : List numbers.Double) × (smooth_loop numbers coords_empty analysis d width height
            kernel size places
          ≡ some values)
        × (length values ≡ length places)
  unfolding smooth_loop smooth_pixel
  smooth_loop-some d kernel width height size [] room full = ([], refl, refl)
  smooth_loop-some d kernel width height size (i ∷ places) room full =
      let (r, run) =
        smooth_sums-some d kernel width height size (i % width) (i / width)
          (around numbers coords_empty analysis width height size (i % width) (i / width))
          (numbers.zero_double, numbers.zero_double) room full
          (around-All width height size (i % width) (i / width)) in
      let (values, rest, long) = smooth_loop-some d kernel width height size places room full in
      (
        numbers.div_double r.0 r.1 ∷ values,
        bind-some _ (bind-some _ run refl) (bind-some _ rest refl),
        ap suc long,
      )

  length-below : (n : ℕ) → length (below n) ≡ n
  length-below zero = refl
  length-below (suc n) = length-append (below n) (n ∷ []) ∙ omega (arith, length-below n)

  -- An image with an array of its size is smoothed, when its size and that of the kernel are ints, without a
  -- read or write past that array or the kernel's, and the result has a double for each of its pixels.
  pub image_smooth-Within :
      (image : Frame numbers coords_empty) (sigma : numbers.Double)
      → image.width * image.height
        ≤ length (doubles_of numbers coords_empty analysis.sqrt image.pixels)
      → image.width * image.height < 2 ^ 31
      → (2 * analysis.ceil (numbers.mul_double sigma (numbers.of_uint16 4)) + 1)
          * (2 * analysis.ceil (numbers.mul_double sigma (numbers.of_uint16 4)) + 1)
        < 2 ^ 31
      → (smooth : Frame numbers coords_empty) × (values : List numbers.Double) × (image_smooth
            numbers coords_empty analysis image sigma
          ≡ some smooth)
        × (smooth.pixels ≡ double_data values)
        × (length values ≡ image.width * image.height)
        × (smooth.width ≡ image.width)
        × (smooth.height ≡ image.height)
  unfolding image_smooth image_copy_properties image_create_double image_create_with_type
      image_create_with_data
  image_smooth-Within image sigma room whole small =
      let d = doubles_of numbers coords_empty analysis.sqrt image.pixels in
      let size = analysis.ceil (numbers.mul_double sigma (numbers.of_uint16 4)) in
      let (kernel, made, full) = kernel-some sigma size small in
      let (values, run, long) =
        smooth_loop-some d kernel image.width image.height size (below (image.width * image.height))
          room full in
      (
        image_copy_properties numbers coords_empty image
            (record (image_create_double numbers coords_empty image.width image.height) {
              pixels = double_data values;
            }),
        values,
        bind-some _ made
            (bind-some _ run (ground (arith, pixel_count-small image.width image.height whole))),
        refl,
        long ∙ length-below (image.width * image.height),
        refl,
        refl,
      )
