-- ===== src/Image/Geometry.antt =====
-- image.c: `image_crop`, `image_scale` and `image_downscale`. A pixel (x, y) of an image stands at
-- y * width + x of its array. The loops run over the columns and, in each, over the rows; the last
-- round of a loop of `n + 1` rounds is that of `n`.
pub mod Cells
pub mod Crop
pub mod Down
use fast.Prelude.{
  List, Option, [], get_elem?, get_or, if◌then◌else◌, none, not, replicate, set, some, suc, zero, ℕ,
  ◌%◌, ◌&&◌, ◌*◌, ◌+◌, ◌/◌, ◌>>=◌, ◌^◌, ◌∷◌,
}
use fast.Prelude.Int.{ltb_ℤ, pos, pos_part, ℤ, ◌+ℤ◌, ◌-ℤ◌}
use fast.Image.{
  Doubles, Frame, Pixels, as_pixels, double_data, image_copy_properties, image_create_with_type,
  pixel_count, type_of, uint16_data,
}

-- `PIXEL(image, x, y)`
abbrev pub index : ℕ → ℕ → ℕ → ℕ
index width x y = y * width + x

module _ {A : Type 0} where
  -- Column `x`, for the first `n` rows: `f x y old` is written over `old`. What lies past the end of
  -- the array has no result.
  pub fill_column : (ℕ → ℕ → A → Option A) → ℕ → ℕ → ℕ → List A → Option (List A)
  fill_column f width x zero d = some d
  fill_column f width x (suc n) d = do
    e ← fill_column f width x n d
    old ← get_elem? e (index width x n)
    new ← f x n old
    some (set e (index width x n) new)

  -- the first `n` columns
  unfoldable pub fill_columns : (ℕ → ℕ → A → Option A) → ℕ → ℕ → ℕ → List A → Option (List A)
  unfolding fill_column
  fill_columns f width height zero d = some d
  fill_columns f width height (suc n) d = do
    e ← fill_columns f width height n d
    fill_column f width n height e

  -- An array element is updated; one past the end has no result.
  abbrev pub update_at : List A → ℕ → (A → A) → Option (List A)
  update_at [] i f = none
  update_at (x ∷ xs) zero f = some (f x ∷ xs)
  update_at (x ∷ xs) (suc i) f = elim (update_at xs i f) [ none ↦ none | some ys ↦ some (x ∷ ys) ]

  -- Column `x` of the larger image, for its first `n` rows: each is added to the pixel of the
  -- smaller one that it falls on.
  pub down_column : (ℕ → ℕ → A → A) → ℕ → ℕ → ℕ → ℕ → List A → Option (List A)
  down_column f factor width x zero d = some d
  down_column f factor width x (suc n) d = do
    e ← down_column f factor width x n d
    update_at e (index width (x / factor) (n / factor)) (f x n)

  pub down_columns : (ℕ → ℕ → A → A) → ℕ → ℕ → ℕ → ℕ → List A → Option (List A)
  unfolding down_column
  down_columns f factor width height zero d = some d
  down_columns f factor width height (suc n) d = do
    e ← down_columns f factor width height n d
    down_column f factor width n height e

  -- `x` in the rows and columns of the image, or else `zero_pixel`
  pub crop_pixel : A → ℕ → ℕ → List A → ℤ → ℤ → Option A
  crop_pixel zero_pixel width height d x y =
      if not (ltb_ℤ x (pos 0))
        && (ltb_ℤ x (pos width) && (not (ltb_ℤ y (pos 0)) && ltb_ℤ y (pos height)))
      then get_elem? d (index width (pos_part x) (pos_part y))
      else some zero_pixel

module _ (numbers : Doubles) {Coords : Type 0} (coords_empty : Coords) where
  -- `shift coords x1 y1` moves the reference pixel of coordinates that are not empty. The sizes of a
  -- rectangle that ends before it begins, which are negative in the code, are not modelled: they are
  -- given as 0.
  unfoldable pub image_crop :
      (Coords → ℤ → ℤ → Coords)
      → Frame numbers coords_empty
      → ℤ
      → ℤ
      → ℤ
      → ℤ
      → Option (Frame numbers coords_empty)
  unfolding fill_columns crop_pixel image_create_with_type image_copy_properties
  image_crop shift orig x1 y1 x2 y2 =
      let cols = pos_part (x2 -ℤ x1) in
      let rows = pos_part (y2 -ℤ y1) in
      let image =
        image_create_with_type numbers coords_empty cols rows (type_of numbers coords_empty orig) in
      let pixels : Option (Pixels numbers.Double) = elim orig.pixels [
        | double_data d ↦ as_pixels double_data (
            fill_columns
              (λ i j old.
                crop_pixel numbers.zero_double orig.width orig.height d (x1 +ℤ pos i) (y1 +ℤ pos j))
              cols rows cols (replicate (pixel_count cols rows) numbers.zero_double))
        | uint16_data d ↦ as_pixels uint16_data (
            fill_columns
              (λ i j old. crop_pixel 0 orig.width orig.height d (x1 +ℤ pos i) (y1 +ℤ pos j)) cols
              rows cols (replicate (pixel_count cols rows) 0))
      ] in
      (do
        p ← pixels
        (let copied =
              image_copy_properties numbers coords_empty orig (record image { pixels = p }) in
            some (record copied { coords = shift copied.coords x1 y1 })))

  pub image_scale : Frame numbers coords_empty → ℕ → Option (Frame numbers coords_empty)
  unfolding fill_columns image_create_with_type image_copy_properties
  image_scale orig factor =
      let cols = orig.width * factor in
      let rows = orig.height * factor in
      let image =
        image_create_with_type numbers coords_empty cols rows (type_of numbers coords_empty orig) in
      let pixels : Option (Pixels numbers.Double) = elim orig.pixels [
        | double_data d ↦ as_pixels double_data (
            fill_columns
              (λ x y old. (do
                v ← get_elem? d (index orig.width (x / factor) (y / factor))
                some (numbers.add_double old v)))
              cols rows cols (replicate (pixel_count cols rows) numbers.zero_double))
        | uint16_data d ↦ as_pixels uint16_data (
            fill_columns
              (λ x y old. (do
                v ← get_elem? d (index orig.width (x / factor) (y / factor))
                some ((old + v) % 2 ^ 16)))
              cols rows cols (replicate (pixel_count cols rows) 0))
      ] in
      (do
        p ← pixels
        some (image_copy_properties numbers coords_empty orig (record image { pixels = p })))

  pub image_downscale : Frame numbers coords_empty → ℕ → Option (Frame numbers coords_empty)
  unfolding down_columns image_create_with_type image_copy_properties
  image_downscale orig factor =
      let cols = orig.width / factor in
      let rows = orig.height / factor in
      let image =
        image_create_with_type numbers coords_empty cols rows (type_of numbers coords_empty orig) in
      let scale = numbers.of_int (pos factor) in
      let pixels : Option (Pixels numbers.Double) = elim orig.pixels [
        | double_data d ↦ (do
          e ←
              down_columns
                (λ x y old. numbers.add_double old (
                  numbers.div_double
                    (numbers.div_double (get_or d (index orig.width x y) numbers.zero_double) scale)
                    scale))
                factor cols orig.height orig.width
                (replicate (pixel_count cols rows) numbers.zero_double)
          some (double_data e))
        | uint16_data d ↦ (do
          e ←
              down_columns
                (λ x y old. (old + get_or d (index orig.width x y) 0 / factor / factor) % 2 ^ 16)
                factor cols orig.height orig.width (replicate (pixel_count cols rows) 0)
          some (uint16_data e))
      ] in
      (do
        p ← pixels
        some (image_copy_properties numbers coords_empty orig (record image { pixels = p })))
