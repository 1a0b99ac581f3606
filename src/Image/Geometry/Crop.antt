-- ===== src/Image/Geometry/Crop.antt =====
-- The pixels of a cropped image.
use fast.Image.Geometry.Cells.{
  fill_columns-some, get_elem?-get_or, index-lt, written_columns, written_columns-cell,
}
use fast.Prelude.{
  Bool-cases, List, arith, get_or, if◌then◌else◌, inl, inr, length, length-replicate, ltb, not,
  refl, replicate, some, ℕ, ◌&&◌, ◌*◌, ◌<◌, ◌^◌, ◌≡◌, ◌⊎◌, ◌∙◌,
}
use fast.Prelude.Int.{ltb_ℤ, negsuc, pos, pos_part, ℤ, ◌+ℤ◌, ◌-ℤ◌, ◌≤ℤ◌}
use fast.Image.{
  Doubles, Frame, Pixels, double_data, image_copy_properties, image_create_with_data,
  image_create_with_type, pixel_count, uint16_data,
}
use fast.Image.Add.{Pixels-cases, count, pixel_count-small}
use fast.Image.Geometry.{crop_pixel, fill_columns, image_crop, index}

module _ (numbers : Doubles) {Coords : Type 0} (coords_empty : Coords) where
  -- the value of an array element, and the value that a new array has
  abbrev pub value_at : Pixels numbers.Double → ℕ → ℕ ⊎ numbers.Double
  value_at (uint16_data d) i = inl (get_or d i 0)
  value_at (double_data d) i = inr (get_or d i numbers.zero_double)

  abbrev pub new_value : Pixels numbers.Double → ℕ ⊎ numbers.Double
  new_value (uint16_data d) = inl 0
  new_value (double_data d) = inr numbers.zero_double

  abbrev pub IsInside : Frame numbers coords_empty → ℤ → ℤ → Type 0
  IsInside image x y =
      (x ≡ pos (pos_part x))
      × ((pos_part x < image.width) × ((y ≡ pos (pos_part y)) × (pos_part y < image.height)))

  -- the pixel of the original, or `z` where it has none
  cropped_pixel : {A : Type 0} → A → ℕ → ℕ → List A → ℤ → ℤ → A
  cropped_pixel z width height d x y =
      if not (ltb_ℤ x (pos 0))
        && (ltb_ℤ x (pos width) && (not (ltb_ℤ y (pos 0)) && ltb_ℤ y (pos height)))
      then get_or d (index width (pos_part x) (pos_part y)) z
      else z

  cropped_pixel-inside :
      {A : Type 0} (z : A) (d : List A) (image : Frame numbers coords_empty) (x y : ℤ)
      → IsInside image x y
      → cropped_pixel z image.width image.height d x y
        ≡ get_or d (index image.width (pos_part x) (pos_part y)) z
  unfolding cropped_pixel
  cropped_pixel-inside z d image x y h = ground (arith, h)

  cropped_pixel-outside :
      {A : Type 0} (z : A) (d : List A) (image : Frame numbers coords_empty) (x y : ℤ)
      → ¬ (IsInside image x y)
      → cropped_pixel z image.width image.height d x y ≡ z
  unfolding cropped_pixel
  cropped_pixel-outside z d image (pos x) (pos y) h =
      elim (Bool-cases (ltb x image.width && ltb y image.height)) [
        | inl inside ↦ absurd (h (refl, (ground (arith, inside), (refl, ground (arith, inside)))))
        | inr outside ↦ ground (arith, outside)
      ]
  cropped_pixel-outside z d image (pos x) (negsuc y) h = ground arith
  cropped_pixel-outside z d image (negsuc x) y h = ground arith

  -- On an array with its size, the code reads that pixel.
  crop_pixel-some :
      {A : Type 0} (z : A) (d : List A) (image : Frame numbers coords_empty) (x y : ℤ)
      → length d ≡ image.width * image.height
      → crop_pixel z image.width image.height d x y
        ≡ some (cropped_pixel z image.width image.height d x y)
  unfolding crop_pixel cropped_pixel
  crop_pixel-some z d image (pos x) (pos y) size =
      elim (Bool-cases (ltb x image.width && ltb y image.height)) [
        | inl inside ↦
            let (h, k) : (x < image.width) × (y < image.height) =
              (ground (arith, inside), ground (arith, inside)) in
            ground (
              arith,
              inside,
              get_elem?-get_or d (index image.width x y) z
                  (omega (arith, size, index-lt image.width image.height x y h k)),
            )
        | inr outside ↦ ground (arith, outside)
      ]
  crop_pixel-some z d image (pos x) (negsuc y) size = ground arith
  crop_pixel-some z d image (negsuc x) y size = ground arith

  cropped : {A : Type 0} → A → List A → Frame numbers coords_empty → ℤ → ℤ → ℕ → ℕ → List A
  cropped z d image x1 y1 cols rows =
      written_columns
        (λ i j old. cropped_pixel z image.width image.height d (x1 +ℤ pos i) (y1 +ℤ pos j)) z cols
        rows cols (replicate (pixel_count cols rows) z)

  length-new :
      {A : Type 0} (z : A) (cols rows : ℕ)
      → cols * rows < 2 ^ 31
      → length (replicate (pixel_count cols rows) z) ≡ cols * rows
  length-new z cols rows h =
      length-replicate (pixel_count cols rows) z ∙ pixel_count-small cols rows h

  crop_loop-some :
      {A : Type 0} (z : A) (d : List A) (image : Frame numbers coords_empty) (x1 y1 : ℤ)
      (cols rows : ℕ)
      → length d ≡ image.width * image.height
      → cols * rows < 2 ^ 31
      → fill_columns
          (λ i j old. crop_pixel z image.width image.height d (x1 +ℤ pos i) (y1 +ℤ pos j))
          cols
          rows
          cols
          (replicate (pixel_count cols rows) z)
        ≡ some (cropped z d image x1 y1 cols rows)
  unfolding cropped
  crop_loop-some z d image x1 y1 cols rows size small =
      fill_columns-some
        (λ i j old. cropped_pixel z image.width image.height d (x1 +ℤ pos i) (y1 +ℤ pos j)) z cols _
        rows (λ i j a h k. crop_pixel-some z d image (x1 +ℤ pos i) (y1 +ℤ pos j) size) cols
        (replicate (pixel_count cols rows) z) (omega arith) (length-new z cols rows small)

  cropped-cell :
      {A : Type 0} (z : A) (d : List A) (image : Frame numbers coords_empty) (x1 y1 : ℤ)
      (cols rows i j : ℕ)
      → cols * rows < 2 ^ 31
      → i < cols
      → j < rows
      → get_or (cropped z d image x1 y1 cols rows) (index cols i j) z
        ≡ cropped_pixel z image.width image.height d (x1 +ℤ pos i) (y1 +ℤ pos j)
  unfolding cropped
  cropped-cell z d image x1 y1 cols rows i j small h k =
      written_columns-cell _ z cols rows i j (replicate (pixel_count cols rows) z) h k
        (length-new z cols rows small)

  -- An image whose array has its size is cropped to a rectangle that does not end before it begins
  -- and whose number of pixels is an int, with no read or write past an array. The result has the
  -- size of the rectangle, and at each of its places the pixel of the original that stands there, or
  -- 0 where the original has none.
  pub image_crop-value_at :
      (shift : Coords → ℤ → ℤ → Coords) (orig : Frame numbers coords_empty) (x1 y1 x2 y2 : ℤ)
      → count orig.pixels ≡ orig.width * orig.height
      → x1 ≤ℤ x2
      → y1 ≤ℤ y2
      → pos_part (x2 -ℤ x1) * pos_part (y2 -ℤ y1) < 2 ^ 31
      → (image : Frame numbers coords_empty) × (image_crop numbers coords_empty shift orig x1 y1 x2
            y2
          ≡ some image)
        × (image.width ≡ pos_part (x2 -ℤ x1))
        × (image.height ≡ pos_part (y2 -ℤ y1))
        × ((i j : ℕ)
            → i < image.width
            → j < image.height
            → let x = x1 +ℤ pos i in
              let y = y1 +ℤ pos j in
              (IsInside orig x y
                → value_at image.pixels (index image.width i j)
                  ≡ value_at orig.pixels (index orig.width (pos_part x) (pos_part y)))
              × (¬ (IsInside orig x y)
                  → value_at image.pixels (index image.width i j) ≡ new_value orig.pixels))
  unfolding image_crop image_copy_properties image_create_with_type image_create_with_data
  image_crop-value_at shift orig x1 y1 x2 y2 size wide high small =
      let cols = pos_part (x2 -ℤ x1) in
      let rows = pos_part (y2 -ℤ y1) in
      elim (Pixels-cases orig.pixels) [
        | inl (d, e) ↦
            let long : length d ≡ orig.width * orig.height = ground (arith, e, size) in
            (
              record orig {
                width = cols;
                height = rows;
                coords = shift orig.coords x1 y1;
                pixels = uint16_data (cropped 0 d orig x1 y1 cols rows);
              },
              ground (arith, e, crop_loop-some 0 d orig x1 y1 cols rows long small),
              refl,
              refl,
              λ i j h k.
                  let cell = cropped-cell 0 d orig x1 y1 cols rows i j small h k in
                  (
                    (λ inside. ground (
                      arith,
                      e,
                      cell,
                      cropped_pixel-inside 0 d orig (x1 +ℤ pos i) (y1 +ℤ pos j) inside,
                    )),
                    λ outside. ground (
                      arith,
                      e,
                      cell,
                      cropped_pixel-outside 0 d orig (x1 +ℤ pos i) (y1 +ℤ pos j) outside,
                    ),
                  ),
            )
        | inr (d, e) ↦
            let z = numbers.zero_double in
            let long : length d ≡ orig.width * orig.height = ground (arith, e, size) in
            (
              record orig {
                width = cols;
                height = rows;
                coords = shift orig.coords x1 y1;
                pixels = double_data (cropped z d orig x1 y1 cols rows);
              },
              ground (arith, e, crop_loop-some z d orig x1 y1 cols rows long small),
              refl,
              refl,
              λ i j h k.
                  let cell = cropped-cell z d orig x1 y1 cols rows i j small h k in
                  (
                    (λ inside. ground (
                      arith,
                      e,
                      cell,
                      cropped_pixel-inside z d orig (x1 +ℤ pos i) (y1 +ℤ pos j) inside,
                    )),
                    λ outside. ground (
                      arith,
                      e,
                      cell,
                      cropped_pixel-outside z d orig (x1 +ℤ pos i) (y1 +ℤ pos j) outside,
                    ),
                  ),
            )
      ]
