-- ===== src/Image/Tests.antt =====
-- Small images, with natural numbers for doubles and no coordinates.

use fast.Prelude.{
  List, [], arith, length, ltb, none, refl, some, ℕ, ◌%◌, ◌*◌, ◌+◌, ◌-◌, ◌/◌, ◌<◌, ◌==◌, ◌^◌, ◌∷◌,
  ◌≡◌, ◌≤◌,
}
use fast.Prelude.Int.{pos, pos_part, ◌+ℤ◌, ◌-ℤ◌}
use fast.Image.Geometry.{image_crop, image_downscale, index}
use fast.Image.Geometry.Crop.{IsInside, image_crop-value_at, new_value, value_at}
use fast.Image.Geometry.Down.{image_downscale-none}
use fast.Time.{time_zero}
use fast.Image.Combine.{image_combine, image_op_add, image_op_div, same_sizes}
use fast.Image.Combine.Pixel.{Combined, element, image_combine-Combined}
use fast.Image.Statistics.{image_mean}
use fast.Image.Smooth.{Analysis, image_smooth}
use fast.Image.Smooth.Within.{image_smooth-Within}
use fast.Image.{
  Doubles, Frame, Pixels, double_data, image_clean, image_convert_to_double, image_create,
  image_fill, pixel_count, uint16_data,
}

abbrev numbers : Doubles
numbers = record {
  Double = ℕ;
  zero_double = 0;
  of_uint16 = λ n. n;
  to_uint16 = λ n. n % 2 ^ 16;
  of_int = pos_part;
  add_double = λ a b. a + b;
  sub_double = λ a b. a - b;
  mul_double = λ a b. a * b;
  div_double = λ a b. a / b;
  ltb_double = ltb;
}

abbrev with_pixels : List ℕ → Frame numbers tt
with_pixels content = record {
  width = 2;
  height = 1;
  time = time_zero;
  coords = tt;
  keywords = [];
  pixels = uint16_data content;
}

abbrev pixels_of : Frame numbers tt → Pixels ℕ
pixels_of image = image.pixels

create-pixels : pixels_of (image_create numbers tt 2 2) ≡ uint16_data (0 ∷ 0 ∷ 0 ∷ 0 ∷ [])
unfolding image_create pixel_count
create-pixels = refl

fill-pixels :
    pixels_of (image_fill numbers tt (with_pixels (1 ∷ 2 ∷ [])) 7) ≡ uint16_data (7 ∷ 7 ∷ [])
unfolding image_fill pixel_count
fill-pixels = refl

clean-pixels :
    pixels_of (image_clean numbers tt (with_pixels (1 ∷ 2 ∷ []))) ≡ uint16_data (0 ∷ 0 ∷ [])
unfolding image_clean pixel_count
clean-pixels = refl

convert-pixels :
    pixels_of (image_convert_to_double numbers tt (with_pixels (1 ∷ 2 ∷ [])))
    ≡ double_data (1 ∷ 2 ∷ [])
unfolding image_convert_to_double pixel_count
convert-pixels = refl

abbrev three : Frame numbers tt
three = record (with_pixels (5 ∷ 6 ∷ 7 ∷ [])) { width = 3 }

image_crop-value_at_example :
    (image : Frame numbers tt) × (image_crop numbers tt
        (λ c dx dy. c)
        three
        (pos 1)
        (pos 0)
        (pos 4)
        (pos 1)
      ≡ some image)
    × (image.width ≡ pos_part (pos 4 -ℤ pos 1))
    × (image.height ≡ pos_part (pos 1 -ℤ pos 0))
    × ((i j : ℕ)
        → i < image.width
        → j < image.height
        → let x = pos 1 +ℤ pos i in
          let y = pos 0 +ℤ pos j in
          (IsInside numbers tt three x y
            → value_at numbers tt image.pixels (index image.width i j)
              ≡ value_at numbers tt three.pixels (index three.width (pos_part x) (pos_part y)))
          × (¬ (IsInside numbers tt three x y)
              → value_at numbers tt image.pixels (index image.width i j)
                ≡ new_value numbers tt three.pixels))
unfolding ◌-ℤ◌
image_crop-value_at_example =
    image_crop-value_at numbers tt (λ c dx dy. c) three (pos 1) (pos 0) (pos 4) (pos 1) refl
      (omega arith) (omega arith) (omega arith)

image_downscale-none_example : image_downscale numbers tt three 2 ≡ none
image_downscale-none_example =
    image_downscale-none numbers tt three 2 (omega arith) (omega arith) (omega arith)
      (λ e. absurd (omega (arith, e)))

abbrev combined : Frame numbers tt
combined = with_pixels (65000 ∷ 6 ∷ [])

combine-run :
    image_combine numbers tt
      (λ x. x == 0)
      combined
      2
      (some (with_pixels (1000 ∷ 3 ∷ [])))
      image_op_add
    ≡ some (with_pixels (65535 ∷ 12 ∷ []))
unfolding image_combine pixel_count
combine-run = refl

image_combine-Combined_example :
    (q : Pixels ℕ) × (image_combine numbers tt
        (λ x. x == 0)
        combined
        2
        (some (with_pixels (1000 ∷ 3 ∷ [])))
        image_op_div
      ≡ some (record combined { pixels = q }))
    × ((k : ℕ)
        → 2 ≤ k
        → element numbers tt (λ x. x == 0) q k ≡ element numbers tt (λ x. x == 0) combined.pixels k)
    × ((k : ℕ)
        → k < 2
        → Combined numbers tt
            (λ x. x == 0)
            combined.pixels
            q
            2
            (some (with_pixels (1000 ∷ 3 ∷ [])))
            image_op_div
            k)
unfolding same_sizes pixel_count
image_combine-Combined_example =
    image_combine-Combined numbers tt (λ x. x == 0) combined 2 (some (with_pixels (1000 ∷ 3 ∷ [])))
      image_op_div refl (omega arith) (omega arith)

mean-run : image_mean numbers tt (λ x. x) (with_pixels (4 ∷ 6 ∷ [])) ≡ some 5
unfolding image_mean pixel_count
mean-run = refl

-- stand-ins on whole numbers
abbrev analysis : Analysis ℕ
analysis = record { exp = λ x. 12; sqrt = λ x. x; hypot = λ x y. x + y; ceil = λ x. x; pi = 3 }

image_smooth-Within_example :
    (smooth : Frame numbers tt) × (values : List ℕ) × (image_smooth numbers tt analysis combined 1
      ≡ some smooth)
    × (smooth.pixels ≡ double_data values)
    × (length values ≡ 2)
    × (smooth.width ≡ 2)
    × (smooth.height ≡ 1)
image_smooth-Within_example =
    image_smooth-Within numbers tt analysis combined 1 (omega arith) (omega arith) (omega arith)
