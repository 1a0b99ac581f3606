-- ===== src/Image/Combine.antt =====
-- image.c: `image_combine`, the arithmetic of an image with a value or with another image.
pub mod Pixel
use fast.Prelude.{
  Bool, Option, get_elem?, if◌then◌else◌, none, set, some, suc, true, zero, ℕ, ◌&&◌, ◌*◌, ◌+◌, ◌==◌,
  ◌>>=◌,
}
use fast.Image.{Doubles, Image, Pixels, double_data, pixel_count, uint16_data}

-- `enum image_combine_op`
pub data CombineOp : Type 0 where
  image_op_add : CombineOp
  image_op_sub : CombineOp
  image_op_mul : CombineOp
  image_op_div : CombineOp

-- `MAX` and `MIN` of utils.h
abbrev pub max_double : (numbers : Doubles) → numbers.Double → numbers.Double → numbers.Double
max_double numbers x y = if numbers.ltb_double y x then x else y

abbrev pub min_double : (numbers : Doubles) → numbers.Double → numbers.Double → numbers.Double
min_double numbers x y = if numbers.ltb_double x y then x else y

-- `is_zero` is the test for 0.
module _ (numbers : Doubles) {Coords : Type 0} (coords_empty : Coords)
    (is_zero : numbers.Double → Bool) where
  -- a pixel as a double, from 0 to the end of the array
  pub double_at : Pixels numbers.Double → ℕ → Option numbers.Double
  double_at (double_data d) i = get_elem? d i
  double_at (uint16_data d) i = get_elem? d i >>= λ p. some (numbers.of_uint16 p)

  pub combine_op : CombineOp → numbers.Double → numbers.Double → numbers.Double
  combine_op image_op_add op1 op2 = numbers.add_double op1 op2
  combine_op image_op_sub op1 op2 = numbers.sub_double op1 op2
  combine_op image_op_mul op1 op2 = numbers.mul_double op1 op2
  combine_op image_op_div op1 op2 =
      if is_zero op2 then numbers.zero_double else numbers.div_double op1 op2

  -- `MAX(0, MIN(op1, 0xffff))`, for an element of the array
  pub clamped : numbers.Double → ℕ
  clamped op1 =
      numbers.to_uint16
        (max_double numbers numbers.zero_double (min_double numbers op1 (numbers.of_uint16 65535)))

  -- `val * (second ? ... : 1)`
  pub second_operand :
      numbers.Double → Option (Image numbers.Double Coords) → ℕ → Option numbers.Double
  unfolding double_at
  second_operand val none d = some (numbers.mul_double val (numbers.of_uint16 1))
  second_operand val (some second) d =
      double_at second.pixels d >>= λ p. some (numbers.mul_double val p)

  pub store_pixel : Pixels numbers.Double → ℕ → numbers.Double → Pixels numbers.Double
  unfolding clamped
  store_pixel (double_data a) d op1 = double_data (set a d op1)
  store_pixel (uint16_data a) d op1 = uint16_data (set a d (clamped op1))

  -- The loop from d on, over the `left` pixels that are left.
  pub combine_loop :
      ℕ
      → ℕ
      → Pixels numbers.Double
      → numbers.Double
      → Option (Image numbers.Double Coords)
      → CombineOp
      → Option (Pixels numbers.Double)
  unfolding double_at combine_op second_operand store_pixel
  combine_loop zero d pixels val second op = some pixels
  combine_loop (suc left) d pixels val second op = do
    op2 ← second_operand val second d
    op1 ← double_at pixels d
    combine_loop left (d + 1) (store_pixel pixels d (combine_op op op1 op2)) val second op

  unfoldable pub same_sizes :
      Image numbers.Double Coords → Option (Image numbers.Double Coords) → Bool
  same_sizes image none = true
  same_sizes image (some second) = (image.width == second.width) && (image.height == second.height)

  unfoldable pub image_combine :
      Image numbers.Double Coords
      → numbers.Double
      → Option (Image numbers.Double Coords)
      → CombineOp
      → Option (Image numbers.Double Coords)
  unfolding combine_loop same_sizes
  image_combine image val second op =
      if same_sizes image second
      then (do
        pixels ← combine_loop (pixel_count image.width image.height) 0 image.pixels val second op
        some (record image { pixels = pixels }))
      else some image
