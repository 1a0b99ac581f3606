-- ===== src/Image.antt =====
-- image.c: images, their pixels in the order of their array, and sums of images. An array ends
-- where its list does; a loop that runs past it has no result.
--
-- `Doubles` is the arithmetic of doubles that the code uses, and `Coords` is `coords_str`.
pub mod Add
pub mod Geometry
pub mod Combine
pub mod Statistics
pub mod Smooth
mod Tests
use fast.Prelude.{
  Bool, List, Option, [], drop, if◌then◌else◌, ltb, map, none, replicate, some, suc, take, zero, ℕ,
  ◌%◌, ◌*◌, ◌++◌, ◌+◌, ◌^◌, ◌∷◌,
}
use fast.Prelude.Int.{ℤ}
use fast.Time.{TimeStr, time_zero}
use fast.Keywords.{Keyword, filled}

pub record Doubles : Type 1 where
  pub Double : Type 0
  pub zero_double : Double
  pub of_uint16 : ℕ → Double
  pub to_uint16 : Double → ℕ
  pub of_int : ℤ → Double
  pub add_double : Double → Double → Double
  pub sub_double : Double → Double → Double
  pub mul_double : Double → Double → Double
  pub div_double : Double → Double → Double
  pub ltb_double : Double → Double → Bool

-- `enum image_type`
pub data ImageType : Type 0 where
  image_uint16 : ImageType
  image_double : ImageType

-- The union of the data pointers, by the type of the image.
pub data Pixels (Double : Type 0) : Type 0 where
  uint16_data : List ℕ → Pixels Double
  double_data : List Double → Pixels Double

-- `image_str`
pub record Image (Double Coords : Type 0) : Type 0 where
  pub width : ℕ
  pub height : ℕ
  pub time : TimeStr
  pub coords : Coords
  pub keywords : List Keyword
  pub pixels : Pixels Double

-- `n` elements are written to the front of an array that has them.
abbrev pub copy_front {ℓ} : {A : Type ℓ} → ℕ → List A → List A → List A
copy_front n target source = take n source ++ drop n target

-- `for(d = 0; d < n; d++) first[d] += second[d]`
unfoldable pub add_loop {ℓ κ} :
    {A : Type ℓ} {B : Type κ} → (A → B → A) → ℕ → List A → List B → Option (List A)
add_loop plus zero first second = some first
add_loop plus (suc n) [] second = none
add_loop plus (suc n) (a ∷ first) [] = none
add_loop plus (suc n) (a ∷ first) (b ∷ second) = elim (add_loop plus n first second) [
  | none ↦ none
  | some rest ↦ some (plus a b ∷ rest)
]

-- The int product of two sizes, as a number of pixels: it wraps around, and a loop to a negative
-- number has no rounds, and an array of that size is not there.
unfoldable pub pixel_count : ℕ → ℕ → ℕ
pixel_count width height =
    let wrapped = (width * height) % 2 ^ 32 in if ltb wrapped (2 ^ 31) then wrapped else 0

abbrev pub as_pixels : {A Made : Type 0} → (List A → Made) → Option (List A) → Option Made
as_pixels make none = none
as_pixels make (some d) = some (make d)

module _ (numbers : Doubles) {Coords : Type 0} (coords_empty : Coords) where
  abbrev pub Frame : Type 0
  Frame = Image numbers.Double Coords

  abbrev pub type_of : Frame → ImageType
  type_of image = elim image.pixels [ uint16_data d ↦ image_uint16 | double_data d ↦ image_double ]

  unfoldable pub image_create_with_data : ℕ → ℕ → List ℕ → Frame
  image_create_with_data width height content = record {
    width = width;
    height = height;
    time = time_zero;
    coords = coords_empty;
    keywords = [];
    pixels = uint16_data content;
  }

  unfoldable pub image_create_with_type : ℕ → ℕ → ImageType → Frame
  unfolding image_create_with_data
  image_create_with_type width height kind = record (image_create_with_data width height []) {
    pixels = elim kind [
      | image_double ↦ double_data (replicate (pixel_count width height) numbers.zero_double)
      | image_uint16 ↦ uint16_data (replicate (pixel_count width height) 0)
    ];
  }

  pub image_create : ℕ → ℕ → Frame
  unfolding image_create_with_type
  image_create width height = image_create_with_type width height image_uint16

  unfoldable pub image_create_double : ℕ → ℕ → Frame
  unfolding image_create_with_type
  image_create_double width height = image_create_with_type width height image_double

  pub image_fill : Frame → numbers.Double → Frame
  image_fill image val =
      let n = pixel_count image.width image.height in
      record image {
        pixels = elim image.pixels [
          | double_data d ↦ double_data (copy_front n d (replicate n val))
          | uint16_data d ↦ uint16_data (copy_front n d (replicate n (numbers.to_uint16 val)))
        ];
      }

  pub image_clean : Frame → Frame
  image_clean image =
      let n = pixel_count image.width image.height in
      record image {
        pixels = elim image.pixels [
          | double_data d ↦ double_data (copy_front n d (replicate n numbers.zero_double))
          | uint16_data d ↦ uint16_data (copy_front n d (replicate n 0))
        ];
      }

  -- the image `to` after the call
  unfoldable pub image_copy_properties : Frame → Frame → Frame
  image_copy_properties source target = record target {
    time = source.time;
    coords = source.coords;
    keywords = source.keywords;
  }

  unfoldable pub image_copy : Option Frame → Option Frame
  unfolding image_create_with_type image_copy_properties
  image_copy none = none
  image_copy (some image_in) =
      let n = pixel_count image_in.width image_in.height in
      let image = image_create_with_type image_in.width image_in.height (type_of image_in) in
      let filled : Frame = record image {
        pixels = elim image_in.pixels [
          | double_data d ↦ double_data (copy_front n (replicate n numbers.zero_double) d)
          | uint16_data d ↦ uint16_data (copy_front n (replicate n 0) d)
        ];
        time = image_in.time;
      } in
      some (image_copy_properties image_in filled)

  unfoldable pub image_convert_to_double : Frame → Frame
  unfolding image_create_double image_copy_properties
  image_convert_to_double orig =
      let n = pixel_count orig.width orig.height in
      let image = image_create_double orig.width orig.height in
      let zeros = replicate n numbers.zero_double in
      image_copy_properties orig (record image {
        pixels = elim orig.pixels [
          | double_data d ↦ double_data (copy_front n zeros d)
          | uint16_data d ↦ double_data (copy_front n zeros (map numbers.of_uint16 d))
        ];
      })

  -- The sizes of the second image are not looked at.
  unfoldable pub image_add : Frame → Frame → Option Frame
  unfolding add_loop
  image_add image second =
      let n = pixel_count image.width image.height in
      let sum : Option (Pixels numbers.Double) = elim image.pixels [
        | uint16_data a ↦ elim second.pixels [
          | uint16_data b ↦ as_pixels uint16_data (add_loop (λ x y. (x + y) % 2 ^ 16) n a b)
          | double_data b ↦ as_pixels uint16_data (
              add_loop (λ x y. numbers.to_uint16 (numbers.add_double (numbers.of_uint16 x) y)) n a
                b)
        ]
        | double_data a ↦ elim second.pixels [
          | uint16_data b ↦
              as_pixels double_data
                (add_loop (λ x y. numbers.add_double x (numbers.of_uint16 y)) n a b)
          | double_data b ↦ as_pixels double_data (add_loop numbers.add_double n a b)
        ]
      ] in
      elim sum [ none ↦ none | some p ↦ some (record image { pixels = p }) ]
