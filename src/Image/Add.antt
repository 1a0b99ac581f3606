-- ===== src/Image/Add.antt =====
-- Copies and sums of images, pixel by pixel.
use fast.Prelude.{
  List, [], ap, append-nil, arith, drop, eq_nil_of_length, get_or, inl, inr, length, length-drop,
  length-replicate, none, refl, replicate, some, suc, take_of_le, zero, ℕ, ◌%◌, ◌*◌, ◌+◌, ◌<◌, ◌^◌,
  ◌∷◌, ◌≡◌, ◌≤◌, ◌⊎◌,
}
use native.Mathlib.Nat.{mod-eq_of_lt, mod-le}
use fast.Image.{
  Doubles, Frame, Pixels, add_loop, copy_front, double_data, image_add, image_copy,
  image_copy_properties, image_create_with_data, image_create_with_type, pixel_count, uint16_data,
}

pub pixel_count-le : (width height : ℕ) → pixel_count width height ≤ width * height
unfolding pixel_count
pixel_count-le width height = ground (arith, mod-le (width * height) (2 ^ 32))

pub pixel_count-small :
    (width height : ℕ) → width * height < 2 ^ 31 → pixel_count width height ≡ width * height
unfolding pixel_count
pixel_count-small width height h =
    let wrapped : (width * height) % 2 ^ 32 ≡ width * height = mod-eq_of_lt (omega arith) in
    ground (arith, wrapped)

abbrev pub count : {Double : Type 0} → Pixels Double → ℕ
count (uint16_data d) = length d
count (double_data d) = length d

-- `sum` has `plus` of the two lists at its first `n` places.
abbrev pub AreSums : {A B : Type 0} → (A → B → A) → ℕ → List A → List B → List A → Type 0
AreSums {A} {B} plus n a b sum =
    (j : ℕ) (x : A) (y : B) → j < n → get_or sum j x ≡ plus (get_or a j x) (get_or b j y)

AreSums-cons :
    {A B : Type 0} (plus : A → B → A) (n : ℕ) (u : A) (v : B) (a sum : List A) (b : List B)
    → AreSums plus n a b sum
    → AreSums plus (suc n) (u ∷ a) (v ∷ b) (plus u v ∷ sum)
AreSums-cons plus n u v a sum b rest zero x y h = refl
AreSums-cons plus n u v a sum b rest (suc j) x y h = rest j x y (omega arith)

pub add_loop-AreSums :
    {A B : Type 0} (plus : A → B → A) (n : ℕ) (a : List A) (b : List B)
    → n ≤ length a
    → n ≤ length b
    → (sum : List A) × (add_loop plus n a b ≡ some sum)
      × (length sum ≡ length a)
      × AreSums plus n a b sum
unfolding add_loop
add_loop-AreSums plus zero a b h k = (a, refl, refl, λ j x y l. absurd (omega arith))
add_loop-AreSums plus (suc n) [] b h k = absurd (omega arith)
add_loop-AreSums plus (suc n) (x ∷ a) [] h k = absurd (omega arith)
add_loop-AreSums plus (suc n) (x ∷ a) (y ∷ b) h k =
    let (sum, run, long, sums) = add_loop-AreSums plus n a b (omega arith) (omega arith) in
    (
      plus x y ∷ sum,
      ground (arith, run),
      ground (arith, long),
      AreSums-cons plus n x y a sum b sums,
    )

pub Pixels-cases :
    {Double : Type 0} (p : Pixels Double)
    → ((d : List ℕ) × (p ≡ uint16_data d)) ⊎ ((d : List Double) × (p ≡ double_data d))
Pixels-cases (uint16_data d) = inl (d, refl)
Pixels-cases (double_data d) = inr (d, refl)

add_loop-short :
    {A B : Type 0} (plus : A → B → A) (n : ℕ) (a : List A) (b : List B)
    → length b < n
    → add_loop plus n a b ≡ none
unfolding add_loop
add_loop-short plus zero a b h = absurd (omega arith)
add_loop-short plus (suc n) [] b h = refl
add_loop-short plus (suc n) (x ∷ a) [] h = refl
add_loop-short plus (suc n) (x ∷ a) (y ∷ b) h = rw (add_loop-short plus n a b (omega arith)) refl

pub copy_front-whole :
    {A : Type 0} (n : ℕ) (x : A) (d : List A) → length d ≡ n → copy_front n (replicate n x) d ≡ d
copy_front-whole n x d h =
    let none_left =
      eq_nil_of_length (drop n (replicate n x))
        (omega (arith, length-drop n (replicate n x), length-replicate n x)) in
    rw (take_of_le n d (omega arith), none_left) (append-nil d)

module _ (numbers : Doubles) {Coords : Type 0} (coords_empty : Coords) where
  copied_pixels : ℕ → Pixels numbers.Double → Pixels numbers.Double
  copied_pixels n p = elim p [
    | double_data d ↦ double_data (copy_front n (replicate n numbers.zero_double) d)
    | uint16_data d ↦ uint16_data (copy_front n (replicate n 0) d)
  ]

  copied_pixels-count : (n : ℕ) (p : Pixels numbers.Double) → count p ≡ n → copied_pixels n p ≡ p
  unfolding copied_pixels
  copied_pixels-count n (uint16_data d) h = ap uint16_data (copy_front-whole n 0 d h)
  copied_pixels-count n (double_data d) h =
      ap double_data (copy_front-whole n numbers.zero_double d h)

  -- A copy of an image whose array has its size is that image.
  pub image_copy-some :
      (image : Frame numbers coords_empty)
      → count image.pixels ≡ pixel_count image.width image.height
      → image_copy numbers coords_empty (some image) ≡ some image
  unfolding image_copy image_copy_properties image_create_with_type image_create_with_data
      copied_pixels
  image_copy-some image size =
      ap (λ p. some (record image { pixels = p }))
        (copied_pixels-count (pixel_count image.width image.height) image.pixels size)

  -- Adding an image with smaller data reads past its end, whatever the types of the two are.
  pub image_add-short :
      (image second : Frame numbers coords_empty)
      → count second.pixels < pixel_count image.width image.height
      → image_add numbers coords_empty image second ≡ none
  unfolding image_add
  image_add-short image second short =
      let n = pixel_count image.width image.height in
      elim (Pixels-cases image.pixels) [
        | inl (a, e) ↦ elim (Pixels-cases second.pixels) [
          | inl (b, f) ↦ ground (arith, e, f, add_loop-short (λ x y. (x + y) % 2 ^ 16) n a b)
          | inr (b, f) ↦ ground (
            arith,
            e,
            f,
            add_loop-short (λ x y. numbers.to_uint16 (numbers.add_double (numbers.of_uint16 x) y)) n
                a b,
          )
        ]
        | inr (a, e) ↦ elim (Pixels-cases second.pixels) [
          | inl (b, f) ↦ ground (
            arith,
            e,
            f,
            add_loop-short (λ x y. numbers.add_double x (numbers.of_uint16 y)) n a b,
          )
          | inr (b, f) ↦ ground (arith, e, f, add_loop-short numbers.add_double n a b)
        ]
      ]

  -- The sum of two images of 16 bits: each pixel is the sum of the two pixels modulo 2^16, and the
  -- rest of the image stays as it is.
  pub image_add-get_or :
      (image second : Frame numbers coords_empty) (a b : List ℕ)
      → image.pixels ≡ uint16_data a
      → second.pixels ≡ uint16_data b
      → length a ≡ pixel_count image.width image.height
      → length a ≤ length b
      → (sum : List ℕ) × (image_add numbers coords_empty image second
          ≡ some (record image { pixels = uint16_data sum }))
        × (length sum ≡ length a)
        × ((j : ℕ) → j < length a → get_or sum j 0 ≡ (get_or a j 0 + get_or b j 0) % 2 ^ 16)
  unfolding image_add
  image_add-get_or image second a b e f size long =
      let (sum, run, whole, sums) =
        add_loop-AreSums (λ x y. (x + y) % 2 ^ 16) (pixel_count image.width image.height) a b
          (omega arith) (omega arith) in
      (sum, ground (arith, e, f, run), whole, λ j h. sums j 0 0 (omega arith))
