-- ===== src/Image/Geometry/Down.antt =====
-- A reduced image whose size is not a multiple of the factor.
use fast.Image.Add.{Pixels-cases, pixel_count-le}
use fast.Prelude.{
  List, Option-cases, [], arith, get_or, inl, inr, length, length-replicate, none, refl, replicate,
  some, suc, zero, ℕ, ◌%◌, ◌*◌, ◌+◌, ◌/◌, ◌<◌, ◌^◌, ◌∷◌, ◌≡◌, ◌≢◌, ◌≤◌,
}
use fast.Prelude.Int.{pos}
use native.Mathlib.Nat.{div-add-mod, le_trans, mod-lt}
use fast.Image.{Doubles, Frame, pixel_count}
use fast.Image.Geometry.{down_column, down_columns, image_downscale, index, update_at}

module _ {A : Type 0} where
  length-update_at :
      (d e : List A) (i : ℕ) (g : A → A) → update_at d i g ≡ some e → length e ≡ length d
  length-update_at [] e i g h = absurd (ground (arith, h))
  length-update_at (x ∷ d) e zero g h = ground (arith, h)
  length-update_at (x ∷ d) e (suc i) g h = elim (Option-cases (update_at d i g)) [
    | inl k ↦ absurd (ground (arith, h, k))
    | inr (r, k) ↦ ground (arith, h, k, length-update_at d r i g k)
  ]

  update_at-none : (d : List A) (i : ℕ) (g : A → A) → length d ≤ i → update_at d i g ≡ none
  update_at-none [] i g h = refl
  update_at-none (x ∷ d) zero g h = absurd (omega arith)
  update_at-none (x ∷ d) (suc i) g h = ground (arith, update_at-none d i g (omega arith))

  module _ (f : ℕ → ℕ → A → A) (factor width : ℕ) where
    length-down_column :
        (x n : ℕ) (d e : List A) → down_column f factor width x n d ≡ some e → length e ≡ length d
    unfolding down_column
    length-down_column x zero d e h = ground (arith, h)
    length-down_column x (suc n) d e h = elim (Option-cases (down_column f factor width x n d)) [
      | inl k ↦ absurd (ground (arith, h, k))
      | inr (r, k) ↦ ground (
        arith,
        h,
        k,
        length-down_column x n d r k,
        length-update_at r e (index width (x / factor) (n / factor)) (f x n),
      )
    ]

    length-down_columns :
        (height n : ℕ) (d e : List A)
        → down_columns f factor width height n d ≡ some e
        → length e ≡ length d
    unfolding down_columns
    length-down_columns height zero d e h = ground (arith, h)
    length-down_columns height (suc n) d e h =
        elim (Option-cases (down_columns f factor width height n d)) [
          | inl k ↦ absurd (ground (arith, h, k))
          | inr (r, k) ↦
              ground
                (arith, h, k, length-down_columns height n d r k, length-down_column n height r e)
        ]

    -- The last pixel falls outside when its place does.
    down_columns-none :
        (height n : ℕ) (d : List A)
        → length d ≤ index width (n / factor) (height / factor)
        → down_columns f factor width (suc height) (suc n) d ≡ none
    unfolding down_columns down_column
    down_columns-none height n d h =
        elim (Option-cases (down_columns f factor width (suc height) n d)) [
          | inl k ↦ ground (arith, k)
          | inr (r, k) ↦ elim (Option-cases (down_column f factor width n height r)) [
            | inl l ↦ ground (arith, k, l)
            | inr (e, l) ↦ ground (
              arith,
              k,
              l,
              update_at-none e (index width (n / factor) (height / factor)) (f n height),
              length-down_columns (suc height) n d r k,
              length-down_column n height r e l,
            )
          ]
        ]

next_multiple : (f p q : ℕ) → p < q → f * p + f ≤ f * q
next_multiple f p q h = grind arith

suc-div_le : (n f : ℕ) → 0 < f → suc n / f ≤ n / f + 1
suc-div_le n f h = ground (
  arith,
  div-add-mod n f,
  div-add-mod (suc n) f,
  mod-lt n h,
  mod-lt (suc n) h,
  next_multiple f (n / f + 1) (suc n / f),
  next_multiple f (n / f) (n / f + 1),
)

suc-div_same : (n f : ℕ) → 0 < f → suc n % f ≢ 0 → suc n / f ≡ n / f
suc-div_same n f h uneven = ground (
  arith,
  div-add-mod n f,
  div-add-mod (suc n) f,
  mod-lt n h,
  mod-lt (suc n) h,
  next_multiple f (n / f) (suc n / f),
  next_multiple f (suc n / f) (n / f),
)

past_end :
    (f columns rows : ℕ)
    → 0 < f
    → suc columns % f ≢ 0
    → (suc columns / f) * (suc rows / f) ≤ index (suc columns / f) (columns / f) (rows / f)
past_end f columns rows h uneven =
    grind (arith, suc-div_same columns f h uneven, suc-div_le rows f h)

down-none :
    {A : Type 0} (f : ℕ → ℕ → A → A) (z : A) (factor w h : ℕ)
    → 0 < w
    → 0 < h
    → 0 < factor
    → w % factor ≢ 0
    → down_columns f factor (w / factor) h w (replicate (pixel_count (w / factor) (h / factor)) z)
      ≡ none
down-none f z factor zero h wide high positive uneven = absurd (omega arith)
down-none f z factor (suc n) zero wide high positive uneven = absurd (omega arith)
down-none f z factor (suc n) (suc m) wide high positive uneven =
    let cells = pixel_count (suc n / factor) (suc m / factor) in
    down_columns-none f factor (suc n / factor) m n (replicate cells z) (
      rw (length-replicate cells z) (
        le_trans (pixel_count-le (suc n / factor) (suc m / factor))
          (past_end factor n m positive uneven)))

module _ (numbers : Doubles) {Coords : Type 0} (coords_empty : Coords) where
  -- When the width of an image is not a multiple of the factor, reducing it writes past the end of
  -- the new array.
  pub image_downscale-none :
      (orig : Frame numbers coords_empty) (factor : ℕ)
      → 0 < orig.width
      → 0 < orig.height
      → 0 < factor
      → orig.width % factor ≢ 0
      → image_downscale numbers coords_empty orig factor ≡ none
  unfolding image_downscale
  image_downscale-none orig factor wide high positive uneven = elim (Pixels-cases orig.pixels) [
    | inl (d, e) ↦ ground (
      arith,
      e,
      down-none (λ x y old. (old + get_or d (index orig.width x y) 0 / factor / factor) % 2 ^ 16) 0
          factor orig.width orig.height wide high positive uneven,
    )
    | inr (d, e) ↦ ground (
      arith,
      e,
      down-none
          (λ x y old. numbers.add_double old (
            numbers.div_double
              (numbers.div_double (get_or d (index orig.width x y) numbers.zero_double)
                (numbers.of_int (pos factor)))
              (numbers.of_int (pos factor))))
          numbers.zero_double factor orig.width orig.height wide high positive uneven,
    )
  ]
