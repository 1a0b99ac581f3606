-- ===== src/Main/Process/Exists.antt =====
-- `process_image` has a result: from sizes in order, no step of it reads past an array or through
-- NULL, and the sizes stay in order.

use fast.Prelude.{
  Bool, Bool-cases, Option, Option-cases, arith, false, inl, inr, length-replicate, none, refl,
  replicate, some, true, ℕ, ◌&&◌, ◌+◌, ◌<◌, ◌==◌, ◌∙◌, ◌≡◌,
}
use fast.Image.{
  double_data, image_add, image_copy_properties, image_create_double, image_create_with_data,
  image_create_with_type, pixel_count,
}
use fast.Image.Add.{Pixels-cases, add_loop-AreSums}
use fast.Main.{Library, Picture, State}
use fast.Main.Process.{add_running, add_total, exposure, new_sum, same_size}
use fast.Main.Process.Sizes.{IsSized, IsSum, SameSize}

module _ (lib : Library) where
  -- What the main thread keeps: sums of doubles with the sizes of their images, and at least one
  -- frame in the cumulative image.
  abbrev pub AllSum : Option (Picture lib) → Type 0
  AllSum none = Unit
  AllSum (some sum) = IsSum lib sum

  abbrev pub is_some : Option (Picture lib) → Bool
  is_some none = false
  is_some (some sum) = true

  pub record IsReady (s : State lib) : Type 0 where
    pub total_sum : AllSum s.image_total
    pub accum_sum : AllSum s.running_accum
    pub counted : is_some s.image_total ≡ true → 0 < s.total_length

  -- The sum of an image of doubles and another of its size is one of doubles again.
  image_add-IsSum :
      (sum image : Picture lib)
      → IsSum lib sum
      → IsSized lib image
      → SameSize lib sum image
      → (r : Picture lib) × (image_add lib.numbers lib.coords_empty sum image ≡ some r)
        × IsSum lib r
        × SameSize lib r image
  unfolding image_add
  image_add-IsSum sum image (d, e, long) sized (w, h) = elim (Pixels-cases image.pixels) [
    | inl (b, f) ↦
        let n = pixel_count sum.width sum.height in
        let (r, run, whole, sums) =
          add_loop-AreSums (λ x y. lib.numbers.add_double x (lib.numbers.of_uint16 y)) n d b
            (omega arith) (ground (arith, f)) in
        (
          record sum { pixels = double_data r },
          ground (arith, e, f, run),
          (r, refl, whole ∙ long),
          (w, h),
        )
    | inr (b, f) ↦
        let n = pixel_count sum.width sum.height in
        let (r, run, whole, sums) =
          add_loop-AreSums lib.numbers.add_double n d b (omega arith) (ground (arith, f)) in
        (
          record sum { pixels = double_data r },
          ground (arith, e, f, run),
          (r, refl, whole ∙ long),
          (w, h),
        )
  ]

  pub new_sum-IsSum :
      (image : Picture lib) → IsSum lib (new_sum lib image) × SameSize lib (new_sum lib image) image
  unfolding image_create_double image_create_with_type image_copy_properties image_create_with_data
  new_sum-IsSum image =
      let n = pixel_count image.width image.height in
      (
        (replicate n lib.numbers.zero_double, refl, length-replicate n lib.numbers.zero_double),
        (refl, refl),
      )

  -- The sum that a frame is added to is there and has its size.
  pub same_size-IsSum :
      (o : Option (Picture lib)) (image sum : Picture lib)
      → AllSum o
      → same_size lib o image ≡ some sum
      → IsSum lib sum × SameSize lib sum image
  same_size-IsSum none image sum h e = absurd (ground (arith, e))
  same_size-IsSum (some old) image sum h e =
      elim (Bool-cases ((old.width == image.width) && (old.height == image.height))) [
        | inl same ↦
            let p : old ≡ sum = ground (arith, e, same) in
            rw (← p) (h, (ground (arith, same), ground (arith, same)))
        | inr differ ↦ absurd (ground (arith, e, differ))
      ]

  pub add_total-IsReady :
      (s : State lib) (image : Picture lib)
      → IsReady s
      → IsSized lib image
      → (sum : Picture lib) × (n : ℕ) × (x : lib.numbers.Double) × (add_total lib s image
          ≡ some (record s { image_total = some sum; total_length = n; total_exposure = x }))
        × IsSum lib sum
        × (0 < n)
  unfolding add_total
  add_total-IsReady s image ready sized = elim (Option-cases (same_size lib s.image_total image)) [
    | inl k ↦
        let (new, same) = new_sum-IsSum image in
        let (r, run, sum, size) = image_add-IsSum (new_sum lib image) image new sized same in
        (
          r,
          1,
          lib.numbers.add_double lib.numbers.zero_double (exposure lib image),
          ground (arith, k, run),
          sum,
          omega arith,
        )
    | inr (old, k) ↦
        let (before, same) = same_size-IsSum s.image_total image old ready.total_sum k in
        let (r, run, sum, size) = image_add-IsSum old image before sized same in
        (
          r,
          s.total_length + 1,
          lib.numbers.add_double s.total_exposure (exposure lib image),
          ground (arith, k, run),
          sum,
          omega arith,
        )
  ]

  pub add_running-IsReady :
      (s : State lib) (image : Picture lib)
      → IsReady s
      → IsSized lib image
      → (sum : Picture lib) × (n : ℕ) × (add_running lib s image
          ≡ some (record s { running_accum = some sum; running_accum_length = n }))
        × IsSum lib sum
        × SameSize lib sum image
  unfolding add_running
  add_running-IsReady s image ready sized =
      elim (Option-cases (same_size lib s.running_accum image)) [
        | inl k ↦
            let (new, same) = new_sum-IsSum image in
            let (r, run, sum, size) = image_add-IsSum (new_sum lib image) image new sized same in
            (r, 1, ground (arith, k, run), sum, size)
        | inr (old, k) ↦
            let (before, same) = same_size-IsSum s.running_accum image old ready.accum_sum k in
            let (r, run, sum, size) = image_add-IsSum old image before sized same in
            (r, s.running_accum_length + 1, ground (arith, k, run), sum, size)
      ]
