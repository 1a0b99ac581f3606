-- ===== src/Main/Images/Exists.antt =====
-- `postprocess_image` has a result: no step of it reads or writes past an array.
use fast.Image.{double_data, pixel_count}
use fast.Prelude.Int.{ltb_ℤ, pos}
use fast.Image.Add.{Pixels-cases, add_loop-AreSums, pixel_count-small}
use fast.Main.Process.Exists.{AllSum}
use native.Mathlib.Nat.{mul-le-mul_right}
use fast.Prelude.{
  Bool, Bool-cases, List, Option, Option-cases, [], ap, arith, bind-some, false, if◌then◌else◌, inl,
  inr, length, refl, some, subst, suc, true, zero, ℕ, ◌&&◌, ◌*◌, ◌+◌, ◌^◌, ◌-◌, ◌/◌, ◌<◌, ◌==◌, ◌∙◌,
  ◌∷◌, ◌≡◌, ◌≤◌, ◌⊎◌,
}
use fast.Image.Geometry.{update_at}
use fast.Main.{Library, Picture, State, set_dark}
use fast.Main.Images.{
  check_dark, places, postprocess_data, postprocess_image, remove_halves, remove_mean, remove_rows,
  subtract_at, subtract_dark, sum_at,
}
use fast.Main.Process.Sizes.{Exists, IsSized, IsSum, SameSize, get_elem?-Exists}

abbrev AllBelow : ℕ → List ℕ → Type 0
AllBelow n [] = Unit
AllBelow n (i ∷ is) = (i < n) × AllBelow n is

half_le : (height : ℕ) → height / 2 ≤ height
half_le height = omega arith

both_halves :
    (height half width : ℕ)
    → half ≤ height
    → half * width + (height - half) * width ≡ height * width
both_halves height half width h =
    let parts : half + (height - half) ≡ height = omega (arith, h) in
    grind (arith, ap (λ z. z * width) parts)

module _ (lib : Library) where
  open lib.numbers use {Double}

  -- The result, with as many elements as before.
  abbrev Kept : List Double → Option (List Double) → Type 0
  Kept d o = (e : List Double) × (o ≡ some e) × (length e ≡ length d)

  update_at-Kept :
      (d : List Double) (i : ℕ) (f : Double → Double) → i < length d → Kept d (update_at d i f)
  update_at-Kept [] i f h = absurd (omega arith)
  update_at-Kept (x ∷ d) zero f h = (f x ∷ d, refl, refl)
  update_at-Kept (x ∷ d) (suc i) f h =
      let (e, run, long) = update_at-Kept d i f (omega arith) in
      (x ∷ e, ground (arith, run), ground (arith, long))

  sum_at-Exists :
      (is : List ℕ) (d : List Double) (m : Double)
      → AllBelow (length d) is
      → Exists (sum_at lib is d m)
  unfolding sum_at
  sum_at-Exists [] d m below = (m, refl)
  sum_at-Exists (i ∷ is) d m (h, below) =
      let (v, run) = get_elem?-Exists lib d i h in
      let (r, rest) = sum_at-Exists is d (lib.numbers.add_double m v) below in
      (r, bind-some _ run rest)

  subtract_at-Kept :
      (is : List ℕ) (d : List Double) (m : Double)
      → AllBelow (length d) is
      → Kept d (subtract_at lib is d m)
  unfolding subtract_at
  subtract_at-Kept [] d m below = (d, refl, refl)
  subtract_at-Kept (i ∷ is) d m (h, below) =
      let (e, run, long) = update_at-Kept d i (λ v. lib.numbers.sub_double v m) h in
      let (r, rest, same) = subtract_at-Kept is e m (rw long below) in
      (r, bind-some _ run rest, same ∙ long)

  remove_mean-Kept :
      (is : List ℕ) (scale : Double) (d : List Double)
      → AllBelow (length d) is
      → Kept d (remove_mean lib is scale d)
  unfolding remove_mean
  remove_mean-Kept is scale d below =
      let (total, run) = sum_at-Exists is d lib.numbers.zero_double below in
      let (e, rest, long) = subtract_at-Kept is d (lib.numbers.mul_double total scale) below in
      (e, bind-some _ run rest, long)

  places-AllBelow :
      (n i step size : ℕ) → i + n * step < size + step → AllBelow size (places lib n i step)
  places-AllBelow zero i step size h = tt
  places-AllBelow (suc n) i step size h =
      (omega (arith, h), places-AllBelow n (i + step) step size omega (arith, h))

  row_in : (y n : ℕ) → y + 1 ≤ y + suc n
  row_in y n = omega arith

  remove_rows-Kept :
      (n y width : ℕ) (d : List Double)
      → (y + n) * width ≤ length d
      → Kept d (remove_rows lib n y width d)
  unfolding remove_rows
  remove_rows-Kept zero y width d h = (d, refl, refl)
  remove_rows-Kept (suc n) y width d h =
      let (e, run, long) = remove_mean-Kept (places lib width (y * width) 1) _ d (
        places-AllBelow width (y * width) 1 (length d)
          (grind (arith, h, mul-le-mul_right width (row_in y n)))) in
      let (r, rest, same) = remove_rows-Kept n (y + 1) width e (grind (arith, h, long)) in
      (r, bind-some _ run rest, same ∙ long)

  first_half :
      (height width x size : ℕ)
      → x < width
      → height * width ≤ size
      → x + height / 2 * width < size + width
  first_half height width x size h k = grind (arith, h, k, mul-le-mul_right width (half_le height))

  second_half :
      (height width x size : ℕ)
      → x < width
      → height * width ≤ size
      → height / 2 * width + x + (height - height / 2) * width < size + width
  second_half height width x size h k =
      grind (arith, h, k, both_halves height (height / 2) width (half_le height))

  remove_halves-Kept :
      (n x width height : ℕ) (d : List Double)
      → x + n ≤ width
      → height * width ≤ length d
      → Kept d (remove_halves lib n x width height d)
  unfolding remove_halves
  remove_halves-Kept zero x width height d inside h = (d, refl, refl)
  remove_halves-Kept (suc n) x width height d inside h =
      let half = height / 2 in
      let scale = lib.numbers.div_double (lib.of_ratio 2 1) (lib.numbers.of_int (pos height)) in
      let (e, run, long) = remove_mean-Kept (places lib half x width) scale d (
        places-AllBelow half x width (length d)
          (first_half height width x (length d) (omega (arith, inside)) h)) in
      let (g, more, same) =
        remove_mean-Kept (places lib (height - half) (half * width + x) width) scale e (
          places-AllBelow (height - half) (half * width + x) width (length e) (
            second_half height width x (length e) (omega (arith, inside))
              (omega (arith, long, h)))) in
      let (r, rest, equal) =
        remove_halves-Kept n (x + 1) width height g (omega (arith, inside))
          (omega (arith, long, same, h)) in
      (r, bind-some _ run (bind-some _ more rest), equal ∙ same ∙ long)

  -- No dark frame is subtracted, or one of doubles with the size of the image.
  abbrev Usable : State lib → Picture lib → Picture lib → Type 0
  Usable s image dark =
      (ltb_ℤ s.postprocess (pos 1) ≡ true) ⊎ (IsSum lib dark × SameSize lib dark image)

  subtract_dark-Kept :
      (s : State lib) (image : Picture lib) (n : ℕ) (d : List Double)
      → ((dark : Picture lib) → s.dark ≡ some dark → Usable s image dark)
      → length d ≡ pixel_count image.width image.height
      → Kept d (subtract_dark lib s image n d)
  unfolding subtract_dark
  subtract_dark-Kept s image n d usable size = elim (Option-cases s.dark) [
    | inl k ↦ (d, ground (arith, k), refl)
    | inr (dark, k) ↦ elim (Bool-cases (ltb_ℤ s.postprocess (pos 1))) [
      | inl off ↦ (d, ground (arith, k, off), refl)
      | inr on ↦ elim (usable dark k) [
        | inl off ↦ absurd (ground (arith, on, off))
        | inr ((b, e, long), (w, h)) ↦
            let plus = λ (v x : Double).
              lib.numbers.sub_double v (lib.numbers.mul_double x (lib.numbers.of_int (pos n))) in
            let (sum, run, whole, sums) =
              add_loop-AreSums plus (pixel_count image.width image.height) d b (omega (arith, size))
                (grind (arith, long, w, h)) in
            (sum, ground (arith, k, on, e, run), whole)
      ]
    ]
  ]

  check_dark-Usable :
      (s : State lib) (image dark : Picture lib)
      → AllSum lib s.dark
      → (check_dark lib s image).dark ≡ some dark
      → Usable (check_dark lib s image) image dark
  unfolding check_dark set_dark
  check_dark-Usable s image dark sum k = elim (Option-cases s.dark) [
    | inl e ↦ absurd (ground (arith, e, k))
    | inr (old, e) ↦ elim (Bool-cases (ltb_ℤ s.postprocess (pos 1))) [
      | inl off ↦ inl (ground (arith, e, off))
      | inr on ↦ elim (Bool-cases ((old.width == image.width) && (old.height == image.height))) [
        | inl same ↦
            let p : old ≡ dark = ground (arith, e, k, on, same) in
            inr (rw (← p) (subst (AllSum lib) e sum, (ground (arith, same), ground (arith, same))))
        | inr unlike ↦ absurd (ground (arith, e, k, on, unlike))
      ]
    ]
  ]

  check_dark-zoom : (s : State lib) (image : Picture lib) → (check_dark lib s image).zoom ≡ s.zoom
  unfolding check_dark set_dark
  check_dark-zoom s image = ground arith

  if-Kept :
      (b : Bool) {x y : Option (List Double)} (d : List Double)
      → Kept d x
      → Kept d y
      → Kept d (if b then x else y)
  if-Kept true d first second = first
  if-Kept false d first second = second

  data-Exists :
      (s : State lib) (image : Picture lib) (n : ℕ) (d : List Double)
      → AllSum lib s.dark
      → length d ≡ pixel_count image.width image.height
      → image.width * image.height < 2 ^ 31
      → (t : State lib) × (g : List Double) × (postprocess_data lib s image n d
          ≡ some (t, record image { pixels = double_data g }))
        × (length g ≡ pixel_count image.width image.height)
        × (t.zoom ≡ s.zoom)
  unfolding postprocess_data
  data-Exists s image n d sum size small =
      let counted = pixel_count-small image.width image.height small in
      let t = check_dark lib s image in
      let (e, run, long) =
        subtract_dark-Kept t image n d (λ dark. check_dark-Usable s image dark sum) size in
      let (f, more, same) =
        if-Kept (ltb_ℤ s.postprocess (pos 2)) e (e, refl, refl)
          (remove_rows-Kept image.height 0 image.width e (grind (arith, long, size, counted))) in
      let (g, rest, equal) =
        if-Kept (ltb_ℤ s.postprocess (pos 3)) f (f, refl, refl)
          (remove_halves-Kept image.width 0 image.width image.height f (omega arith)
            (grind (arith, same, long, size, counted))) in
      (
        t,
        g,
        bind-some _ run (bind-some _ more (bind-some _ rest refl)),
        equal ∙ same ∙ long ∙ size,
        check_dark-zoom s image,
      )

  -- An image of its size is processed, with no dark frame or one of doubles; its size and the zoom
  -- stay.
  pub postprocess-Exists :
      (s : State lib) (image : Picture lib) (n : ℕ)
      → AllSum lib s.dark
      → IsSized lib image
      → image.width * image.height < 2 ^ 31
      → (t : State lib) × (shown : Picture lib) × (postprocess_image lib s image n
          ≡ some (t, shown))
        × IsSized lib shown
        × SameSize lib shown image
        × (t.zoom ≡ s.zoom)
  unfolding postprocess_image
  postprocess-Exists s image n sum sized small = elim (Pixels-cases image.pixels) [
    | inl (d, e) ↦ (s, image, ground (arith, e), sized, (refl, refl), refl)
    | inr (d, e) ↦
        let (t, g, run, long, zoom) =
          data-Exists s image n d sum (ground (arith, e, sized)) small in
        (
          t,
          record image { pixels = double_data g },
          ground (arith, e, run),
          long,
          (refl, refl),
          zoom,
        )
  ]
