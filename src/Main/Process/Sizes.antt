-- ===== src/Main/Process/Sizes.antt =====
-- The sizes of the images that the main thread keeps, on which it relies not to read past them.
use native.Mathlib.Nat.{mul-le-mul_right}
use fast.Prelude.Int.{ltb_ℤ, negsuc, pos, pos_part, ℤ, ◌+ℤ◌, ◌-ℤ◌}
use fast.Prelude.{
  Bytes, List, Option, [], arith, Bool, Bool-cases, bind-some, inl, inr, not, ◌||◌, false,
  get_elem?, true, ◌^◌, length, none, refl, some, suc, zero, ℕ, ◌*◌, ◌+◌, ◌-◌, ◌<◌, ◌∷◌, ◌≡◌, ◌≤◌,
}
use fast.Keywords.{Keyword, image_keyword_add_double, key_string, type_float}
use fast.Keywords.Lookup.{add_type-some}
use fast.Image.{Pixels, double_data, pixel_count, uint16_data}
use fast.Image.Add.{count, pixel_count-small}
use fast.Main.{
  Library, Picture, Region, State, flux_row, flux_rows, flux_term, get_flux, pixel_double,
  row_start, term_at, row_start, term_at,
}
use fast.Main.Process.{annotate_image, check_region}

abbrev pub Exists : {A : Type 0} → Option A → Type 0
Exists {A} o = (a : A) × (o ≡ some a)

module _ (lib : Library) where
  abbrev pub IsSized : Picture lib → Type 0
  IsSized image = count image.pixels ≡ pixel_count image.width image.height

  -- A sum of frames, or a dark frame, is an image of doubles.
  abbrev pub IsSum : Picture lib → Type 0
  IsSum image =
      (d : List lib.numbers.Double) × (image.pixels ≡ double_data d)
      × (length d ≡ pixel_count image.width image.height)

  abbrev pub SameSize : Picture lib → Picture lib → Type 0
  SameSize a b = (a.width ≡ b.width) × (a.height ≡ b.height)

  pub annotate-Exists : (ks kws : List Keyword) → Exists (annotate_image lib ks kws)
  unfolding annotate_image
  annotate-Exists [] kws = (kws, refl)
  annotate-Exists (k ∷ ks) kws =
      let (more, e) =
        add_type-some lib.fitsio kws (key_string lib.fitsio k) k.value (some k.comment)
          k.type_code in
      let (all', f) = annotate-Exists ks more in (all', ground (arith, e, f))

  pub add_double-Exists :
      (kws : List Keyword) (key : Bytes) (v : lib.numbers.Double) (comment : Option Bytes)
      → Exists (image_keyword_add_double lib.fitsio lib.print_double kws key v comment)
  unfolding image_keyword_add_double
  add_double-Exists kws key v comment =
      add_type-some lib.fitsio kws key (lib.print_double v) comment type_float

  -- A term of the flux is there below the sizes of the image and of the dark frame.
  AllTerms : (ℕ → Option lib.numbers.Double) → ℕ → Type 0
  AllTerms term n = (i : ℕ) → i < n → Exists (term i)

  pub get_elem?-Exists : {A : Type 0} (d : List A) (i : ℕ) → i < length d → Exists (get_elem? d i)
  get_elem?-Exists [] i h = absurd (omega arith)
  get_elem?-Exists (x ∷ d) zero h = (x, refl)
  get_elem?-Exists (x ∷ d) (suc i) h = get_elem?-Exists d i (omega arith)

  pixel_double-Exists :
      (p : Pixels lib.numbers.Double) (i : ℕ) → i < count p → Exists (pixel_double lib p i)
  unfolding pixel_double
  pixel_double-Exists (uint16_data d) i h =
      let (v, e) = get_elem?-Exists d i h in (lib.numbers.of_uint16 v, ground (arith, e))
  pixel_double-Exists (double_data d) i h = get_elem?-Exists d i h

  abbrev pub Fits : Option (Picture lib) → Picture lib → Type 0
  Fits none image = Unit
  Fits (some dark) image = IsSum dark × SameSize dark image

  flux_term-Exists :
      (dark : Option (Picture lib)) (image : Picture lib) (n i : ℕ)
      → IsSized image
      → Fits dark image
      → i < pixel_count image.width image.height
      → Exists (flux_term lib dark image n i)
  unfolding flux_term
  flux_term-Exists none image n i sized fit h = pixel_double-Exists image.pixels i (omega arith)
  flux_term-Exists (some dark) image n i sized ((d, e, long), (w, h')) h =
      let (v, f) = pixel_double-Exists image.pixels i (omega arith) in
      let (b, g) = get_elem?-Exists d i (rw (long, w, h') h) in
      (
        lib.numbers.sub_double v (lib.numbers.mul_double b (lib.numbers.of_int (pos n))),
        ground (arith, e, f, g),
      )

  pos-add : (i n : ℕ) → pos i +ℤ pos n ≡ pos (i + n)
  unfolding ◌+ℤ◌
  pos-add i n = ground arith

  flux_row-Exists :
      (term : ℕ → Option lib.numbers.Double) (m n i : ℕ) (flux : lib.numbers.Double)
      → AllTerms term m
      → i + n ≤ m
      → Exists (flux_row lib (term_at lib term) n (pos i) flux)
  unfolding flux_row AllTerms term_at
  flux_row-Exists term m zero i flux t h = (flux, refl)
  flux_row-Exists term m (suc n) i flux t h =
      let (v, e) = t i (omega arith) in
      let (r, f) =
        flux_row-Exists term m n (i + 1) (lib.numbers.add_double flux v) t (omega arith) in
      (r, bind-some _ e (rw (pos-add i 1) f))

  flux_rows-Exists :
      (term : ℕ → Option lib.numbers.Double) (m width cols n i : ℕ) (flux : lib.numbers.Double)
      → AllTerms term m
      → i + n * width + cols ≤ m + width
      → Exists (flux_rows lib (term_at lib term) width cols n (pos i) flux)
  unfolding flux_rows
  flux_rows-Exists term m width cols zero i flux t h = (flux, refl)
  flux_rows-Exists term m width cols (suc n) i flux t h =
      let (v, e) = flux_row-Exists term m cols i flux t (grind arith) in
      let (r, f) = flux_rows-Exists term m width cols n (i + width) v t (grind arith) in
      (r, bind-some _ e (rw (pos-add i width) f))

  -- A coordinate from 0 to n - 1.
  abbrev pub InRange : ℤ → ℕ → Type 0
  InRange x n = (x ≡ pos (pos_part x)) × (pos_part x < n)

  -- A region that lies in an image, none of its coordinates negative.
  abbrev pub IsInImage : Region → Picture lib → Type 0
  IsInImage r image =
      InRange r.x1 image.width
      × (InRange r.x2 image.width × (InRange r.y1 image.height × InRange r.y2 image.height))

  in_range : (x : ℤ) (n : ℕ) → ltb_ℤ x (pos 0) ≡ false → ltb_ℤ x (pos n) ≡ true → InRange x n
  in_range (pos x) n h k = (refl, ground (arith, k))
  in_range (negsuc x) n h k = absurd (ground (arith, h))

  above : (x : ℤ) → ltb_ℤ (pos 0) x ≡ true → ltb_ℤ x (pos 0) ≡ false
  above (pos x) h = ground arith
  above (negsuc x) h = absurd (ground (arith, h))

  last-InRange : (n : ℕ) → 0 < n → InRange (pos n -ℤ pos 1) n
  unfolding ◌-ℤ◌
  last-InRange zero h = elim h [ ]
  last-InRange (suc n) h = ground arith

  all_false :
      (a b c d e f g h : Bool)
      → (a || (not b || (not c || (not d || (e || (not f || (not g || not h))))))) ≡ false
      → (a ≡ false)
        × (b ≡ true)
        × (c ≡ true)
        × (d ≡ true)
        × (e ≡ false)
        × (f ≡ true)
        × (g ≡ true)
        × (h ≡ true)
  all_false a b c d e f g h k = ground (arith, k)

  -- What `process_image` does about its region puts it into the image.
  pub check_region-IsInImage :
      (r : Region) (image : Picture lib)
      → 0 < image.width
      → 0 < image.height
      → IsInImage (check_region lib r image) image
  unfolding check_region
  check_region-IsInImage r image w h =
      let (width, height) : ℤ × ℤ = (pos image.width, pos image.height) in
      elim (Bool-cases (
        ltb_ℤ r.x1 (pos 0)
        || (not (ltb_ℤ r.x1 width)
            || (not (ltb_ℤ (pos 0) r.y1)
                || (not (ltb_ℤ r.y1 height)
                    || (ltb_ℤ r.x2 (pos 0)
                        || (not (ltb_ℤ r.x2 width)
                            || (not (ltb_ℤ (pos 0) r.y2) || not (ltb_ℤ r.y2 height))))))))) [
                              | inl reset ↦ rw reset (
                                  (
                                    (refl, w),
                                    (
                                      last-InRange image.width w,
                                      ((refl, h), last-InRange image.height h),
                                    ),
                                  ))
                              | inr kept ↦
                                  let (x1, w1, y1, h1, x2, w2, y2, h2) =
                                    all_false _ _ _ _ _ _ _ _ kept in
                                  rw kept (
                                    (
                                      in_range r.x1 image.width x1 w1,
                                      (
                                        in_range r.x2 image.width x2 w2,
                                        (
                                          in_range r.y1 image.height (above r.y1 y1) h1,
                                          in_range r.y2 image.height (above r.y2 y2) h2,
                                        ),
                                      ),
                                    ))
                            ]

  rows_bound : (a b height width : ℕ) → a + b ≤ height → a * width + b * width ≤ width * height
  rows_bound a b height width h = grind (arith, mul-le-mul_right width h)

  flux_bound :
      (x1 x2 y1 y2 width height : ℕ)
      → x1 < width
      → x2 < width
      → y1 < height
      → y2 < height
      → y1 * width + x1 + (y2 + 1 - y1) * width + (x2 + 1 - x1) ≤ width * height + width
  flux_bound x1 x2 y1 y2 width height a b c d =
      omega (arith, rows_bound y1 (y2 + 1 - y1) height width (omega arith))

  steps : (a b : ℕ) → pos_part (pos b -ℤ pos a +ℤ pos 1) ≡ b + 1 - a
  unfolding ◌+ℤ◌ ◌-ℤ◌
  steps a b = ground arith

  flux_loop-Exists :
      (s : State lib) (image : Picture lib) (n x1 x2 y1 y2 : ℕ)
      → x1 < image.width
      → x2 < image.width
      → y1 < image.height
      → y2 < image.height
      → image.width * image.height < 2 ^ 31
      → IsSized image
      → Fits s.dark image
      → Exists (
          flux_rows lib
            (term_at lib (flux_term lib s.dark image n))
            image.width
            (pos_part (pos x2 -ℤ pos x1 +ℤ pos 1))
            (pos_part (pos y2 -ℤ pos y1 +ℤ pos 1))
            (pos (y1 * image.width) +ℤ pos x1)
            lib.numbers.zero_double)
  unfolding AllTerms
  flux_loop-Exists s image n x1 x2 y1 y2 a b c d small sized fit =
      let size = pixel_count-small image.width image.height small in
      rw (steps x1 x2, steps y1 y2, pos-add (y1 * image.width) x1)
        (flux_rows-Exists (flux_term lib s.dark image n) (image.width * image.height) image.width
          (x2 + 1 - x1) (y2 + 1 - y1) (y1 * image.width + x1) lib.numbers.zero_double
          (λ i h. flux_term-Exists s.dark image n i sized fit (omega (arith, size, h)))
          (flux_bound x1 x2 y1 y2 image.width image.height a b c d))

  flux_region-Exists :
      (s : State lib) (image : Picture lib) (n : ℕ) (x1 x2 y1 y2 : ℤ)
      → InRange x1 image.width
      → InRange x2 image.width
      → InRange y1 image.height
      → InRange y2 image.height
      → image.width * image.height < 2 ^ 31
      → IsSized image
      → Fits s.dark image
      → Exists (
          flux_rows lib
            (term_at lib (flux_term lib s.dark image n))
            image.width
            (pos_part (x2 -ℤ x1 +ℤ pos 1))
            (pos_part (y2 -ℤ y1 +ℤ pos 1))
            (row_start lib y1 image.width +ℤ x1)
            lib.numbers.zero_double)
  flux_region-Exists s image n (pos x1) (pos x2) (pos y1) (pos y2) (e1, a) (e2, b) (e3, c) (e4, d)
        small sized fit =
      flux_loop-Exists s image n x1 x2 y1 y2 a b c d small sized fit
  flux_region-Exists s image n (negsuc x1) x2 y1 y2 (e1, a) b c d small sized fit = cc
  flux_region-Exists s image n (pos x1) (negsuc x2) y1 y2 a (e2, b) c d small sized fit = cc
  flux_region-Exists s image n (pos x1) (pos x2) (negsuc y1) y2 a b (e3, c) d small sized fit = cc
  flux_region-Exists s image n (pos x1) (pos x2) (pos y1) (negsuc y2) a b c (e4, d) small sized
        fit =
      cc

  -- Then no pixel outside the image or the dark frame is read.
  pub get_flux-Exists :
      (s : State lib) (image : Picture lib) (n : ℕ)
      → IsInImage s.region image
      → image.width * image.height < 2 ^ 31
      → IsSized image
      → Fits s.dark image
      → Exists (get_flux lib s image n)
  unfolding get_flux
  get_flux-Exists s image n (a, (b, (c, d))) small sized fit =
      let (v, run) =
        flux_region-Exists s image n s.region.x1 s.region.x2 s.region.y1 s.region.y2 a b c d small
          sized fit in
      let cols = pos_part (s.region.x2 -ℤ s.region.x1 +ℤ pos 1) in
      let rows = pos_part (s.region.y2 -ℤ s.region.y1 +ℤ pos 1) in
      ((v, lib.numbers.div_double v (lib.numbers.of_int (pos (cols * rows)))), bind-some _ run refl)
