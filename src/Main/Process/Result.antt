-- ===== src/Main/Process/Result.antt =====
-- `process_image` has a result: from sizes in order, no step of it reads past an array or through
-- NULL, and the sizes stay in order.

use fast.Prelude.Int.{ltb_ℤ, pos, ℤ}
use fast.Keywords.{Keyword, decimal_ℤ, image_keyword_add_int, type_int}
use fast.Image.{double_data, image_copy}
use fast.Image.Add.{image_copy-some}
use fast.Prelude.{
  Bool-cases, Bytes, List, Option, [], arith, ◌*◌, ◌^◌, bind-some, codes, inl, inr, map, none, refl,
  some, sym, ℕ, ◌++◌, ◌<◌, ◌∙◌, ◌≡◌,
}
use fast.Queue.{queue_add_with_destructor}
use fast.Keywords.Lookup.{add_type-some}
use fast.Main.{Library, Picture, State, get_average_image}
use fast.Main.Process.{
  Action, add_mean, broadcast_flux, check_region, exposure, finish_running, flux_text, keep_image,
  process_image, reset_jpegs, seconds, store, store_average,
}
use fast.Storage.{fast_msg_average_image}
use fast.Main.Process.Sizes.{
  Exists, Fits, IsInImage, IsSized, IsSum, SameSize, add_double-Exists, annotate-Exists,
  check_region-IsInImage, get_flux-Exists,
}
use fast.Main.Process.Exists.{IsReady, add_running-IsReady, add_total-IsReady}

module _ (lib : Library) where
  store-IsReady :
      (s : State lib) (event : ℕ) (image : Picture lib)
      → IsReady lib s
      → IsReady lib (store lib s event image).0
  unfolding store queue_add_with_destructor
  store-IsReady s event image ready = record {
    total_sum = ready.total_sum;
    accum_sum = ready.accum_sum;
    counted = ready.counted;
  }

  add_int-Exists :
      (kws : List Keyword) (key : Bytes) (v : ℤ) (comment : Option Bytes)
      → Exists (image_keyword_add_int lib.fitsio kws key v comment)
  unfolding image_keyword_add_int
  add_int-Exists kws key v comment = add_type-some lib.fitsio kws key (decimal_ℤ v) comment type_int

  average-Exists :
      (s : State lib) (sum : Picture lib)
      → s.image_total ≡ some sum
      → IsSum lib sum
      → Exists (get_average_image lib s)
  unfolding get_average_image
  average-Exists s sum e (d, f, long) =
      let (one, n) : lib.numbers.Double × lib.numbers.Double =
        (lib.of_ratio 1 1, lib.numbers.of_int (pos s.total_length)) in
      let (kws1, g1) =
        add_int-Exists sum.keywords (codes "COADD") (pos s.total_length)
          (some (codes "Total number of frames coadded")) in
      let (kws2, g2) =
        add_double-Exists lib kws1 (codes "TOTAL EXPOSURE") s.total_exposure
          (some (codes "Total exposure of coadded frames")) in
      let (kws3, g3) =
        add_double-Exists lib kws2 (codes "EXPOSURE") (lib.numbers.div_double s.total_exposure n)
          (some (codes "Normalized (average) exposure")) in
      let whole : image_copy lib.numbers lib.coords_empty (some sum) ≡ some sum =
        image_copy-some lib.numbers lib.coords_empty sum (ground (arith, f, long)) in
      (
        record sum {
          pixels =
              double_data (map (λ v. lib.numbers.mul_double v (lib.numbers.div_double one n)) d);
          keywords = kws3;
        },
        ground (arith, e, f, whole, g1, g2, g3),
      )

  store_average-IsReady :
      (s : State lib) (image sum : Picture lib)
      → s.image_total ≡ some sum
      → IsReady lib s
      → (r : State lib) × (effects : List (Action (Picture lib))) × (store_average lib s image
          ≡ some (r, effects))
        × IsReady lib r
        × (r.region ≡ s.region)
  unfolding store_average store
  store_average-IsReady s image sum total ready =
      elim (Bool-cases (ltb_ℤ (pos 5000) (lib.time_interval s.time_last_total_stored image.time))) [
        | inr soon ↦ (s, [], ground (arith, soon), ready, refl)
        | inl late ↦
            let (avg, e) = average-Exists s sum total (ground (arith, total, ready.total_sum)) in
            let (r, effects) = store lib s fast_msg_average_image avg in
            let kept = store-IsReady s fast_msg_average_image avg ready in
            (
              record r { time_last_total_stored = image.time },
              effects,
              ground (arith, late, e),
              record {
                total_sum = kept.total_sum;
                accum_sum = kept.accum_sum;
                counted = kept.counted;
              },
              refl,
            )
      ]

  Fits-SameSize :
      (dark : Option (Picture lib)) (a b : Picture lib)
      → Fits lib dark b
      → SameSize lib a b
      → Fits lib dark a
  Fits-SameSize none a b fit size = tt
  Fits-SameSize (some dark) a b (sum, (w, h)) (v, k) = (sum, (w ∙ sym v, h ∙ sym k))

  finish_running-IsReady :
      (connected : List ℕ) (s : State lib) (image accum : Picture lib) (t : lib.numbers.Double)
      → s.running_accum ≡ some accum
      → IsSum lib accum
      → SameSize lib accum image
      → IsInImage lib s.region image
      → image.width * image.height < 2 ^ 31
      → Fits lib s.dark image
      → IsReady lib s
      → (r : State lib) × (told : List (Action (Picture lib))) × (finish_running lib connected s
            image t
          ≡ some (r, told))
        × IsReady lib r
        × (r.image_total ≡ s.image_total)
        × (r.region ≡ s.region)
  unfolding finish_running
  finish_running-IsReady connected s image accum t running sum size inside small fit ready =
      elim (Bool-cases (
        lib.numbers.ltb_double s.running_time
          (lib.numbers.add_double (seconds lib accum.time image.time) (exposure lib accum)))) [
            | inr soon ↦ (s, [], ground (arith, running, soon), ready, refl, refl)
            | inl late ↦
                let ((flux, mean), e) =
                  get_flux-Exists lib s accum s.running_accum_length (ground (arith, inside, size))
                    (rw (size.0, size.1) small) (ground (arith, sum))
                    (Fits-SameSize s.dark accum image fit size) in
                (
                  record s {
                    running = some accum;
                    running_accum = none;
                    running_length = s.running_accum_length;
                    running_accum_length = 0;
                  },
                  broadcast_flux lib connected s
                      (flux_text lib (codes "accumulated_flux") t flux mean),
                  ground (arith, running, late, e),
                  record { total_sum = ready.total_sum; accum_sum = tt; counted = ready.counted },
                  refl,
                  refl,
                )
          ]

  pub keep_image-same :
      (image : Picture lib) → IsSized lib image → keep_image lib image ≡ some image
  unfolding keep_image
  keep_image-same image sized = image_copy-some lib.numbers lib.coords_empty image sized

  add_mean-Exists :
      (kws : List Keyword) (mean : lib.numbers.Double) → Exists (add_mean lib kws mean)
  unfolding add_mean
  add_mean-Exists kws mean =
      add_double-Exists lib kws (codes "MEAN") mean (some (codes "mean value"))

  -- A frame whose array has its size, which is an int, on a state whose sums are in order, with no dark
  -- frame or one of the same size: `process_image` reads no array before its beginning or past its
  -- end and nothing through NULL, and gives a state
  -- whose sums are in order, with the region of interest inside the frame, no coordinate
  -- of it negative.
  pub process_image-IsReady :
      (connected : List ℕ) (s : State lib) (image : Picture lib)
      → IsReady lib s
      → IsSized lib image
      → 0 < image.width
      → 0 < image.height
      → image.width * image.height < 2 ^ 31
      → Fits lib s.dark image
      → (r : State lib) × (annotated : Picture lib) × (events : List (Action (Picture lib)))
        × (process_image lib connected s image ≡ some (r, annotated, events))
        × IsReady lib r
        × IsInImage lib r.region image
  unfolding process_image reset_jpegs
  process_image-IsReady connected s image ready sized wide high small fit =
      let (kws, e1) = annotate-Exists lib s.kw image.keywords in
      let copy : Picture lib = record image { keywords = kws } in
      let whole = keep_image-same copy sized in
      let inside = check_region-IsInImage lib s.region image wide high in
      let s1 : State lib = record s {
        image = some copy;
        region = check_region lib s.region image;
      } in
      let ((flux, mean), e2) = get_flux-Exists lib s1 image 1 inside small sized fit in
      let (kws', e3) = add_mean-Exists kws mean in
      let s1' : State lib = record s1 {
        flux = flux;
        mean = mean;
        time_last_acquired = image.time;
      } in
      let ready1 : IsReady lib s1' = record {
        total_sum = ready.total_sum;
        accum_sum = ready.accum_sum;
        counted = ready.counted;
      } in
      let (sum, n, x, e4, is_sum, positive) = add_total-IsReady lib s1' copy ready1 sized in
      let s2 : State lib = record s1' {
        image_total = some sum;
        total_length = n;
        total_exposure = x;
      } in
      let ready2 : IsReady lib s2 = record {
        total_sum = is_sum;
        accum_sum = ready.accum_sum;
        counted = λ _. positive;
      } in
      let (accum, k, e5, accum_sum, size) = add_running-IsReady lib s2 copy ready2 sized in
      let s3 : State lib = record s2 { running_accum = some accum; running_accum_length = k } in
      let ready3 : IsReady lib s3 = record {
        total_sum = is_sum;
        accum_sum = accum_sum;
        counted = λ _. positive;
      } in
      let t = seconds lib s.time_start image.time in
      let (s4, told, e6, ready4, same, region4) =
        finish_running-IsReady connected s3 image accum t refl accum_sum size inside small fit
          ready3 in
      let (s5, stored, e7, ready5, region5) = store_average-IsReady s4 image sum same ready4 in
      (
        reset_jpegs lib s5,
        record image { keywords = kws' },
        broadcast_flux lib connected s1 (flux_text lib (codes "current_flux") t flux mean)
            ++ (told ++ stored),
        bind-some _ e1 (
            bind-some _ whole (
              bind-some _ e2 (
                bind-some _ e3
                  (bind-some _ e4 (bind-some _ e5 (bind-some _ e6 (bind-some _ e7 refl))))))),
        record {
          total_sum = ready5.total_sum;
          accum_sum = ready5.accum_sum;
          counted = ready5.counted;
        },
        rw (region5, region4) inside,
      )
