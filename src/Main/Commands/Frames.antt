-- ===== src/Main/Commands/Frames.antt =====
-- fast.c: the commands about the images that clients are shown.

use fast.Prelude.{
  Bytes, List, Option, [], codes, if◌then◌else◌, length, none, not, some, ℕ, ◌++◌, ◌>>=◌, ◌∷◌,
}
use fast.Prelude.Int.{pos}
use fast.Keywords.{decimal_ℤ}
use fast.Image.{image_convert_to_double, image_copy}
use fast.Main.{Library, Picture, State}
use fast.Main.Images.{JpegParams, postprocess_image, zoom_current, zoom_total}
use fast.Main.Process.{Action, message, write_block}
use fast.Main.Commands.{Answer, Host, tell}

module _ (lib : Library) (host : Host lib) (connection : Option ℕ) where
  open lib use {numbers, of_ratio}
  open numbers use {Double}

  -- A prepared frame that is not empty: its length, its bytes and the end. A block to NULL reads
  -- through it.
  unfoldable pub send_frame : (name format : Bytes) → Bytes → Option (List (Action (Picture lib)))
  unfolding tell
  send_frame name format [] = some []
  send_frame name format (b ∷ bs) = elim connection [
    | none ↦ none
    | some c ↦ some (
        message c (
          name
          ++ (codes " length="
              ++ (decimal_ℤ (pos (length (b ∷ bs))) ++ (codes " format=jpeg" ++ format))))
        ∷ write_block c (b ∷ bs)
        ∷ message c (name ++ codes "_done")
        ∷ [])
  ]

  -- "get_current_frame": the frame is prepared once, until the next one comes.
  unfoldable pub prepare_current :
      State lib → JpegParams Double → Picture lib → Option (State lib × Bytes)
  unfolding postprocess_image zoom_current image_convert_to_double
  prepare_current s p image = elim s.current_frame_data [
    | some jpeg ↦ some (s, jpeg)
    | none ↦ (do
      (t, shown) ←
          postprocess_image lib s (image_convert_to_double lib.numbers lib.coords_empty image) 1
      zoomed ← zoom_current lib shown t.zoom
      (let jpeg = host.to_jpeg p zoomed in
          some (record t { current_frame_data = some jpeg }, jpeg)))
  ]

  unfoldable pub get_current_frame : State lib → JpegParams Double → Answer lib
  unfolding prepare_current send_frame tell
  get_current_frame s p =
      let timeout : Answer lib = some (s, p, tell lib connection (codes "current_frame_timeout")) in
      elim s.image [
        | none ↦ timeout
        | some image ↦ if not s.is_acquisition then timeout else (do
          (t, jpeg) ← prepare_current s p image
          sent ← send_frame (codes "current_frame") (codes " mean=" ++ lib.print_short t.mean) jpeg
          some (t, p, sent))
      ]

  -- "get_total_frame": the same for the cumulative image
  unfoldable pub prepare_total :
      State lib → JpegParams Double → Picture lib → Option (State lib × Bytes)
  unfolding postprocess_image zoom_total image_copy
  prepare_total s p total = elim s.total_frame_data [
    | some jpeg ↦ some (s, jpeg)
    | none ↦ (do
      image ← image_copy lib.numbers lib.coords_empty (some total)
      (t, shown) ← postprocess_image lib s image s.total_length
      zoomed ← zoom_total lib shown t.zoom
      (let jpeg = host.to_jpeg p zoomed in some (record t { total_frame_data = some jpeg }, jpeg)))
  ]

  unfoldable pub get_total_frame : State lib → JpegParams Double → Answer lib
  unfolding prepare_total send_frame tell
  get_total_frame s p =
      let timeout : Answer lib = some (s, p, tell lib connection (codes "total_frame_timeout")) in
      elim s.image_total [
        | none ↦ timeout
        | some total ↦ if not s.is_acquisition then timeout else (do
          (t, jpeg) ← prepare_total s p total
          sent ← send_frame (codes "total_frame") [] jpeg
          some (t, p, sent))
      ]
