-- ===== src/Main/Tests.antt =====
-- Frames of two pixels, with natural numbers for doubles and no coordinates.

use fast.Prelude.{
  List, Option, [], arith, codes, length, ltb, none, refl, some, true, ℕ, ◌%◌, ◌*◌, ◌+◌, ◌-◌, ◌/◌,
  ◌^◌, ◌∷◌, ◌≡◌,
}
use fast.Prelude.Int.{pos, pos_part, ◌+ℤ◌, ◌-ℤ◌}
use fast.Prelude.Format.{decimal}
use fast.Keywords.{decimal_ℤ, image_keyword_get_double}
use fast.Time.{time_zero}
use fast.Image.{pixel_count, uint16_data}
use fast.Utils.Options.{Value, flag_value, text_value}
use fast.Main.Start.{main, start}
use fast.Main.{Library, Picture, State, fast_create}
use fast.Main.Images.{JpegParams}
use fast.Main.Process.{Action, add_mean, keep_image, message, process_image, write_block}
use fast.Main.Process.Sizes.{Exists, IsInImage}
use fast.Main.Process.Exists.{IsReady}
use fast.Main.Process.Result.{process_image-IsReady}
use fast.Main.Web.{Site, process_web}
use fast.Main.Commands.{Host}
use fast.Main.Commands.Dispatch.{process_command}

abbrev library : Library
library = record {
  numbers = record {
    Double = ℕ;
    zero_double = 0;
    of_uint16 = λ n. n;
    to_uint16 = λ n. n % 2 ^ 16;
    of_int = pos_part;
    add_double = λ a b. a + b;
    sub_double = λ a b. a - b;
    mul_double = λ a b. a * b;
    div_double = λ a b. a / b;
    ltb_double = ltb;
  };
  Coords = Unit;
  coords_empty = tt;
  shift_coords = λ c x y. c;
  fitsio = record {
    flen_keyword = 72;
    flen_value = 70;
    flen_comment = 72;
    ffc2s = λ v. v;
    strtol_end = λ v. 0;
    strtod_end = λ v. 0;
  };
  print_short = λ x. decimal_ℤ (pos x);
  print_double = λ x. decimal_ℤ (pos x);
  scan_double = λ s. some (length s);
  scan_int = λ s. some (pos (length s));
  of_ratio = λ a b. a / b;
  to_int = pos;
  time_interval = λ a b. pos 0;
}

abbrev frame : Picture library
frame = record {
  width = 2;
  height = 1;
  time = time_zero;
  coords = tt;
  keywords = [];
  pixels = uint16_data (3 ∷ 4 ∷ []);
}

abbrev jpeg : JpegParams ℕ
jpeg = record { colormap = pos 0; scale = pos 1; quality = pos 75; minp = 0; maxp = 1 }

-- Each JPEG is one byte.
abbrev host : Host library
host = record {
  now = λ n. time_zero;
  disk_free = λ path. 0;
  grabber = record { exposure = 1; fps = 0; amplification = pos 0; binning = pos 1 };
  read_fits = λ filename. none;
  to_jpeg = λ p image. 7 ∷ [];
}

abbrev fresh : State library
fresh = fast_create library

abbrev flux_after :
    Option (State library × Picture library × List (Action (Picture library))) → Option (ℕ × ℕ × ℕ)
flux_after o = elim o [
  | none ↦ none
  | some (s, image, events) ↦ some (s.flux, s.mean, s.total_length)
]

process_image-flux : flux_after (process_image library [] fresh frame) ≡ some (7, 3, 1)
unfolding process_image keep_image add_mean fast_create ◌-ℤ◌ image_keyword_get_double ◌+ℤ◌
    pixel_count
process_image-flux = refl

abbrev sent_by :
    Option (State library × JpegParams ℕ × List (Action (Picture library)))
    → Option (List (Action (Picture library)))
sent_by o = elim o [ none ↦ none | some (s, p, sent) ↦ some sent ]

set_zoom-silent :
    sent_by (process_command library host (some 4) fresh jpeg (codes "set_zoom zoom=ab")) ≡ some []
unfolding process_command fast_create
set_zoom-silent = refl

fresh-IsReady : IsReady library fresh
unfolding fast_create
fresh-IsReady = record { total_sum = tt; accum_sum = tt; counted = λ h. absurd (ground (arith, h)) }

process_image-IsReady_example :
    (r : State library) × (annotated : Picture library) × (events : List (Action (Picture library)))
    × (process_image library [] fresh frame ≡ some (r, annotated, events))
    × IsReady library r
    × IsInImage library r.region frame
unfolding fast_create pixel_count
process_image-IsReady_example =
    process_image-IsReady library [] fresh frame fresh-IsReady refl (omega arith) (omega arith)
      (omega arith) tt

-- a frame is there, and there is no picture of it yet
abbrev shown : State library
shown = record fresh { image = some frame; is_acquisition = true }

abbrev current_frame_reply : List (Action (Picture library))
current_frame_reply =
    message 4 (codes "current_frame length=1 format=jpeg mean=0")
    ∷ write_block 4 (7 ∷ [])
    ∷ message 4 (codes "current_frame_done")
    ∷ []

abbrev prepared : State library
prepared = record shown { current_frame_data = some (7 ∷ []) }

get_current_frame-runs :
    process_command library host (some 4) shown jpeg (codes "get_current_frame")
    ≡ some (prepared, jpeg, current_frame_reply)
unfolding process_command fast_create decimal pixel_count
get_current_frame-runs = refl

-- one page, of one byte
abbrev site : Site
site = record { file = λ name. some (codes "x"); unescape = some }

abbrev sent_length : Option (State library × JpegParams ℕ × List (Action (Picture library))) → ℕ
sent_length o = elim o [ none ↦ 0 | some (s, p, sent) ↦ length sent ]

-- The header, the type, the blank line, the page and its end.
page-sent :
    sent_length (process_web library host site [] 4 fresh jpeg (codes "GET /a.css HTTP/1.0")) ≡ 5
unfolding process_web fast_create decimal
page-sent = refl

web_command-silent :
    process_web library host site [] 4 fresh jpeg (codes "GET /fast/command?string=get+id HTTP/1.0")
    ≡ some (fresh, jpeg, [])
unfolding process_web fast_create decimal
web_command-silent = refl

-- What -start and a name leave in the patterns of `main`.
abbrev chosen : List (Option Value)
chosen =
    none
    ∷ none
    ∷ some (text_value (codes "favor"))
    ∷ none
    ∷ none
    ∷ none
    ∷ none
    ∷ none
    ∷ none
    ∷ none
    ∷ none
    ∷ none
    ∷ none
    ∷ none
    ∷ none
    ∷ none
    ∷ none
    ∷ some (flag_value true)
    ∷ none
    ∷ none
    ∷ []

main-run :
    main library host jpeg (codes "-start" ∷ codes "name=favor" ∷ []) []
    ≡ some (start library host jpeg chosen)
unfolding main
main-run = refl

main-help : main library host jpeg (codes "-help" ∷ []) [] ≡ none
unfolding main
main-help = refl
