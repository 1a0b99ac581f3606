-- ===== src/Main/Commands/Settings.antt =====
-- fast.c: the commands that set parameters of the main program, and its status.
use fast.Prelude.{
  Bool, Bytes, List, Option, [], codes, false, get_or, if◌then◌else◌, none, some, true, ◌++◌, ◌>>=◌,
  ◌∷◌,
}
use fast.Prelude.Int.{ltb_ℤ, negsuc, pos, ℤ}
use fast.Command.{Command, Token}
use fast.Command.Args.{Assigned, command_args, scanned, string}
use fast.Grabber.{read_value}
use fast.Keywords.{Keyword, decimal_ℤ, image_keyword_add, signed_64}
use fast.Time.{TimeStr}
use fast.Main.Images.{
  JpegParams, image_jpeg_set_colormap, image_jpeg_set_percentile, image_jpeg_set_quality,
  image_jpeg_set_scale,
}
use fast.Main.{Library, State, set_dark}
use fast.Main.Process.{reset_jpegs, seconds}
use fast.Main.Commands.{Host, arguments, text_or}

module _ (lib : Library) where
  abbrev argument : Command → Bytes → Option Assigned
  argument command pattern = get_or (arguments command (pattern ∷ [])) 0 none

  abbrev int_or : ℤ → Option Assigned → ℤ
  int_or = read_value lib.scan_int

  unfoldable pub set_base : State lib → Command → State lib
  unfolding command_args
  set_base s command = record s { base = text_or s.base (argument command (codes "base=%s")) }

  unfoldable pub set_object : State lib → Command → State lib
  unfolding command_args
  set_object s command = record s {
    object = text_or s.object (argument command (codes "object=%s"));
  }

  unfoldable pub set_countdown : State lib → Command → State lib
  unfolding command_args
  set_countdown s command = record s {
    countdown = int_or s.countdown (argument command (codes "countdown=%d"));
  }

  unfoldable pub set_accumulation : State lib → Command → State lib
  unfolding command_args
  set_accumulation s command = record s {
    running_time =
        read_value lib.scan_double s.running_time (argument command (codes "accumulation=%lf"));
  }

  unfoldable pub set_postprocess : State lib → Command → State lib
  unfolding command_args
  set_postprocess s command = record s {
    postprocess = int_or s.postprocess (argument command (codes "postprocess=%d"));
  }

  unfoldable pub set_broadcast_flux : State lib → Command → State lib
  unfolding command_args
  set_broadcast_flux s command = record s {
    is_broadcast_flux = int_or s.is_broadcast_flux (argument command (codes "broadcast_flux=%d"));
  }

  unfoldable pub set_zoom : State lib → Command → State lib
  unfolding command_args
  set_zoom s command = record s { zoom = int_or s.zoom (argument command (codes "zoom=%d")) }

  unfoldable pub set_region : State lib → Command → State lib
  unfolding command_args
  set_region s command =
      let args =
        arguments command (codes "x1=%d" ∷ codes "y1=%d" ∷ codes "x2=%d" ∷ codes "y2=%d" ∷ []) in
      record s {
        region = record {
          x1 = int_or s.region.x1 (get_or args 0 none);
          y1 = int_or s.region.y1 (get_or args 1 none);
          x2 = int_or s.region.x2 (get_or args 2 none);
          y2 = int_or s.region.y2 (get_or args 3 none);
        };
      }

  -- Without a file name the dark frame goes.
  unfoldable pub set_dark_file : Host lib → State lib → Command → State lib
  unfolding command_args set_dark
  set_dark_file host s command = elim (argument command (codes "filename=%s")) [
    | none ↦ set_dark lib s none
    | some (string filename) ↦ set_dark lib s (host.read_fits filename)
    | some (scanned v format) ↦ set_dark lib s none
  ]

  -- "jpeg_params": a scale of 0, and a colour map or a quality below 0, are not set.
  unfoldable pub jpeg_params :
      State lib
      → JpegParams lib.numbers.Double
      → Command
      → State lib × JpegParams lib.numbers.Double
  unfolding command_args reset_jpegs image_jpeg_set_percentile image_jpeg_set_scale
      image_jpeg_set_colormap image_jpeg_set_quality
  jpeg_params s p command =
      let args = arguments command (
        codes "min=%lf"
        ∷ codes "max=%lf"
        ∷ codes "scale=%d"
        ∷ codes "cmap=%d"
        ∷ codes "quality=%d"
        ∷ []) in
      let low = read_value lib.scan_double (lib.of_ratio 5 100) (get_or args 0 none) in
      let high = read_value lib.scan_double (lib.of_ratio 995 1000) (get_or args 1 none) in
      let scale = int_or (pos 0) (get_or args 2 none) in
      let cmap = int_or (negsuc 0) (get_or args 3 none) in
      let quality = int_or (negsuc 0) (get_or args 4 none) in
      let p1 = image_jpeg_set_percentile lib p low high in
      let p2 = if ltb_ℤ (pos 0) scale then image_jpeg_set_scale lib p1 scale else p1 in
      let p3 = if ltb_ℤ cmap (pos 0) then p2 else image_jpeg_set_colormap lib p2 cmap in
      let p4 = if ltb_ℤ quality (pos 0) then p3 else image_jpeg_set_quality lib p3 quality in
      (reset_jpegs lib s, p4)

  -- "set_keywords": each token with a name
  unfoldable pub set_keywords : List Token → List Keyword → Option (List Keyword)
  unfolding image_keyword_add
  set_keywords [] kws = some kws
  set_keywords (t ∷ ts) kws = do
    more ← elim t.name [
      | none ↦ some kws
      | some name ↦ image_keyword_add lib.fitsio kws name (some t.value) none
    ]
    set_keywords ts more

  abbrev print_bool : Bool → Bytes
  print_bool b = if b then codes "1" else codes "0"

  -- " name=value" of each field
  print_fields : List (Bytes × Bytes) → Bytes
  print_fields [] = []
  print_fields ((name, value) ∷ fields) =
      codes " " ++ (name ++ (codes "=" ++ (value ++ print_fields fields)))

  -- the age of a time at a call of `time_current`
  abbrev age : TimeStr → TimeStr → Bytes
  age t now = lib.print_short (seconds lib t now)

  -- of the build for the camera that is not there
  unfoldable pub get_status_string : Host lib → State lib → Bytes
  unfolding print_fields
  get_status_string host s =
      codes "status"
      ++ print_fields (
          (codes "acquisition", print_bool s.is_acquisition)
          ∷ (codes "storage", print_bool s.is_storage)
          ∷ (codes "object", s.object)
          ∷ (codes "age_acquired", age s.time_last_acquired (host.now 0))
          ∷ (codes "age_stored", age s.time_last_stored (host.now 1))
          ∷ (codes "countdown", decimal_ℤ s.countdown)
          ∷ (codes "postprocess", decimal_ℤ s.postprocess)
          ∷ (codes "dark", elim s.dark [ none ↦ print_bool false | some d ↦ print_bool true ])
          ∷ (codes "accumulation", lib.print_short s.running_time)
          ∷ (codes "free_disk_space", decimal_ℤ (signed_64 (host.disk_free s.base)))
          ∷ (codes "region_x1", decimal_ℤ s.region.x1)
          ∷ (codes "region_y1", decimal_ℤ s.region.y1)
          ∷ (codes "region_x2", decimal_ℤ s.region.x2)
          ∷ (codes "region_y2", decimal_ℤ s.region.y2)
          ∷ (codes "zoom", decimal_ℤ s.zoom)
          ∷ (codes "flux", lib.print_short s.flux)
          ∷ (codes "mean", lib.print_short s.mean)
          ∷ (codes "num_acquired", decimal_ℤ (pos s.total_length))
          ∷ (codes "num_stored", decimal_ℤ (pos s.stored_length))
          ∷ (codes "fake", codes "1")
          ∷ (codes "exposure", lib.print_short host.grabber.exposure)
          ∷ (codes "fps", lib.print_short host.grabber.fps)
          ∷ (codes "amplification", decimal_ℤ host.grabber.amplification)
          ∷ (codes "binning", decimal_ℤ host.grabber.binning)
          ∷ [])
