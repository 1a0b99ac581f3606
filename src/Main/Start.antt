-- ===== src/Main/Start.antt =====
-- fast.c: the start of `main`, from its options to its loop. The options that no code of `main` looks
-- at afterwards (exposure, binning, shutter and the like) are parsed and left there.
use fast.Prelude.{
  Bool, Bytes, List, Option, [], codes, drop, false, get_or, if◌then◌else◌, none, some, ℕ, ◌++◌,
  ◌+◌, ◌∷◌,
}
use fast.Prelude.Int.{pos, ℤ}
use fast.Queue.{Queue, queue_add}
use fast.Storage.{fast_msg_start}
use fast.Utils.Options.{
  Value, flag_value, helped, parse_args, parsed, scanned_value, strchr, text_value,
}
use fast.Main.{Library, State, fast_create, set_dark}
use fast.Main.Images.{
  JpegParams, image_jpeg_set_colormap, image_jpeg_set_percentile, image_jpeg_set_quality,
  image_jpeg_set_scale,
}
use fast.Main.Commands.{Host}

-- The patterns of `main`, in its order.
abbrev pub main_patterns : List Bytes
main_patterns =
    codes "port=%d"
    ∷ codes "base=%s"
    ∷ codes "name=%s"
    ∷ codes "dark=%s"
    ∷ codes "web_port=%d"
    ∷ codes "postprocess=%d"
    ∷ codes "accumulation=%lf"
    ∷ codes "exposure=%lf"
    ∷ codes "binning=%d"
    ∷ codes "shutter=%d"
    ∷ codes "preamp=%d"
    ∷ codes "filter=%d"
    ∷ codes "overlap=%d"
    ∷ codes "cooling=%d"
    ∷ codes "rate=%d"
    ∷ codes "temperature=%lf"
    ∷ codes "fps=%lf"
    ∷ codes "-start"
    ∷ codes "-web"
    ∷ codes "-flux"
    ∷ []

-- What `main` does besides the state: the ports that it listens on, and the threads that it starts.
pub data StartEvent : Type 0 where
  listen : ℤ → StartEvent
  listen_web : ℤ → StartEvent
  start_grabber : StartEvent
  start_storage : StartEvent

-- the value of the i-th pattern, if it was given one
abbrev pub given : List (Option Value) → ℕ → Option Value
given values i = get_or values i none

-- `char *`, `int` of a flag, and a number that `sscanf` reads behind the `=`; a number that it does not
-- read is left alone.
pub text_option : List (Option Value) → ℕ → Option Bytes
text_option values i = elim (given values i) [
  | some (text_value s) ↦ some s
  | some (scanned_value s pattern) ↦ none
  | some (flag_value b) ↦ none
  | none ↦ none
]

unfoldable pub flag_option : List (Option Value) → ℕ → Option Bool
flag_option values i = elim (given values i) [
  | some (flag_value b) ↦ some b
  | some (text_value s) ↦ none
  | some (scanned_value s pattern) ↦ none
  | none ↦ none
]

pub number_option {ℓ} : {A : Type ℓ} → (Bytes → Option A) → List (Option Value) → ℕ → A → A
unfolding strchr
number_option scan values i before = elim (given values i) [
  | some (scanned_value s pattern) ↦ elim (strchr 61 pattern) [
    | some n ↦ elim (scan (drop (n + 1) s)) [ some v ↦ v | none ↦ before ]
    | none ↦ before
  ]
  | some (text_value s) ↦ before
  | some (flag_value b) ↦ before
  | none ↦ before
]

abbrev pub or_else {ℓ} : {A : Type ℓ} → Option A → A → A
or_else none before = before
or_else (some a) before = a

abbrev int_of_flag : Bool → ℤ
int_of_flag b = if b then pos 1 else pos 0

module _ (lib : Library) (host : Host lib) where
  -- the fields of `fast` that options set
  pub with_options : List (Option Value) → State lib → State lib
  unfolding text_option flag_option number_option
  with_options values s = record s {
    base = or_else (text_option values 1) s.base;
    name = or_else (text_option values 2) s.name;
    postprocess = number_option lib.scan_int values 5 s.postprocess;
    running_time = number_option lib.scan_double values 6 s.running_time;
    is_broadcast_flux = elim (flag_option values 19) [
      | none ↦ s.is_broadcast_flux
      | some b ↦ int_of_flag b
    ];
  }

  -- `set_dark` with the file of that name
  pub with_dark : List (Option Value) → State lib → State lib
  unfolding text_option set_dark
  with_dark values s = elim (text_option values 3) [
    | none ↦ s
    | some file ↦ set_dark lib s (host.read_fits file)
  ]

  -- `queue_add(fast->grabber_queue, FAST_MSG_START, NULL)`
  pub start_queue : Queue Bytes → Queue Bytes
  unfolding queue_add
  start_queue q = elim (queue_add (some q) (pos fast_msg_start) none).0 [ none ↦ q | some r ↦ r ]

  pub with_start : List (Option Value) → State lib → State lib
  unfolding flag_option start_queue
  with_start values s =
      if or_else (flag_option values 17) false
      then record s { grabber_queue = start_queue s.grabber_queue }
      else s

  -- The state at the loop of `main`, the parameters of the JPEGs, and what was started on the way.
  pub start :
      JpegParams lib.numbers.Double
      → List (Option Value)
      → State lib × JpegParams lib.numbers.Double × List StartEvent
  unfolding fast_create with_options with_dark with_start number_option flag_option
      image_jpeg_set_percentile image_jpeg_set_scale image_jpeg_set_colormap image_jpeg_set_quality
  start jpeg values =
      let fast = with_start values (with_dark values (with_options values (fast_create lib))) in
      let port = number_option lib.scan_int values 0 (pos 5555) in
      let web_port = number_option lib.scan_int values 4 (pos 8888) in
      let web = if or_else (flag_option values 18) false then listen_web web_port ∷ [] else [] in
      let p1 = image_jpeg_set_percentile lib jpeg (lib.of_ratio 5 100) (lib.of_ratio 995 1000) in
      let p2 = image_jpeg_set_scale lib p1 (pos 8) in
      let p3 = image_jpeg_set_quality lib (image_jpeg_set_colormap lib p2 (pos 1)) (pos 95) in
      (record fast { is_quit = false }, p3, listen port ∷ web ++ start_grabber ∷ start_storage ∷ [])

  -- `main` up to its loop; none is the end of the program after -help.
  unfoldable pub main :
      JpegParams lib.numbers.Double
      → List Bytes
      → List Bytes
      → Option (State lib × JpegParams lib.numbers.Double × List StartEvent)
  unfolding parse_args start
  main jpeg args lines = elim (parse_args args lines main_patterns) [
    | helped ↦ none
    | parsed values left ↦ some (start jpeg values)
  ]
