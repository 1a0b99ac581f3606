-- ===== src/Main/Process/Total.antt =====
-- What `process_image` makes of the cumulative image.
use fast.Prelude.{List, get_or, none, some, ℕ, ◌*◌, ◌+◌, ◌<◌, ◌≡◌}
use fast.Image.{double_data, uint16_data}
use fast.Main.{Library, Picture, State}
use fast.Main.Process.{Action, same_size}

module _ (lib : Library) where
  open lib.numbers use {Double, zero_double, of_uint16, add_double}

  -- a pixel as a double
  abbrev pub value_of : Picture lib → ℕ → Double
  value_of image i = elim image.pixels [
    | uint16_data d ↦ of_uint16 (get_or d i 0)
    | double_data d ↦ get_or d i zero_double
  ]

  -- The cumulative image before the frame: 0 where there is none, or one of another size.
  abbrev pub value_before : State lib → Picture lib → ℕ → Double
  value_before s image i = elim (same_size lib s.image_total image) [
    | none ↦ zero_double
    | some old ↦ value_of old i
  ]

  abbrev pub frames_before : State lib → Picture lib → ℕ
  frames_before s image = elim (same_size lib s.image_total image) [
    | none ↦ 0
    | some old ↦ s.total_length
  ]

  -- The frame has been added to the cumulative image, pixel by pixel, and counted.
  abbrev pub Added : State lib → Picture lib → State lib → Type 0
  Added s image r =
      (sum : Picture lib) × (r.image_total ≡ some sum)
      × ((i : ℕ)
          → i < image.width * image.height
          → value_of sum i ≡ add_double (value_before s image i) (value_of image i))
      × (r.total_length ≡ frames_before s image + 1)

  -- The rest of `process_image` leaves the cumulative image and its count alone.
  abbrev SameTotal : State lib → State lib → Type 0
  SameTotal s t = (t.image_total ≡ s.image_total) × (t.total_length ≡ s.total_length)

  -- The same of a step that also sends.
  abbrev SameTold : State lib → State lib × List (Action (Picture lib)) → Type 0
  SameTold s told = SameTotal s told.0
