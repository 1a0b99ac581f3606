-- ===== src/Main/Commands/Results.antt =====
-- `process_command` has a result.

use fast.Main.Images.{Corners, current_corners, is_zero, total_corners}
use fast.Prelude.{Option, false, none, some, ◌<◌, ◌^◌, ℕ, ◌*◌, ◌≡◌}
use fast.Prelude.Int.{pos_part, ℤ, ◌-ℤ◌, ◌≤ℤ◌}
use fast.Command.{Command}
use fast.Main.{Library, Picture, State}
use fast.Main.Process.Sizes.{Exists, IsSized}
use fast.Main.Process.Exists.{AllSum, IsReady}

module _ (lib : Library) where
  -- The image has its size, an int. If it is zoomed, the rectangle that is shown does not end before it
  -- begins, and its size is an int.
  abbrev pub Shows : (ℕ → ℕ → ℤ → Corners) → ℤ → Picture lib → Type 0
  Shows rectangle zoom image =
      let c = rectangle image.width image.height zoom in
      IsSized lib image
      × (image.width * image.height < 2 ^ 31)
      × ((is_zero zoom ≡ false)
          → (c.left ≤ℤ c.right)
            × (c.top ≤ℤ c.bottom)
            × (pos_part (c.right -ℤ c.left) * pos_part (c.bottom -ℤ c.top) < 2 ^ 31))

  abbrev pub AllShows : (ℕ → ℕ → ℤ → Corners) → ℤ → Option (Picture lib) → Type 0
  AllShows rectangle zoom none = Unit
  AllShows rectangle zoom (some image) = Shows rectangle zoom image

  -- The sums are in order, the dark frame is one of doubles, and the last frame and the cumulative
  -- image can be shown.
  pub record IsShowable (s : State lib) : Type 0 where
    pub ready : IsReady lib s
    pub dark_sum : AllSum lib s.dark
    pub frame_shows : AllShows (current_corners lib) s.zoom s.image
    pub total_shows : AllShows (total_corners lib) s.zoom s.image_total
