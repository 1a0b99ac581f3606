-- ===== src/Utils/Options/Trailing.antt =====
-- The spaces that `parse_args` leaves behind an option of the file.
use fast.Prelude.{Bytes, List, [], ap, arith, false, true, ℕ, ◌++◌, ◌∷◌, ◌≡◌}
use fast.Command.{is_space}
use fast.Utils.Options.{options_of, strip_leading, strip_trailing}

strip_trailing-last : (s : Bytes) (c : ℕ) → is_space c ≡ true → strip_trailing (s ++ c ∷ []) ≡ s
unfolding strip_trailing
strip_trailing-last [] c h = ground (arith, h)
strip_trailing-last (b ∷ []) c h = ground (arith, h)
strip_trailing-last (b ∷ d ∷ s) c h = ap (λ r. b ∷ r) (strip_trailing-last (d ∷ s) c h)

-- A line of the file that does not begin with a space loses only its last byte when that is one, so
-- that an option keeps the spaces before the end of its line.
pub options_of-OneSpace :
    (b : ℕ) (s : Bytes) (c : ℕ)
    → is_space b ≡ false
    → is_space c ≡ true
    → (lines : List Bytes) → options_of ((b ∷ s ++ c ∷ []) ∷ lines) ≡ (b ∷ s) ∷ options_of lines
unfolding options_of strip_leading
options_of-OneSpace b s c h k lines =
    let stripped = strip_trailing-last (b ∷ s) c k in ground (arith, stripped, h)
