-- ===== src/Utils/Options/Tests.antt =====
-- Options of the main program.

use fast.Prelude.{
  Bytes, List, Option, [], codes, get_elem?, map, refl, some, true, ◌++◌, ◌>>=◌, ◌∷◌, ◌≡◌,
}
use fast.Utils.Options.{
  Value, asks_help, flag_value, named_value, options_of, parse_args, parsed, same_start,
  scanned_value, strchr, text_value,
}
use fast.Utils.Options.Named.{first_fit, parse_args-named}
use fast.Utils.Options.Emptied.{NonePositional, left_of, parse_args-emptied}
use fast.Utils.Options.Trailing.{options_of-OneSpace}

abbrev args : List Bytes
args = codes "port=77" ∷ codes "-v" ∷ codes "file=a" ∷ codes "rest" ∷ []

abbrev lines : List Bytes
lines = codes "file=b " ∷ []

abbrev patterns : List Bytes
patterns = codes "port=%d" ∷ codes "file=%s" ∷ codes "-v" ∷ []

parse-run :
    parse_args args lines patterns
    ≡ parsed
        (some (scanned_value (codes "port=77") (codes "port=%d"))
          ∷ some (text_value (codes "a"))
          ∷ some (flag_value true)
          ∷ [])
        ([] ∷ [] ∷ [] ∷ codes "rest" ∷ [])
unfolding parse_args
parse-run = refl

parse_args-named_example :
    (values : List (Option Value)) × (left : List Bytes) × (parse_args args lines patterns
      ≡ parsed values left)
    × (get_elem? values 1
        ≡ some (
            first_fit (λ s. same_start 5 s (codes "file=%s")) (args ++ options_of lines) >>= λ s.
            some (named_value (codes "file=%s") 5 s)))
unfolding asks_help strchr
parse_args-named_example =
    parse_args-named args lines (codes "port=%d" ∷ []) (codes "file=%s") (codes "-v" ∷ []) 4 refl
      refl

parse_args-emptied_example :
    (values : List (Option Value)) × (parse_args args lines patterns
      ≡ parsed values (map (left_of patterns) args))
unfolding asks_help NonePositional
parse_args-emptied_example = parse_args-emptied args lines patterns refl (refl, (refl, (refl, tt)))

options_of-OneSpace_example : options_of (codes "a  " ∷ []) ≡ codes "a " ∷ options_of []
options_of-OneSpace_example = options_of-OneSpace 97 (codes " ") 32 refl refl []
