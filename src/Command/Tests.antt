-- ===== src/Command/Tests.antt =====
-- Commands as clients send them, and the theorems at such commands.

use fast.Prelude.{
  All, Bytes, List, Option, [], ap, arith, codes, false, get_elem?, get_or, map, none, refl, some,
  true, ℕ, ◌∷◌, ◌≡◌,
}
use fast.Command.{Token, command_parse, squote}
use fast.Command.Args.{assign, command_args, pattern_parse, scanned}
use fast.Command.Args.Named.{command_args-named}
use fast.Command.Words.{is_word, join}
use fast.Command.RoundTrip.{Argument, IsWritable, argument_token, parse-write, write}

abbrev first_byte : Option Bytes → ℕ
first_byte none = 0
first_byte (some s) = get_or s 0 0

abbrev region : Bytes
region = codes "set_region x2=30 x1=10"

abbrev x1_token : Token
x1_token = record {
  name = some (codes "x1");
  value = codes "10";
  text = codes "x1=10";
  is_used = false;
}

parse-region :
    (command_parse region).tokens
    ≡ record { name = none; value = codes "set_region"; text = codes "set_region"; is_used = false }
      ∷ record {
        name = some (codes "x2");
        value = codes "30";
        text = codes "x2=30";
        is_used = false;
      }
      ∷ x1_token
      ∷ []
unfolding command_parse
parse-region = refl

-- a quoted value keeps its space, and a token whose quote is not closed is dropped
parse-quotes :
    map (λ t. t.value) (command_parse (codes "a b='c d' 'e")).tokens ≡ codes "a" ∷ codes "c d" ∷ []
unfolding command_parse
parse-quotes = refl

args-region :
    (command_args (command_parse region) (codes "x1=%d" ∷ codes "y1=%d" ∷ [])).0
    ≡ some (scanned (codes "10") (codes "%d")) ∷ some (scanned (codes "30") (codes "%d")) ∷ []
unfolding command_args command_parse
args-region = refl

abbrev two_words : List Bytes
two_words = codes "set_object" ∷ codes "object='NGC 1'" ∷ []

two_words-ok : All (λ w. is_word w ≡ true) two_words
unfolding is_word
two_words-ok = (refl, (refl, tt))

abbrev arguments : List Argument
arguments =
    record { name = none; mark = none; value = codes "go" }
    ∷ record { name = some (codes "n"); mark = some squote; value = codes "a b" }
    ∷ []

arguments-ok : All IsWritable arguments
arguments-ok = (
  record { value_ok = ground arith; name_ok = ground arith },
  (record { value_ok = ground arith; name_ok = ground arith }, tt),
)

parse-write_example :
    (command_parse (join (map write arguments))).tokens ≡ map argument_token arguments
parse-write_example = parse-write arguments arguments-ok

command_args-named_example :
    get_elem? (command_args (command_parse region) (codes "y1=%d" ∷ codes "x1=%d" ∷ [])).0 1
    ≡ some (some (scanned (codes "10") (codes "%d")))
unfolding command_parse pattern_parse assign
command_args-named_example =
    command_args-named (command_parse region) (codes "y1=%d" ∷ []) [] (codes "x1=%d") (codes "x1")
      x1_token refl ((λ e. omega (arith, ap first_byte e)), tt) refl
