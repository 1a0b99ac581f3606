-- ===== src/Utils/Options.antt =====
-- utils.c: `parse_args`, the options of a program from its command line and its .opts file. What
-- `printf` shows of them under -help is left out. The lines that `fgets` reads are a parameter, and a
-- value that `sscanf` reads is the string and the pattern it is called with.
pub mod Named
pub mod Emptied
pub mod Trailing
mod Tests
use fast.Prelude.{
  Bool, Bytes, List, Option, [], codes, drop, false, get_or, if◌then◌else◌, length, map, none, some,
  str_eq, take, true, ℕ, ◌&&◌, ◌++◌, ◌+◌, ◌==◌, ◌>>=◌, ◌||◌, ◌∷◌,
}
use fast.Command.{is_space}

-- A string, with its element of already_parsed.
pub record Word : Type 0 where
  pub text : Bytes
  pub is_parsed : Bool

-- What is stored through the pointer of a pattern.
pub data Value : Type 0 where
  text_value : Bytes → Value
  scanned_value : Bytes → Bytes → Value
  flag_value : Bool → Value

pub data Outcome : Type 0 where
  helped : Outcome
  parsed : List (Option Value) → List Bytes → Outcome

-- "Strip trailing whitespaces": `pos` stays where it is, on the NUL that was written.
pub strip_trailing : Bytes → Bytes
strip_trailing [] = []
strip_trailing (c ∷ []) = if is_space c then [] else c ∷ []
strip_trailing (c ∷ d ∷ s) = c ∷ strip_trailing (d ∷ s)

-- "Strip leading ones"
pub strip_leading : Bytes → Bytes
strip_leading [] = []
strip_leading (c ∷ s) = if is_space c then strip_leading s else c ∷ s

-- The strings of the .opts file: a line that is empty without its spaces gives none.
pub options_of : List Bytes → List Bytes
unfolding strip_trailing strip_leading
options_of [] = []
options_of (line ∷ lines) =
    let string = strip_leading (strip_trailing line) in
    let rest = options_of lines in if length string == 0 then rest else string ∷ rest

-- `strchr(pattern, c) - pattern`
unfoldable pub strchr : ℕ → Bytes → Option ℕ
strchr c [] = none
strchr c (d ∷ s) = if d == c then some 0 else (strchr c s >>= λ n. some (n + 1))

-- `strstr(pattern, "%s")`
pub has_string_format : Bytes → Bool
has_string_format [] = false
has_string_format (c ∷ []) = false
has_string_format (c ∷ d ∷ s) = (c == 37) && (d == 115) || has_string_format (d ∷ s)

-- `!strncmp(string, pattern, n)`, for an n within the pattern
abbrev pub same_start : ℕ → Bytes → Bytes → Bool
same_start n string pattern = str_eq (take n string) (take n pattern)

-- The loop of a pattern over the strings: all that fit are marked, the first one gives the value.
pub take_words : (Bytes → Bool) → (Bytes → Value) → Bool → List Word → Option Value × List Word
take_words fits value pattern_used [] = (none, [])
take_words fits value pattern_used (w ∷ ws) = elim (fits w.text) [
  | true ↦
      let (v, rest) = take_words fits value true ws in
      ((if pattern_used then v else some (value w.text)), record w { is_parsed = true } ∷ rest)
  | false ↦ let (v, rest) = take_words fits value pattern_used ws in (v, w ∷ rest)
]

-- "Parse first unused element to a string"
pub take_first : List Word → Option Value × List Word
take_first [] = (none, [])
take_first (w ∷ ws) = elim w.is_parsed [
  | true ↦ let (v, rest) = take_first ws in (v, w ∷ rest)
  | false ↦ (some (text_value w.text), record w { is_parsed = true } ∷ ws)
]

-- The value of a named pattern, whose name and `=` are n bytes.
pub named_value : Bytes → ℕ → Bytes → Value
unfolding has_string_format
named_value pattern n string =
    if has_string_format pattern then text_value (drop n string) else scanned_value string pattern

-- `strings[d][0] == '-' || strings[d][0] == '+'`, and the rest is that of the pattern: `pos` is NULL
-- here, and `pos - pattern` as a size is more than the length of any string.
pub fits_flag : Bytes → Bytes → Bool
fits_flag pattern [] = false
fits_flag pattern (c ∷ string) = ((c == 45) || (c == 43)) && str_eq string (drop 1 pattern)

pub flag_of : Bytes → Value
flag_of string = flag_value (get_or string 0 0 == 45)

pub take_pattern : Bytes → List Word → Option Value × List Word
unfolding strchr take_words take_first named_value fits_flag flag_of
take_pattern pattern words = elim (strchr 61 pattern) [
  | some pos ↦
      take_words (λ s. same_start (pos + 1) s pattern) (named_value pattern (pos + 1)) false words
  | none ↦ elim (strchr 37 pattern) [
    | none ↦
        if get_or pattern 0 0 == 45
        then take_words (fits_flag pattern) flag_of false words
        else (none, words)
    | some percent ↦ if str_eq pattern (codes "%s") then take_first words else (none, words)
  ]
]

pub take_patterns : List Bytes → List Word → List (Option Value) × List Word
unfolding take_pattern
take_patterns [] words = ([], words)
take_patterns (pattern ∷ patterns) words =
    let (v, words') = take_pattern pattern words in
    let (vs, words'') = take_patterns patterns words' in (v ∷ vs, words'')

-- "Make all used args an empty strings"
abbrev pub left_text : Word → Bytes
left_text w = if w.is_parsed then [] else w.text

abbrev pub new_word : Bytes → Word
new_word s = record { text = s; is_parsed = false }

-- `strcmp(argv[d], "-help")` for some d
pub asks_help : List Bytes → Bool
asks_help [] = false
asks_help (s ∷ strings) = str_eq s (codes "-help") || asks_help strings

-- `args` are the arguments behind the name of the program, `lines` those of its .opts file.
unfoldable pub parse_args : List Bytes → List Bytes → List Bytes → Outcome
unfolding take_patterns options_of asks_help
parse_args args lines patterns =
    if asks_help args
    then helped
    else let (values, words) = take_patterns patterns (map new_word (args ++ options_of lines)) in
      parsed values (take (length args) (map left_text words))
