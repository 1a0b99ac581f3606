-- ===== src/Utils/Options/Emptied.antt =====
-- Which strings `parse_args` leaves in argv.
use fast.Prelude.{
  Bool, Bool-cases, Bytes, List, Option, Option-cases, [], ap, ap₂, arith, codes, false, get_or,
  if◌then◌else◌, inl, inr, length, map, none, refl, some, str_eq, take, true, ◌&&◌, ◌++◌, ◌+◌, ◌==◌,
  ◌||◌, ◌∙◌, ◌∷◌, ◌≡◌,
}
use fast.Utils.Options.{
  Value, Word, asks_help, fits_flag, flag_of, left_text, named_value, new_word, options_of,
  parse_args, parsed, same_start, strchr, take_pattern, take_patterns, take_words,
}

-- A string fits a pattern by its name or as a flag.
pub fits_pattern : Bytes → Bytes → Bool
fits_pattern pattern s = elim (strchr 61 pattern) [
  | some pos ↦ same_start (pos + 1) s pattern
  | none ↦ elim (strchr 37 pattern) [
    | none ↦ (get_or pattern 0 0 == 45) && fits_flag pattern s
    | some percent ↦ false
  ]
]

pub fits_any : List Bytes → Bytes → Bool
fits_any [] s = false
fits_any (p ∷ ps) s = fits_pattern p s || fits_any ps s

-- None of the patterns takes a string by its position.
unfoldable pub NonePositional : List Bytes → Type 0
NonePositional [] = Unit
NonePositional (p ∷ ps) = (str_eq p (codes "%s") ≡ false) × NonePositional ps

abbrev mark : (Bytes → Bool) → Word → Word
mark fits w = record w { is_parsed = w.is_parsed || fits w.text }

map-ext : (f g : Word → Word) → ((w : Word) → f w ≡ g w) → (ws : List Word) → map f ws ≡ map g ws
map-ext f g h [] = refl
map-ext f g h (w ∷ ws) = ap₂ (λ v vs. v ∷ vs) (h w) (map-ext f g h ws)

mark_true : (b c : Bool) → c ≡ true → true ≡ (b || c)
mark_true b c e = ground (arith, e)

mark_false : (b c : Bool) → c ≡ false → b ≡ (b || c)
mark_false b c e = ground (arith, e)

same_mark :
    (f g : Bytes → Bool)
    → ((s : Bytes) → f s ≡ g s)
    → (ws : List Word) → map (mark f) ws ≡ map (mark g) ws
same_mark f g h ws =
    map-ext (mark f) (mark g) (λ w. ap (λ b. record w { is_parsed = w.is_parsed || b }) (h w.text))
      ws

no_mark : (ws : List Word) → ws ≡ map (mark (λ s. false)) ws
no_mark [] = refl
no_mark (w ∷ ws) =
    ap₂ (λ b vs. record w { is_parsed = b } ∷ vs) (mark_false w.is_parsed false refl) (no_mark ws)

take_words-mark :
    (fits : Bytes → Bool) (value : Bytes → Value) (used : Bool) (ws : List Word)
    → (take_words fits value used ws).1 ≡ map (mark fits) ws
unfolding take_words
take_words-mark fits value used [] = refl
take_words-mark fits value used (w ∷ ws) =
    let fit = take_words-mark fits value true ws in
    let rest = take_words-mark fits value used ws in
    elim (Bool-cases (fits w.text)) [
      | inl e ↦
          ground (arith, e, fit)
          ∙ ap (λ b. record w { is_parsed = b } ∷ map (mark fits) ws)
              (mark_true w.is_parsed (fits w.text) e)
      | inr e ↦
          ground (arith, e, rest)
          ∙ ap (λ b. record w { is_parsed = b } ∷ map (mark fits) ws)
              (mark_false w.is_parsed (fits w.text) e)
    ]

take_pattern-mark :
    (p : Bytes) (ws : List Word)
    → str_eq p (codes "%s") ≡ false
    → (take_pattern p ws).1 ≡ map (mark (fits_pattern p)) ws
unfolding take_pattern fits_pattern
take_pattern-mark p ws h = elim (Option-cases (strchr 61 p)) [
  | inr (pos, e) ↦
      let fits = λ (s : Bytes). same_start (pos + 1) s p in
      let run : (take_pattern p ws).1 ≡ (take_words fits (named_value p (pos + 1)) false ws).1 =
        ground (arith, e) in
      run
      ∙ take_words-mark fits (named_value p (pos + 1)) false ws
      ∙ same_mark fits (fits_pattern p) (λ s. ground (arith, e)) ws
  | inl e ↦ elim (Option-cases (strchr 37 p)) [
    | inl f ↦ elim (Bool-cases (get_or p 0 0 == 45)) [
      | inl g ↦
          let run : (take_pattern p ws).1 ≡ (take_words (fits_flag p) flag_of false ws).1 =
            ground (arith, e, f, g) in
          run
          ∙ take_words-mark (fits_flag p) flag_of false ws
          ∙ same_mark (fits_flag p) (fits_pattern p) (λ s. ground (arith, e, f, g)) ws
      | inr g ↦
          let run : (take_pattern p ws).1 ≡ ws = ground (arith, e, f, g) in
          run
          ∙ no_mark ws
          ∙ same_mark (λ s. false) (fits_pattern p) (λ s. ground (arith, e, f, g)) ws
    ]
    | inr (percent, f) ↦
        let run : (take_pattern p ws).1 ≡ ws = ground (arith, e, f, h) in
        run ∙ no_mark ws ∙ same_mark (λ s. false) (fits_pattern p) (λ s. ground (arith, e, f)) ws
  ]
]

map-mark :
    (f g : Bytes → Bool) (ws : List Word)
    → map (mark g) (map (mark f) ws) ≡ map (mark (λ s. f s || g s)) ws
map-mark f g [] = refl
map-mark f g (w ∷ ws) =
    ap₂ (λ b vs. record w { is_parsed = b } ∷ vs) (ground arith) (map-mark f g ws)

take_patterns-mark :
    (ps : List Bytes) (ws : List Word)
    → NonePositional ps
    → (take_patterns ps ws).1 ≡ map (mark (fits_any ps)) ws
unfolding take_patterns NonePositional fits_any
take_patterns-mark [] ws h = no_mark ws
take_patterns-mark (p ∷ ps) ws (h, k) =
    take_patterns-mark ps ((take_pattern p ws).1) k
    ∙ ap (map (mark (fits_any ps))) (take_pattern-mark p ws h)
    ∙ map-mark (fits_pattern p) (fits_any ps) ws

-- what is left of a string
abbrev pub left_of : List Bytes → Bytes → Bytes
left_of patterns s = if fits_any patterns s then [] else s

left-mark :
    (patterns args options : List Bytes)
    → take
        (length args)
        (map left_text (map (mark (fits_any patterns)) (map new_word (args ++ options))))
      ≡ map (left_of patterns) args
left-mark patterns [] options = refl
left-mark patterns (s ∷ args) options =
    ap (λ rest. left_of patterns s ∷ rest) (left-mark patterns args options)

-- Without -help, and with patterns of which none takes a string by its position, an argument is
-- emptied exactly when it fits one of the patterns, and is left as it is otherwise.
pub parse_args-emptied :
    (args lines patterns : List Bytes)
    → asks_help args ≡ false
    → NonePositional patterns
    → (values : List (Option Value)) × (parse_args args lines patterns
        ≡ parsed values (map (left_of patterns) args))
unfolding parse_args
parse_args-emptied args lines patterns help none_of =
    let words = map new_word (args ++ options_of lines) in
    let left : take (length args) (map left_text ((take_patterns patterns words).1))
        ≡ map (left_of patterns) args =
      ap (λ ws. take (length args) (map left_text ws)) (take_patterns-mark patterns words none_of)
      ∙ left-mark patterns args (options_of lines) in
    ((take_patterns patterns words).0, ground (arith, help, left))
