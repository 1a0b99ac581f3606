-- ===== src/Utils/Options/Named.antt =====
-- What a named pattern of `parse_args` is given.
use fast.Prelude.{
  Bool, Bool-cases, Bytes, List, Option, Option-cases, [], ap, arith, false, get_elem?,
  if◌then◌else◌, inl, inr, length, map, none, refl, some, take, true, ℕ, ◌++◌, ◌+◌, ◌>>=◌, ◌∙◌, ◌∷◌,
  ◌≡◌,
}
use fast.Utils.Options.{
  Value, Word, asks_help, fits_flag, flag_of, left_text, named_value, new_word, options_of,
  parse_args, parsed, same_start, strchr, take_first, take_pattern, take_patterns, take_words,
}

-- the first string that fits
pub first_fit : (Bytes → Bool) → List Bytes → Option Bytes
first_fit fits [] = none
first_fit fits (s ∷ strings) = if fits s then some s else first_fit fits strings

abbrev texts : List Word → List Bytes
texts ws = map (λ w. w.text) ws

module _ (fits : Bytes → Bool) (value : Bytes → Value) where
  take_words-texts :
      (used : Bool) (ws : List Word) → texts ((take_words fits value used ws).1) ≡ texts ws
  unfolding take_words
  take_words-texts used [] = refl
  take_words-texts used (w ∷ ws) =
      let fit = take_words-texts true ws in
      let rest = take_words-texts used ws in ground (arith, fit, rest)

  take_words-used : (ws : List Word) → (take_words fits value true ws).0 ≡ none
  unfolding take_words
  take_words-used [] = refl
  take_words-used (w ∷ ws) = let rest = take_words-used ws in ground (arith, rest)

  take_words-first :
      (ws : List Word)
      → (take_words fits value false ws).0 ≡ (first_fit fits (texts ws) >>= λ s. some (value s))
  unfolding take_words first_fit
  take_words-first [] = refl
  take_words-first (w ∷ ws) =
      let rest = take_words-first ws in
      elim (Bool-cases (fits w.text)) [
        | inl e ↦ ground (arith, e)
        | inr e ↦ ground (arith, e, rest)
      ]

take_first-texts : (ws : List Word) → texts ((take_first ws).1) ≡ texts ws
unfolding take_first
take_first-texts [] = refl
take_first-texts (w ∷ ws) =
    let rest = take_first-texts ws in
    elim (Bool-cases w.is_parsed) [ inl e ↦ ground (arith, e, rest) | inr e ↦ ground (arith, e) ]

take_pattern-texts : (p : Bytes) (ws : List Word) → texts ((take_pattern p ws).1) ≡ texts ws
unfolding take_pattern
take_pattern-texts p ws = elim (Option-cases (strchr 61 p)) [
  | inr (pos, e) ↦ ground (
    arith,
    e,
    take_words-texts (λ s. same_start (pos + 1) s p) (named_value p (pos + 1)) false ws,
  )
  | inl e ↦ elim (Option-cases (strchr 37 p)) [
    | inl f ↦ ground (arith, e, f, take_words-texts (fits_flag p) flag_of false ws)
    | inr (percent, f) ↦ ground (arith, e, f, take_first-texts ws)
  ]
]

take_patterns-named :
    (ps : List Bytes) (p : Bytes) (qs : List Bytes) (n : ℕ) (ws : List Word)
    → strchr 61 p ≡ some n
    → get_elem? ((take_patterns (ps ++ p ∷ qs) ws).0) (length ps)
      ≡ some (
          first_fit (λ s. same_start (n + 1) s p) (texts ws) >>= λ s.
          some (named_value p (n + 1) s))
unfolding take_patterns take_pattern
take_patterns-named [] p qs n ws named =
    let first = take_words-first (λ s. same_start (n + 1) s p) (named_value p (n + 1)) ws in
    ground (arith, named, first)
take_patterns-named (q ∷ ps) p qs n ws named =
    take_patterns-named ps p qs n ((take_pattern q ws).1) named
    ∙ ap
        (λ ss.
          some (first_fit (λ s. same_start (n + 1) s p) ss >>= λ s. some (named_value p (n + 1) s)))
        (take_pattern-texts q ws)

texts-new : (ss : List Bytes) → texts (map new_word ss) ≡ ss
texts-new [] = refl
texts-new (s ∷ ss) = ap (λ rest. s ∷ rest) (texts-new ss)

-- Without -help, a pattern with a name is given the first of the arguments and then the options of
-- the file that begins with its name and `=`, or nothing where none does, whatever the other patterns are.
pub parse_args-named :
    (args lines ps : List Bytes) (p : Bytes) (qs : List Bytes) (n : ℕ)
    → asks_help args ≡ false
    → strchr 61 p ≡ some n
    → (values : List (Option Value)) × (left : List Bytes) × (parse_args args lines (ps ++ p ∷ qs)
        ≡ parsed values left)
      × (get_elem? values (length ps)
          ≡ some (
              first_fit (λ s. same_start (n + 1) s p) (args ++ options_of lines) >>= λ s.
              some (named_value p (n + 1) s)))
unfolding parse_args
parse_args-named args lines ps p qs n help named =
    let strings = args ++ options_of lines in
    let (values, words) = take_patterns (ps ++ p ∷ qs) (map new_word strings) in
    (
      values,
      take (length args) (map left_text words),
      ground (arith, help),
      take_patterns-named ps p qs n (map new_word strings) named
          ∙ ap
              (λ ss. some (
                first_fit (λ s. same_start (n + 1) s p) ss >>= λ s. some (named_value p (n + 1) s)))
              (texts-new strings),
    )
