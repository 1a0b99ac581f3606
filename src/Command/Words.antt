-- ===== src/Command/Words.antt =====
-- The scanner of `command_parse` takes a text apart into its words, in order: a word begins with a
-- printable byte, its white space stands inside quotes, and its quotes are closed.
use fast.Prelude.{
  All, Bool, Bool-cases, Bytes, List, [], ap, append-nil, append_assoc, ap₂, arith, false,
  if◌then◌else◌, inl, inr, map, refl, sym, true, ℕ, ◌&&◌, ◌++◌, ◌∙◌, ◌∷◌, ◌≡◌,
}
use fast.Command.{
  State, Token, command_parse, double_quote, graph_state, in_token, initial, is_graph, is_space,
  quote, scan, scan_step, token, token_found, whitespace,
}

abbrev pub ends : State → Bool
ends token = true
ends s = false

abbrev pub inside : State → ℕ → State
inside s c = if is_graph c then graph_state s c else s

-- Whether these bytes, read in state `s`, come to the end of a word and not beyond it.
unfoldable pub closes : State → Bytes → Bool
closes s [] = ends s
closes s (c ∷ cs) =
    let rest = closes (inside s c) cs in if is_space c && ends s then false else rest

unfoldable pub is_word : Bytes → Bool
unfolding closes
is_word [] = false
is_word (c ∷ cs) = is_graph c && closes (in_token c) cs

unfoldable pub join : List Bytes → Bytes
join [] = []
join (w ∷ []) = w
join (w ∷ (v ∷ ws)) = w ++ (32 ∷ join (v ∷ ws))

-- A state that is inside a word.
abbrev pub Started : State → Type 0
Started initial = ⊥
Started whitespace = ⊥
Started s = Unit {0}

Started-inside : (s : State) (c : ℕ) → Started s → Started (inside s c)
Started-inside initial c h = absurd h
Started-inside whitespace c h = absurd h
Started-inside token c h = ground arith
Started-inside quote c h = ground arith
Started-inside double_quote c h = ground arith

-- A round inside a word that does not end it.
scan_step-inside :
    (s : State) (w : Bytes) (c : ℕ)
    → Started s
    → (is_space c && ends s) ≡ false
    → scan_step s w c ≡ (inside s c, w ++ (c ∷ []), [])
unfolding scan_step
scan_step-inside initial w c h e = absurd h
scan_step-inside whitespace w c h e = absurd h
scan_step-inside token w c h e = ground arith
scan_step-inside quote w c h e = ground arith
scan_step-inside double_quote w c h e = ground arith

closes-cons :
    (s : State) (c : ℕ) (cs : Bytes)
    → closes s (c ∷ cs) ≡ true
    → ((is_space c && ends s) ≡ false) × (closes (inside s c) cs ≡ true)
unfolding closes
closes-cons s c cs h = ground arith

closes-nil : (s : State) → closes s [] ≡ true → s ≡ token
unfolding closes
closes-nil s h = ground arith

-- A word and a space: the word is found, and the rest is scanned anew.
scan-closes :
    (w w0 rest : Bytes) (s : State)
    → Started s
    → closes s w ≡ true
    → scan s w0 (w ++ (32 ∷ rest)) ≡ token_found (w0 ++ w) ∷ scan whitespace [] rest
unfolding scan
scan-closes [] w0 rest s h e = rw (closes-nil s e, append-nil)
scan-closes (c ∷ w) w0 rest s h e =
    let (stays, more) = closes-cons s c w e in
    rw (scan_step-inside s w0 c h stays) (
      scan-closes w (w0 ++ (c ∷ [])) rest (inside s c) (Started-inside s c h) more
      ∙ ap (λ t. token_found t ∷ scan whitespace [] rest) (append_assoc w0 (c ∷ []) w))

scan-closes_end :
    (w w0 : Bytes) (s : State)
    → Started s
    → closes s w ≡ true
    → scan s w0 w ≡ token_found (w0 ++ w) ∷ []
unfolding scan
scan-closes_end [] w0 s h e = rw (closes-nil s e, append-nil)
scan-closes_end (c ∷ w) w0 s h e =
    let (stays, more) = closes-cons s c w e in
    rw (scan_step-inside s w0 c h stays) (
      scan-closes_end w (w0 ++ (c ∷ [])) (inside s c) (Started-inside s c h) more
      ∙ ap (λ t. token_found t ∷ []) (append_assoc w0 (c ∷ []) w))

-- the first byte of a word, from outside a word
is_word-closes :
    (c : ℕ) (cs : Bytes)
    → is_word (c ∷ cs) ≡ true
    → (is_graph c ≡ true) × (closes (in_token c) cs ≡ true)
unfolding is_word
is_word-closes c cs h = ground arith

Started-in_token : (c : ℕ) → Started (in_token c)
Started-in_token c = ground arith

scan-word :
    (w rest : Bytes)
    → is_word w ≡ true
    → scan whitespace [] (w ++ (32 ∷ rest)) ≡ token_found w ∷ scan whitespace [] rest
unfolding scan is_word
scan-word [] rest h = cc
scan-word (c ∷ cs) rest h =
    let (printable, more) = is_word-closes c cs h in
    rw printable (scan-closes cs (c ∷ []) rest (in_token c) (Started-in_token c) more)

scan-word_end : (w : Bytes) → is_word w ≡ true → scan whitespace [] w ≡ token_found w ∷ []
unfolding scan is_word
scan-word_end [] h = cc
scan-word_end (c ∷ cs) h =
    let (printable, more) = is_word-closes c cs h in
    rw printable (scan-closes_end cs (c ∷ []) (in_token c) (Started-in_token c) more)

-- The scanner begins as after white space.
scan-initial : (cs w : Bytes) → scan initial w cs ≡ scan whitespace w cs
unfolding scan
scan-initial [] w = refl
scan-initial (c ∷ cs) w = elim (Bool-cases (is_graph c)) [
  | inl graph ↦ rw graph
  | inr odd ↦ elim (Bool-cases (is_space c)) [
    | inl space ↦ rw (odd, space)
    | inr control ↦ rw (odd, control) (scan-initial cs (w ++ (c ∷ [])))
  ]
]

scan-join :
    (ws : List Bytes)
    → All (λ w. is_word w ≡ true) ws
    → scan whitespace [] (join ws) ≡ map token_found ws
unfolding join scan
scan-join [] h = refl
scan-join (w ∷ []) h = scan-word_end w h.0
scan-join (w ∷ (v ∷ ws)) h =
    scan-word w (join (v ∷ ws)) h.0 ∙ ap (λ t. token_found w ∷ t) (scan-join (v ∷ ws) h.1)

-- The words of a text that is made of words, one space apart, are its tokens.
pub parse-join :
    (ws : List Bytes)
    → All (λ w. is_word w ≡ true) ws
    → (command_parse (join ws)).tokens ≡ map token_found ws
unfolding command_parse
parse-join ws h = scan-initial (join ws) [] ∙ scan-join ws h

-- What a state and the bytes since `start` say: whatever ends the word makes a word of them.
abbrev Begun : State → Bytes → Type 0
Begun s w = Started s → (u : Bytes) → closes s u ≡ true → is_word (w ++ u) ≡ true

-- A token as the scanner makes it, from a word.
abbrev pub IsFound : Token → Type 0
IsFound t = (is_word t.text ≡ true) × (t ≡ token_found t.text)

pub text-token_found : (w : Bytes) → (token_found w).text ≡ w
unfolding token_found
text-token_found w = ground arith

IsFound-token_found : (w : Bytes) → is_word w ≡ true → IsFound (token_found w)
IsFound-token_found w h = (rw text-token_found h, ap token_found (sym (text-token_found w)))

Begun-inside :
    (s : State) (w : Bytes) (c : ℕ)
    → Started s
    → Begun s w
    → (is_space c && ends s) ≡ false
    → Begun (inside s c) (w ++ (c ∷ []))
unfolding closes
Begun-inside s w c h b e _ u k = rw append_assoc (b h (c ∷ u) (rw e k))

Begun-first : (c : ℕ) → is_graph c ≡ true → Begun (in_token c) (c ∷ [])
unfolding is_word
Begun-first c printable _ u k = rw printable k

-- at white space inside a word
space-found :
    (s : State) (w : Bytes) (c : ℕ)
    → Started s
    → Begun s w
    → (is_space c && ends s) ≡ true
    → (scan_step s w c ≡ (whitespace, [], token_found w ∷ [])) × (is_word w ≡ true)
unfolding scan_step closes
space-found initial w c h b e = absurd h
space-found whitespace w c h b e = absurd h
space-found token w c h b e = (ground arith, (rw append-nil at (b tt [] refl)))
space-found quote w c h b e = ground arith
space-found double_quote w c h b e = ground arith

scan-IsFound-Started :
    (c : ℕ) (s : State) (w cs : Bytes)
    → ((s' : State) (w' : Bytes) → Begun s' w' → All IsFound (scan s' w' cs))
    → Started s
    → Begun s w
    → All IsFound (scan s w (c ∷ cs))
unfolding scan
scan-IsFound-Started c s w cs ih h b = elim (Bool-cases (is_space c && ends s)) [
  | inl over ↦
      let (e, word) = space-found s w c h b over in
      rw e (IsFound-token_found w word, ih whitespace [] (λ h'. absurd h'))
  | inr on ↦
      rw (scan_step-inside s w c h on) (ih (inside s c) (w ++ (c ∷ [])) (Begun-inside s w c h b on))
]

scan-IsFound_between :
    (c : ℕ) (w cs : Bytes)
    → ((s' : State) (w' : Bytes) → Begun s' w' → All IsFound (scan s' w' cs))
    → All IsFound (scan whitespace w (c ∷ cs))
unfolding scan
scan-IsFound_between c w cs ih = elim (Bool-cases (is_graph c)) [
  | inl graph ↦ rw graph (ih (in_token c) (c ∷ []) (Begun-first c graph))
  | inr odd ↦ elim (Bool-cases (is_space c)) [
    | inl space ↦ rw (odd, space) (ih whitespace [] (λ h. absurd h))
    | inr control ↦ rw (odd, control) (ih whitespace (w ++ (c ∷ [])) (λ h. absurd h))
  ]
]

scan-IsFound : (cs : Bytes) (s : State) (w : Bytes) → Begun s w → All IsFound (scan s w cs)
unfolding scan closes
scan-IsFound [] token w b = (IsFound-token_found w (rw append-nil at (b tt [] refl)), tt)
scan-IsFound [] s w b = tt
scan-IsFound (c ∷ cs) initial w b =
    rw (scan-initial (c ∷ cs) w) (scan-IsFound_between c w cs (scan-IsFound cs))
scan-IsFound (c ∷ cs) whitespace w b = scan-IsFound_between c w cs (scan-IsFound cs)
scan-IsFound (c ∷ cs) token w b = scan-IsFound-Started c token w cs (scan-IsFound cs) tt b
scan-IsFound (c ∷ cs) quote w b = scan-IsFound-Started c quote w cs (scan-IsFound cs) tt b
scan-IsFound (c ∷ cs) double_quote w b =
    scan-IsFound-Started c double_quote w cs (scan-IsFound cs) tt b

unfoldable pub texts : List Token → List Bytes
texts ts = map (λ t. t.text) ts

-- Each token of any text is found in a word, and its fields are those of that word.
pub parse-IsFound : (s : Bytes) → All IsFound (command_parse s).tokens
unfolding command_parse
parse-IsFound s = scan-IsFound s initial [] (λ h. absurd h)

IsFound-words : (ts : List Token) → All IsFound ts → All (λ w. is_word w ≡ true) (texts ts)
unfolding texts
IsFound-words [] h = tt
IsFound-words (t ∷ ts) h = (h.0.0, IsFound-words ts h.1)

IsFound-texts : (ts : List Token) → All IsFound ts → map token_found (texts ts) ≡ ts
unfolding texts
IsFound-texts [] h = refl
IsFound-texts (t ∷ ts) h = ap₂ ◌∷◌ (sym h.0.1) (IsFound-texts ts h.1)

-- A command has a normal form: its tokens' texts, one space apart, parse to the same tokens.
pub parse-texts :
    (s : Bytes)
    → (command_parse (join (texts (command_parse s).tokens))).tokens ≡ (command_parse s).tokens
parse-texts s =
    let found = parse-IsFound s in
    let ts = (command_parse s).tokens in
    parse-join (texts ts) (IsFound-words ts found) ∙ IsFound-texts ts found
