-- ===== src/Command/Render.antt =====
-- command.c: the strings made of a command's parameters. `null` is what the C library prints for
-- `%s` at NULL, which the hstore, Lua and JSON forms of a command without parameters show.
use fast.Prelude.{Bytes, List, Option, [], codes, drop, none, some, ℕ, ◌++◌, ◌+◌, ◌∷◌}
use fast.Command.{Command, Token, dquote}

-- `add_to_string(&string, text)` (utils.c); `none` is the NULL that each loop starts from.
unfoldable pub add_to_string : Option Bytes → Bytes → Option Bytes
add_to_string none text = some text
add_to_string (some s) text = some (s ++ text)

-- The loop of each function below: `separator` goes in front of every token but those before
-- the first text, and `text` is what a token adds, if anything.
unfoldable pub params_loop :
    Bytes → (Token → Option Bytes) → Option Bytes → List Token → Option Bytes
unfolding add_to_string
params_loop separator text s [] = s
params_loop separator text s (t ∷ ts) =
    let s1 : Option Bytes = elim s [ none ↦ none | some a ↦ add_to_string (some a) separator ] in
    let s2 : Option Bytes = elim (text t) [ none ↦ s1 | some a ↦ add_to_string s1 a ] in
    params_loop separator text s2 ts

abbrev pub plain_text : Token → Option Bytes
plain_text t = elim t.name [ none ↦ some t.value | some n ↦ some (n ++ codes "=" ++ t.value) ]

abbrev pub prefix_text : Bytes → Token → Option Bytes
prefix_text prefix t = elim t.name [
  | none ↦ some (prefix ++ codes "_" ++ t.value)
  | some n ↦ some (prefix ++ codes "_" ++ n ++ codes "=" ++ t.value)
]

-- `before name between value after` for a named token, nothing for another
abbrev pub pair_text : Bytes → Bytes → Bytes → Token → Option Bytes
pair_text before between after t = elim t.name [
  | none ↦ none
  | some n ↦ some (before ++ n ++ between ++ t.value ++ after)
]

pub command_params_n : Command → ℕ → Option Bytes
unfolding params_loop
command_params_n c skip = params_loop (codes " ") plain_text none (drop (skip + c.first) c.tokens)

pub command_params : Command → Option Bytes
unfolding command_params_n
command_params c = command_params_n c 0

-- `prefix` is the formatted template.
pub command_params_with_prefix : Command → Bytes → Option Bytes
unfolding params_loop
command_params_with_prefix c prefix =
    params_loop (codes " ") (prefix_text prefix) none (drop c.first c.tokens)

module _ (null : Bytes) where
  -- `%s` at a string that may be NULL
  abbrev pub shown : Option Bytes → Bytes
  shown none = null
  shown (some s) = s

  abbrev pub quote_mark : Bytes
  quote_mark = dquote ∷ []

  pub command_params_as_hstore : Command → Bytes
  unfolding params_loop
  command_params_as_hstore c =
      let pair = pair_text quote_mark (quote_mark ++ codes " => " ++ quote_mark) quote_mark in
      let s = params_loop (codes ", ") pair none (drop c.first c.tokens) in
      codes "'" ++ shown s ++ codes "'::hstore"

  pub command_params_as_lua : Command → Bytes
  unfolding params_loop
  command_params_as_lua c =
      let pair =
        pair_text (codes "[" ++ quote_mark) (quote_mark ++ codes "] = " ++ quote_mark) quote_mark in
      let s = params_loop (codes ", ") pair none (drop c.first c.tokens) in
      codes "{" ++ shown s ++ codes "}"

  unfoldable pub command_params_as_json : Command → Bytes
  unfolding params_loop
  command_params_as_json c =
      let pair = pair_text quote_mark (quote_mark ++ codes ":" ++ quote_mark) quote_mark in
      let s = params_loop (codes ", ") pair none (drop c.first c.tokens) in
      codes "{" ++ shown s ++ codes "}"
