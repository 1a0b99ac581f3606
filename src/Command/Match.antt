-- ===== src/Command/Match.antt =====
-- `command_match` and the rendering of parameters against plain descriptions.
use fast.Prelude.{
  All, Bytes, List, Option, Option-cases, [], append-nil, append_assoc, arith, codes, drop, inl,
  inr, none, refl, some, str_eq_refl, str_eq→eq, true, ◌++◌, ◌↔◌, ◌∷◌, ◌≡◌, ◌≢◌,
}
use fast.Command.{Command, Token, command_match, command_name}
use fast.Command.Render.{command_params_as_json, pair_text, params_loop, quote_mark}

-- A command matches a name exactly when the name is not empty and is the command's own, so that no
-- two names match the same command.
pub match-name :
    (c : Command) (cmdname : Bytes)
    → (command_match c (some cmdname) ≡ true) ↔ ((cmdname ≢ []) × (command_name c ≡ some cmdname))
unfolding command_match command_name
match-name c cmdname = go c.tokens
  where
    go :
        (ts : List Token)
        → let d : Command = record c { tokens = ts } in
          (command_match d (some cmdname) ≡ true)
          ↔ ((cmdname ≢ []) × (command_name d ≡ some cmdname))
    go [] = (λ h. ground arith, λ h. ground arith)
    go (t ∷ ts) =
        (λ h. ground (arith, str_eq→eq cmdname t.value), λ h. ground (arith, str_eq_refl cmdname))

-- Behind the first text, each token adds the separator and its own text, if it has one.
abbrev pub behind : Bytes → (Token → Option Bytes) → List Token → Bytes
behind separator text [] = []
behind separator text (t ∷ ts) =
    separator ++ ((elim (text t) [ none ↦ [] | some a ↦ a ]) ++ behind separator text ts)

-- The tokens without a text in front add nothing.
abbrev pub joined : Bytes → (Token → Option Bytes) → List Token → Option Bytes
joined separator text [] = none
joined separator text (t ∷ ts) = elim (text t) [
  | none ↦ joined separator text ts
  | some a ↦ some (a ++ behind separator text ts)
]

params_loop-some :
    (separator : Bytes) (text : Token → Option Bytes) (s : Bytes) (ts : List Token)
    → params_loop separator text (some s) ts ≡ some (s ++ behind separator text ts)
unfolding params_loop
params_loop-some separator text s [] = rw append-nil
params_loop-some separator text s (t ∷ ts) = elim (Option-cases (text t)) [
  | inl e ↦ rw (e, params_loop-some separator text (s ++ separator) ts, append_assoc)
  | inr (a, e) ↦
      rw (e, params_loop-some separator text ((s ++ separator) ++ a) ts, append_assoc, append_assoc)
]

-- What the rendering functions build from their tokens: nothing while no token has a text, then the
-- first text, and behind it the separator for each further token, with its text if it has one.
pub params_loop-joined :
    (separator : Bytes) (text : Token → Option Bytes) (ts : List Token)
    → params_loop separator text none ts ≡ joined separator text ts
unfolding params_loop
params_loop-joined separator text [] = refl
params_loop-joined separator text (t ∷ ts) = elim (Option-cases (text t)) [
  | inl e ↦ rw (e, joined) (params_loop-joined separator text ts)
  | inr (a, e) ↦ rw (e, joined) (params_loop-some separator text a ts)
]

abbrev pub Nameless : Token → Type 0
Nameless t = t.name ≡ none

joined-Nameless :
    (before between after : Bytes) (ts : List Token)
    → All Nameless ts
    → joined (codes ", ") (pair_text before between after) ts ≡ none
joined-Nameless before between after [] h = refl
joined-Nameless before between after (t ∷ ts) h =
    rw (h.0, joined) (joined-Nameless before between after ts h.1)

-- The JSON of a command with no `key=value` parameter is not `{}`, but has the text that the C
-- library prints for NULL between the braces.
pub json-Nameless :
    (null : Bytes) (c : Command)
    → All Nameless (drop c.first c.tokens)
    → command_params_as_json null c ≡ codes "{" ++ null ++ codes "}"
unfolding command_params_as_json
json-Nameless null c h =
    rw
      (params_loop-joined (codes ", ")
        (pair_text (quote_mark null) (quote_mark null ++ codes ":" ++ quote_mark null)
          (quote_mark null))
        (drop c.first c.tokens))
      (rw (
        joined-Nameless (quote_mark null) (quote_mark null ++ codes ":" ++ quote_mark null)
          (quote_mark null) (drop c.first c.tokens) h))
