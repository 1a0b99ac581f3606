-- ===== src/Command.antt =====
-- command.c: the text of a command, `name arg key=value key="quoted value"`, taken apart into
-- tokens. The rendering of tokens stands in Render, and `command_args` in Args.
pub mod Render
pub mod Args
pub mod Words
pub mod RoundTrip
pub mod Match
mod Tests
use fast.Prelude.{
  Bool, Bytes, List, Option, [], false, if◌then◌else◌, leb, length, none, not, some, str_eq, ℕ,
  ◌&&◌, ◌++◌, ◌==◌, ◌||◌, ◌∷◌,
}

-- `command_token_str`. `value` and `text` are never NULL: `command_push_arg` reads `*value`.
pub record Token : Type 0 where
  pub name : Option Bytes
  pub value : Bytes
  pub text : Bytes
  pub is_used : Bool

-- `command_str`; its `length` is that of `tokens`.
pub record Command : Type 0 where
  pub string : Bytes
  pub first : ℕ
  pub tokens : List Token

abbrev pub squote : ℕ
squote = 39

abbrev pub dquote : ℕ
dquote = 34

abbrev pub equals : ℕ
equals = 61

abbrev pub is_quote : ℕ → Bool
is_quote c = (c == dquote) || (c == squote)

-- `isalnum(c) || ispunct(c)` and `isspace(c)` in the C locale.
abbrev pub is_graph : ℕ → Bool
is_graph c = leb 33 c && leb c 126

abbrev pub is_space : ℕ → Bool
is_space c = (leb 9 c && leb c 13) || (c == 32)

-- `end = value + strlen(value) - 1; if(*end is a quote) *end = '\0'`
abbrev pub drop_last_quote : Bytes → Bytes
drop_last_quote [] = []
drop_last_quote (c ∷ []) = if is_quote c then [] else c ∷ []
drop_last_quote (c ∷ (d ∷ v)) = c ∷ drop_last_quote (d ∷ v)

abbrev pub unquote : Bytes → Bytes
unquote [] = []
unquote (c ∷ v) = if is_quote c then drop_last_quote v else c ∷ v

pub command_push_arg : Option Bytes → Bytes → Bytes → Token
command_push_arg name value text = record {
  name = name;
  value = unquote value;
  text = text;
  is_used = false;
}

-- `strchr(token, '=')`: what stands before the first `=`, and behind it.
abbrev pub split_equals : Bytes → Option (Bytes × Bytes)
split_equals [] = none
split_equals (c ∷ cs) =
    let rest = split_equals cs in
    if c == equals
    then some ([], cs)
    else (elim rest [ none ↦ none | some (a, b) ↦ some (c ∷ a, b) ])

-- `case 2` of the whitespace switch: "Token found"
pub token_found : Bytes → Token
unfolding command_push_arg
token_found w = elim (split_equals w) [
  | none ↦ command_push_arg none w w
  | some (name, value) ↦ command_push_arg (some name) value w
]

-- The states 0 to 4 of the scanner; 100 is the end of the recursion.
pub data State : Type 0 where
  initial whitespace token quote double_quote : State

-- The first switch, with its fall-through from `case 1` to `case 2`.
abbrev pub in_token : ℕ → State
in_token c = if c == squote then quote else if c == dquote then double_quote else token

abbrev pub graph_state : State → ℕ → State
graph_state initial c = in_token c
graph_state whitespace c = in_token c
graph_state token c = in_token c
graph_state quote c = if c == squote then token else quote
graph_state double_quote c = if c == dquote then token else double_quote

abbrev pub graph_start : State → Bytes → Bytes
graph_start initial w = []
graph_start whitespace w = []
graph_start s w = w

-- The second switch: the new state, the bytes from `start` on, and the token found.
abbrev pub space_step : State → Bytes → ℕ → State × Bytes × List Token
space_step initial w c = (whitespace, [], [])
space_step whitespace w c = (whitespace, [], [])
space_step token w c = (whitespace, [], token_found w ∷ [])
space_step s w c = (s, w ++ (c ∷ []), [])

-- One round of the loop at the byte `c`, with `w` the bytes from `start` up to `pos`.
pub scan_step : State → Bytes → ℕ → State × Bytes × List Token
scan_step s w c =
    if is_graph c
    then (graph_state s c, graph_start s w ++ (c ∷ []), [])
    else if is_space c
    then space_step s w c
    else (s, w ++ (c ∷ []), [])

-- the round at `'\0'`
pub scan_end : State → Bytes → List Token
scan_end token w = token_found w ∷ []
scan_end s w = []

pub scan : State → Bytes → Bytes → List Token
unfolding scan_step scan_end
scan s w [] = scan_end s w
scan s w (c ∷ cs) = let (s', w', found) = scan_step s w c in found ++ scan s' w' cs

-- "We do have command name in first token value"
abbrev pub first_of_tokens : List Token → ℕ
first_of_tokens [] = 0
first_of_tokens (t ∷ ts) = elim t.name [ none ↦ 1 | some _ ↦ 0 ]

unfoldable pub command_parse : Bytes → Command
unfolding scan token_found
command_parse s =
    let ts = scan initial [] s in record { string = s; first = first_of_tokens ts; tokens = ts }

unfoldable pub command_name : Command → Option Bytes
command_name c = elim c.tokens [
  | [] ↦ none
  | t ∷ ts ↦ (elim t.name [ none ↦ some t.value | some _ ↦ none ])
]

unfoldable pub command_match : Command → Option Bytes → Bool
command_match c none = false
command_match c (some cmdname) = not (length cmdname == 0) && (elim c.tokens [
  | [] ↦ false
  | t ∷ ts ↦ (elim t.name [ none ↦ str_eq cmdname t.value | some _ ↦ false ])
])
