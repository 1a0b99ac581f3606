-- ===== src/Command/Args.antt =====
-- command.c: `command_args`, which matches the tokens of a command with the caller's patterns
-- `name=format`, first by name and then by position.
pub mod Named
pub mod Used
use fast.Prelude.{
  Bool, Bytes, List, Option, [], codes, drop, false, if◌then◌else◌, length, map, none, not, some,
  str_eq, take, true, ℕ, ◌&&◌, ◌++◌, ◌-◌, ◌||◌, ◌∷◌,
}
use fast.Command.{Command, Token, is_quote, split_equals}

-- What is stored through the caller's pointer: a new string, or what `sscanf(value, format)` reads.
pub data Assigned : Type 0 where
  string : Bytes → Assigned
  scanned : (value format : Bytes) → Assigned

-- One pattern of the variable arguments, split at its `=`.
pub record Pattern : Type 0 where
  pub name : Option Bytes
  pub format : Bytes

unfoldable pub pattern_parse : Bytes → Pattern
pattern_parse p = elim (split_equals p) [
  | none ↦ record { name = none; format = p }
  | some (name, format) ↦ record { name = some name; format = format }
]

-- the last byte of `c ∷ s`
abbrev pub last_byte : ℕ → Bytes → ℕ
last_byte c [] = c
last_byte c (d ∷ s) = last_byte d s

-- "Remove quotes around, if any": both ends are quotes, of either kind.
pub strip_quotes : Bytes → Bytes
strip_quotes [] = []
strip_quotes (c ∷ s) =
    if is_quote c && is_quote (last_byte c s) then take (length s - 1) s else c ∷ s

-- `by_position` is `pass == 1`.
unfoldable pub assign : Bool → Pattern → Token → Assigned
unfolding strip_quotes
assign by_position p t =
    if str_eq p.format (codes "%s")
    then string (strip_quotes (if by_position then t.text else t.value))
    else scanned t.value p.format

pub has_name : Pattern → Token → Bool
has_name p t = elim p.name [
  | none ↦ false
  | some n ↦ (elim t.name [ none ↦ false | some m ↦ str_eq m n ])
]

-- The inner loop over the tokens for one pattern that has no value yet.
pub match_pattern : Bool → Pattern → List Token → Option Assigned × List Token
unfolding assign has_name
match_pattern by_position p [] = (none, [])
match_pattern by_position p (t ∷ ts) =
    let (a, rest) = match_pattern by_position p ts in
    if not t.is_used && (by_position || has_name p t)
    then (some (assign by_position p t), record t { is_used = true } ∷ ts)
    else (a, t ∷ rest)

-- The first pass: each pattern in turn, by name.
pub pass_names : List Pattern → List Token → List (Option Assigned) × List Token
unfolding match_pattern
pass_names [] ts = ([], ts)
pass_names (p ∷ ps) ts =
    let (a, ts') = match_pattern false p ts in
    let (as', ts'') = pass_names ps ts' in (a ∷ as', ts'')

-- The second pass: a pattern that has its value (`arg_used`) is left alone.
pub pass_positions :
    List Pattern → List (Option Assigned) → List Token → List (Option Assigned) × List Token
unfolding match_pattern
pass_positions [] as' ts = (as', ts)
pass_positions (p ∷ ps) [] ts = ([], ts)
pass_positions (p ∷ ps) (some a ∷ as') ts =
    let (bs, ts') = pass_positions ps as' ts in (some a ∷ bs, ts')
pass_positions (p ∷ ps) (none ∷ as') ts =
    let (b, ts') = match_pattern true p ts in
    let (bs, ts'') = pass_positions ps as' ts' in (b ∷ bs, ts'')

-- "Reset used flag for tokens"
abbrev pub reset_used : List Token → List Token
reset_used [] = []
reset_used (t ∷ ts) = record t { is_used = false } ∷ reset_used ts

-- What is assigned through each pointer (`none` leaves it alone), and the command after the call.
unfoldable pub command_args : Command → List Bytes → List (Option Assigned) × Command
unfolding pattern_parse pass_names pass_positions
command_args c patterns =
    let ps = map pattern_parse patterns in
    let ts = reset_used c.tokens in
    let (named, ts') = pass_names ps (drop c.first ts) in
    let (all', ts'') = pass_positions ps named ts' in
    (all', record c { tokens = take c.first ts ++ ts'' })
