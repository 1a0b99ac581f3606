-- ===== src/Command/Args/Used.antt =====
-- `command_args` uses each token for one pattern at most.
use fast.Prelude.{
  Bool, Bytes, List, Option, [], ap, arith, drop, false, if◌then◌else◌, length, map, none, refl,
  some, suc, take, true, zero, ℕ, ◌++◌, ◌+◌, ◌∷◌, ◌≡◌,
}
use fast.Command.{Command, Token}
use fast.Command.Args.{
  Assigned, Pattern, command_args, match_pattern, pass_names, pass_positions, pattern_parse,
  reset_used,
}

abbrev pub count_used : List Token → ℕ
count_used [] = 0
count_used (t ∷ ts) = (if t.is_used then 1 else 0) + count_used ts

abbrev pub count_assigned : List (Option Assigned) → ℕ
count_assigned [] = 0
count_assigned (none ∷ as') = count_assigned as'
count_assigned (some a ∷ as') = suc (count_assigned as')

one : Option Assigned → ℕ
one a = count_assigned (a ∷ [])

match_pattern-used :
    (by : Bool) (p : Pattern) (ts : List Token)
    → count_used (match_pattern by p ts).1 ≡ count_used ts + one (match_pattern by p ts).0
unfolding match_pattern one
match_pattern-used by p [] = refl
match_pattern-used by p (t ∷ ts) = ground (arith, match_pattern-used by p ts)

count_assigned-cons :
    (a : Option Assigned) (as' : List (Option Assigned))
    → count_assigned (a ∷ as') ≡ one a + count_assigned as'
unfolding one
count_assigned-cons none as' = omega arith
count_assigned-cons (some a) as' = omega arith

pass_names-used :
    (ps : List Pattern) (ts : List Token)
    → count_used (pass_names ps ts).1 ≡ count_used ts + count_assigned (pass_names ps ts).0
unfolding pass_names
pass_names-used [] ts = omega arith
pass_names-used (p ∷ ps) ts = omega (
  arith,
  match_pattern-used false p ts,
  pass_names-used ps (match_pattern false p ts).1,
  count_assigned-cons (match_pattern false p ts).0 (pass_names ps (match_pattern false p ts).1).0,
)

pub length-pass_names :
    (ps : List Pattern) (ts : List Token) → length (pass_names ps ts).0 ≡ length ps
unfolding pass_names
length-pass_names [] ts = refl
length-pass_names (p ∷ ps) ts = ap suc (length-pass_names ps (match_pattern false p ts).1)

pass_positions-used :
    (ps : List Pattern) (as' : List (Option Assigned)) (ts : List Token)
    → length as' ≡ length ps
    → let (bs, us) = pass_positions ps as' ts in
      count_used us + count_assigned as' ≡ count_used ts + count_assigned bs
unfolding pass_positions
pass_positions-used [] as' ts e = refl
pass_positions-used (p ∷ ps) [] ts e = absurd (omega arith)
pass_positions-used (p ∷ ps) (some a ∷ as') ts e =
    omega (arith, pass_positions-used ps as' ts (omega arith))
pass_positions-used (p ∷ ps) (none ∷ as') ts e = omega (
  arith,
  match_pattern-used true p ts,
  pass_positions-used ps as' (match_pattern true p ts).1 (omega arith),
  count_assigned-cons (match_pattern true p ts).0
      (pass_positions ps as' (match_pattern true p ts).1).0,
)

count_used-reset : (ts : List Token) → count_used (reset_used ts) ≡ 0
count_used-reset [] = refl
count_used-reset (t ∷ ts) = omega (arith, count_used-reset ts)

count_used-split :
    (n : ℕ) (ts : List Token) → count_used (take n ts) + count_used (drop n ts) ≡ count_used ts
count_used-split zero ts = omega arith
count_used-split (suc n) [] = refl
count_used-split (suc n) (t ∷ ts) = omega (arith, count_used-split n ts)

count_used-append : (ts us : List Token) → count_used (ts ++ us) ≡ count_used ts + count_used us
count_used-append [] us = omega arith
count_used-append (t ∷ ts) us = omega (arith, count_used-append ts us)

-- After `command_args` as many tokens are marked as used as patterns have been given a value: no
-- token serves two patterns, and none is marked for nothing.
pub command_args-used :
    (c : Command) (patterns : List Bytes)
    → count_used (command_args c patterns).1.tokens ≡ count_assigned (command_args c patterns).0
unfolding command_args
command_args-used c patterns =
    let ts = reset_used c.tokens in
    let ps = map pattern_parse patterns in
    let (named, us) = pass_names ps (drop c.first ts) in
    let (all', vs) = pass_positions ps named us in
    omega (
      arith,
      count_used-reset c.tokens,
      count_used-split c.first ts,
      count_used-append (take c.first ts) vs,
      pass_names-used ps (drop c.first ts),
      pass_positions-used ps named us (length-pass_names ps (drop c.first ts)),
    )
