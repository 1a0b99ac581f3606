-- ===== src/Command/Args/Named.antt =====
-- A pattern with a name gets the first token of that name, wherever either stands.
use fast.Command.Args.Used.{length-pass_names}
use mathlib.Core.List.{map-append}
use fast.Prelude.{
  All, Bool, Bool-cases, Bytes, List, Option, [], ap, arith, drop, false, get_elem?, if◌then◌else◌,
  inl, inr, length, length-map, map, none, not, refl, some, str_eq, str_eq→eq, suc, sym, true, zero,
  ℕ, ◌&&◌, ◌++◌, ◌∙◌, ◌∷◌, ◌≡◌, ◌≢◌,
}
use fast.Command.{Command, Token}
use fast.Command.Args.{
  Assigned, Pattern, assign, command_args, has_name, match_pattern, pass_names, pass_positions,
  pattern_parse, reset_used,
}

abbrev pub named : Bytes → Token → Bool
named n t = elim t.name [ none ↦ false | some m ↦ str_eq m n ]

-- The first token of the name `n` that no pattern has used, and the first of all.
abbrev pub find_unused : Bytes → List Token → Option Token
find_unused n [] = none
find_unused n (t ∷ ts) =
    let rest = find_unused n ts in if not t.is_used && named n t then some t else rest

abbrev pub find_named : Bytes → List Token → Option Token
find_named n [] = none
find_named n (t ∷ ts) = let rest = find_named n ts in if named n t then some t else rest

names_apart :
    (p : Pattern) (n : Bytes) (t : Token)
    → p.name ≢ some n
    → has_name p t ≡ true
    → named n t ≡ false
unfolding has_name
names_apart p n t = go p.name t.name
  where
    go :
        (pn tn : Option Bytes)
        → pn ≢ some n
        → (elim pn [ none ↦ false | some k ↦ (elim tn [ none ↦ false | some m ↦ str_eq m k ]) ])
          ≡ true
        → (elim tn [ none ↦ false | some m ↦ str_eq m n ]) ≡ false
    go none tn h e = cc
    go (some k) none h e = cc
    go (some k) (some m) h e = elim (Bool-cases (str_eq m n)) [
      | inl r ↦ absurd (h (ap some (sym (str_eq→eq m k e) ∙ str_eq→eq m n r)))
      | inr r ↦ r
    ]

has_name-named : (p : Pattern) (n : Bytes) (t : Token) → p.name ≡ some n → has_name p t ≡ named n t
unfolding has_name
has_name-named p n t e = rw (e, has_name)

match_pattern-other :
    (p : Pattern) (n : Bytes) (ts : List Token)
    → p.name ≢ some n
    → find_unused n (match_pattern false p ts).1 ≡ find_unused n ts
unfolding match_pattern
match_pattern-other p n [] h = refl
match_pattern-other p n (t ∷ ts) h =
    ground (arith, match_pattern-other p n ts h, names_apart p n t h)

match_pattern_self :
    (p : Pattern) (n : Bytes) (ts : List Token) (t : Token)
    → p.name ≡ some n
    → find_unused n ts ≡ some t
    → (match_pattern false p ts).0 ≡ some (assign false p t)
unfolding match_pattern
match_pattern_self p n [] t e h = cc
match_pattern_self p n (u ∷ ts) t e h =
    ground (arith, match_pattern_self p n ts t e, has_name-named p n u e)

pass_names-named :
    (before after : List Pattern) (p : Pattern) (n : Bytes) (ts : List Token) (t : Token)
    → p.name ≡ some n
    → All (λ q. q.name ≢ some n) before
    → find_unused n ts ≡ some t
    → get_elem? (pass_names (before ++ (p ∷ after)) ts).0 (length before)
      ≡ some (some (assign false p t))
unfolding pass_names
pass_names-named [] after p n ts t e h f = ap some (match_pattern_self p n ts t e f)
pass_names-named (q ∷ before) after p n ts t e h f =
    pass_names-named before after p n (match_pattern false q ts).1 t e h.1
      (match_pattern-other q n ts h.0 ∙ f)

pass_positions-keeps :
    (ps : List Pattern) (as' : List (Option Assigned)) (ts : List Token) (i : ℕ) (a : Assigned)
    → length as' ≡ length ps
    → get_elem? as' i ≡ some (some a)
    → get_elem? (pass_positions ps as' ts).0 i ≡ some (some a)
unfolding pass_positions
pass_positions-keeps [] as' ts i a e h = h
pass_positions-keeps (p ∷ ps) [] ts i a e h = cc
pass_positions-keeps (p ∷ ps) (some b ∷ as') ts zero a e h = h
pass_positions-keeps (p ∷ ps) (some b ∷ as') ts (suc i) a e h =
    pass_positions-keeps ps as' ts i a (omega arith) h
pass_positions-keeps (p ∷ ps) (none ∷ as') ts zero a e h = cc
pass_positions-keeps (p ∷ ps) (none ∷ as') ts (suc i) a e h =
    pass_positions-keeps ps as' (match_pattern true p ts).1 i a (omega arith) h

find_unused-reset :
    (n : Bytes) (k : ℕ) (ts : List Token) (t : Token)
    → find_named n (drop k ts) ≡ some t
    → find_unused n (drop k (reset_used ts)) ≡ some (record t { is_used = false })
find_unused-reset n zero [] t e = cc
find_unused-reset n zero (u ∷ ts) t e = ground (arith, find_unused-reset n zero ts t)
find_unused-reset n (suc k) [] t e = cc
find_unused-reset n (suc k) (u ∷ ts) t e = find_unused-reset n k ts t e

-- Arguments may come in any order: the first parameter called `n` is given to the first pattern
-- called `n`, whatever stands around them, unless it is the command's own name.
pub command_args-named :
    (c : Command) (before after : List Bytes) (p n : Bytes) (t : Token)
    → (pattern_parse p).name ≡ some n
    → All (λ q. (pattern_parse q).name ≢ some n) before
    → find_named n (drop c.first c.tokens) ≡ some t
    → get_elem? (command_args c (before ++ (p ∷ after))).0 (length before)
      ≡ some (some (assign false (pattern_parse p) t))
unfolding command_args assign
command_args-named c before after p n t e h f =
    let ts = drop c.first (reset_used c.tokens) in
    let ps = map pattern_parse (before ++ (p ∷ after)) in
    let a = assign false (pattern_parse p) t in
    pass_positions-keeps ps (pass_names ps ts).0 (pass_names ps ts).1 (length before) a
      (length-pass_names ps ts) (passed ts (find_unused-reset n c.first c.tokens t f))
  where
    all_other :
        (qs : List Bytes)
        → All (λ q. (pattern_parse q).name ≢ some n) qs
        → All (λ q. q.name ≢ some n) (map pattern_parse qs)
    all_other [] k = tt
    all_other (q ∷ qs) k = (k.0, all_other qs k.1)

    passed :
        (ts : List Token)
        → find_unused n ts ≡ some (record t { is_used = false })
        → get_elem? (pass_names (map pattern_parse (before ++ (p ∷ after))) ts).0 (length before)
          ≡ some (some (assign false (pattern_parse p) t))
    passed ts g =
        rw (map-append, ← length-map pattern_parse before)
          (pass_names-named (map pattern_parse before) (map pattern_parse after) (pattern_parse p) n
            ts (record t { is_used = false }) e (all_other before h) g)
