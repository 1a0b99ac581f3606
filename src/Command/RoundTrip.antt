-- ===== src/Command/RoundTrip.antt =====
-- A command written from its arguments is parsed back into them.
use fast.Prelude.{
  All, All-snoc, Bytes, List, Option, [], ap, append-nil, ap₂, arith, false, if◌then◌else◌, map,
  none, refl, some, sym, true, ℕ, ◌++◌, ◌==◌, ◌∙◌, ◌∷◌, ◌≡◌, ◌≢◌,
}
use fast.Command.{
  State, Token, command_parse, command_push_arg, double_quote, drop_last_quote, equals, is_graph,
  is_quote, quote, split_equals, squote, token, token_found, unquote,
}
use fast.Command.Words.{closes, is_word, join, parse-join}

-- One argument as a client writes it: perhaps a name, and a value that is bare or in quotes.
pub record Argument : Type 0 where
  pub name : Option Bytes
  pub mark : Option ℕ
  pub value : Bytes

abbrev pub quoted : Option ℕ → Bytes → Bytes
quoted none v = v
quoted (some q) v = q ∷ (v ++ (q ∷ []))

pub write : Argument → Bytes
write a = elim a.name [
  | none ↦ quoted a.mark a.value
  | some n ↦ n ++ (equals ∷ quoted a.mark a.value)
]

-- the token that it stands for
pub argument_token : Argument → Token
unfolding write
argument_token a = record { name = a.name; value = a.value; text = write a; is_used = false }

-- A byte that means nothing to the scanner.
abbrev pub IsPlain : ℕ → Type 0
IsPlain c = (is_graph c ≡ true) × (is_quote c ≡ false)

abbrev pub NotEquals : ℕ → Type 0
NotEquals c = c ≢ equals

-- A bare value has no quotes and no white space; a quoted one has no quote of its own kind.
abbrev pub ValueOk : Option ℕ → Bytes → Type 0
ValueOk none v = All IsPlain v
ValueOk (some q) v = (is_quote q ≡ true) × All (λ c. c ≢ q) v

-- A name is plain and has no `=`; a value without a name has none either, and is not nothing.
abbrev pub NameOk : Option Bytes → Option ℕ → Bytes → Type 0
NameOk none none v = (v ≢ []) × All NotEquals v
NameOk none (some q) v = All NotEquals v
NameOk (some n) mark v = All IsPlain n × All NotEquals n

pub record IsWritable (a : Argument) : Type 0 where
  pub value_ok : ValueOk a.mark a.value
  pub name_ok : NameOk a.name a.mark a.value

split_equals-append :
    (n v : Bytes) → All NotEquals n → split_equals (n ++ (equals ∷ v)) ≡ some (n, v)
split_equals-append [] v h = refl
split_equals-append (c ∷ n) v h = ground (arith, split_equals-append n v h.1, h.0)

split_equals-none : (w : Bytes) → All NotEquals w → split_equals w ≡ none
split_equals-none [] h = refl
split_equals-none (c ∷ w) h = ground (arith, split_equals-none w h.1, h.0)

drop_last_quote-append :
    (q : ℕ) (v : Bytes) → is_quote q ≡ true → drop_last_quote (v ++ (q ∷ [])) ≡ v
drop_last_quote-append q [] h = rw h
drop_last_quote-append q (c ∷ []) h = rw h
drop_last_quote-append q (c ∷ (d ∷ v)) h = ap (λ t. c ∷ t) (drop_last_quote-append q (d ∷ v) h)

unquote-quoted : (mark : Option ℕ) (v : Bytes) → ValueOk mark v → unquote (quoted mark v) ≡ v
unquote-quoted none [] h = refl
unquote-quoted none (c ∷ v) h = rw h.0.1
unquote-quoted (some q) v h = rw h.0 (drop_last_quote-append q v h.0)

closes-plain : (w u : Bytes) → All IsPlain w → closes token (w ++ u) ≡ closes token u
unfolding closes
closes-plain [] u h = refl
closes-plain (c ∷ w) u h = ground (arith, closes-plain w u h.1, h.0)

quote_state : ℕ → State
quote_state q = if q == squote then quote else double_quote

closes-quoted :
    (q : ℕ) (v u : Bytes)
    → is_quote q ≡ true
    → All (λ c. c ≢ q) v
    → closes (quote_state q) (v ++ (q ∷ u)) ≡ closes token u
unfolding closes quote_state
closes-quoted q [] u h k = ground arith
closes-quoted q (c ∷ v) u h k = ground (arith, closes-quoted q v u h k.1, k.0)

closes-open :
    (q : ℕ) (u : Bytes) → is_quote q ≡ true → closes token (q ∷ u) ≡ closes (quote_state q) u
unfolding closes quote_state
closes-open q u e = ground arith

closes-value : (mark : Option ℕ) (v : Bytes) → ValueOk mark v → closes token (quoted mark v) ≡ true
unfolding closes
closes-value none v h = ap (closes token) (sym (append-nil v)) ∙ closes-plain v [] h
closes-value (some q) v h = closes-open q (v ++ (q ∷ [])) h.0 ∙ closes-quoted q v [] h.0 h.1

word_of_closes :
    (c : ℕ) (cs : Bytes)
    → is_graph c ≡ true
    → closes token (c ∷ cs) ≡ true
    → is_word (c ∷ cs) ≡ true
unfolding is_word
word_of_closes c cs h k = ground arith

write-is_word : (a : Argument) → IsWritable a → is_word (write a) ≡ true
unfolding write closes
write-is_word a ok = go a.name a.mark a.value ok.value_ok ok.name_ok
  where
    go :
        (name : Option Bytes) (mark : Option ℕ) (v : Bytes)
        → ValueOk mark v
        → NameOk name mark v
        → is_word (write (record { name = name; mark = mark; value = v })) ≡ true
    go none none [] h k = absurd (k.0 refl)
    go none none (c ∷ v) h k = word_of_closes c v h.0.0 (closes-value none (c ∷ v) h)
    go none (some q) v h k =
        word_of_closes q (v ++ (q ∷ [])) (ground (arith, h.0)) (closes-value (some q) v h)
    go (some []) mark v h k = word_of_closes equals (quoted mark v) refl (closes-value mark v h)
    go (some (c ∷ n)) mark v h k =
        word_of_closes c (n ++ (equals ∷ quoted mark v)) k.0.0.0
          (closes-plain (c ∷ n) (equals ∷ quoted mark v) k.0 ∙ closes-value mark v h)

found-value : (a : Argument) → IsWritable a → token_found (write a) ≡ argument_token a
unfolding token_found write argument_token
found-value a ok = go a.name a.mark a.value ok.value_ok ok.name_ok
  where
    plain-value :
        (mark : Option ℕ) (v : Bytes)
        → ValueOk mark v
        → NameOk none mark v
        → All NotEquals (quoted mark v)
    plain-value none v h k = k.1
    plain-value (some q) v h k =
        (ground (arith, h.0), All-snoc NotEquals v q k (ground (arith, h.0)))

    go :
        (name : Option Bytes) (mark : Option ℕ) (v : Bytes)
        → ValueOk mark v
        → NameOk name mark v
        → let a : Argument = record { name = name; mark = mark; value = v } in
          token_found (write a) ≡ argument_token a
    go none mark v h k =
        rw (split_equals-none (quoted mark v) (plain-value mark v h k), token_found)
          (rw (unquote-quoted mark v h, command_push_arg))
    go (some n) mark v h k =
        rw (split_equals-append n (quoted mark v) k.1, token_found)
          (rw (unquote-quoted mark v h, command_push_arg))

-- Whatever arguments a client writes, one space apart, with names that are plain and values that
-- are plain or in quotes of a kind they do not hold, `command_parse` gives one token for each, in
-- order, with that name, the value without its quotes, and the text as written.
pub parse-write :
    (as' : List Argument)
    → All IsWritable as'
    → (command_parse (join (map write as'))).tokens ≡ map argument_token as'
parse-write as' ok = parse-join (map write as') (words as' ok) ∙ found as' ok
  where
    words : (bs : List Argument) → All IsWritable bs → All (λ w. is_word w ≡ true) (map write bs)
    words [] ok = tt
    words (b ∷ bs) ok = (write-is_word b ok.0, words bs ok.1)

    found :
        (bs : List Argument)
        → All IsWritable bs
        → map token_found (map write bs) ≡ map argument_token bs
    found [] ok = refl
    found (b ∷ bs) ok = ap₂ ◌∷◌ (found-value b ok.0) (found bs ok.1)
