-- ===== src/Utils/Hex.antt =====
-- utils.c: the texts that show data in hexadecimal.
use fast.Prelude.{
  Bytes, Option, [], codes, false, if◌then◌else◌, length, ltb, none, replicate, some, suc, true,
  zero, ℕ, ◌%◌, ◌&&◌, ◌++◌, ◌+◌, ◌-◌, ◌/◌, ◌==◌, ◌||◌, ◌∷◌,
}
use fast.Command.Render.{add_to_string, shown}

-- a digit of `%X`
pub hex_digit : ℕ → ℕ
hex_digit n = if ltb n 10 then 48 + n else 55 + n

-- the digits of a number below 16 ^ f
pub hex_digits : ℕ → ℕ → Bytes
unfolding hex_digit
hex_digits zero n = []
hex_digits (suc f) n = elim (ltb n 16) [
  | true ↦ hex_digit n ∷ []
  | false ↦ hex_digits f (n / 16) ++ hex_digit (n % 16) ∷ []
]

-- `%0NX`; an `int` from 0 on has eight digits at most.
pub format_hex : ℕ → ℕ → Bytes
unfolding hex_digits
format_hex width n = let s = hex_digits 8 n in replicate (width - length s) 48 ++ s

-- `"%02X "`
pub byte_text : ℕ → Bytes
unfolding format_hex
byte_text value = format_hex 2 value ++ codes " "

-- `data[d] > 31`, where char is signed, and `"%c"` or a dot
pub signed_char_text : ℕ → Bytes
signed_char_text value = if ltb 31 value && ltb value 128 then value ∷ [] else codes "."

-- `value > 31`, where value is unsigned
pub char_text : ℕ → Bytes
char_text value = if ltb 31 value then value ∷ [] else codes "."

pub hex_loop : Bytes → Option Bytes → Option Bytes → Option Bytes × Option Bytes
unfolding byte_text signed_char_text add_to_string
hex_loop [] str chars = (str, chars)
hex_loop (value ∷ data') str chars =
    hex_loop data' (add_to_string str (byte_text value))
      (add_to_string chars (signed_char_text value))

-- none is NULL, for no data
pub make_hex_string : Bytes → Option Bytes
unfolding hex_loop add_to_string
make_hex_string content =
    let (str, chars) = hex_loop content none none in
    elim chars [ none ↦ str | some shown ↦ add_to_string str (codes "| " ++ shown) ]

-- The loop from d on. A line is shown after sixteen bytes and at the end; `chars` is not NULL there.
pub long_hex_loop : Bytes → ℕ → Option Bytes → Option Bytes → Option Bytes
unfolding byte_text char_text add_to_string format_hex
long_hex_loop [] d str chars = str
long_hex_loop (value ∷ content) d str chars =
    let start = if d % 16 == 0 then add_to_string str (format_hex 4 d ++ codes " : ") else str in
    let line = add_to_string start (byte_text value) in
    let shown = add_to_string chars (char_text value) in
    let ends = (d % 16 == 15) || (length content == 0) in
    let whole =
      if ends
      then (elim shown [
        | none ↦ line
        | some s ↦ add_to_string line (codes "| " ++ s ++ codes " " ++ 10 ∷ [])
      ])
      else line in
    long_hex_loop content (d + 1) whole (if ends then none else shown)

pub make_long_hex_string : Bytes → Option Bytes
unfolding long_hex_loop
make_long_hex_string content = long_hex_loop content 0 none none
