-- ===== src/Prelude/Format.antt =====
-- `%0Nd` of printf for a number that is not negative.
use fast.Prelude.{
  Bytes, [], false, length, ltb, replicate, suc, true, zero, ℕ, ◌%◌, ◌++◌, ◌+◌, ◌-◌, ◌/◌, ◌∷◌,
}

-- The decimal digits of a number below 10^f.
unfoldable pub decimal : ℕ → ℕ → Bytes
decimal zero n = []
decimal (suc f) n = elim (ltb n 10) [
  | true ↦ (48 + n) ∷ []
  | false ↦ decimal f (n / 10) ++ ((48 + n % 10) ∷ [])
]

abbrev pub pad : ℕ → Bytes → Bytes
pad width s = replicate (width - length s) 48 ++ s

-- An `int` has ten digits at most.
unfoldable pub format_padded : ℕ → ℕ → Bytes
unfolding decimal
format_padded width n = pad width (decimal 10 n)
