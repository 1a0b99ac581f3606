-- ===== src/Utils/Binary.antt =====
-- The number that a binary text stands for.
use fast.Prelude.{
  Bytes, Option, [], ap, arith, length, none, refl, some, ℕ, ◌%◌, ◌*◌, ◌+◌, ◌-◌, ◌/◌, ◌∷◌, ◌≡◌,
}
use fast.Utils.{binary_loop, bit_text, make_binary_string}

-- The value of a text of `0` and `1`, the highest bit first, behind one of value `n`.
abbrev pub binary_value : ℕ → Bytes → ℕ
binary_value n [] = n
binary_value n (b ∷ bs) = binary_value (2 * n + (b - 48)) bs

abbrev pub text_of : Option Bytes → Bytes
text_of none = []
text_of (some s) = s

bit_text_lem : (x z : ℕ) → bit_text x z ≡ (48 + (x / z) % 2) ∷ []
bit_text_lem x z = ground arith

-- `v` in binary, by its remainders
digits_value :
    (v r7 r6 r5 r4 r3 r2 d7 d6 d5 d4 d3 d2 d1 d0 : ℕ)
    → v ≡ 128 * d7 + r7
    → r7 ≡ 64 * d6 + r6
    → r6 ≡ 32 * d5 + r5
    → r5 ≡ 16 * d4 + r4
    → r4 ≡ 8 * d3 + r3
    → r3 ≡ 4 * d2 + r2
    → r2 ≡ 2 * d1 + d0
    → 2 * (2 * (2 * (2 * (2 * (2 * (2 * (2 * 0 + d7) + d6) + d5) + d4) + d3) + d2) + d1) + d0 ≡ v
digits_value v r7 r6 r5 r4 r3 r2 d7 d6 d5 d4 d3 d2 d1 d0 e7 e6 e5 e4 e3 e2 e1 = omega arith

binary_value-digit :
    (n d : ℕ) (bs : Bytes) → binary_value n ((48 + d) ∷ bs) ≡ binary_value (2 * n + d) bs
binary_value-digit n d bs = ap (λ e. binary_value (2 * n + e) bs) (omega arith)

text_lem :
    (x : ℕ)
    → text_of (make_binary_string x)
      ≡ (48 + (x / 128) % 2)
        ∷ (48 + (x / 64) % 2)
        ∷ (48 + (x / 32) % 2)
        ∷ (48 + (x / 16) % 2)
        ∷ (48 + (x / 8) % 2)
        ∷ (48 + (x / 4) % 2)
        ∷ (48 + (x / 2) % 2)
        ∷ (48 + (x / 1) % 2)
        ∷ []
unfolding make_binary_string binary_loop
text_lem x = rw (
  bit_text_lem x 128,
  bit_text_lem x 64,
  bit_text_lem x 32,
  bit_text_lem x 16,
  bit_text_lem x 8,
  bit_text_lem x 4,
  bit_text_lem x 2,
  bit_text_lem x 1,
)

-- The text of a number is its low byte in binary, in eight digits.
pub make_binary_string_lem :
    (x : ℕ)
    → (binary_value 0 (text_of (make_binary_string x)) ≡ x % 256)
      × (length (text_of (make_binary_string x)) ≡ 8)
make_binary_string_lem x =
    rw
      (
        text_lem x,
        binary_value-digit,
        binary_value-digit,
        binary_value-digit,
        binary_value-digit,
        binary_value-digit,
        binary_value-digit,
        binary_value-digit,
        binary_value-digit,
      )
      (
        digits_value (x % 256) (x % 128) (x % 64) (x % 32) (x % 16) (x % 8) (x % 4) (x / 128 % 2)
            (x / 64 % 2) (x / 32 % 2) (x / 16 % 2) (x / 8 % 2) (x / 4 % 2) (x / 2 % 2) (x / 1 % 2)
            (omega arith) (omega arith) (omega arith) (omega arith) (omega arith) (omega arith)
            (omega arith),
        refl,
      )
