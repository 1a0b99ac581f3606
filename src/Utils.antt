-- ===== src/Utils.antt =====
-- utils.c: the checksum and the text of the bits of a byte.
pub mod Select
pub mod Options
pub mod Hex
pub mod Numbers
pub mod Crc
pub mod Binary
mod Tests
use fast.Prelude.{
  Bytes, Option, [], codes, false, if◌then◌else◌, ltb, none, suc, true, zero, ℕ, ◌%◌, ◌*◌, ◌+◌, ◌/◌,
  ◌==◌, ◌∷◌,
}
use fast.Command.Render.{add_to_string}

-- `^` of two ints that are not negative, bit by bit.
pub xor_bits : ℕ → ℕ → ℕ → ℕ
xor_bits zero a b = 0
xor_bits (suc n) a b = (a + b) % 2 + 2 * xor_bits n (a / 2) (b / 2)

abbrev pub xor : ℕ → ℕ → ℕ
xor a b = xor_bits 31 a b

-- one round of the loop over the bits: `crc & 0x80 ? (crc << 1) ^ 0x31 : crc << 1`, as a byte
pub crc_shift : ℕ → ℕ
unfolding xor_bits
crc_shift crc = if (crc / 128) % 2 == 1 then xor (crc * 2) 49 % 256 else crc * 2 % 256

pub crc_shifts : ℕ → ℕ → ℕ
unfolding crc_shift
crc_shifts zero crc = crc
crc_shifts (suc n) crc = crc_shifts n (crc_shift crc)

-- the loop over the data
pub crc_loop : ℕ → Bytes → ℕ
unfolding crc_shifts xor_bits
crc_loop crc [] = crc
crc_loop crc (b ∷ bs) = crc_loop (crc_shifts 8 (xor crc b % 256)) bs

pub crc8 : Bytes → ℕ
unfolding crc_loop
crc8 bs = crc_loop 255 bs

-- `((x & z) == z) ? "1" : "0"` for a power of two
abbrev pub bit_text : ℕ → ℕ → Bytes
bit_text x z = if (x / z) % 2 == 1 then codes "1" else codes "0"

-- `for (z = 128; z > 0; z >>= 1)`, with fuel for the halvings of `z`
pub binary_loop : ℕ → ℕ → ℕ → Option Bytes → Option Bytes
unfolding add_to_string
binary_loop zero x z s = s
binary_loop (suc fuel) x z s = elim (ltb 0 z) [
  | false ↦ s
  | true ↦ binary_loop fuel x (z / 2) (add_to_string s (bit_text x z))
]

-- `none` would be NULL; 8 is the number of times that 128 can be halved before it is 0.
pub make_binary_string : ℕ → Option Bytes
unfolding binary_loop
make_binary_string x = binary_loop 8 x 128 none
