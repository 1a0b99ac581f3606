-- ===== src/Utils/Crc.antt =====
-- A message with its checksum behind it has checksum 0.
use fast.Prelude.{Bytes, [], arith, refl, suc, zero, ℕ, ◌%◌, ◌++◌, ◌/◌, ◌∷◌, ◌≡◌}
use fast.Utils.{crc8, crc_loop, crc_shift, crc_shifts, xor, xor_bits}

xor_self : (n a : ℕ) → xor_bits n a a ≡ 0
unfolding xor_bits
xor_self zero a = refl
xor_self (suc n) a = omega (arith, xor_self n (a / 2))

crc_loop-append :
    (crc : ℕ) (bs cs : Bytes) → crc_loop crc (bs ++ cs) ≡ crc_loop (crc_loop crc bs) cs
unfolding crc_loop
crc_loop-append crc [] cs = refl
crc_loop-append crc (b ∷ bs) cs = crc_loop-append (crc_shifts 8 (xor crc b % 256)) bs cs

crc_shifts-zero : (n : ℕ) → crc_shifts n 0 ≡ 0
unfolding crc_shifts crc_shift
crc_shifts-zero zero = refl
crc_shifts-zero (suc n) = crc_shifts-zero n

-- The checksum of any data with its own checksum as the last byte is 0.
pub crc8-append : (bs : Bytes) → crc8 (bs ++ (crc8 bs ∷ [])) ≡ 0
unfolding crc8 crc_loop
crc8-append bs =
    let crc = crc8 bs in rw (crc_loop-append 255 bs (crc ∷ []), xor_self 31 crc) (crc_shifts-zero 8)
