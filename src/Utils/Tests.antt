-- ===== src/Utils/Tests.antt =====
-- The check value of this checksum, and runs of its theorems.

use fast.Prelude.{codes, refl, some, ◌≡◌}
use fast.Utils.{crc8, make_binary_string}

crc8-check : crc8 (codes "123456789") ≡ 247
unfolding crc8
crc8-check = refl

binary-five : make_binary_string 5 ≡ some (codes "00000101")
unfolding make_binary_string
binary-five = refl
