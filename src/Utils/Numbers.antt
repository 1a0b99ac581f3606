-- ===== src/Utils/Numbers.antt =====
-- utils.c: small functions of doubles, whose arithmetic is a parameter.
use fast.Prelude.{List, Option, [], get_elem?, if◌then◌else◌, length, ℕ, ◌∷◌}
use fast.Prelude.Int.{ltb_ℤ, negsuc, pos, pos_part, ℤ, ◌-ℤ◌}
use fast.Image.{Doubles}

module _ (numbers : Doubles) (sqrt : numbers.Double → numbers.Double)
    (floor : numbers.Double → ℤ) where
  open numbers use {
    Double, zero_double, of_uint16, of_int, add_double, sub_double, mul_double, div_double,
    ltb_double,
  }

  -- `mod`
  pub modulo : Double → Double → Double
  modulo x y = let k = floor (div_double x y) in sub_double x (mul_double (of_int k) y)

  pub sign : Double → Double
  sign x =
      if ltb_double zero_double x
      then of_int (pos 1)
      else if ltb_double x zero_double
      then of_int (negsuc 0)
      else of_int (pos 0)

  -- the sums of the elements and of their squares
  pub mean_loop : List Double → Double → Double → Double × Double
  mean_loop [] sum sum2 = (sum, sum2)
  mean_loop (x ∷ xs) sum sum2 = mean_loop xs (add_double sum x) (add_double sum2 (mul_double x x))

  -- the mean, and what is stored through sd_ptr
  pub get_mean : List Double → Double × Double
  unfolding mean_loop
  get_mean x =
      let n = of_int (pos (length x)) in
      let (sum, sum2) = mean_loop x zero_double zero_double in
      (
        div_double sum n,
        sqrt (
            div_double (sub_double sum2 (div_double (mul_double sum sum) n))
              (of_int (pos (length x) -ℤ pos 1))),
      )

  -- `MAX(0, MIN(N - 1, i))`
  pub quantile_index : ℕ → ℤ → ℕ
  quantile_index n i = pos_part (if ltb_ℤ (pos n -ℤ pos 1) i then pos n -ℤ pos 1 else i)

  -- `sorted` is `qsort` with compare_double_fn.
  pub get_quantile : (List Double → List Double) → List Double → Double → Option Double
  unfolding quantile_index
  get_quantile sorted x p =
      get_elem? (sorted x)
        (quantile_index (length x) (floor (mul_double p (of_int (pos (length x))))))
