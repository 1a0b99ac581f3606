-- ===== src/Utils/Select/Tests.antt =====
-- `get_median` on whole numbers.
use fast.Prelude.{Bool, List, [], arith, ltb, not, refl, some, ℕ, ◌<◌, ◌∷◌, ◌≡◌, ◌≤◌}
use fast.Utils.Select.{get_median}
use fast.Utils.Select.Swaps.{how_many}
use fast.Utils.Select.Scan.{IsOrder}
use fast.Utils.Select.Median.{get_median-IsMedian}

abbrev gt : ℕ → ℕ → Bool
gt x y = ltb y x

gt-IsOrder : IsOrder gt
gt-IsOrder = record {
  asym = λ x y h. ground (arith, h);
  le_trans = λ x y w h k. ground (arith, h, k);
}

abbrev odd : List ℕ
odd = 5 ∷ 1 ∷ 4 ∷ 2 ∷ 3 ∷ []

median-odd : get_median gt odd ≡ some 3
unfolding get_median
median-odd = refl

median-even : get_median gt (9 ∷ 7 ∷ 8 ∷ 7 ∷ 1 ∷ 2 ∷ []) ≡ some 7
unfolding get_median
median-even = refl

get_median-IsMedian_example :
    (value : ℕ) × (get_median gt odd ≡ some value)
    × (how_many (λ y. gt value y) odd ≤ 2)
    × (2 < how_many (λ y. not (gt y value)) odd)
get_median-IsMedian_example = get_median-IsMedian gt gt-IsOrder odd (ground arith)
