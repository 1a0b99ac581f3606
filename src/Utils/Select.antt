-- ===== src/Utils/Select.antt =====
-- utils.c: `quick_select`, which finds the median of an array while it rearranges it, and the
-- functions that call it. `gt` is `>` of doubles. A read or a write past the end of the array has
-- no result, and neither has a loop whose fuel runs out.
pub mod Swaps
pub mod Scan
pub mod Partition
pub mod Round
pub mod Split
pub mod Narrow
pub mod Median
pub mod Tests
use fast.Prelude.{
  Bool, List, Option, false, get_elem?, if◌then◌else◌, leb, length, ltb, map, none, set, some, suc,
  true, zero, ℕ, ◌+◌, ◌-◌, ◌/◌, ◌==◌, ◌>>=◌,
}

module _ {A : Type 0} (gt : A → A → Bool) where
  -- `ELEM_SWAP(arr[i], arr[j])`
  pub elem_swap : List A → ℕ → ℕ → Option (List A)
  elem_swap arr i j = do x ← get_elem? arr i; y ← get_elem? arr j; some (set (set arr i y) j x)

  -- `if (arr[i] > arr[j]) ELEM_SWAP(arr[i], arr[j])`
  pub swap_if_gt : List A → ℕ → ℕ → Option (List A)
  unfolding elem_swap
  swap_if_gt arr i j = do
    x ← get_elem? arr i
    y ← get_elem? arr j
    if gt x y then elem_swap arr i j else some arr

  -- `do ll++; while (arr[low] > arr[ll])`
  pub scan_up : ℕ → List A → ℕ → ℕ → Option ℕ
  scan_up zero arr low ll = none
  scan_up (suc fuel) arr low ll = do
    x ← get_elem? arr low
    y ← get_elem? arr (ll + 1)
    elim (gt x y) [ true ↦ scan_up fuel arr low (ll + 1) | false ↦ some (ll + 1) ]

  -- `do hh--; while (arr[hh] > arr[low])`; below 0 is not in the array
  pub scan_down : ℕ → List A → ℕ → ℕ → Option ℕ
  scan_down fuel arr low zero = none
  scan_down zero arr low (suc hh) = none
  scan_down (suc fuel) arr low (suc hh) = do
    y ← get_elem? arr hh
    x ← get_elem? arr low
    elim (gt y x) [ true ↦ scan_down fuel arr low hh | false ↦ some hh ]

  -- "Nibble from each end towards middle, swapping items when stuck"
  pub nibble : ℕ → List A → ℕ → ℕ → ℕ → Option (List A × ℕ × ℕ)
  unfolding scan_up scan_down elem_swap
  nibble zero arr low ll hh = none
  nibble (suc fuel) arr low ll hh = do
    ll' ← scan_up (length arr) arr low ll
    hh' ← scan_down (length arr) arr low hh
    elim (ltb hh' ll') [
      | true ↦ some (arr, ll', hh')
      | false ↦ (do arr' ← elem_swap arr ll' hh'; nibble fuel arr' low ll' hh')
    ]

  -- "Find median of low, middle and high items; swap into position low", and "Swap low item (now in
  -- position middle) into position (low+1)"
  pub prepare : List A → ℕ → ℕ → Option (List A)
  unfolding swap_if_gt elem_swap
  prepare arr low high =
      let middle = (low + high) / 2 in
      (do
        a ← swap_if_gt arr middle high
        b ← swap_if_gt a low high
        c ← swap_if_gt b middle low
        elem_swap c middle (low + 1))

  -- A round of the outer loop on more than two elements: the array, and the partition.
  pub split : List A → ℕ → ℕ → Option (List A × ℕ × ℕ)
  unfolding prepare nibble elem_swap
  split arr low high = do
    a ← prepare arr low high
    (b, ll, hh) ← nibble (length arr) a low (low + 1) high
    c ← elem_swap b low hh
    some (c, ll, hh)

  -- The outer loop: the array and its median. Where hh is 0, hh - 1 is negative in the code and 0
  -- here; both end the loop, since low is not below it.
  pub select_loop : ℕ → List A → ℕ → ℕ → ℕ → Option (List A × A)
  unfolding split swap_if_gt
  select_loop zero arr low high median = none
  select_loop (suc fuel) arr low high median = elim (leb high low) [
    | true ↦ (get_elem? arr median >>= λ value. some (arr, value))
    | false ↦ elim (high == low + 1) [
      | true ↦ (do
        sorted ← swap_if_gt arr low high
        value ← get_elem? sorted median
        some (sorted, value))
      | false ↦ (do
        (arr', ll, hh) ← split arr low high
        select_loop fuel arr' (if leb hh median then ll else low)
            (if leb median hh then hh - 1 else high) median)
    ]
  ]

  pub quick_select : List A → Option (List A × A)
  unfolding select_loop
  quick_select arr = let high = length arr - 1 in select_loop (length arr + 1) arr 0 high (high / 2)

  -- The copy is thrown away. An empty array is read at 0.
  unfoldable pub get_median : List A → Option A
  unfolding quick_select
  get_median x = do first ← get_elem? x 0; (arr, value) ← quick_select x; some value

  -- `deviation value x` is `fabs(x - value)`; the second result is the median of the deviations.
  pub get_median_mad : (A → A → A) → List A → Option (A × A)
  unfolding quick_select
  get_median_mad deviation x = do
    first ← get_elem? x 0
    (arr, value) ← quick_select x
    (arr', mad) ← quick_select (map (deviation value) arr)
    some (value, mad)
