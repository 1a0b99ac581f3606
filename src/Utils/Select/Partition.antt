-- ===== src/Utils/Select/Partition.antt =====
-- The swapping loop of `quick_select` parts the elements about the pivot, which stands at `low`.
use fast.Prelude.{
  Bool, Bool-cases, List, arith, false, inl, inr, length, ltb, some, suc, zero, ℕ, ◌+◌, ◌-◌, ◌<◌,
  ◌==◌, ◌≡◌, ◌≤◌,
}
use fast.Utils.Select.{nibble}
use fast.Utils.Select.Swaps.{
  Shuffle, Shuffle-refl, Shuffle-trans, at, at-swapped, elem_swap-swapped, length-swapped, swapped,
  swapped-Shuffle,
}
use fast.Utils.Select.Scan.{IsOrder, scan_down-Stops, scan_up-Stops}

module _ {A : Type 0} (gt : A → A → Bool) (order : IsOrder gt) (z : A) where
  -- From `low` to `l` nothing is above the pivot, and behind `h` to `high` nothing is below it.
  abbrev pub Lower : List A → ℕ → ℕ → Type 0
  Lower a low l = (i : ℕ) → low ≤ i → i < l → gt (at z a i) (at z a low) ≡ false

  abbrev pub Upper : List A → ℕ → ℕ → ℕ → Type 0
  Upper a low h high = (j : ℕ) → h < j → j ≤ high → gt (at z a low) (at z a j) ≡ false

  pub record Parted (a : List A) (low high l h : ℕ) : Type 0 where
    pub from : low ≤ h
    pub crossed : h < l
    pub inside : l ≤ high
    pub lower : Lower a low l
    pub upper : Upper a low h high

  module _ (a : List A) (low high l h : ℕ) (before : low < l) (meet : l ≤ h) (inside : h ≤ high)
      (size : high < length a) where
    abbrev traded : List A
    traded = swapped z a l h

    pivot_stays : at z traded low ≡ at z a low
    pivot_stays = ground (arith, at-swapped z a l h low (omega arith) (omega arith))

    traded-Lower : Lower a low l → gt (at z a h) (at z a low) ≡ false → Lower traded low (l + 1)
    traded-Lower lower small i from below =
        let here = at-swapped z a l h i (omega arith) (omega arith) in
        elim (Bool-cases (i == l)) [
          | inl e ↦ ground (arith, here, pivot_stays, e, small)
          | inr e ↦ ground (arith, here, pivot_stays, e, lower i from (ground (arith, e, below)))
        ]

    traded-Upper :
        Upper a low h high → gt (at z a low) (at z a l) ≡ false → Upper traded low (h - 1) high
    traded-Upper upper large j above to =
        let here = at-swapped z a l h j (omega arith) (omega arith) in
        elim (Bool-cases (j == h)) [
          | inl e ↦ ground (arith, here, pivot_stays, e, large)
          | inr e ↦ ground (arith, here, pivot_stays, e, upper j (ground (arith, e, above)) to)
        ]

  pub nibble-Parted :
      (fuel : ℕ) (a : List A) (low ll hh high : ℕ)
      → low < ll
      → ll < high
      → low < hh
      → hh ≤ high
      → high < length a
      → hh ≤ fuel
      → Lower a low (ll + 1)
      → Upper a low (hh - 1) high
      → (b : List A) × (l h : ℕ) × (nibble gt fuel a low ll hh ≡ some (b, l, h))
        × Parted b low high l h
        × Shuffle z (low + 1) high a b
  unfolding nibble
  nibble-Parted zero a low ll hh high p1 p2 p3 p4 size enough lower upper = absurd (omega arith)
  nibble-Parted (suc fuel) a low ll hh high p1 p2 p3 p4 size enough lower upper =
      let (l, run, q1, q2, passed, large) =
        scan_up-Stops gt order z (length a) a low ll high (omega arith) size p2 (omega arith)
          (upper high (omega arith) (omega arith)) in
      let (h, run', q3, q4, passed', small) =
        scan_down-Stops gt order z (length a) a low hh p3 (omega arith) (omega arith) in
      let lower' : Lower a low l = λ i from below. elim (Bool-cases (ltb ll i)) [
        | inl far ↦ passed i (ground (arith, far)) below
        | inr near ↦ lower i from (ground (arith, near))
      ] in
      let upper' : Upper a low h high = λ j above to. elim (Bool-cases (ltb j hh)) [
        | inl near ↦ passed' j above (ground (arith, near))
        | inr far ↦ upper j (ground (arith, far)) to
      ] in
      elim (Bool-cases (ltb h l)) [
        | inl done ↦ (
          a,
          l,
          h,
          ground (arith, run, run', done),
          record {
            from = q3;
            crossed = ground (arith, done);
            inside = q2;
            lower = lower';
            upper = upper';
          },
          Shuffle-refl z (low + 1) high a,
        )
        | inr more ↦
            let meet : l ≤ h = ground (arith, more) in
            let b = swapped z a l h in
            let swap =
              elem_swap-swapped z gt a l h (omega (arith, meet, q4, p4)) (omega (arith, q4, p4)) in
            let long = length-swapped z a l h in
            let (c, l', h', rest, parted, shuffle) =
              nibble-Parted fuel b low l h high (omega (arith, p1, q1))
                (omega (arith, meet, q4, p4)) (omega (arith, meet, q1, p1)) (omega (arith, q4, p4))
                (omega (arith, long)) (omega (arith, q4, enough))
                (traded-Lower a low high l h (omega (arith, p1, q1)) meet (omega (arith, q4, p4))
                  size lower' small)
                (traded-Upper a low high l h (omega (arith, p1, q1)) meet (omega (arith, q4, p4))
                  size upper' large) in
            (
              c,
              l',
              h',
              ground (arith, run, run', more, swap, rest),
              parted,
              Shuffle-trans z a (swapped z a l h) c
                  (swapped-Shuffle z (low + 1) high a l h size (omega (arith, p1, q1))
                    (omega (arith, meet, q4, p4)) (omega (arith, p1, q1, meet))
                    (omega (arith, q4, p4)))
                  shuffle,
            )
      ]
