-- ===== src/Utils/Select/Scan.antt =====
-- The two inner loops of `quick_select` end inside the array.
use fast.Prelude.{
  Bool, Bool-cases, List, arith, false, inl, inr, length, some, suc, true, zero, ℕ, ◌+◌, ◌<◌, ◌==◌,
  ◌≡◌, ◌≤◌,
}
use fast.Utils.Select.{scan_down, scan_up}
use fast.Utils.Select.Swaps.{at, get_elem?-at}

-- `>` of numbers that are not NaN: x ≤ y is that x > y fails.
pub record IsOrder {A : Type 0} (gt : A → A → Bool) : Type 0 where
  pub asym : (x y : A) → gt x y ≡ true → gt y x ≡ false
  pub le_trans : (x y w : A) → gt x y ≡ false → gt y w ≡ false → gt x w ≡ false

module _ {A : Type 0} (gt : A → A → Bool) (order : IsOrder gt) (z : A) where
  pub le_refl : (x : A) → gt x x ≡ false
  le_refl x = elim (Bool-cases (gt x x)) [ inl e ↦ order.asym x x e | inr e ↦ e ]

  -- The scan stops at the first element that is not below the pivot; `high` has one.
  pub scan_up-Stops :
      (fuel : ℕ) (a : List A) (low ll high : ℕ)
      → low < length a
      → high < length a
      → ll < high
      → high ≤ fuel + ll
      → gt (at z a low) (at z a high) ≡ false
      → (ll' : ℕ) × (scan_up gt fuel a low ll ≡ some ll')
        × (ll < ll')
        × (ll' ≤ high)
        × ((i : ℕ) → ll < i → i < ll' → gt (at z a i) (at z a low) ≡ false)
        × (gt (at z a low) (at z a ll') ≡ false)
  unfolding scan_up
  scan_up-Stops zero a low ll high hl hh below enough guard = absurd (omega arith)
  scan_up-Stops (suc fuel) a low ll high hl hh below enough guard =
      let x = get_elem?-at z a low hl in
      let y = get_elem?-at z a (ll + 1) (omega arith) in
      elim (Bool-cases (gt (at z a low) (at z a (ll + 1)))) [
        | inr stop ↦ (
          ll + 1,
          ground (arith, x, y, stop),
          omega arith,
          omega arith,
          (λ i h k. absurd (omega (arith, h, k))),
          stop,
        )
        | inl more ↦ elim (Bool-cases (ll + 1 == high)) [
          | inl e ↦ absurd (ground (arith, e, more, guard))
          | inr e ↦
              let (l, run, up, inside, passed, stop) =
                scan_up-Stops fuel a low (ll + 1) high hl hh (ground (arith, e)) (omega arith)
                  guard in
              (
                l,
                ground (arith, x, y, more, run),
                omega arith,
                inside,
                (λ i h k. elim (Bool-cases (i == ll + 1)) [
                  | inl f ↦ ground (arith, f, order.asym (at z a low) (at z a (ll + 1)) more)
                  | inr f ↦ passed i (ground (arith, f, h)) k
                ]),
                stop,
              )
        ]
      ]

  -- The other scan stops at the first element that is not above the pivot, at the pivot at last.
  pub scan_down-Stops :
      (fuel : ℕ) (a : List A) (low hh : ℕ)
      → low < hh
      → hh ≤ length a
      → hh ≤ fuel + low
      → (hh' : ℕ) × (scan_down gt fuel a low hh ≡ some hh')
        × (low ≤ hh')
        × (hh' < hh)
        × ((j : ℕ) → hh' < j → j < hh → gt (at z a low) (at z a j) ≡ false)
        × (gt (at z a hh') (at z a low) ≡ false)
  unfolding scan_down
  scan_down-Stops fuel a low zero above size enough = absurd (omega arith)
  scan_down-Stops zero a low (suc hh) above size enough = absurd (omega arith)
  scan_down-Stops (suc fuel) a low (suc hh) above size enough =
      let x = get_elem?-at z a low (omega arith) in
      let y = get_elem?-at z a hh (omega arith) in
      elim (Bool-cases (gt (at z a hh) (at z a low))) [
        | inr stop ↦ (
          hh,
          ground (arith, x, y, stop),
          omega arith,
          omega arith,
          (λ j h k. absurd (omega (arith, h, k))),
          stop,
        )
        | inl more ↦ elim (Bool-cases (hh == low)) [
          | inl e ↦ absurd (ground (arith, e, more, le_refl (at z a low)))
          | inr e ↦
              let (l, run, from, down, passed, stop) =
                scan_down-Stops fuel a low hh (ground (arith, e)) (omega arith) (omega arith) in
              (
                l,
                ground (arith, x, y, more, run),
                from,
                omega arith,
                (λ j h k. elim (Bool-cases (j == hh)) [
                  | inl f ↦ ground (arith, f, order.asym (at z a hh) (at z a low) more)
                  | inr f ↦ passed j h (ground (arith, f, k))
                ]),
                stop,
              )
        ]
      ]
