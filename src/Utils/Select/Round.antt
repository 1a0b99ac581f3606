-- ===== src/Utils/Select/Round.antt =====
-- `prepare`: the median of the first, the middle and the last element goes to `low`, the smallest to
-- `low + 1` and the largest to `high`.

use fast.Prelude.{
  Bool, Bool-cases, List, ap₂, arith, false, if◌then◌else◌, inl, inr, length, refl, some, ℕ, ◌+◌,
  ◌/◌, ◌<◌, ◌==◌, ◌∙◌, ◌≡◌, ◌≤◌,
}
use fast.Utils.Select.{elem_swap, prepare, swap_if_gt}
use fast.Utils.Select.Swaps.{
  Shuffle, Shuffle-refl, Shuffle-trans, at, at-swapped, elem_swap-swapped, get_elem?-at, swapped,
  swapped-Shuffle,
}
use fast.Utils.Select.Scan.{IsOrder}

module _ {A : Type 0} (gt : A → A → Bool) (order : IsOrder gt) (z : A) where
  -- the smaller and the larger of two
  abbrev pub lo : A → A → A
  lo x y = if gt x y then y else x

  abbrev pub hi : A → A → A
  hi x y = if gt x y then x else y

  pub lo-hi : (x y : A) → gt (lo x y) (hi x y) ≡ false
  lo-hi x y = elim (Bool-cases (gt x y)) [
    | inl e ↦ ground (arith, e, order.asym x y e)
    | inr e ↦ ground (arith, e)
  ]

  -- The two places are in order afterwards, and no other place has changed.
  pub record Ordered (low high : ℕ) (a : List A) (i j : ℕ) (b : List A) : Type 0 where
    pub shuffle : Shuffle z low high a b
    pub first : at z b i ≡ lo (at z a i) (at z a j)
    pub second : at z b j ≡ hi (at z a i) (at z a j)
    pub other : (k : ℕ) → (k == i) ≡ false → (k == j) ≡ false → at z b k ≡ at z a k

  pub swap_if_gt-Ordered :
      (low high : ℕ) (a : List A) (i j : ℕ)
      → high < length a
      → low ≤ i
      → i ≤ high
      → low ≤ j
      → j ≤ high
      → (i == j) ≡ false
      → (b : List A) × (swap_if_gt gt a i j ≡ some b) × Ordered low high a i j b
  unfolding swap_if_gt
  swap_if_gt-Ordered low high a i j size li ih lj jh differ =
      let x = get_elem?-at z a i (omega arith) in
      let y = get_elem?-at z a j (omega arith) in
      elim (Bool-cases (gt (at z a i) (at z a j))) [
        | inr e ↦ (
          a,
          ground (arith, x, y, e),
          record {
            shuffle = Shuffle-refl z low high a;
            first = ground (arith, e);
            second = ground (arith, e);
            other = λ k h l. refl;
          },
        )
        | inl e ↦
            let value = λ (k : ℕ). at-swapped z a i j k (omega arith) (omega arith) in
            (
              swapped z a i j,
              ground (arith, x, y, e, elem_swap-swapped z gt a i j (omega arith) (omega arith)),
              record {
                shuffle = swapped-Shuffle z low high a i j size li ih lj jh;
                first = ground (arith, e, value i, differ);
                second = ground (arith, e, value j);
                other = λ k h l. ground (arith, value k, h, l);
              },
            )
      ]

  -- What the three exchanges of `prepare` leave at `middle`, `low` and `high`.
  median_of_three :
      (x y w : A)
      → let y1 = lo y w in
        let w1 = hi y w in
        let x2 = lo x w1 in (gt (hi y1 x2) (hi x w1) ≡ false) × (gt (lo y1 x2) (hi y1 x2) ≡ false)
  median_of_three x y w =
      let y1 = lo y w in
      let w1 = hi y w in
      let x2 = lo x w1 in
      (
        elim (Bool-cases (gt y1 x2)) [
          | inr e ↦ ground (arith, e, lo-hi x w1)
          | inl e ↦ elim (Bool-cases (gt x w1)) [
            | inr f ↦ ground (arith, e, f, lo-hi y w)
            | inl f ↦ ground (arith, e, f, order.le_trans y1 w1 x (lo-hi y w) (order.asym x w1 f))
          ]
        ],
        lo-hi y1 x2,
      )

  module _ (a b c d : List A) (low middle high : ℕ) (left : low < middle) (right : middle < high)
      (s : Ordered low high a middle high b) (t : Ordered low high b low high c)
      (u : Ordered low high c middle low d) where
    abbrev x : A
    x = at z a low

    abbrev w1 : A
    w1 = hi (at z a middle) (at z a high)

    abbrev y1 : A
    y1 = lo (at z a middle) (at z a high)

    at_low : at z c low ≡ lo x w1
    at_low =
        t.first ∙ ap₂ lo (s.other low (ground (arith, left)) (ground (arith, left, right))) s.second

    at_middle : at z c middle ≡ y1
    at_middle = t.other middle (ground (arith, left)) (ground (arith, right)) ∙ s.first

    at_high : at z d high ≡ hi x w1
    at_high =
        u.other high (ground (arith, right)) (ground (arith, left, right))
        ∙ t.second
        ∙ ap₂ hi (s.other low (ground (arith, left)) (ground (arith, left, right))) s.second

    sorted_three :
        (gt (at z d low) (at z d high) ≡ false) × (gt (at z d middle) (at z d low) ≡ false)
    sorted_three =
        let (first, second) = median_of_three x (at z a middle) (at z a high) in
        (
          ap₂ gt (u.second ∙ ap₂ hi at_middle at_low) at_high ∙ first,
          ap₂ gt (u.first ∙ ap₂ lo at_middle at_low) (u.second ∙ ap₂ hi at_middle at_low) ∙ second,
        )

  swap_middle :
      (d : List A) (low middle high : ℕ)
      → low < middle
      → middle < high
      → high < length d
      → (gt (at z d low) (at z d high) ≡ false) × (gt (at z d middle) (at z d low) ≡ false)
      → (e : List A) × (elem_swap gt d middle (low + 1) ≡ some e)
        × Shuffle z low high d e
        × (gt (at z e low) (at z e high) ≡ false)
        × (gt (at z e (low + 1)) (at z e low) ≡ false)
  swap_middle d low middle high left right size (first, second) =
      let value = λ (k : ℕ). at-swapped z d middle (low + 1) k (omega arith) (omega arith) in
      let at_low : at z (swapped z d middle (low + 1)) low ≡ at z d low =
        ground (arith, value low, left) in
      let at_high : at z (swapped z d middle (low + 1)) high ≡ at z d high =
        ground (arith, value high, left, right) in
      (
        swapped z d middle (low + 1),
        elem_swap-swapped z gt d middle (low + 1) (omega arith) (omega arith),
        swapped-Shuffle z low high d middle (low + 1) size (omega arith) (omega arith) (omega arith)
            (omega arith),
        ap₂ gt at_low at_high ∙ first,
        ap₂ gt (ground (arith, value (low + 1))) at_low ∙ second,
      )

  pub prepare-Ready :
      (a : List A) (low high : ℕ)
      → low + 2 ≤ high
      → high < length a
      → (b : List A) × (prepare gt a low high ≡ some b)
        × Shuffle z low high a b
        × (gt (at z b low) (at z b high) ≡ false)
        × (gt (at z b (low + 1)) (at z b low) ≡ false)
  unfolding prepare
  prepare-Ready a low high apart size =
      let middle = (low + high) / 2 in
      let p1 : low < middle = omega arith in
      let p2 : middle < high = omega arith in
      let (b, run1, s) =
        swap_if_gt-Ordered low high a middle high size (omega arith) (omega arith) (omega arith)
          (omega arith) (ground (arith, p2)) in
      let long = s.shuffle.same_length in
      let (c, run2, t) =
        swap_if_gt-Ordered low high b low high (omega (arith, long, size)) (omega arith)
          (omega arith) (omega arith) (omega arith) (ground (arith, p1, p2)) in
      let long' = t.shuffle.same_length in
      let (d, run3, u) =
        swap_if_gt-Ordered low high c middle low (omega (arith, long, long', size)) (omega arith)
          (omega arith) (omega arith) (omega arith) (ground (arith, p1)) in
      let (e, run4, v, first, second) =
        swap_middle d low middle high p1 p2
          (omega (arith, u.shuffle.same_length, long, long', size))
          (sorted_three a b c d low middle high p1 p2 s t u) in
      (
        e,
        ground (run1, run2, run3, run4, arith),
        Shuffle-trans z a b e s.shuffle
            (Shuffle-trans z b c e t.shuffle (Shuffle-trans z c d e u.shuffle v)),
        first,
        second,
      )
