-- ===== src/Utils/Select/Split.antt =====
-- A round of `quick_select` places the elements from `low` to `high` about a pivot.
use fast.Prelude.{
  Bool, Bool-cases, List, arith, false, inl, inr, length, some, subst, ℕ, ◌+◌, ◌<◌, ◌==◌, ◌≡◌, ◌≤◌,
}
use fast.Utils.Select.{split}
use fast.Utils.Select.Swaps.{
  Shuffle, Shuffle-trans, at, at-swapped, elem_swap-swapped, swapped, swapped-Shuffle,
}
use fast.Utils.Select.Scan.{IsOrder, le_refl}
use fast.Utils.Select.Partition.{Parted, nibble-Parted}
use fast.Utils.Select.Round.{prepare-Ready}

module _ {A : Type 0} (gt : A → A → Bool) (order : IsOrder gt) (z : A) where
  widen :
      (low high : ℕ) (a b : List A)
      → low ≤ high
      → Shuffle z (low + 1) high a b
      → Shuffle z low high a b
  widen low high a b fits s = record {
    same_length = s.same_length;
    outside = λ k h. s.outside k (elim h [ inl l ↦ inl (omega (arith, l)) | inr l ↦ inr l ]);
    inside = λ k from to. elim (Bool-cases (k == low)) [
      | inl e ↦ (low, omega arith, fits, ground (arith, e, s.outside low (inl (omega arith))))
      | inr e ↦
          let (m, above, below, same) = s.inside k (ground (arith, e, from)) to in
          (m, omega (arith, above), below, same)
    ];
    counts = s.counts;
  }

  -- The pivot stands at `h`, nothing before `l` is above it, and nothing from `h` on is below it.
  pub record Placed (a : List A) (low high l h : ℕ) : Type 0 where
    pub from : low ≤ h
    pub crossed : h < l
    pub inside : l ≤ high
    pub lower : (i : ℕ) → low ≤ i → i < l → gt (at z a i) (at z a h) ≡ false
    pub upper : (j : ℕ) → h ≤ j → j ≤ high → gt (at z a h) (at z a j) ≡ false

  place :
      (a : List A) (low high l h : ℕ)
      → high < length a
      → Parted gt order z a low high l h
      → Placed (swapped z a low h) low high l h
  place a low high l h size p =
      let from = p.from in
      let crossed = p.crossed in
      let inside = p.inside in
      let value = λ (k : ℕ).
        at-swapped z a low h k (omega (arith, from, crossed, inside, size))
          (omega (arith, crossed, inside, size)) in
      let pivot : at z (swapped z a low h) h ≡ at z a low = ground (arith, value h) in
      record {
        from = from;
        crossed = crossed;
        inside = inside;
        lower = λ i above below. elim (Bool-cases (h == i)) [
          | inl e ↦ ground (arith, value i, e, pivot, le_refl gt order z (at z a low))
          | inr e ↦ elim (Bool-cases (low == i)) [
            | inl f ↦ ground (arith, value i, e, f, pivot, p.lower h from crossed)
            | inr f ↦ ground (arith, value i, e, f, pivot, p.lower i above below)
          ]
        ];
        upper = λ j above below. elim (Bool-cases (h == j)) [
          | inl e ↦ ground (arith, value j, e, pivot, le_refl gt order z (at z a low))
          | inr e ↦
              ground
                (arith, value j, e, pivot, from, above, p.upper j (ground (arith, e, above)) below)
        ];
      }

  -- What a round does: it ends, and the elements from `low` to `high` are placed about the pivot.
  pub split-Placed :
      (a : List A) (low high : ℕ)
      → low + 2 ≤ high
      → high < length a
      → (b : List A) × (l h : ℕ) × (split gt a low high ≡ some (b, l, h))
        × Shuffle z low high a b
        × Placed b low high l h
  unfolding split
  split-Placed a low high apart size =
      let (b, run1, s, above, below) = prepare-Ready gt order z a low high apart size in
      let long = s.same_length in
      let (c, l, h, run2, parted, t) =
        nibble-Parted gt order z (length b) b low (low + 1) high high (omega arith) (omega arith)
          (omega arith) (omega arith) (omega (arith, long, size)) (omega (arith, long, size))
          (λ i from to. elim (Bool-cases (i == low)) [
            | inl e ↦ ground (arith, e, le_refl gt order z (at z b low))
            | inr e ↦
                subst (λ k. gt (at z b k) (at z b low) ≡ false) (ground (arith, e, from, to)) below
          ])
          (λ j from to.
            subst (λ k. gt (at z b low) (at z b k) ≡ false) (omega (arith, from, to)) above) in
      let long' = t.same_length in
      let size' : high < length c = omega (arith, long, long', size) in
      let from = parted.from in
      let crossed = parted.crossed in
      let inside = parted.inside in
      let last =
        swapped-Shuffle z low high c low h size' (omega arith) (omega (arith, apart))
          (omega (arith, from)) (omega (arith, crossed, inside)) in
      let swap =
        elem_swap-swapped z gt c low h (omega (arith, size', apart))
          (omega (arith, size', crossed, inside)) in
      (
        swapped z c low h,
        l,
        h,
        ground (arith, run1, run2, swap),
        Shuffle-trans z a b (swapped z c low h) s (
            Shuffle-trans z b c (swapped z c low h) (widen low high b c (omega (arith, apart)) t)
              last),
        place c low high l h size' parted,
      )
