-- ===== src/Utils/Select/Median.antt =====
-- `quick_select` ends, and what it returns stands in the middle of the sorted array.
use fast.Prelude.{
  Bool, Bool-cases, List, [], ap, ap₂, arith, false, if◌then◌else◌, inl, inr, leb, length, not,
  refl, some, subst, suc, zero, ℕ, ◌+◌, ◌-◌, ◌/◌, ◌<◌, ◌==◌, ◌∙◌, ◌∷◌, ◌≡◌, ◌≤◌,
}
use fast.Utils.Select.{get_median, quick_select, select_loop, split}
use fast.Utils.Select.Swaps.{Shuffle, all_up_to, at, every_other, get_elem?-at, how_many}
use fast.Utils.Select.Scan.{IsOrder, le_refl}
use fast.Utils.Select.Round.{lo-hi, swap_if_gt-Ordered}
use fast.Utils.Select.Split.{split-Placed}
use fast.Utils.Select.Narrow.{
  Narrowed, Narrowed-Shuffle, Settled, go_left, go_right, in_order, in_place, inside,
}

module _ {A : Type 0} (gt : A → A → Bool) (order : IsOrder gt) (z : A) where
  -- What the loop returns: the same elements, with the median settled.
  pub record Selected (fuel : ℕ) (a : List A) (low high median : ℕ) (b : List A) : Type 0 where
    pub run : select_loop gt fuel a low high median ≡ some (b, at z b median)
    pub same_length : length b ≡ length a
    pub counts : (p : A → Bool) → how_many p b ≡ how_many p a
    pub settled : Settled gt order z b median

  select_two :
      (fuel : ℕ) (a : List A) (low median : ℕ)
      → low + 1 < length a
      → median < length a
      → Narrowed gt order z a low (low + 1) median
      → (b : List A) × Selected (suc fuel) a low (low + 1) median b
  unfolding select_loop
  select_two fuel a low median size size' t =
      let (b, run, o) =
        swap_if_gt-Ordered gt order z low (low + 1) a low (low + 1) size (omega arith) (omega arith)
          (omega arith) (omega arith) (ground arith) in
      let long = o.shuffle.same_length in
      let sorted : gt (at z b low) (at z b (low + 1)) ≡ false =
        ap₂ gt o.first o.second ∙ lo-hi gt order z (at z a low) (at z a (low + 1)) in
      (
        b,
        record {
          run = ground (arith, run, get_elem?-at z b median (omega (arith, long, size')));
          same_length = long;
          counts = o.shuffle.counts;
          settled =
              in_order gt order z b low median (omega (arith, long, size)) sorted
                (Narrowed-Shuffle gt order z a b median size (o.shuffle) t);
        },
      )

  onward :
      (fuel : ℕ) (a b c : List A) (low high median low' high' l h : ℕ)
      → low + 2 ≤ high
      → split gt a low high ≡ some (b, l, h)
      → Shuffle z low high a b
      → ((if leb h median then l else low) ≡ low')
        × ((if leb median h then h - 1 else high) ≡ high')
      → Selected fuel b low' high' median c
      → Selected (suc fuel) a low high median c
  unfolding select_loop
  onward fuel a b c low high median low' high' l h apart run s (e, f) r = record {
    run = ground (arith, apart, run, ap₂ (λ x y. select_loop gt fuel b x y median) e f, r.run);
    same_length = r.same_length ∙ s.same_length;
    counts = λ p. r.counts p ∙ s.counts p;
    settled = r.settled;
  }

  pub select_loop-Selected :
      (fuel : ℕ) (a : List A) (low high median : ℕ)
      → 0 < fuel
      → high < fuel + low
      → high < length a
      → median < length a
      → Narrowed gt order z a low high median
      → (b : List A) × Selected fuel a low high median b
  unfolding select_loop
  select_loop-Selected zero a low high median some_fuel enough size size' t = absurd (omega arith)
  select_loop-Selected (suc fuel) a low high median some_fuel enough size size' t =
      elim (Bool-cases (leb high low)) [
        | inl e ↦ (
          a,
          record {
            run = ground (arith, e, get_elem?-at z a median size');
            same_length = refl;
            counts = λ p. refl;
            settled = in_place gt order z a low high median size' (ground (arith, e)) t;
          },
        )
        | inr e ↦ elim (Bool-cases (high == low + 1)) [
          | inl f ↦
              subst (λ k. (b : List A) × Selected (suc fuel) a low k median b) (ground (arith, f))
                (select_two fuel a low median (ground (arith, f, size)) size'
                  (subst (λ k. Narrowed gt order z a low k median) (ground (arith, f)) t))
          | inr f ↦
              let apart : low + 2 ≤ high = ground (arith, e, f) in
              let (b, l, h, run, s, p) = split-Placed gt order z a low high apart size in
              let long = s.same_length in
              let size'' : high < length b = omega (arith, long, size) in
              let t' = Narrowed-Shuffle gt order z a b median size s t in
              let bounds = inside gt order z b low high median l h size'' t' p in
              elim (Bool-cases (leb h median)) [
                | inl m ↦ elim (Bool-cases (leb median h)) [
                  | inl n ↦
                      let (c, r) =
                        select_loop-Selected fuel b l (h - 1) median (omega (arith, apart, enough))
                          (omega (arith, bounds, enough, apart)) (omega (arith, bounds, size''))
                          (omega (arith, long, size'))
                          (go_right gt order z b low high median l h size'' t' p (ground (arith, m))
                            (h - 1) (inr (ground (arith, m, n), refl))) in
                      (
                        c,
                        onward fuel a b c low high median l (h - 1) l h apart run s
                            (ground (arith, m), ground (arith, n)) r,
                      )
                  | inr n ↦
                      let (c, r) =
                        select_loop-Selected fuel b l high median (omega (arith, apart, enough))
                          (omega (arith, bounds, enough, apart)) size'' (omega (arith, long, size'))
                          (go_right gt order z b low high median l h size'' t' p (ground (arith, m))
                            high (inl refl)) in
                      (
                        c,
                        onward fuel a b c low high median l high l h apart run s
                            (ground (arith, m), ground (arith, n)) r,
                      )
                ]
                | inr m ↦
                    let (c, r) =
                      select_loop-Selected fuel b low (h - 1) median (omega (arith, apart, enough))
                        (omega (arith, bounds, enough, apart)) (omega (arith, bounds, size''))
                        (omega (arith, long, size'))
                        (go_left gt order z b low high median l h size'' t' p
                          (ground (arith, m))) in
                    (
                      c,
                      onward fuel a b c low high median low (h - 1) l h apart run s
                          (ground (arith, m), ground (arith, m)) r,
                    )
              ]
        ]
      ]

-- Where there is an array to look at, and `>` orders its elements, `get_median` ends inside the array
-- with a value at the middle: at most (n - 1) / 2 elements are below it, and more than (n - 1) / 2 are
-- not above it.
pub get_median-IsMedian :
    {A : Type 0} (gt : A → A → Bool)
    → IsOrder gt
    → (x : List A) → 0 < length x
    → (value : A) × (get_median gt x ≡ some value)
      × (how_many (λ y. gt value y) x ≤ (length x - 1) / 2)
      × ((length x - 1) / 2 < how_many (λ y. not (gt y value)) x)
unfolding get_median quick_select
get_median-IsMedian gt order [] size = absurd (omega arith)
get_median-IsMedian gt order (z ∷ xs) size =
    let x = z ∷ xs in
    let high = length x - 1 in
    let median = high / 2 in
    let (b, r) =
      select_loop-Selected gt order z (length x + 1) x 0 high median (omega arith) (omega arith)
        (omega arith) (omega arith)
        record {
          left = λ i j h k l. absurd (omega (arith, h));
          right = λ i j h k l. absurd (omega (arith, k, l));
          found = inl (omega arith, omega arith);
        } in
    let long = r.same_length in
    let value = at z b median in
    (
      value,
      ground (arith, r.run),
      subst (λ n. n ≤ median) (r.counts (λ y. gt value y))
          (every_other z (λ y. gt value y) b median
            (λ i h l. elim (Bool-cases (i == median)) [
              | inl e ↦ ground (arith, e, le_refl gt order z value)
              | inr e ↦ r.settled.after i (ground (arith, e, h)) l
            ])),
      subst (λ n. median < n) (r.counts (λ y. not (gt y value)))
          (all_up_to z (λ y. not (gt y value)) b median (omega (arith, long))
            (λ i h. ap not {y = false} (elim (Bool-cases (i == median)) [
              | inl e ↦ ground (arith, e, le_refl gt order z value)
              | inr e ↦ r.settled.before i (ground (arith, e, h))
            ]))),
    )
