-- ===== src/Utils/Select/Swaps.antt =====
-- The array of `quick_select` under swaps: what changes, where, and that nothing is lost.
use fast.Prelude.{
  Bool, Bool-cases, List, [], ap, arith, false, get_elem?, get_or, if◌then◌else◌, inl, inr, length,
  length-set, refl, set, some, suc, true, zero, ℕ, ◌+◌, ◌<◌, ◌==◌, ◌∙◌, ◌∷◌, ◌≡◌, ◌≤◌, ◌⊎◌,
}
use fast.Utils.Select.{elem_swap}

module _ {A : Type 0} (p : A → Bool) where
  abbrev pub one_if : A → ℕ
  one_if x = if p x then 1 else 0

  -- how many elements pass the test
  unfoldable pub how_many : List A → ℕ
  how_many [] = 0
  how_many (x ∷ xs) = one_if x + how_many xs

  how_many-set :
      (a : List A) (i : ℕ) (v z : A)
      → i < length a
      → how_many (set a i v) + one_if (get_or a i z) ≡ how_many a + one_if v
  unfolding how_many
  how_many-set [] i v z h = absurd (omega arith)
  how_many-set (x ∷ a) zero v z h = omega arith
  how_many-set (x ∷ a) (suc i) v z h = omega (arith, how_many-set a i v z (omega arith))

module _ {A : Type 0} (z : A) where
  -- an element of the array, and `z` past its end
  abbrev pub at : List A → ℕ → A
  at a i = get_or a i z

  pub get_elem?-at : (a : List A) (i : ℕ) → i < length a → get_elem? a i ≡ some (at a i)
  get_elem?-at [] i h = absurd (omega arith)
  get_elem?-at (x ∷ a) zero h = refl
  get_elem?-at (x ∷ a) (suc i) h = get_elem?-at a i (omega arith)

  at-set :
      (a : List A) (i j : ℕ) (v : A)
      → i < length a
      → at (set a i v) j ≡ (if i == j then v else at a j)
  at-set [] i j v h = absurd (omega arith)
  at-set (x ∷ a) zero zero v h = refl
  at-set (x ∷ a) zero (suc j) v h = ground arith
  at-set (x ∷ a) (suc i) zero v h = ground arith
  at-set (x ∷ a) (suc i) (suc j) v h = ground (arith, at-set a i j v)

  pub swapped : List A → ℕ → ℕ → List A
  swapped a i j = set (set a i (at a j)) j (at a i)

  pub length-swapped : (a : List A) (i j : ℕ) → length (swapped a i j) ≡ length a
  unfolding swapped
  length-swapped a i j = length-set (set a i (at a j)) j (at a i) ∙ length-set a i (at a j)

  pub at-swapped :
      (a : List A) (i j c : ℕ)
      → i < length a
      → j < length a
      → at (swapped a i j) c ≡ (if j == c then at a i else if i == c then at a j else at a c)
  unfolding swapped
  at-swapped a i j c h k =
      at-set (set a i (at a j)) j c (at a i) (omega (arith, length-set a i (at a j), k))
      ∙ ap (λ r. if j == c then at a i else r) (at-set a i c (at a j) h)

  pub elem_swap-swapped :
      (gt : A → A → Bool) (a : List A) (i j : ℕ)
      → i < length a
      → j < length a
      → elem_swap gt a i j ≡ some (swapped a i j)
  unfolding elem_swap swapped
  elem_swap-swapped gt a i j h k = ground (arith, get_elem?-at a i h, get_elem?-at a j k)

  how_many-swapped :
      (p : A → Bool) (a : List A) (i j : ℕ)
      → i < length a
      → j < length a
      → how_many p (swapped a i j) ≡ how_many p a
  unfolding swapped
  how_many-swapped p a i j h k =
      let b = set a i (at a j) in
      let there : at b j ≡ at a j = ground (arith, at-set a i j (at a j) h) in
      let first = how_many-set p a i (at a j) z h in
      let second = how_many-set p b j (at a i) z (omega (arith, length-set a i (at a j), k)) in
      omega (arith, first, second, ap (one_if p) there)

  -- The elements from `low` to `high` have changed places, and the others are where they were.
  pub record Shuffle (low high : ℕ) (a b : List A) : Type 0 where
    pub same_length : length b ≡ length a
    pub outside : (k : ℕ) → (k < low) ⊎ (high < k) → at b k ≡ at a k
    pub inside :
        (k : ℕ)
        → low ≤ k
        → k ≤ high
        → (from : ℕ) × (low ≤ from) × (from ≤ high) × (at b k ≡ at a from)
    pub counts : (p : A → Bool) → how_many p b ≡ how_many p a

  pub Shuffle-refl : (low high : ℕ) (a : List A) → Shuffle low high a a
  Shuffle-refl low high a = record {
    same_length = refl;
    outside = λ k h. refl;
    inside = λ k h l. (k, h, l, refl);
    counts = λ p. refl;
  }

  pub Shuffle-trans :
      {low high : ℕ} (a b c : List A)
      → Shuffle low high a b
      → Shuffle low high b c
      → Shuffle low high a c
  Shuffle-trans a b c s t = record {
    same_length = t.same_length ∙ s.same_length;
    outside = λ k h. t.outside k h ∙ s.outside k h;
    inside = λ k h l.
        let (m, hm, lm, e) = t.inside k h l in
        let (n, hn, ln, f) = s.inside m hm lm in (n, hn, ln, e ∙ f);
    counts = λ p. t.counts p ∙ s.counts p;
  }

  pub swapped-Shuffle :
      (low high : ℕ) (a : List A) (i j : ℕ)
      → high < length a
      → low ≤ i
      → i ≤ high
      → low ≤ j
      → j ≤ high
      → Shuffle low high a (swapped a i j)
  swapped-Shuffle low high a i j size li ih lj jh =
      let hi : i < length a = omega arith in
      let hj : j < length a = omega arith in
      record {
        same_length = length-swapped a i j;
        outside = λ k h. ground (arith, at-swapped a i j k hi hj);
        inside = λ k h l. elim (Bool-cases (j == k)) [
          | inl e ↦ (i, li, ih, ground (arith, at-swapped a i j k hi hj, e))
          | inr e ↦ elim (Bool-cases (i == k)) [
            | inl f ↦ (j, lj, jh, ground (arith, at-swapped a i j k hi hj, e, f))
            | inr f ↦ (k, h, l, ground (arith, at-swapped a i j k hi hj, e, f))
          ]
        ];
        counts = λ p. how_many-swapped p a i j hi hj;
      }

  pub every_other :
      (p : A → Bool) (a : List A) (k : ℕ)
      → ((i : ℕ) → k ≤ i → i < length a → p (at a i) ≡ false)
      → how_many p a ≤ k
  unfolding how_many
  every_other p [] k none_of = omega arith
  every_other p (x ∷ a) zero none_of = ground (
    arith,
    none_of 0 (omega arith) (omega arith),
    every_other p a 0 (λ i h l. none_of (suc i) (omega arith) (omega (arith, l))),
  )
  every_other p (x ∷ a) (suc k) none_of =
      let rest =
        every_other p a k (λ i h l. none_of (suc i) (omega (arith, h)) (omega (arith, l))) in
      elim (Bool-cases (p x)) [ inl e ↦ ground (arith, e, rest) | inr e ↦ ground (arith, e, rest) ]

  pub all_up_to :
      (p : A → Bool) (a : List A) (k : ℕ)
      → k < length a
      → ((i : ℕ) → i ≤ k → p (at a i) ≡ true)
      → k < how_many p a
  unfolding how_many
  all_up_to p [] k size all = absurd (omega arith)
  all_up_to p (x ∷ a) zero size all = ground (arith, all 0 (omega arith))
  all_up_to p (x ∷ a) (suc k) size all = ground (
    arith,
    all 0 (omega arith),
    all_up_to p a k (omega arith) (λ i h. all (suc i) (omega (arith, h))),
  )
