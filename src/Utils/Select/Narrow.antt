-- ===== src/Utils/Select/Narrow.antt =====
-- The outer loop of `quick_select` between two rounds.
use fast.Prelude.{
  Bool, Bool-cases, List, ap₂, arith, false, inl, inr, length, ltb, refl, ℕ, ◌+◌, ◌-◌, ◌<◌, ◌∙◌,
  ◌≡◌, ◌≤◌, ◌⊎◌,
}
use fast.Utils.Select.Swaps.{Shuffle, at}
use fast.Utils.Select.Scan.{IsOrder}
use fast.Utils.Select.Split.{Placed}

module _ {A : Type 0} (gt : A → A → Bool) (order : IsOrder gt) (z : A) where
  -- Nothing before `median` is above it, and nothing after it is below it.
  pub record Settled (a : List A) (median : ℕ) : Type 0 where
    pub before : (i : ℕ) → i < median → gt (at z a i) (at z a median) ≡ false
    pub after : (j : ℕ) → median < j → j < length a → gt (at z a median) (at z a j) ≡ false

  -- Between rounds: nothing before `low` is above what follows, nothing behind `high` is below what
  -- precedes, and the median is between them or settled.
  pub record Narrowed (a : List A) (low high median : ℕ) : Type 0 where
    pub left : (i j : ℕ) → i < low → low ≤ j → j < length a → gt (at z a i) (at z a j) ≡ false
    pub right : (i j : ℕ) → i ≤ high → high < j → j < length a → gt (at z a i) (at z a j) ≡ false
    pub found : ((low ≤ median) × (median ≤ high)) ⊎ ((median < low) × Settled a median)

  -- Where an element after a shuffle comes from.
  origin :
      {low high : ℕ} (a b : List A)
      → Shuffle z low high a b
      → (k : ℕ)
      → (from : ℕ) × (at z b k ≡ at z a from)
        × ((low ≤ k) × (k ≤ high) × (low ≤ from) × (from ≤ high) ⊎ (k ≡ from))
  origin {low} {high} a b s k = elim (Bool-cases (ltb k low)) [
    | inl e ↦ (k, s.outside k (inl (ground (arith, e))), inr refl)
    | inr e ↦ elim (Bool-cases (ltb high k)) [
      | inl f ↦ (k, s.outside k (inr (ground (arith, f))), inr refl)
      | inr f ↦
          let (from, p, q, same) = s.inside k (ground (arith, e)) (ground (arith, f)) in
          (from, same, inl (ground (arith, e), ground (arith, f), p, q))
    ]
  ]

  Settled-Shuffle :
      {low high : ℕ} (a b : List A) (median : ℕ)
      → high < length a
      → Shuffle z low high a b
      → median < low
      → Settled a median
      → Settled b median
  Settled-Shuffle {low} {high} a b median size s below t = record {
    before = λ i h.
        ap₂ gt (s.outside i (inl (omega arith))) (s.outside median (inl below)) ∙ t.before i h;
    after = λ j h l.
        let (from, same, where_from) = origin a b s j in
        ap₂ gt (s.outside median (inl below)) same
        ∙ t.after from
            (elim where_from [ inl p ↦ omega (arith, p, below) | inr p ↦ omega (arith, p, h) ])
            (elim where_from [
              | inl p ↦ omega (arith, p, size)
              | inr p ↦ omega (arith, p, l, s.same_length)
            ]);
  }

  pub Narrowed-Shuffle :
      {low high : ℕ} (a b : List A) (median : ℕ)
      → high < length a
      → Shuffle z low high a b
      → Narrowed a low high median
      → Narrowed b low high median
  Narrowed-Shuffle {low} {high} a b median size s t = record {
    left = λ i j h k l.
        let (from, same, where_from) = origin a b s j in
        ap₂ gt (s.outside i (inl h)) same
        ∙ t.left i from h
            (elim where_from [ inl p ↦ omega (arith, p) | inr p ↦ omega (arith, p, k) ])
            (elim where_from [
              | inl p ↦ omega (arith, p, size)
              | inr p ↦ omega (arith, p, l, s.same_length)
            ]);
    right = λ i j h k l.
        let (from, same, where_from) = origin a b s i in
        ap₂ gt same (s.outside j (inr k))
        ∙ t.right from j
            (elim where_from [ inl p ↦ omega (arith, p) | inr p ↦ omega (arith, p, h) ]) k
            (omega (arith, l, s.same_length));
    found = elim (t.found) [
      | inl p ↦ inl p
      | inr (below, settled) ↦ inr (below, Settled-Shuffle a b median size s below settled)
    ];
  }

  module _ (b : List A) (low high median l h : ℕ) (size : high < length b)
      (t : Narrowed b low high median) (p : Placed gt order z b low high l h) where
    pub inside : (low ≤ h) × (h < l) × (l ≤ high)
    inside = (p.from, p.crossed, p.inside)

    under : (i : ℕ) → i < l → gt (at z b i) (at z b h) ≡ false
    under i k = elim (Bool-cases (ltb i low)) [
      | inl e ↦ t.left i h (ground (arith, e)) p.from (omega (arith, inside, size))
      | inr e ↦ p.lower i (ground (arith, e)) k
    ]

    over : (j : ℕ) → h ≤ j → j < length b → gt (at z b h) (at z b j) ≡ false
    over j k m = elim (Bool-cases (ltb high j)) [
      | inl e ↦ t.right h j (omega (arith, inside)) (ground (arith, e)) m
      | inr e ↦ p.upper j k (ground (arith, e))
    ]

    across : (i j : ℕ) → i < l → h ≤ j → j < length b → gt (at z b i) (at z b j) ≡ false
    across i j k m n = order.le_trans (at z b i) (at z b h) (at z b j) (under i k) (over j m n)

    -- The median settles when it falls between the parts.
    between : h ≤ median → median < l → Settled b median
    between k m = record {
      before = λ i n. across i median (omega (arith, n, m)) k (omega (arith, m, inside, size));
      after = λ j n o. across median j m (omega (arith, n, k)) o;
    }

    pub go_right :
        h ≤ median
        → (high' : ℕ) → ((high' ≡ high) ⊎ ((median ≡ h) × (high' ≡ h - 1)))
        → Narrowed b l high' median
    go_right k high' sides = record {
      left = λ i j m n o. across i j m (omega (arith, n, inside)) o;
      right = λ i j m n o. elim sides [
        | inl e ↦ t.right i j (omega (arith, m, e)) (omega (arith, n, e)) o
        | inr (e, f) ↦ across i j (omega (arith, m, f, inside)) (omega (arith, n, f)) o
      ];
      found = elim (Bool-cases (ltb median l)) [
        | inl e ↦ inr (ground (arith, e), between k (ground (arith, e)))
        | inr e ↦ inl (
          ground (arith, e),
          elim (t.found) [
            | inl (m, n) ↦ elim sides [
              | inl f ↦ omega (arith, n, f)
              | inr (f, q) ↦ absurd (ground (arith, e, f, inside))
            ]
            | inr (m, q) ↦ absurd (omega (arith, m, inside, k))
          ],
        )
      ];
    }

    pub go_left : median < h → Narrowed b low (h - 1) median
    go_left k = record {
      left = λ i j m n o. t.left i j m n o;
      right = λ i j m n o. across i j (omega (arith, m, inside)) (omega (arith, n)) o;
      found = elim (t.found) [ inl (m, n) ↦ inl (m, omega (arith, k)) | inr q ↦ inr q ];
    }

  pub in_place :
      (a : List A) (low high median : ℕ)
      → median < length a
      → high ≤ low
      → Narrowed a low high median
      → Settled a median
  in_place a low high median size over t = elim (t.found) [
    | inl (p, q) ↦ record {
      before = λ i h. t.left i median (omega (arith, h, p, q, over)) p size;
      after = λ j h l. t.right median j q (omega (arith, h, over, p)) l;
    }
    | inr (below, settled) ↦ settled
  ]

  pub in_order :
      (b : List A) (low median : ℕ)
      → low + 1 < length b
      → gt (at z b low) (at z b (low + 1)) ≡ false
      → Narrowed b low (low + 1) median
      → Settled b median
  in_order b low median size sorted t = elim (t.found) [
    | inr (below, settled) ↦ settled
    | inl (p, q) ↦ record {
      before = λ i h. elim (Bool-cases (ltb i low)) [
        | inl e ↦ t.left i median (ground (arith, e)) p (omega (arith, q, size))
        | inr e ↦ ground (arith, e, h, p, q, sorted)
      ];
      after = λ j h l. elim (Bool-cases (ltb (low + 1) j)) [
        | inl e ↦ t.right median j q (ground (arith, e)) l
        | inr e ↦ ground (arith, e, h, p, q, sorted)
      ];
    }
  ]
