-- ===== src/Lists/Change.antt =====
-- What adding and deleting a cell do to a ring.
use fast.Prelude.{List, [], arith, false, subst, sym, ℕ, ◌++◌, ◌==◌, ◌∙◌, ◌∷◌, ◌≡◌}
use fast.Lists.{Cells, add_at_pos, del_from_list, init_list}
use fast.Lists.Ring.{
  Apart, Apart-append, Distinct, Linked, Linked-Same, Linked-at, Linked-last, Ring, Same,
  append-Apart, first_of-Apart, last_of, last_of-Apart,
}

-- A cell that is added.
module _ (s : Cells) (x : ℕ) where
  add-Same : (p : ℕ) → (p == x) ≡ false → Same s (add_at_pos s p x) p (s.next p) x
  unfolding add_at_pos
  add-Same p h = record {
    next = λ c k l. ground (arith, h, k, l);
    prev = λ c k l. ground (arith, h, k, l);
  }

  add_at-Linked :
      (a : ℕ) (zs : List ℕ) (b : ℕ)
      → (a == x) ≡ false
      → (b == x) ≡ false
      → Apart x zs
      → Apart a zs
      → Apart b zs
      → Distinct zs
      → Linked s a zs b
      → Linked (add_at_pos s a x) a (x ∷ zs) b
  unfolding Linked Apart Distinct add_at_pos
  add_at-Linked a [] b ax bx xz az bz d (h, k) = (
    ground (arith, ax),
    ground (arith, ax, bx, h),
    (ground (arith, ax, bx, h), ground (arith, ax, bx, h)),
  )
  add_at-Linked a (z ∷ zs) b ax bx (x1, x2) (a1, a2) (b1, b2) (d1, d2) (h, k, rest) = (
    ground (arith, ax),
    ground (arith, ax, x1, h),
    (
      ground (arith, ax, x1, h),
      ground (arith, ax, x1, h),
      Linked-Same s (add_at_pos s a x) a (s.next a) x z zs b (add-Same a ax) (ground (arith, a1))
          (ground (arith, x1)) a2 (subst (λ c. Apart c zs) (sym h) d1) x2 (ground (arith, b1, h)) bx
          rest,
    ),
  )

  pub add-Linked :
      (a : ℕ) (ys zs : List ℕ) (b : ℕ)
      → (a == x) ≡ false
      → (b == x) ≡ false
      → Apart x (ys ++ zs)
      → Apart a (ys ++ zs)
      → Apart b (ys ++ zs)
      → Distinct (ys ++ zs)
      → Linked s a (ys ++ zs) b
      → Linked (add_at_pos s (last_of a ys) x) a (ys ++ x ∷ zs) b
  unfolding Linked Apart Distinct last_of
  add-Linked a [] zs b ax bx xz az bz d r = add_at-Linked a zs b ax bx xz az bz d r
  add-Linked a (y ∷ ys) zs b ax bx (x1, x2) (a1, a2) (b1, b2) (d1, d2) (h, k, rest) =
      let (ay, az) = Apart-append a ys zs a2 in
      let (xy, xz) = Apart-append x ys zs x2 in
      let (yy, yz) = Apart-append y ys zs d1 in
      let p = last_of y ys in
      let (n, m) = Linked-last s y ys zs b rest in
      let px : (p == x) ≡ false = ground (arith, last_of-Apart x y ys x1 xy) in
      let same = add-Same p px in
      (
        same.next a (last_of-Apart a y ys a1 ay) ax ∙ h,
        same.prev y (ground (arith, n, first_of-Apart y b zs (ground (arith, b1)) yz))
              (ground (arith, x1))
            ∙ k,
        add-Linked y ys zs b (ground (arith, x1)) bx x2 d1 b2 d2 rest,
      )

-- A cell that is deleted.
module _ (s : Cells) (x : ℕ) where
  delete-Same : Same s (del_from_list s x) (s.prev x) (s.next x) x
  unfolding del_from_list
  delete-Same = record {
    next = λ c k l. ground (arith, k, l);
    prev = λ c k l. ground (arith, k, l);
  }

  delete_at-Linked :
      (a : ℕ) (zs : List ℕ) (b : ℕ)
      → (a == x) ≡ false
      → (b == x) ≡ false
      → Apart x zs
      → Apart a zs
      → Apart b zs
      → Distinct zs
      → Linked s a (x ∷ zs) b
      → Linked (del_from_list s x) a zs b
  unfolding Linked Apart Distinct del_from_list
  delete_at-Linked a [] b ax bx xz az bz d (h, k, l) =
      (ground (arith, ax, bx, h, k, l.0, l.1), ground (arith, ax, bx, h, k, l.0, l.1))
  delete_at-Linked a (z ∷ zs) b ax bx (x1, x2) (a1, a2) (b1, b2) (d1, d2) (h, k, l) =
      let (n, m, rest) : (s.next x ≡ z) × (s.prev z ≡ x) × Linked s z zs b = l in
      (
        ground (arith, ax, k, n),
        ground (arith, k, n, x1),
        Linked-Same s (del_from_list s x) (s.prev x) (s.next x) x z zs b delete-Same
            (ground (arith, a1, k)) (ground (arith, x1)) (subst (λ c. Apart c zs) (sym k) a2)
            (subst (λ c. Apart c zs) (sym n) d1) x2 (ground (arith, b1, n)) bx rest,
      )

  pub delete-Linked :
      (a : ℕ) (ys zs : List ℕ) (b : ℕ)
      → (a == x) ≡ false
      → (b == x) ≡ false
      → Apart x (ys ++ zs)
      → Apart a (ys ++ zs)
      → Apart b (ys ++ zs)
      → Distinct (ys ++ zs)
      → Linked s a (ys ++ x ∷ zs) b
      → Linked (del_from_list s x) a (ys ++ zs) b
  unfolding Linked Apart Distinct last_of
  delete-Linked a [] zs b ax bx xz az bz d r = delete_at-Linked a zs b ax bx xz az bz d r
  delete-Linked a (y ∷ ys) zs b ax bx (x1, x2) (a1, a2) (b1, b2) (d1, d2) (h, k, rest) =
      let (ay, az) = Apart-append a ys zs a2 in
      let (yy, yz) = Apart-append y ys zs d1 in
      let (n, m) = Linked-at s y ys x zs b rest in
      (
        delete-Same.next a (ground (arith, n, last_of-Apart a y ys a1 ay)) ax ∙ h,
        delete-Same.prev y (ground (arith, m, first_of-Apart y b zs (ground (arith, b1)) yz))
              (ground (arith, x1))
            ∙ k,
        delete-Linked y ys zs b (ground (arith, x1)) bx x2 d1 b2 d2 rest,
      )

Distinct-insert :
    (ys : List ℕ) (x : ℕ) (zs : List ℕ)
    → Apart x (ys ++ zs)
    → Distinct (ys ++ zs)
    → Distinct (ys ++ x ∷ zs)
unfolding Distinct Apart
Distinct-insert [] x zs a d = (a, d)
Distinct-insert (y ∷ ys) x zs (h, a) (b, d) =
    let (c, e) = Apart-append y ys zs b in
    (append-Apart y ys (x ∷ zs) c (ground (arith, h), e), Distinct-insert ys x zs a d)

-- What is distinct stays so without one of its elements, which is none of the others.
Distinct-delete :
    (ys : List ℕ) (x : ℕ) (zs : List ℕ)
    → Distinct (ys ++ x ∷ zs)
    → Apart x (ys ++ zs) × Distinct (ys ++ zs)
unfolding Distinct Apart
Distinct-delete [] x zs (a, d) = (a, d)
Distinct-delete (y ∷ ys) x zs (a, d) =
    let (c, (h, e)) : Apart y ys × (((y == x) ≡ false) × Apart y zs) =
      Apart-append y ys (x ∷ zs) a in
    let (f, g) = Distinct-delete ys x zs d in
    ((ground (arith, h), f), (append-Apart y ys zs c e, g))

pub init_list-Ring : (s : Cells) (l : ℕ) → Ring (init_list s l) l []
unfolding init_list Linked Apart Distinct
init_list-Ring s l = record { linked = (ground arith, ground arith); fresh = tt; distinct = tt }

-- A cell that is not in the ring can be added behind any of its cells.
pub add_at_pos-Ring :
    (s : Cells) (l x : ℕ) (ys zs : List ℕ)
    → (l == x) ≡ false
    → Apart x (ys ++ zs)
    → Ring s l (ys ++ zs)
    → Ring (add_at_pos s (last_of l ys) x) l (ys ++ x ∷ zs)
unfolding Apart
add_at_pos-Ring s l x ys zs lx a r =
    let (ly, lz) = Apart-append l ys zs r.fresh in
    record {
      linked = add-Linked s x l ys zs l lx lx a r.fresh r.fresh r.distinct r.linked;
      fresh = append-Apart l ys (x ∷ zs) ly (lx, lz);
      distinct = Distinct-insert ys x zs a r.distinct;
    }

pub del_from_list-Ring :
    (s : Cells) (l x : ℕ) (ys zs : List ℕ)
    → Ring s l (ys ++ x ∷ zs)
    → Ring (del_from_list s x) l (ys ++ zs)
unfolding Apart
del_from_list-Ring s l x ys zs r =
    let (ly, (lx, lz)) : Apart l ys × (((l == x) ≡ false) × Apart l zs) =
      Apart-append l ys (x ∷ zs) r.fresh in
    let (a, d) = Distinct-delete ys x zs r.distinct in
    let f = append-Apart l ys zs ly lz in
    record { linked = delete-Linked s x l ys zs l lx lx a f f d r.linked; fresh = f; distinct = d }
