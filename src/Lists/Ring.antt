-- ===== src/Lists/Ring.antt =====
-- When the cells of a store make up a list: a ring through the head, in both directions.
use fast.Prelude.{List, [], ap, arith, false, ℕ, ◌++◌, ◌==◌, ◌∙◌, ◌∷◌, ◌≡◌}
use fast.Lists.{Cells}

-- The last of `a` and the cells after it, and the first of some cells before `b`.
unfoldable pub last_of : ℕ → List ℕ → ℕ
last_of a [] = a
last_of a (x ∷ xs) = last_of x xs

unfoldable pub first_of : List ℕ → ℕ → ℕ
first_of [] b = b
first_of (x ∷ xs) b = x

-- From `a` through the cells `xs` to `b`, each cell points at the next one and back.
unfoldable pub Linked : Cells → ℕ → List ℕ → ℕ → Type 0
Linked s a [] b = (s.next a ≡ b) × (s.prev b ≡ a)
Linked s a (x ∷ xs) b = (s.next a ≡ x) × (s.prev x ≡ a) × Linked s x xs b

unfoldable pub Apart : ℕ → List ℕ → Type 0
Apart c [] = Unit
Apart c (x ∷ xs) = ((c == x) ≡ false) × Apart c xs

unfoldable pub Distinct : List ℕ → Type 0
Distinct [] = Unit
Distinct (x ∷ xs) = Apart x xs × Distinct xs

-- `xs` is what the list at `l` holds, in the order of foreach.
pub record Ring (s : Cells) (l : ℕ) (xs : List ℕ) : Type 0 where
  pub linked : Linked s l xs l
  pub fresh : Apart l xs
  pub distinct : Distinct xs

module _ (s : Cells) where
  pub Linked-at :
      (a : ℕ) (ys : List ℕ) (x : ℕ) (zs : List ℕ) (b : ℕ)
      → Linked s a (ys ++ x ∷ zs) b
      → (s.prev x ≡ last_of a ys) × (s.next x ≡ first_of zs b)
  unfolding Linked last_of first_of
  Linked-at a [] x [] b (p, q, r) = (q, r.0)
  Linked-at a [] x (z ∷ zs) b (p, q, r) = (q, r.0)
  Linked-at a (y ∷ ys) x zs b (p, q, rest) = Linked-at y ys x zs b rest

  pub Linked-last :
      (a : ℕ) (ys zs : List ℕ) (b : ℕ)
      → Linked s a (ys ++ zs) b
      → (s.next (last_of a ys) ≡ first_of zs b) × (s.prev (first_of zs b) ≡ last_of a ys)
  unfolding Linked last_of first_of
  Linked-last a [] [] b (p, q) = (p, q)
  Linked-last a [] (z ∷ zs) b (p, q, rest) = (p, q)
  Linked-last a (y ∷ ys) zs b (p, q, rest) = Linked-last y ys zs b rest

pub Apart-append : (c : ℕ) (ys zs : List ℕ) → Apart c (ys ++ zs) → Apart c ys × Apart c zs
unfolding Apart
Apart-append c [] zs h = (tt, h)
Apart-append c (y ∷ ys) zs (h, k) = let (l, m) = Apart-append c ys zs k in ((h, l), m)

pub append-Apart : (c : ℕ) (ys zs : List ℕ) → Apart c ys → Apart c zs → Apart c (ys ++ zs)
unfolding Apart
append-Apart c [] zs h k = k
append-Apart c (y ∷ ys) zs (h, l) k = (h, append-Apart c ys zs l k)

pub last_of-Apart :
    (c a : ℕ) (ys : List ℕ) → (c == a) ≡ false → Apart c ys → (c == last_of a ys) ≡ false
unfolding Apart last_of
last_of-Apart c a [] h k = h
last_of-Apart c a (y ∷ ys) h (k, l) = last_of-Apart c y ys k l

pub first_of-Apart :
    (c b : ℕ) (zs : List ℕ) → (c == b) ≡ false → Apart c zs → (c == first_of zs b) ≡ false
unfolding Apart first_of
first_of-Apart c b [] h k = h
first_of-Apart c b (z ∷ zs) h (k, l) = k

-- What a change of the store leaves alone: each `next` but those of `p` and `x`, and each `prev` but
-- those of `q` and `x`.
pub record Same (s t : Cells) (p q x : ℕ) : Type 0 where
  pub next : (c : ℕ) → (c == p) ≡ false → (c == x) ≡ false → t.next c ≡ s.next c
  pub prev : (c : ℕ) → (c == q) ≡ false → (c == x) ≡ false → t.prev c ≡ s.prev c

pub Linked-Same :
    (s t : Cells) (p q x a : ℕ) (xs : List ℕ) (b : ℕ)
    → Same s t p q x
    → (a == p) ≡ false
    → (a == x) ≡ false
    → Apart p xs
    → Apart q xs
    → Apart x xs
    → (b == q) ≡ false
    → (b == x) ≡ false
    → Linked s a xs b
    → Linked t a xs b
unfolding Linked Apart
Linked-Same s t p q x a [] b same ap ax p1 p2 p3 bq bx (h, k) =
    (same.next a ap ax ∙ h, same.prev b bq bx ∙ k)
Linked-Same s t p q x a (c ∷ cs) b same ap ax (p1, p2) (q1, q2) (x1, x2) bq bx (h, k, rest) = (
  same.next a ap ax ∙ h,
  same.prev c (ground (arith, q1)) (ground (arith, x1)) ∙ k,
  Linked-Same s t p q x c cs b same (ground (arith, p1)) (ground (arith, x1)) p2 q2 x2 bq bx rest,
)
