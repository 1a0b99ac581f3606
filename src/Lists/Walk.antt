-- ===== src/Lists/Walk.antt =====
-- The walks over a ring: they end, and meet each of its cells once.
use fast.Prelude.{
  Bool, Bool-cases, List, [], ap, append-nil, append_assoc, arith, false, if◌then◌else◌, inl, inr,
  length, not, some, subst, suc, sym, zero, ℕ, ◌++◌, ◌+◌, ◌-◌, ◌<◌, ◌==◌, ◌∙◌, ◌∷◌, ◌≡◌,
}
use fast.Lists.{
  Cells, del_from_list, foreach, foreach_delete, foreachback, free_list, length_loop, list_length,
}
use fast.Lists.Ring.{Apart, Apart-append, Linked, Linked-at, Linked-last, Ring, first_of, last_of}
use fast.Lists.Change.{del_from_list-Ring}

pub backwards : List ℕ → List ℕ
backwards [] = []
backwards (x ∷ xs) = backwards xs ++ x ∷ []

-- The cells that pass a test, in order.
unfoldable pub passing : (ℕ → Bool) → List ℕ → List ℕ
passing test [] = []
passing test (x ∷ xs) = if test x then x ∷ passing test xs else passing test xs

module _ (s : Cells) (l : ℕ) where
  foreach-Linked :
      (fuel a : ℕ) (xs : List ℕ)
      → length xs < fuel
      → Apart l xs
      → Linked s a xs l
      → foreach fuel s l (s.next a) ≡ some xs
  unfolding foreach Linked Apart
  foreach-Linked zero a xs enough fresh r = absurd (omega arith)
  foreach-Linked (suc fuel) a [] enough fresh (h, k) = ground (arith, h)
  foreach-Linked (suc fuel) a (x ∷ xs) enough (lx, fresh) (h, k, rest) =
      ground (arith, h, lx, foreach-Linked fuel x xs (omega arith) fresh rest)

  length_loop-Linked :
      (fuel a n : ℕ) (xs : List ℕ)
      → length xs < fuel
      → Apart l xs
      → Linked s a xs l
      → length_loop fuel s l (s.next a) n ≡ some (n + length xs)
  unfolding length_loop Linked Apart
  length_loop-Linked zero a n xs enough fresh r = absurd (omega arith)
  length_loop-Linked (suc fuel) a n [] enough fresh (h, k) = ground (arith, h)
  length_loop-Linked (suc fuel) a n (x ∷ xs) enough (lx, fresh) (h, k, rest) =
      ground (arith, h, lx, length_loop-Linked fuel x (n + 1) xs (omega arith) fresh rest)

  -- Back from the last of the cells, the walk meets them and goes on at `a`.
  foreachback-Linked :
      (fuel a : ℕ) (xs : List ℕ) (b : ℕ)
      → Apart l xs
      → Linked s a xs b
      → (rest : List ℕ) → foreachback fuel s l a ≡ some rest
      → foreachback (fuel + length xs) s l (s.prev b) ≡ some (backwards xs ++ rest)
  unfolding foreachback Linked Apart backwards
  foreachback-Linked fuel a [] b fresh (h, k) rest run =
      subst (λ n. foreachback n s l (s.prev b) ≡ some rest) (omega arith)
        (ap (foreachback fuel s l) k ∙ run)
  foreachback-Linked fuel a (x ∷ xs) b (lx, fresh) (h, k, linked) rest run =
      let go =
        foreachback-Linked (suc fuel) x xs b fresh linked (x ∷ rest) (ground (arith, lx, k, run)) in
      subst (λ n. foreachback n s l (s.prev b) ≡ some (backwards (x ∷ xs) ++ rest)) (omega arith)
        (go ∙ ap some (sym (append_assoc (backwards xs) (x ∷ []) rest)))

  pub foreach-Ring :
      (fuel : ℕ) (xs : List ℕ)
      → length xs < fuel
      → Ring s l xs
      → foreach fuel s l (s.next l) ≡ some xs
  foreach-Ring fuel xs enough r = foreach-Linked fuel l xs enough r.fresh r.linked

  last_round : (fuel : ℕ) → 0 < fuel → foreachback fuel s l l ≡ some []
  unfolding foreachback
  last_round zero h = absurd (omega arith)
  last_round (suc fuel) h = ground arith

  pub foreachback-Ring :
      (fuel : ℕ) (xs : List ℕ)
      → length xs < fuel
      → Ring s l xs
      → foreachback fuel s l (s.prev l) ≡ some (backwards xs)
  unfolding foreachback
  foreachback-Ring fuel xs enough r =
      subst (λ n. foreachback n s l (s.prev l) ≡ some (backwards xs)) (omega arith)
        (foreachback-Linked (fuel - length xs) l xs l r.fresh r.linked []
            (last_round (fuel - length xs) (omega arith))
          ∙ ap some (append-nil (backwards xs)))

  pub list_length-Ring :
      (fuel : ℕ) (xs : List ℕ)
      → length xs < fuel
      → Ring s l xs
      → list_length fuel s l ≡ some (length xs)
  unfolding list_length
  list_length-Ring fuel xs enough r =
      length_loop-Linked fuel l 0 xs enough r.fresh r.linked ∙ ap some (omega arith)

-- The loop that deletes as it goes: each cell is looked at once, those that pass the test are taken
-- out and handed over in order, and the others stay.
pub foreach_delete-Ring :
    (fuel : ℕ) (test : ℕ → Bool) (s : Cells) (l : ℕ) (ks xs : List ℕ)
    → length xs < fuel
    → Ring s l (ks ++ xs)
    → (t : Cells) × (foreach_delete fuel test s l (first_of xs l) ≡ some (t, passing test xs))
      × Ring t l (ks ++ passing (λ x. not (test x)) xs)
unfolding foreach_delete passing first_of Apart
foreach_delete-Ring zero test s l ks xs enough r = absurd (omega arith)
foreach_delete-Ring (suc fuel) test s l ks [] enough r = (s, ground arith, r)
foreach_delete-Ring (suc fuel) test s l ks (x ∷ xs) enough r =
    let (fl, (lx, fr)) : Apart l ks × (((l == x) ≡ false) × Apart l xs) =
      Apart-append l ks (x ∷ xs) r.fresh in
    let (before, after) = Linked-at s l ks x xs l r.linked in
    elim (Bool-cases (test x)) [
      | inl e ↦
          let gone = del_from_list-Ring s l x ks xs r in
          let (next, prev) = Linked-last (del_from_list s x) l ks xs l gone.linked in
          let (t, run, left) =
            foreach_delete-Ring fuel test (del_from_list s x) l ks xs (omega arith) gone in
          (
            t,
            ground (arith, lx, e, before, next, run),
            subst
                (λ b. Ring t l (
                  ks
                  ++ (if b
                      then x ∷ passing (λ y. not (test y)) xs
                      else passing (λ y. not (test y)) xs)))
                (ap not (sym e)) left,
          )
      | inr e ↦
          let (t, run, left) =
            foreach_delete-Ring fuel test s l (ks ++ x ∷ []) xs (omega arith)
              (subst (Ring s l) (sym (append_assoc ks (x ∷ []) xs)) r) in
          (
            t,
            ground (arith, lx, e, after, run),
            subst
                (λ b. Ring t l (
                  ks
                  ++ (if b
                      then x ∷ passing (λ y. not (test y)) xs
                      else passing (λ y. not (test y)) xs)))
                (ap not (sym e))
                (subst (Ring t l) (append_assoc ks (x ∷ []) (passing (λ y. not (test y)) xs)) left),
          )
    ]

-- `free_list` takes out each cell, in order, and frees it.
pub free_list-Ring :
    (fuel : ℕ) (s : Cells) (l : ℕ) (xs : List ℕ)
    → length xs < fuel
    → Ring s l xs
    → (t : Cells) × (free_list fuel s l ≡ some (t, xs)) × Ring t l []
unfolding free_list Linked Apart
free_list-Ring zero s l xs enough r = absurd (omega arith)
free_list-Ring (suc fuel) s l [] enough r = let (h, k) = r.linked in (s, ground (arith, h), r)
free_list-Ring (suc fuel) s l (x ∷ xs) enough r =
    let (t, run, done) =
      free_list-Ring fuel (del_from_list s x) l xs (omega arith)
        (del_from_list-Ring s l x [] xs r) in
    let first : s.next l ≡ x = r.linked.0 in
    let lx : (l == x) ≡ false = r.fresh.0 in (t, ground (arith, first, lx, run), done)

-- A walk over a ring that deletes with `del_from_list_in_foreach_and_run` ends: it runs its code for
-- the cells that pass the test, once and in order, and the ring that is left has the other cells.
pub foreach_delete-passing :
    (fuel : ℕ) (test : ℕ → Bool) (s : Cells) (l : ℕ) (xs : List ℕ)
    → length xs < fuel
    → Ring s l xs
    → (t : Cells) × (foreach_delete fuel test s l (s.next l) ≡ some (t, passing test xs))
      × Ring t l (passing (λ x. not (test x)) xs)
unfolding last_of
foreach_delete-passing fuel test s l xs enough r =
    subst
      (λ e.
        (t : Cells) × (foreach_delete fuel test s l e ≡ some (t, passing test xs))
        × Ring t l (passing (λ x. not (test x)) xs))
      (sym ((Linked-last s l [] xs l r.linked).0))
      (foreach_delete-Ring fuel test s l [] xs enough r)
