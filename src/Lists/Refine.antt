-- ===== src/Lists/Refine.antt =====
-- A ring behaves as the list of its cells.
use fast.Lists.Walk.{backwards, foreach-Ring, foreachback-Ring, list_length-Ring}
use fast.Prelude.{
  Bool, Bool-cases, List, [], ap, append-nil, arith, false, if◌then◌else◌, inl, inr, length, some,
  subst, sym, true, ℕ, ◌++◌, ◌<◌, ◌==◌, ◌||◌, ◌∷◌, ◌≡◌,
}
use fast.Lists.{
  Cells, add_at_pos, add_to_list, add_to_list_end, del_from_list, foreach, foreachback, init_list,
  list_empty, list_first_item, list_length,
}
use fast.Lists.Ring.{Apart, Linked, Linked-last, Ring, first_of, last_of}
use fast.Lists.Change.{add_at_pos-Ring, del_from_list-Ring, init_list-Ring}

-- The calls that change a list.
pub data Call : Type 0 where
  push : ℕ → Call
  append : ℕ → Call
  delete : ℕ → Call

abbrev pub call : Cells → ℕ → Call → Cells
call s l (push x) = add_to_list s l x
call s l (append x) = add_to_list_end s l x
call s l (delete x) = del_from_list s x

unfoldable pub calls : Cells → ℕ → List Call → Cells
calls s l [] = s
calls s l (c ∷ cs) = calls (call s l c) l cs

-- The same calls on a list.
unfoldable pub without : ℕ → List ℕ → List ℕ
without x [] = []
without x (y ∷ ys) = if x == y then ys else y ∷ without x ys

abbrev pub list_call : List ℕ → Call → List ℕ
list_call xs (push x) = x ∷ xs
list_call xs (append x) = xs ++ x ∷ []
list_call xs (delete x) = without x xs

unfoldable pub list_calls : List ℕ → List Call → List ℕ
list_calls xs [] = xs
list_calls xs (c ∷ cs) = list_calls (list_call xs c) cs

unfoldable pub holds : ℕ → List ℕ → Bool
holds x [] = false
holds x (y ∷ ys) = x == y || holds x ys

-- What the code sees to: a cell is added to a list where it is not in it, and deleted where it is.
abbrev pub Allowed : ℕ → List ℕ → Call → Type 0
Allowed l xs (push x) = ((l == x) ≡ false) × Apart x xs
Allowed l xs (append x) = ((l == x) ≡ false) × Apart x xs
Allowed l xs (delete x) = holds x xs ≡ true

unfoldable pub AllAllowed : ℕ → List ℕ → List Call → Type 0
AllAllowed l xs [] = Unit
AllAllowed l xs (c ∷ cs) = Allowed l xs c × AllAllowed l (list_call xs c) cs

holds-parts :
    (x : ℕ) (xs : List ℕ)
    → holds x xs ≡ true
    → (ys zs : List ℕ) × (xs ≡ ys ++ x ∷ zs) × (without x xs ≡ ys ++ zs)
unfolding holds without
holds-parts x [] h = absurd (ground (arith, h))
holds-parts x (y ∷ ys) h = elim (Bool-cases (x == y)) [
  | inl e ↦ ([], ys, ground (arith, e), ground (arith, e))
  | inr e ↦
      let (us, vs, p, q) = holds-parts x ys (ground (arith, e, h)) in
      (y ∷ us, vs, ap (λ zs. y ∷ zs) p, ground (arith, e, q))
]

call-Ring :
    (s : Cells) (l : ℕ) (xs : List ℕ) (c : Call)
    → Allowed l xs c
    → Ring s l xs
    → Ring (call s l c) l (list_call xs c)
unfolding add_to_list add_to_list_end list_first_item last_of first_of
call-Ring s l xs (push x) (h, a) r = add_at_pos-Ring s l x [] xs h a r
call-Ring s l xs (append x) (h, a) r =
    let whole = sym (append-nil xs) in
    let r' = subst (Ring s l) whole r in
    let (n, p) = Linked-last s l xs [] l r'.linked in
    subst (λ p. Ring (add_at_pos s p x) l (xs ++ x ∷ [])) (sym p)
      (add_at_pos-Ring s l x xs [] h (subst (Apart x) whole a) r')
call-Ring s l xs (delete x) h r =
    let (ys, zs, p, q) = holds-parts x xs h in
    subst (Ring (del_from_list s x) l) (sym q)
      (del_from_list-Ring s l x ys zs (subst (Ring s l) p r))

pub calls-Ring :
    (s : Cells) (l : ℕ) (xs : List ℕ) (cs : List Call)
    → AllAllowed l xs cs
    → Ring s l xs
    → Ring (calls s l cs) l (list_calls xs cs)
unfolding calls list_calls AllAllowed
calls-Ring s l xs [] a r = r
calls-Ring s l xs (c ∷ cs) (a, b) r =
    calls-Ring (call s l c) l (list_call xs c) cs b (call-Ring s l xs c a r)

empty_iff : (t : Cells) (l : ℕ) (xs : List ℕ) → Ring t l xs → list_empty t l ≡ (length xs == 0)
unfolding list_empty Linked Apart
empty_iff t l [] r = let (h, k) = r.linked in ground (arith, h)
empty_iff t l (x ∷ xs) r =
    let first : t.next l ≡ x = r.linked.0 in
    let lx : (l == x) ≡ false = r.fresh.0 in ground (arith, first, lx)

-- Any calls on a new list, a cell added where it is not in it and deleted where it is, leave a ring:
-- walked forwards it gives the list that the same calls make of the empty one, backwards that list
-- reversed, its length is counted, and it is empty when that list is.
pub calls-list_calls :
    (fuel : ℕ) (s : Cells) (l : ℕ) (cs : List Call)
    → AllAllowed l [] cs
    → length (list_calls [] cs) < fuel
    → let t = calls (init_list s l) l cs in
      let xs = list_calls [] cs in
      (foreach fuel t l (t.next l) ≡ some xs)
      × (foreachback fuel t l (t.prev l) ≡ some (backwards xs))
      × (list_length fuel t l ≡ some (length xs))
      × (list_empty t l ≡ (length xs == 0))
unfolding list_empty
calls-list_calls fuel s l cs allowed enough =
    let t = calls (init_list s l) l cs in
    let xs = list_calls [] cs in
    let r = calls-Ring (init_list s l) l [] cs allowed (init_list-Ring s l) in
    (
      foreach-Ring t l fuel xs enough r,
      foreachback-Ring t l fuel xs enough r,
      list_length-Ring t l fuel xs enough r,
      empty_iff t l xs r,
    )
