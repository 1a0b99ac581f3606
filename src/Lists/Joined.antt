-- ===== src/Lists/Joined.antt =====
-- `add_list_to_list`, whose cells keep the head of their old list as the `prev` of the first one.
use fast.Prelude.{List, [], ap, arith, false, none, refl, suc, zero, ℕ, ◌==◌, ◌∙◌, ◌∷◌, ◌≡◌}
use fast.Lists.{Cells, add_list_to_list, foreachback}
use fast.Lists.Ring.{Apart, Linked, Ring}

module _ (s : Cells) (l0 l : ℕ) (apart : (l == l0) ≡ false) where
  abbrev joined : Cells
  joined = add_list_to_list s l0 l

  -- The head of the second list is left pointing at itself, and a walk back that comes to it stays.
  at_head : (fuel : ℕ) → foreachback fuel joined l0 l ≡ none
  unfolding foreachback add_list_to_list
  at_head zero = refl
  at_head (suc fuel) = let again = at_head fuel in ground (arith, apart, again)

  at_cell :
      (a x : ℕ)
      → (l0 == x) ≡ false
      → (l == x) ≡ false
      → s.prev x ≡ a
      → ((fuel : ℕ) → foreachback fuel joined l0 a ≡ none)
      → (fuel : ℕ) → foreachback fuel joined l0 x ≡ none
  unfolding foreachback add_list_to_list
  at_cell a x h0 h1 k never zero = refl
  at_cell a x h0 h1 k never (suc fuel) =
      let before = never fuel in ground (arith, h0, h1, k, before)

  back_to :
      (a : ℕ) (xs : List ℕ) (b : ℕ)
      → Apart l0 xs
      → Apart l xs
      → Linked s a xs b
      → ((fuel : ℕ) → foreachback fuel joined l0 a ≡ none)
      → (fuel : ℕ) → foreachback fuel joined l0 (s.prev b) ≡ none
  unfolding foreachback add_list_to_list Linked Apart
  back_to a [] b f0 f1 (h, k) never fuel = ap (foreachback fuel joined l0) k ∙ never fuel
  back_to a (x ∷ xs) b (h0, f0) (h1, f1) (h, k, rest) never fuel =
      back_to x xs b f0 f1 rest (at_cell a x h0 h1 k never) fuel

-- After `add_list_to_list` of a list to another head, `foreachback` from that head never ends,
-- whatever the list holds.
pub add_list_to_list-Endless :
    (s : Cells) (l0 l : ℕ) (ys : List ℕ)
    → Ring s l ys
    → (l == l0) ≡ false
    → Apart l0 ys
    → (fuel : ℕ)
    → foreachback fuel (add_list_to_list s l0 l) l0 ((add_list_to_list s l0 l).prev l0) ≡ none
unfolding add_list_to_list
add_list_to_list-Endless s l0 l ys r apart f fuel =
    let back = back_to s l0 l apart l ys l f r.fresh r.linked (at_head s l0 l apart) fuel in
    ground (arith, apart, back)
