-- ===== src/Lists/Tests.antt =====
-- A ring of three cells, and runs of the theorems on it.
use fast.Prelude.{List, Option, [], arith, length, none, not, refl, some, ℕ, ◌==◌, ◌∷◌, ◌≡◌}
use fast.Lists.{
  Cells, add_at_pos, add_list_to_list, add_to_list, add_to_list_end, del_from_list, foreach,
  foreach_delete, foreachback, foreachback_delete, init_list, list_empty, list_first_item,
  list_length, set_next, set_prev,
}
use fast.Lists.Ring.{Apart, Ring}
use fast.Lists.Change.{init_list-Ring}
use fast.Lists.Walk.{backwards, foreach_delete-passing, passing}
use fast.Lists.Refine.{
  AllAllowed, Call, append, calls, calls-Ring, calls-list_calls, delete, holds, list_calls, push,
  without,
}
use fast.Lists.Joined.{add_list_to_list-Endless}

-- no cell points anywhere
abbrev nowhere : Cells
nowhere = record { next = λ x. 0; prev = λ x. 0 }

abbrev three : List Call
three = push 2 ∷ append 3 ∷ push 4 ∷ delete 2 ∷ append 5 ∷ []

three-foreach :
    (let t = calls (init_list nowhere 1) 1 three in foreach 9 t 1 (t.next 1))
    ≡ some (4 ∷ 3 ∷ 5 ∷ [])
unfolding foreach add_at_pos add_to_list add_to_list_end list_first_item del_from_list init_list
    calls set_next set_prev
three-foreach = refl

calls-list_calls_example :
    let t = calls (init_list nowhere 1) 1 three in
    let xs = list_calls [] three in
    (foreach 9 t 1 (t.next 1) ≡ some xs)
    × (foreachback 9 t 1 (t.prev 1) ≡ some (backwards xs))
    × (list_length 9 t 1 ≡ some (length xs))
    × (list_empty t 1 ≡ (length xs == 0))
unfolding AllAllowed list_calls Apart holds without
calls-list_calls_example =
    calls-list_calls 9 nowhere 1 three
      (
        (refl, tt),
        (
          (refl, (refl, tt)),
          ((refl, (refl, (refl, tt))), (refl, ((refl, (refl, (refl, tt))), tt))),
        ),
      )
      (ground arith)

abbrev ring : Cells
ring = calls (init_list nowhere 1) 1 (append 2 ∷ append 3 ∷ append 4 ∷ [])

ring-Ring : Ring ring 1 (2 ∷ 3 ∷ 4 ∷ [])
unfolding AllAllowed list_calls Apart
ring-Ring =
    calls-Ring (init_list nowhere 1) 1 [] (append 2 ∷ append 3 ∷ append 4 ∷ [])
      ((refl, tt), ((refl, (refl, tt)), ((refl, (refl, (refl, tt))), tt)))
      (init_list-Ring nowhere 1)

foreach_delete-passing_example :
    (t : Cells) × (foreach_delete 4 (λ x. x == 3) ring 1 (ring.next 1) ≡ some (t, 3 ∷ []))
    × Ring t 1 (2 ∷ 4 ∷ [])
unfolding passing
foreach_delete-passing_example =
    foreach_delete-passing 4 (λ x. x == 3) ring 1 (2 ∷ 3 ∷ 4 ∷ []) (ground arith) ring-Ring

add_list_to_list-Endless_example :
    foreachback 100 (add_list_to_list ring 9 1) 9 ((add_list_to_list ring 9 1).prev 9) ≡ none
unfolding Apart
add_list_to_list-Endless_example =
    add_list_to_list-Endless ring 9 1 (2 ∷ 3 ∷ 4 ∷ []) ring-Ring refl (refl, (refl, (refl, tt))) 100

abbrev runs_of : Option (Cells × List ℕ) → Option (List ℕ)
runs_of o = elim o [ none ↦ none | some (s, runs) ↦ some runs ]

back-runs :
    runs_of (foreachback_delete 9 (λ x. not (x == 3)) ring 1 (ring.prev 1)) ≡ some (4 ∷ 2 ∷ [])
unfolding foreachback_delete add_to_list_end list_first_item add_at_pos init_list calls set_next
    set_prev del_from_list
back-runs = refl
