-- ===== src/Lists.antt =====
-- lists.h: the macros on rings of cells. An address is a number, and the store has two words at each
-- address, the `next` and the `prev` of the cell there; a list is the address of its head, which is a
-- cell of the ring itself.
pub mod Ring
pub mod Change
pub mod Walk
pub mod Refine
pub mod Joined
mod Tests
use fast.Prelude.{
  Bool, List, Option, [], false, if◌then◌else◌, none, some, suc, true, zero, ℕ, ◌+◌, ◌==◌, ◌>>=◌,
  ◌∷◌,
}

pub record Cells : Type 0 where
  pub next : ℕ → ℕ
  pub prev : ℕ → ℕ

-- `(x)->next = v` and `(x)->prev = v`
pub set_next : Cells → ℕ → ℕ → Cells
set_next s x v = record s { next = λ c. if c == x then v else s.next c }

pub set_prev : Cells → ℕ → ℕ → Cells
set_prev s x v = record s { prev = λ c. if c == x then v else s.prev c }

pub init_list : Cells → ℕ → Cells
unfolding set_next set_prev
init_list s x = set_prev (set_next s x x) x x

pub list_empty : Cells → ℕ → Bool
list_empty s x = s.next x == x

pub del_from_list : Cells → ℕ → Cells
unfolding set_next set_prev
del_from_list s x = let t = set_prev s (s.next x) (s.prev x) in set_next t (t.prev x) (t.next x)

-- `(p)->next` of the second line is read before it is written, `(x)->next` of the last one after.
pub add_at_pos : Cells → ℕ → ℕ → Cells
unfolding set_next set_prev
add_at_pos s p x =
    let t = set_next (set_prev (set_next s x (s.next p)) x p) p x in set_prev t (t.next x) x

pub add_to_list : Cells → ℕ → ℕ → Cells
unfolding add_at_pos
add_to_list s l x = add_at_pos s l x

-- The oldest item is the last one: `(l).prev`.
pub list_first_item : Cells → ℕ → ℕ
list_first_item s l = s.prev l

pub list_last_item : Cells → ℕ → ℕ
list_last_item s l = s.next l

pub add_to_list_end : Cells → ℕ → ℕ → Cells
unfolding add_at_pos list_first_item
add_to_list_end s l x = add_at_pos s (list_first_item s l) x

pub add_list_to_list : Cells → ℕ → ℕ → Cells
unfolding set_next set_prev init_list
add_list_to_list s l0 l =
    let t = set_next s (s.prev l0) (s.next l) in
    let u = set_prev t l0 (t.prev l) in
    let v = set_next u (u.prev l) (u.prev (u.next l0)) in set_next (set_prev v l l) l l

-- The cells that `foreach(e, l)` runs over from `e` on, in the order of the walk.
pub foreach : ℕ → Cells → ℕ → ℕ → Option (List ℕ)
foreach zero s l e = none
foreach (suc fuel) s l e = elim (e == l) [
  | true ↦ some []
  | false ↦ (foreach fuel s l (s.next e) >>= λ rest. some (e ∷ rest))
]

pub foreachback : ℕ → Cells → ℕ → ℕ → Option (List ℕ)
foreachback zero s l e = none
foreachback (suc fuel) s l e = elim (e == l) [
  | true ↦ some []
  | false ↦ (foreachback fuel s l (s.prev e) >>= λ rest. some (e ∷ rest))
]

-- `list_length`: len counts from 0.
pub length_loop : ℕ → Cells → ℕ → ℕ → ℕ → Option ℕ
length_loop zero s l p len = none
length_loop (suc fuel) s l p len = elim (p == l) [
  | true ↦ some len
  | false ↦ length_loop fuel s l (s.next p) (len + 1)
]

pub list_length : ℕ → Cells → ℕ → Option ℕ
unfolding length_loop
list_length fuel s l = length_loop fuel s l (s.next l) 0

-- `foreach(x, l) if(test) del_from_list_in_foreach_and_run(x, run)`: the store, and the cells that
-- `run` is called with. It is called after the cell is taken out, and may free it.
pub foreach_delete : ℕ → (ℕ → Bool) → Cells → ℕ → ℕ → Option (Cells × List ℕ)
unfolding del_from_list
foreach_delete zero test s l x = none
foreach_delete (suc fuel) test s l x = elim (x == l) [
  | true ↦ some (s, [])
  | false ↦ elim (test x) [
    | true ↦ (do
      let t = del_from_list s x
      (u, runs) ← foreach_delete fuel test t l (t.next (s.prev x))
      some (u, x ∷ runs))
    | false ↦ foreach_delete fuel test s l (s.next x)
  ]
]

-- The same for `foreachback`, with `del_from_list_in_foreachback_and_run`.
pub foreachback_delete : ℕ → (ℕ → Bool) → Cells → ℕ → ℕ → Option (Cells × List ℕ)
unfolding del_from_list
foreachback_delete zero test s l x = none
foreachback_delete (suc fuel) test s l x = elim (x == l) [
  | true ↦ some (s, [])
  | false ↦ elim (test x) [
    | true ↦ (do
      let t = del_from_list s x
      (u, runs) ← foreachback_delete fuel test t l (t.prev (s.next x))
      some (u, x ∷ runs))
    | false ↦ foreachback_delete fuel test s l (s.prev x)
  ]
]

-- `free_list`: the store, and the cells that are freed.
pub free_list : ℕ → Cells → ℕ → Option (Cells × List ℕ)
unfolding del_from_list
free_list zero s l = none
free_list (suc fuel) s l = elim (s.next l == l) [
  | true ↦ some (s, [])
  | false ↦ (do
    (t, freed) ← free_list fuel (del_from_list s (s.next l)) l
    some (t, s.next l ∷ freed))
]
