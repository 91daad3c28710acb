-- ===== src/Links.antt =====
-- src/list.h: doubly linked lists, by the links of their nodes.
pub mod Ring
pub mod Deletion
pub mod Sweep
pub mod Refines
use libnvmmio.Prelude.{
  ℕ, zero, suc, Bool, Option, none, some, List, [], ◌∷◌, ◌==◌, if◌then◌else◌, update, ◌>>=◌,
}

-- `struct list_head` at each address.
pub record Links : Type 0 where
  pub next : ℕ → ℕ
  pub prev : ℕ → ℕ

abbrev pub set_next : ℕ → ℕ → Links → Links
set_next p q m = record m { next = update m.next p q }

abbrev pub set_prev : ℕ → ℕ → Links → Links
set_prev p q m = record m { prev = update m.prev p q }

-- INIT_LIST_HEAD
unfoldable pub init_list_head : ℕ → Links → Links
init_list_head list m = set_next list list (set_prev list list m)

-- `__list_add`
unfoldable pub add_between : (entry prev next : ℕ) → Links → Links
add_between entry prev next m =
    set_next prev entry (set_prev entry prev (set_next entry next (set_prev next entry m)))

unfoldable pub list_add : (entry head : ℕ) → Links → Links
list_add entry head m = add_between entry head (m.next head) m

unfoldable pub list_add_tail : (entry head : ℕ) → Links → Links
list_add_tail entry head m = add_between entry (m.prev head) head m

-- `__list_del`
unfoldable pub join : (prev next : ℕ) → Links → Links
join prev next m = set_next prev next (set_prev next prev m)

unfoldable pub list_del : ℕ → Links → Links
list_del entry m = join (m.prev entry) (m.next entry) m

unfoldable pub list_del_init : ℕ → Links → Links
list_del_init entry m = init_list_head entry (join (m.prev entry) (m.next entry) m)

unfoldable pub list_move_tail : (list head : ℕ) → Links → Links
list_move_tail list head m = list_add_tail list head (join (m.prev list) (m.next list) m)

unfoldable pub list_empty : ℕ → Links → Bool
list_empty head m = m.next head == head

-- LIST_FOR_EACH_ENTRY from `pos` on: the nodes visited. `none` is a walk of more than `rounds` nodes.
unfoldable pub for_each : (rounds head pos : ℕ) → Links → Option (List ℕ)
for_each zero head pos m = if pos == head then some [] else none
for_each (suc rounds) head pos m =
    let rest = (do visited ← for_each rounds head (m.next pos) m; some (pos ∷ visited)) in
    if pos == head then some [] else rest

-- LIST_FOR_EACH_ENTRY_SAFE from `pos` on, with a body that deletes the nodes that `drop` tells:
-- `tmp` is read before the body runs.
unfoldable pub for_each_safe : (rounds head pos : ℕ) → (drop : ℕ → Bool) → Links → Option Links
for_each_safe zero head pos drop m = if pos == head then some m else none
for_each_safe (suc rounds) head pos drop m =
    let tmp = m.next pos in
    let rest = for_each_safe rounds head tmp drop (if drop pos then list_del pos m else m) in
    if pos == head then some m else rest
