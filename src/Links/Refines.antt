-- ===== src/Links/Refines.antt =====
-- src/list.h: the operations on the links are the operations on the sequence of nodes.
use libnvmmio.Prelude.{ℕ, ◌≡◌, ◌≢◌, true, some, List, [], ◌∷◌, ◌++◌, length, arith}
use mathlib.Core.Logic.{◌↔◌}
use libnvmmio.FileHash.Delete
use libnvmmio.Links.{
  Links, list_add, list_add_tail, list_del, list_del_init, list_move_tail, list_empty, for_each,
}
use libnvmmio.Links.Ring.{Fresh, IsRing, list_add-IsRing, list_add_tail-IsRing, for_each-IsRing}
use libnvmmio.Links.Deletion.{list_del-IsRing, list_del_init-IsRing, list_move_tail-IsRing}

-- A node that is not in the list, and is not its head, is put first by list_add and last by
-- list_add_tail, with the other nodes in order.
pub additions-IsRing :
    (m : Links) (entry head : ℕ) (xs : List ℕ)
    → entry ≢ head
    → Fresh entry xs
    → IsRing m head xs
    → IsRing (list_add entry head m) head (entry ∷ xs)
      × IsRing (list_add_tail entry head m) head (xs ++ entry ∷ [])
additions-IsRing m entry head xs new fresh ring = (
  list_add-IsRing m entry head new xs fresh ring,
  list_add_tail-IsRing m entry head new xs fresh ring,
)

-- A node of the list is taken out by list_del and list_del_init, where list_del_init makes it a list
-- of its own, and is put last by list_move_tail, with the other nodes in order.
pub removals-IsRing :
    (m : Links) (entry head : ℕ) (xs : List ℕ)
    → (Fresh entry xs → ⊥)
    → IsRing m head xs
    → IsRing (list_del entry m) head (Delete.list_del entry xs)
      × IsRing (list_del_init entry m) head (Delete.list_del entry xs)
      × IsRing (list_del_init entry m) entry []
      × IsRing (list_move_tail entry head m) head (Delete.list_del entry xs ++ entry ∷ [])
removals-IsRing m entry head xs inside ring =
    let (others, own) = list_del_init-IsRing ring entry inside in
    (list_del-IsRing ring entry inside, others, own, list_move_tail-IsRing ring entry inside)

list_empty-IsRing :
    {m : Links} {head : ℕ} (xs : List ℕ) → IsRing m head xs → (list_empty head m ≡ true) ↔ (xs ≡ [])
unfolding list_empty
list_empty-IsRing [] ring = ground (arith, ring.chain.0)
list_empty-IsRing (x ∷ xs) ring = ground (arith, ring.chain.0, ring.outside.0)

-- LIST_FOR_EACH_ENTRY ends and visits each node of the list once, in order, and list_empty tells
-- whether there is none.
pub traversal-IsRing :
    (m : Links) (head : ℕ) (xs : List ℕ)
    → IsRing m head xs
    → (for_each (length xs) head (m.next head) m ≡ some xs)
      × ((list_empty head m ≡ true) ↔ (xs ≡ []))
traversal-IsRing m head xs ring = (for_each-IsRing ring, list_empty-IsRing xs ring)
