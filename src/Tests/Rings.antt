-- ===== src/Tests/Rings.antt =====
-- Doubly linked lists at concrete inputs.
use libnvmmio.Prelude.{List, true, ℕ, ◌≡◌, arith, some, [], ◌∷◌, ◌++◌, ◌==◌, update}
use libnvmmio.FileHash.Delete
use libnvmmio.Links.{
  Links, list_add, list_add_tail, list_del, list_del_init, list_move_tail, list_empty, for_each,
  for_each_safe,
}
use libnvmmio.Links.Ring.{IsRing}
use libnvmmio.Links.Refines.{additions-IsRing, removals-IsRing, traversal-IsRing}
use mathlib.Core.Logic.{◌↔◌}
use libnvmmio.Links.Sweep.{for_each_safe-IsRing}

-- The list at 100 holds 1, 2 and 3.
abbrev ring : Links
ring = record {
  next = update (update (update (update (λ p. 0) 100 1) 1 2) 2 3) 3 100;
  prev = update (update (update (update (λ p. 0) 100 3) 1 100) 2 1) 3 2;
}

ring-IsRing : IsRing ring 100 (1 ∷ 2 ∷ 3 ∷ [])
ring-IsRing = ground arith

for_each_safe-IsRing_example :
    (m' : Links) × (for_each_safe 3 100 1 (λ p. p == 2) ring ≡ some m') × IsRing m' 100 (1 ∷ 3 ∷ [])
for_each_safe-IsRing_example =
    for_each_safe-IsRing ring 100 (λ p. p == 2) (1 ∷ 2 ∷ 3 ∷ []) ring-IsRing

additions-IsRing_example :
    IsRing (list_add 7 100 ring) 100 (7 ∷ 1 ∷ 2 ∷ 3 ∷ [])
    × IsRing (list_add_tail 7 100 ring) 100 ((1 ∷ 2 ∷ 3 ∷ []) ++ 7 ∷ [])
additions-IsRing_example =
    additions-IsRing ring 7 100 (1 ∷ 2 ∷ 3 ∷ []) (omega arith) (ground arith) ring-IsRing

removals-IsRing_example :
    IsRing (list_del 2 ring) 100 (Delete.list_del 2 (1 ∷ 2 ∷ 3 ∷ []))
    × IsRing (list_del_init 2 ring) 100 (Delete.list_del 2 (1 ∷ 2 ∷ 3 ∷ []))
    × IsRing (list_del_init 2 ring) 2 []
    × IsRing (list_move_tail 2 100 ring) 100 (Delete.list_del 2 (1 ∷ 2 ∷ 3 ∷ []) ++ 2 ∷ [])
removals-IsRing_example =
    removals-IsRing ring 2 100 (1 ∷ 2 ∷ 3 ∷ []) (λ fresh. ground (arith, fresh)) ring-IsRing

traversal-IsRing_example :
    (for_each 3 100 1 ring ≡ some (1 ∷ 2 ∷ 3 ∷ []))
    × ((list_empty 100 ring ≡ true) ↔ (◌≡◌ {A = List ℕ} (1 ∷ 2 ∷ 3 ∷ []) []))
traversal-IsRing_example = traversal-IsRing ring 100 (1 ∷ 2 ∷ 3 ∷ []) ring-IsRing
