-- ===== src/Allocator/Units.antt =====
-- src/allocator.c: the skip list names the nodes of the list at which a unit ends.
use libnvmmio.Prelude.{ℕ, ◌+◌, ◌≤◌, ◌<◌, ◌≡◌, ◌≢◌, refl, List, [], ◌∷◌, ◌++◌, false, arith}
use mathlib.Core.Path.{subst}
use libnvmmio.Slist.{cut_after, slist_empty}
use libnvmmio.Allocator.Conserve.{count, count-append, count-cut_after}

-- The list falls into units, each closed by a node of the skip list, in the same order.
pub data Units : (list skips : List ℕ) → Type 0 where
  empty : Units [] []
  closing : {x : ℕ} {list skips : List ℕ} → Units list skips → Units (x ∷ list) (x ∷ skips)
  inner :
      {x y : ℕ} {list skips : List ℕ}
      → count x list ≡ 0
      → Units list (y ∷ skips)
      → Units (x ∷ list) (y ∷ skips)

-- A node of the skip list is in the list.
closing-count : {list : List ℕ} (y : ℕ) {skips : List ℕ} → Units list (y ∷ skips) → 0 < count y list
unfolding count
closing-count y (closing u) = ground arith
closing-count y (inner fresh u) = omega (arith, closing-count y u)

one_more : (x : ℕ) (list : List ℕ) → count x (x ∷ list) ≡ 1 + count x list
unfolding count
one_more x list = ground arith

-- A node closes one unit only.
inner-differs :
    {list : List ℕ} (x y : ℕ) {skips : List ℕ} → count x list ≡ 0 → Units list (y ∷ skips) → x ≢ y
inner-differs {list} x y fresh u same =
    let fresh' = subst (λ z. count z list ≡ 0) same fresh in
    omega (arith, fresh', closing-count y u)

cut_after_self : (y : ℕ) (list : List ℕ) → cut_after y (y ∷ list) ≡ (y ∷ [], list)
unfolding cut_after
cut_after_self y list = ground arith

cut_after_other :
    (x y : ℕ) (list : List ℕ)
    → x ≢ y
    → cut_after y (x ∷ list) ≡ (x ∷ (cut_after y list).0, (cut_after y list).1)
unfolding cut_after
cut_after_other x y list differ = ground arith

-- What is left behind the first unit.
pub cut_after-rest :
    {list : List ℕ} (y : ℕ) {skips : List ℕ}
    → Units list (y ∷ skips)
    → Units (cut_after y list).1 skips
cut_after-rest y (closing {list = l} u) = rw (cut_after_self y l) u
cut_after-rest y (inner {x = x} {list = l} fresh u) =
    rw (cut_after_other x y l (inner-differs x y fresh u)) (cut_after-rest y u)

-- The first unit, put in front of a list that shares no node with it.
pub cut_after-front :
    {list : List ℕ} (y : ℕ) {skips : List ℕ} (other : List ℕ) {others : List ℕ}
    → Units list (y ∷ skips)
    → Units other others
    → ((x : ℕ) → count x list + count x other ≤ 1)
    → Units ((cut_after y list).0 ++ other) (y ∷ others)
unfolding count
cut_after-front y other (closing {list = l} u) v apart = rw (cut_after_self y l) (closing v)
cut_after-front y other (inner {x = x} {list = l} fresh u) v apart =
    rw (cut_after_other x y l (inner-differs x y fresh u)) (
      inner
        (omega (
          arith,
          count-append x (cut_after y l).0 other,
          count-cut_after x y l,
          one_more x l,
          apart x,
        ))
        (cut_after-front y other u v (λ z. ground (arith, apart z))))

-- The first unit is not empty.
pub cut_after-filled :
    {list : List ℕ} (y : ℕ) {skips : List ℕ} (other : List ℕ)
    → Units list (y ∷ skips)
    → slist_empty ((cut_after y list).0 ++ other) ≡ false
unfolding slist_empty
cut_after-filled y other (closing {list = l} u) = rw (cut_after_self y l) refl
cut_after-filled y other (inner {x = x} {list = l} fresh u) =
    rw (cut_after_other x y l (inner-differs x y fresh u)) refl
