-- ===== src/Slist.antt =====
-- src/slist.h: the singly linked lists, as the list of the nodes that are reached from the head.
use libnvmmio.Prelude.{
  ℕ, Bool, true, false, Option, none, some, List, [], ◌∷◌, ◌++◌, ◌==◌, if◌then◌else◌,
}

unfoldable pub slist_push : ℕ → List ℕ → List ℕ
slist_push node head = node ∷ head

-- On an empty list the source reads through NULL: `none`.
unfoldable pub slist_pop : List ℕ → Option (ℕ × List ℕ)
slist_pop [] = none
slist_pop (node ∷ head) = some (node, head)

unfoldable pub slist_empty : List ℕ → Bool
slist_empty [] = true
slist_empty (node ∷ head) = false

-- The nodes up to `node`, and those behind it.
unfoldable pub cut_after : ℕ → List ℕ → List ℕ × List ℕ
cut_after node [] = ([], [])
cut_after node (x ∷ xs) =
    let (front, back) = cut_after node xs in if x == node then (x ∷ [], xs) else (x ∷ front, back)

-- The new `head` and the new `new_head`, for a `node` of `head`.
unfoldable pub slist_cut_splice : (head : List ℕ) → ℕ → (new_head : List ℕ) → List ℕ × List ℕ
slist_cut_splice head node new_head =
    let (front, back) = cut_after node head in (back, front ++ new_head)
