-- ===== src/Links/Sweep.antt =====
-- src/list.h: the loop whose body deletes nodes.
use libnvmmio.Prelude.{
  ℕ, ◌≡◌, ◌≢◌, refl, sym, inl, inr, Bool, false, Bool-cases, some, List, [], ◌∷◌, ◌++◌, ◌==◌,
  if◌then◌else◌, arith, length,
}
use mathlib.Core.Path.{subst}
use libnvmmio.Links.{Links, list_del, for_each_safe}
use libnvmmio.Links.Deletion.{list_del-IsRing}
use libnvmmio.Links.Ring.{Chain, Fresh, Distinct, IsRing}
use libnvmmio.FileHash.Delete
use mathlib.Core.List.{append_assoc}

-- The first of the nodes, or the head.
abbrev first_or : List ℕ → ℕ → ℕ
first_or [] head = head
first_or (x ∷ xs) head = x

-- The nodes that the body leaves.
abbrev pub kept : (ℕ → Bool) → List ℕ → List ℕ
kept drop [] = []
kept drop (x ∷ xs) = if drop x then kept drop xs else x ∷ kept drop xs

Chain-next :
    (m : Links) (a : ℕ) (ys : List ℕ) (x : ℕ) (xs : List ℕ) (b : ℕ)
    → Chain m a (ys ++ x ∷ xs) b
    → m.next x ≡ first_or xs b
Chain-next m a [] x [] b (to, from, (next_to, next_from)) = next_to
Chain-next m a [] x (z ∷ zs) b (to, from, (next_to, next_from, chain)) = next_to
Chain-next m a (y ∷ ys) x xs b (to, from, chain) = Chain-next m y ys x xs b chain

-- A node behind `ys` is in the list, and is deleted there.
middle-inside : (ys : List ℕ) (x : ℕ) (xs : List ℕ) → Fresh x (ys ++ x ∷ xs) → ⊥
middle-inside [] x xs (ne, fresh) = ne refl
middle-inside (y ∷ ys) x xs (ne, fresh) = middle-inside ys x xs fresh

Fresh-middle : (y : ℕ) (ys : List ℕ) (x : ℕ) (xs : List ℕ) → Fresh y (ys ++ x ∷ xs) → y ≢ x
Fresh-middle y [] x xs (ne, fresh) = ne
Fresh-middle y (z ∷ ys) x xs (ne, fresh) = Fresh-middle y ys x xs fresh

list_del-middle :
    (ys : List ℕ) (x : ℕ) (xs : List ℕ)
    → Distinct (ys ++ x ∷ xs)
    → Delete.list_del x (ys ++ x ∷ xs) ≡ ys ++ xs
unfolding Delete.list_del
list_del-middle [] x xs distinct = ground arith
list_del-middle (y ∷ ys) x xs (once, distinct) =
    ground (arith, Fresh-middle y ys x xs once, list_del-middle ys x xs distinct)

Fresh-rest : (y : ℕ) (ys : List ℕ) (xs : List ℕ) → Fresh y (ys ++ xs) → Fresh y xs
Fresh-rest y [] xs fresh = fresh
Fresh-rest y (z ∷ ys) xs (ne, fresh) = Fresh-rest y ys xs fresh

-- The loop, with the nodes `ys` behind it.
for_each_safe-behind :
    (m : Links) (head : ℕ) (drop : ℕ → Bool) (ys xs : List ℕ)
    → IsRing m head (ys ++ xs)
    → (m' : Links) × (for_each_safe (length xs) head (first_or xs head) drop m ≡ some m')
      × IsRing m' head (ys ++ kept drop xs)
unfolding for_each_safe
for_each_safe-behind m head drop ys [] ring = (m, ground arith, ring)
for_each_safe-behind m head drop ys (x ∷ xs) ring =
    let not_head : (x == head) ≡ false = ground (arith, Fresh-middle head ys x xs ring.outside) in
    let next = Chain-next m head ys x xs head ring.chain in
    elim (Bool-cases (drop x)) [
      | inl dropped ↦
          let ring' =
            subst (IsRing (list_del x m) head) (list_del-middle ys x xs ring.distinct)
              (list_del-IsRing ring x (middle-inside ys x xs)) in
          let (m', e, done) = for_each_safe-behind (list_del x m) head drop ys xs ring' in
          rw (not_head, dropped, next) (m', e, done)
      | inr stays ↦
          let ring' = subst (IsRing m head) (sym (append_assoc ys (x ∷ []) xs)) ring in
          let (m', e, done) = for_each_safe-behind m head drop (ys ++ x ∷ []) xs ring' in
          rw (not_head, stays, next)
            (m', e, subst (IsRing m' head) (append_assoc ys (x ∷ []) (kept drop xs)) done)
    ]

-- LIST_FOR_EACH_ENTRY_SAFE, with a body that deletes some of the nodes it is at, ends, and leaves
-- the list of the others, in order.
pub for_each_safe-IsRing :
    (m : Links) (head : ℕ) (drop : ℕ → Bool) (xs : List ℕ)
    → IsRing m head xs
    → (m' : Links) × (for_each_safe (length xs) head (m.next head) drop m ≡ some m')
      × IsRing m' head (kept drop xs)
for_each_safe-IsRing m head drop xs ring =
    rw (first m head xs head ring.chain) (for_each_safe-behind m head drop [] xs ring)
  where
    first : (m : Links) (a : ℕ) (xs : List ℕ) (b : ℕ) → Chain m a xs b → m.next a ≡ first_or xs b
    first m a [] b (to, from) = to
    first m a (x ∷ xs) b (to, from, chain) = to
