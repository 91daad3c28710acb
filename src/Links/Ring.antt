-- ===== src/Links/Ring.antt =====
-- src/list.h: what the links of a well-formed list say, and how the operations change it.
use libnvmmio.Prelude.{ℕ, ◌≡◌, ◌≢◌, refl, sym, ◌∙◌, some, List, [], ◌∷◌, ◌++◌, arith, length}
use mathlib.Core.Path.{subst}
use libnvmmio.Links.{Links, init_list_head, add_between, list_add, list_add_tail, for_each}

-- The nodes `xs` stand between `a` and `b`, each linked to both its neighbours.
abbrev pub Chain : Links → (a : ℕ) → List ℕ → (b : ℕ) → Type 0
Chain m a [] b = (m.next a ≡ b) × (m.prev b ≡ a)
Chain m a (x ∷ xs) b = (m.next a ≡ x) × (m.prev x ≡ a) × Chain m x xs b

-- `x` is none of the nodes.
abbrev pub Fresh : ℕ → List ℕ → Type 0
Fresh x [] = Unit
Fresh x (y ∷ ys) = (x ≢ y) × Fresh x ys

abbrev pub Distinct : List ℕ → Type 0
Distinct [] = Unit
Distinct (x ∷ xs) = Fresh x xs × Distinct xs

-- The list at `head` holds the nodes `xs`, no two of them the same.
pub record IsRing (m : Links) (head : ℕ) (xs : List ℕ) : Type 0 where
  pub chain : Chain m head xs head
  pub outside : Fresh head xs
  pub distinct : Distinct xs

-- Two sets of links that agree on the nodes between `a` and `b`.
pub Chain-agree :
    (m m' : Links) (a : ℕ) (xs : List ℕ) (b : ℕ)
    → m'.next a ≡ m.next a
    → ((y : ℕ) → (Fresh y xs → ⊥) → (m'.next y ≡ m.next y) × (m'.prev y ≡ m.prev y))
    → m'.prev b ≡ m.prev b
    → Chain m a xs b
    → Chain m' a xs b
Chain-agree m m' a [] b first same last (to, from) = (first ∙ to, last ∙ from)
Chain-agree m m' a (x ∷ xs) b first same last (to, from, chain) =
    let here = same x (λ fresh. fresh.0 refl) in
    (
      first ∙ to,
      here.1 ∙ from,
      Chain-agree m m' x xs b here.0 (λ y inside. same y (λ fresh. inside fresh.1)) last chain,
    )

pub init_list_head-IsRing : (head : ℕ) (m : Links) → IsRing (init_list_head head m) head []
unfolding init_list_head
init_list_head-IsRing head m = record { chain = ground arith; outside = tt; distinct = tt }

-- The last node before `b` is one of the nodes.
pub last-inside :
    (m : Links) (a : ℕ) (xs : List ℕ) (b : ℕ) → Chain m a xs b → Fresh (m.prev b) (a ∷ xs) → ⊥
last-inside m a [] b (to, from) (differs, fresh) = differs from
last-inside m a (x ∷ xs) b (to, from, chain) (differs, fresh) = last-inside m x xs b chain fresh

pub other_node : (x y : ℕ) (xs : List ℕ) → Fresh x xs → (Fresh y xs → ⊥) → y ≢ x
other_node x y xs fresh inside same = inside (subst (λ z. Fresh z xs) (sym same) fresh)

module _ (m : Links) (entry head : ℕ) (new : entry ≢ head) where
  -- `list_add` puts a new node first.
  list_add-Chain :
      (xs : List ℕ)
      → Fresh entry xs
      → Fresh head xs
      → Distinct xs
      → Chain m head xs head
      → Chain (list_add entry head m) head (entry ∷ xs) head
  unfolding list_add add_between
  list_add-Chain [] fresh outside distinct (to, from) = ground (arith, new)
  list_add-Chain (x ∷ xs) (differ, fresh) (apart, outside) (once, distinct) (to, from, chain) = (
    ground arith,
    ground (arith, new),
    (
      ground (arith, new, from, to),
      ground (arith, new, differ, from, to),
      Chain-agree m (list_add entry head m) x xs head (ground (arith, differ, apart))
          (λ y inside.
            let not_head = other_node head y xs outside inside in
            let not_entry = other_node entry y xs fresh inside in
            let not_x = other_node x y xs once inside in ground (arith, not_head, not_entry, not_x))
          (ground (arith, new, apart)) chain,
    ),
  )

  pub list_add-IsRing :
      (xs : List ℕ)
      → Fresh entry xs
      → IsRing m head xs
      → IsRing (list_add entry head m) head (entry ∷ xs)
  list_add-IsRing xs fresh ring = record {
    chain = list_add-Chain xs fresh ring.outside ring.distinct ring.chain;
    outside = (λ same. new (sym same), ring.outside);
    distinct = (fresh, ring.distinct);
  }

  -- `list_add_tail` puts a new node last: the nodes between `a` and the head.
  list_add_tail-Chain :
      (a : ℕ) (xs : List ℕ)
      → entry ≢ a
      → Fresh entry xs
      → Fresh head xs
      → Fresh a xs
      → Distinct xs
      → Chain m a xs head
      → Chain (list_add_tail entry head m) a (xs ++ entry ∷ []) head
  unfolding list_add_tail add_between
  list_add_tail-Chain a [] apart fresh outside out distinct (to, from) = ground (arith, new, apart)
  list_add_tail-Chain a (x ∷ xs) apart (differ, fresh) (away, outside) (ne, out) (once, distinct)
        (to, from, chain) =
      let not_last : m.prev head ≢ a = λ same.
        last-inside m x xs head chain (subst (λ z. Fresh z (x ∷ xs)) (sym same) (ne, out)) in
      (
        ground (arith, not_last, apart),
        ground (arith, new, differ, away),
        list_add_tail-Chain x xs differ fresh outside once distinct chain,
      )

  Fresh-append : (y : ℕ) (xs : List ℕ) → Fresh y xs → y ≢ entry → Fresh y (xs ++ entry ∷ [])
  Fresh-append y [] fresh differ = (differ, tt)
  Fresh-append y (x ∷ xs) (ne, fresh) differ = (ne, Fresh-append y xs fresh differ)

  Distinct-append : (xs : List ℕ) → Fresh entry xs → Distinct xs → Distinct (xs ++ entry ∷ [])
  Distinct-append [] fresh distinct = (tt, tt)
  Distinct-append (x ∷ xs) (ne, fresh) (once, distinct) =
      (Fresh-append x xs once (λ same. ne (sym same)), Distinct-append xs fresh distinct)

  pub list_add_tail-IsRing :
      (xs : List ℕ)
      → Fresh entry xs
      → IsRing m head xs
      → IsRing (list_add_tail entry head m) head (xs ++ entry ∷ [])
  list_add_tail-IsRing xs fresh ring = record {
    chain =
        list_add_tail-Chain head xs new fresh ring.outside ring.outside ring.distinct ring.chain;
    outside = Fresh-append head xs ring.outside (λ same. new (sym same));
    distinct = Distinct-append xs fresh ring.distinct;
  }

-- The walk visits the nodes in order, and ends.
for_each-Chain :
    (m : Links) (head a : ℕ) (xs : List ℕ)
    → Fresh head xs
    → Chain m a xs head
    → for_each (length xs) head (m.next a) m ≡ some xs
unfolding for_each
for_each-Chain m head a [] outside (to, from) = ground (arith, to)
for_each-Chain m head a (x ∷ xs) (away, outside) (to, from, chain) =
    ground (arith, to, away, for_each-Chain m head x xs outside chain)

pub for_each-IsRing :
    {m : Links} {head : ℕ} {xs : List ℕ}
    → IsRing m head xs
    → for_each (length xs) head (m.next head) m ≡ some xs
for_each-IsRing {m} {head} {xs} ring = for_each-Chain m head head xs ring.outside ring.chain
