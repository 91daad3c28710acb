-- ===== src/Links/Deletion.antt =====
-- src/list.h: deletion of a node.
use libnvmmio.Prelude.{
  ℕ, ◌≡◌, ◌≢◌, sym, ◌∙◌, ap, inl, inr, Bool-cases, List, [], ◌∷◌, ◌++◌, ◌==◌, arith, ==_iff,
  equal_or_not,
}
use mathlib.Core.Path.{subst}
use libnvmmio.Links.{Links, init_list_head, join, list_del, list_del_init, list_move_tail}
use libnvmmio.Links.Ring.{
  Chain, Fresh, Distinct, IsRing, Chain-agree, list_add_tail-IsRing, other_node,
}
use libnvmmio.FileHash.Delete

-- The first node after `a` is one of the nodes, or `b`.
first-inside :
    (m : Links) (a : ℕ) (xs : List ℕ) (b : ℕ)
    → Chain m a xs b
    → m.next a ≢ b
    → Fresh (m.next a) xs
    → ⊥
first-inside m a [] b (to, from) differs fresh = differs to
first-inside m a (x ∷ xs) b (to, from, chain) differs fresh = fresh.0 to

-- So is the node after any node.
next-inside :
    (m : Links) (a : ℕ) (xs : List ℕ) (b y : ℕ)
    → Chain m a xs b
    → (Fresh y xs → ⊥)
    → m.next y ≢ b
    → Fresh (m.next y) xs
    → ⊥
next-inside m a [] b y chain inside differs fresh = inside tt
next-inside m a (x ∷ xs) b y (to, from, chain) inside differs fresh = elim (equal_or_not y x) [
  | inl here ↦
      first-inside m x xs b chain (subst (λ z. m.next z ≢ b) here differs)
        (subst (λ z. Fresh (m.next z) xs) here fresh.1)
  | inr later ↦ next-inside m x xs b y chain (λ away. inside (later, away)) differs fresh.1
]

prev-inside :
    (m : Links) (a : ℕ) (xs : List ℕ) (b y : ℕ)
    → Chain m a xs b
    → (Fresh y xs → ⊥)
    → Fresh (m.prev y) (a ∷ xs)
    → ⊥
prev-inside m a [] b y chain inside fresh = inside tt
prev-inside m a (x ∷ xs) b y (to, from, chain) inside fresh = elim (equal_or_not y x) [
  | inl here ↦ fresh.0 (ap m.prev here ∙ from)
  | inr later ↦ prev-inside m x xs b y chain (λ away. inside (later, away)) fresh.1
]

-- The deletion of the first node.
list_del-first :
    (m : Links) (x a : ℕ) (xs : List ℕ) (b : ℕ)
    → Fresh a (x ∷ xs)
    → Fresh b xs
    → Distinct xs
    → Chain m a (x ∷ xs) b
    → Chain (list_del x m) a xs b
unfolding list_del join
list_del-first m x a [] b out outside distinct (to, from, (next_to, next_from)) =
    ground (arith, to, from, next_to, next_from)
list_del-first m x a (y ∷ ys) b (ne, (away, out)) (apart, outside) (once, distinct)
      (to, from, (next_to, next_from, chain)) =
    (
      ground (arith, from, next_to),
      ground (arith, from, next_to),
      Chain-agree m (list_del x m) y ys b (ground (arith, from, away))
          (λ z inside.
            let not_a = other_node a z ys out inside in
            let not_y = other_node y z ys once inside in
            ground (arith, from, next_to, not_a, not_y))
          (ground (arith, next_to, apart)) chain,
    )

-- The deletion of a node leaves the other nodes, in order.
list_del-Chain :
    (m : Links) (entry a : ℕ) (xs : List ℕ) (b : ℕ)
    → (Fresh entry xs → ⊥)
    → Fresh a xs
    → Fresh b xs
    → Distinct xs
    → Chain m a xs b
    → Chain (list_del entry m) a (Delete.list_del entry xs) b
unfolding list_del join Delete.list_del
list_del-Chain m entry a [] b inside out outside distinct chain = absurd (inside tt)
list_del-Chain m entry a (x ∷ xs) b inside out outside distinct (to, from, chain) =
    elim (Bool-cases (entry == x)) [
      | inl here ↦
          let same : entry ≡ x = (==_iff entry x).0 here in
          rw here (
            subst (λ z. Chain (list_del z m) a xs b) (sym same)
              (list_del-first m x a xs b out outside.1 distinct.1 (to, from, chain)))
      | inr later ↦
          let differ : entry ≢ x = ground (arith, later) in
          let inside' : Fresh entry xs → ⊥ = λ away. inside (differ, away) in
          let not_a : m.prev entry ≢ a = λ same.
            prev-inside m x xs b entry chain inside'
              (subst (λ z. Fresh z (x ∷ xs)) (sym same) out) in
          let not_x : m.next entry ≢ x = λ same.
            next-inside m x xs b entry chain inside' (λ end. outside.0 (sym end ∙ same))
              (subst (λ z. Fresh z xs) (sym same) distinct.0) in
          rw later (
            ground (arith, not_a, to),
            ground (arith, not_x, from),
            list_del-Chain m entry x xs b inside' distinct.0 outside.1 distinct.1 chain,
          )
    ]

Fresh-list_del : (y x : ℕ) (xs : List ℕ) → Fresh y xs → Fresh y (Delete.list_del x xs)
unfolding Delete.list_del
Fresh-list_del y x [] fresh = tt
Fresh-list_del y x (z ∷ zs) (ne, fresh) = elim (Bool-cases (x == z)) [
  | inl here ↦ rw here fresh
  | inr later ↦ rw later (ne, Fresh-list_del y x zs fresh)
]

Distinct-list_del : (x : ℕ) (xs : List ℕ) → Distinct xs → Distinct (Delete.list_del x xs)
unfolding Delete.list_del
Distinct-list_del x [] distinct = tt
Distinct-list_del x (z ∷ zs) (once, distinct) = elim (Bool-cases (x == z)) [
  | inl here ↦ rw here distinct
  | inr later ↦ rw later (Fresh-list_del z x zs once, Distinct-list_del x zs distinct)
]

list_del-Fresh : (x : ℕ) (xs : List ℕ) → Distinct xs → Fresh x (Delete.list_del x xs)
unfolding Delete.list_del
list_del-Fresh x [] distinct = tt
list_del-Fresh x (z ∷ zs) (once, distinct) = elim (Bool-cases (x == z)) [
  | inl here ↦ rw here (subst (λ y. Fresh y zs) (sym ((==_iff x z).0 here)) once)
  | inr later ↦ rw later ((λ same. ground (arith, later, same)), list_del-Fresh x zs distinct)
]

module _ {m : Links} {head : ℕ} {xs : List ℕ} (ring : IsRing m head xs) (entry : ℕ)
    (inside : Fresh entry xs → ⊥) where
  pub list_del-IsRing : IsRing (list_del entry m) head (Delete.list_del entry xs)
  list_del-IsRing = record {
    chain =
        list_del-Chain m entry head xs head inside ring.outside ring.outside ring.distinct
          ring.chain;
    outside = Fresh-list_del head entry xs ring.outside;
    distinct = Distinct-list_del entry xs ring.distinct;
  }

  not_head : entry ≢ head
  not_head same = inside (subst (λ z. Fresh z xs) (sym same) ring.outside)

  pub list_move_tail-IsRing :
      IsRing (list_move_tail entry head m) head (Delete.list_del entry xs ++ entry ∷ [])
  unfolding list_move_tail
  list_move_tail-IsRing =
      unfold list_del in
      list_add_tail-IsRing (list_del entry m) entry head not_head (Delete.list_del entry xs)
        (list_del-Fresh entry xs ring.distinct) list_del-IsRing

  -- The node that is left out becomes a list of its own.
  pub list_del_init-IsRing :
      IsRing (list_del_init entry m) head (Delete.list_del entry xs)
      × IsRing (list_del_init entry m) entry []
  unfolding list_del_init init_list_head list_del
  list_del_init-IsRing =
      let ring' = list_del-IsRing in
      (
        record {
          chain =
              Chain-agree (list_del entry m) (list_del_init entry m) head (Delete.list_del entry xs)
                head (ground (arith, not_head))
                (λ y there.
                  let other =
                    other_node entry y (Delete.list_del entry xs)
                      (list_del-Fresh entry xs ring.distinct) there in
                  ground (arith, other))
                (ground (arith, not_head)) ring'.chain;
          outside = ring'.outside;
          distinct = ring'.distinct;
        },
        record { chain = ground arith; outside = tt; distinct = tt },
      )
