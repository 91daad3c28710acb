-- ===== src/Radixlog/Cache.antt =====
-- src/radixlog.c: what `find_log_table` sees after `get_log_table`, and that the table which is kept
-- from the last call is the one that a walk would find.
use libnvmmio.Prelude.{
  ℕ, ◌/◌, ◌%◌, ◌^◌, ◌≤◌, ◌≡◌, refl, ap, inl, inr, none, some, >>=-eq-some, Option-cases, sym,
  update, arith, ◌∙◌,
}
use libnvmmio.Radixlog.{TableType, lmd_shift, lgd_index, lud_index, lmd_index, table_span}
use mathlib.Core.Path.{subst}
use libnvmmio.Allocator.Pool.{Pool, pop_provider}
use libnvmmio.Allocator.Conserve.{stock, pop_provider-stock}
use libnvmmio.Config.{nr_log_sizes}
use libnvmmio.Radixlog.Walk.{
  Tables, TableHeap, alloc_log_table, claim, alloc_table, child_or_alloc, find_from, get_from,
  set_child,
}

-- The 2 MB piece of the file that an offset lies in: TABLE_MASK keeps 27 bits of its number.
abbrev pub piece : ℕ → ℕ
piece offset = offset / 2 ^ lmd_shift % table_span

-- The three indices of a walk depend on the piece alone.
pub indices-piece :
    (x y : ℕ)
    → piece x ≡ piece y
    → (lgd_index x ≡ lgd_index y) × (lud_index x ≡ lud_index y) × (lmd_index x ≡ lmd_index y)
indices-piece x y h = omega arith

pub find_from-piece :
    (type : TableType) (t : ℕ) (tables : Tables) (x y : ℕ)
    → piece x ≡ piece y
    → find_from type t tables x ≡ find_from type t tables y
unfolding find_from
find_from-piece TableType.table t tables x y h = refl
find_from-piece TableType.lmd t tables x y h = ground (arith, indices-piece x y h)
find_from-piece TableType.lud t tables x y h = ground (arith, indices-piece x y h)
find_from-piece TableType.lgd t tables x y h = ground (arith, indices-piece x y h)

-- `h'` has all links of `h`, and the tables in use keep their types.
pub record Grows (h h' : TableHeap) : Type 0 where
  pub links : (x i c : ℕ) → (h.tables x).entries i ≡ some c → (h'.tables x).entries i ≡ some c
  pub types : (x : ℕ) → stock h.pool x ≡ 0 → (h'.tables x).type ≡ (h.tables x).type
  pub stocks : (x : ℕ) → stock h'.pool x ≤ stock h.pool x

pub Grows-refl : (h : TableHeap) → Grows h h
Grows-refl h = record { links = λ x i c e. e; types = λ x z. refl; stocks = λ x. omega arith }

Grows-trans : {h h' h'' : TableHeap} → Grows h h' → Grows h' h'' → Grows h h''
Grows-trans g k = record {
  links = λ x i c e. k.links x i c (g.links x i c e);
  types = λ x z. k.types x (omega (arith, g.stocks x)) ∙ g.types x z;
  stocks = λ x. omega (arith, g.stocks x, k.stocks x);
}

module _ (parent index : ℕ) (type : TableType) (h : TableHeap)
    (empty : (h.tables parent).entries index ≡ none) {fresh : ℕ} {rest : Pool}
    (popped : pop_provider h.pool ≡ some (fresh, rest)) where
  abbrev allocated : Tables
  allocated =
      update h.tables fresh (record (h.tables fresh) { log_size = nr_log_sizes; type = type })

  abbrev linked : TableHeap
  linked = record { tables = set_child parent index fresh allocated; pool = rest }

  same_entries : (x i : ℕ) → (allocated x).entries i ≡ (h.tables x).entries i
  same_entries x i = ground arith

  alloc_table_lem : alloc_table parent index type h ≡ some (fresh, linked)
  unfolding alloc_table alloc_log_table claim
  alloc_table_lem = rw (popped) (
      ap (λ o. claim parent index fresh o (record { tables = allocated; pool = rest }))
        (same_entries parent index ∙ empty))

  linked-Grows : Grows h linked
  linked-Grows = record {
    links = λ x i c e. ground (arith, same_entries x i, same_entries parent i);
    types = λ x z. ground (arith, pop_provider-stock h.pool x popped);
    stocks = λ x. omega (arith, pop_provider-stock h.pool x popped);
  }

  linked-child : (linked.tables parent).entries index ≡ some fresh
  linked-child = ground arith

none≢some {ℓ} : {A : Type ℓ} {a : A} → none ≡ some a → ⊥
none≢some h = cc

-- What holds of one result of an optional computation holds of the result.
pub at_result {ℓ κ} : {A : Type ℓ} (P : A → Type κ) {a b : A} → some a ≡ some b → P a → P b
at_result P {a} {b} e h = let p : a ≡ b = cc in subst P p h

alloc_table-exhausted :
    (parent index : ℕ) (type : TableType) (h : TableHeap)
    → pop_provider h.pool ≡ none
    → alloc_table parent index type h ≡ none
unfolding alloc_table alloc_log_table
alloc_table-exhausted parent index type h exhausted = rw exhausted

child_or_alloc-Grows :
    (parent index : ℕ) (type : TableType) (h : TableHeap) {r : ℕ × TableHeap}
    → child_or_alloc parent index type h ≡ some r
    → Grows h r.1 × ((r.1.tables parent).entries index ≡ some r.0)
unfolding child_or_alloc
child_or_alloc-Grows parent index type h {r} e =
    elim (Option-cases ((h.tables parent).entries index)) [
      | inl empty ↦ elim (Option-cases (pop_provider h.pool)) [
        | inl exhausted ↦ absurd (
            none≢some (
              sym (alloc_table-exhausted parent index type h exhausted)
              ∙ rw (empty, child_or_alloc) at e))
        | inr ((fresh, rest), popped) ↦
            at_result
              (λ (s : ℕ × TableHeap). Grows h s.1 × ((s.1.tables parent).entries index ≡ some s.0))
              (sym (alloc_table_lem parent index type h empty popped)
                ∙ rw (empty, child_or_alloc) at e)
              (
                linked-Grows parent index type h empty popped,
                linked-child parent index type h empty popped,
              )
      ]
      | inr (c, there) ↦
          at_result
            (λ (s : ℕ × TableHeap). Grows h s.1 × ((s.1.tables parent).entries index ≡ some s.0))
            (rw (there, child_or_alloc) at e) (Grows-refl h, there)
    ]

pub get_from-Grows :
    (type : TableType) (t offset : ℕ) (h : TableHeap) {r : ℕ × TableHeap}
    → get_from type t offset h ≡ some r
    → Grows h r.1 × (find_from type t r.1.tables offset ≡ some r.0)
unfolding get_from find_from
get_from-Grows TableType.table t offset h e =
    at_result (λ (s : ℕ × TableHeap). Grows h s.1 × (some t ≡ some s.0)) e (Grows-refl h, refl)
get_from-Grows TableType.lmd t offset h e =
    child_or_alloc-Grows t (lmd_index offset) TableType.table h e
get_from-Grows TableType.lud t offset h e =
    let ((m, h'), e1, e2) = >>=-eq-some (child_or_alloc t (lud_index offset) TableType.lmd h) _ e in
    let (g1, l1) = child_or_alloc-Grows t (lud_index offset) TableType.lmd h e1 in
    let (g2, l2) = child_or_alloc-Grows m (lmd_index offset) TableType.table h' e2 in
    (Grows-trans g1 g2, rw (g2.links t (lud_index offset) m l1) l2)
get_from-Grows TableType.lgd t offset h e =
    let ((u, h'), e1, e2) = >>=-eq-some (child_or_alloc t (lgd_index offset) TableType.lud h) _ e in
    let ((m, h''), e3, e4) =
      >>=-eq-some (child_or_alloc u (lud_index offset) TableType.lmd h') _ e2 in
    let (g1, l1) = child_or_alloc-Grows t (lgd_index offset) TableType.lud h e1 in
    let (g2, l2) = child_or_alloc-Grows u (lud_index offset) TableType.lmd h' e3 in
    let (g3, l3) = child_or_alloc-Grows m (lmd_index offset) TableType.table h'' e4 in
    (
      Grows-trans g1 (Grows-trans g2 g3),
      rw ((Grows-trans g2 g3).links t (lgd_index offset) u l1, g3.links u (lud_index offset) m l2)
          l3,
    )
