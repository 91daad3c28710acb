-- ===== src/Radixlog/Rooted.antt =====
-- src/radixlog.c: the path that init_radixlog builds.
use libnvmmio.Prelude.{
  ℕ, zero, suc, ◌+◌, ◌-◌, ◌≤◌, ◌<◌, ◌≡◌, refl, inl, inr, Bool-cases, Option, none, some, leb,
  if◌then◌else◌, ◌^◌, arith, ap, sym, Option-cases, leb→le, ◌∙◌,
}
use mathlib.Core.Logic.{◌⊎◌}
use mathlib.Core.Path.{subst}
use libnvmmio.Prelude.Words.{sub64}
use libnvmmio.Allocator.Supply.{WellFormed, pop_provider-WellFormed}
use libnvmmio.Allocator.Take.{left, left-HasLeft, pop_provider-left}
use libnvmmio.Radixlog.{TableType, RadixRoot}
use libnvmmio.Radixlog.Walk.{Tables, TableHeap, alloc_log_table, get_deepest_table_type}
use libnvmmio.Radixlog.Init.{number, next_table_type, link, init_loop, init_radixlog}

-- Lookups skip to a table of the type, and no earlier table is kept.
pub record Rooted (type : TableType) (r : RadixRoot × TableHeap) : Type 0 where
  pub skip : ℕ
  pub skips : r.0.skip ≡ some skip
  pub same_type : (r.1.tables skip).type ≡ type
  pub none_kept : r.0.prev_table_index ≡ 2 ^ 64 - 1
  pub well_formed : WellFormed r.1.pool

record Allocated (type : TableType) (h : TableHeap) (t : ℕ) (h' : TableHeap) : Type 0 where
  same_type : (h'.tables t).type ≡ type
  one_less : left h.pool ≡ 1 + left h'.pool
  well_formed : WellFormed h'.pool

alloc_log_table-Allocated :
    (type : TableType) (h : TableHeap)
    → WellFormed h.pool
    → 0 < left h.pool
    → (t : ℕ) × (h' : TableHeap) × (alloc_log_table type h ≡ some (t, h')) × Allocated type h t h'
unfolding alloc_log_table
alloc_log_table-Allocated type h ok enough =
    let (t, pool, e, ok') = pop_provider-WellFormed h.pool ok (left-HasLeft h.pool enough) in
    rw e (
      t,
      _,
      refl,
      record { same_type = ground arith; one_less = pop_provider-left h.pool e; well_formed = ok' },
    )

-- The new table is linked, and no type changes.
record Linked (tables : Tables) (r : RadixRoot × Tables) : Type 0 where
  same_types : (x : ℕ) → (r.1 x).type ≡ (tables x).type

link-child :
    (parent : ℕ) (type : TableType) (maxoff t : ℕ) (root : RadixRoot) (tables : Tables)
    → number type < 4
    → (r : RadixRoot × Tables) × (link (some parent) type maxoff t (root, tables) ≡ some r)
      × Linked tables r
unfolding link
link-child parent TableType.table maxoff t root tables lt =
    (_, refl, record { same_types = λ x. ground arith })
link-child parent TableType.lmd maxoff t root tables lt =
    (_, refl, record { same_types = λ x. ground arith })
link-child parent TableType.lud maxoff t root tables lt =
    (_, refl, record { same_types = λ x. ground arith })
link-child parent TableType.lgd maxoff t root tables lt = absurd (omega arith)

link-Linked :
    (parent : Option ℕ) (type : TableType) (maxoff t : ℕ) (root : RadixRoot) (tables : Tables)
    → (parent ≡ none) ⊎ (number type < 4)
    → (r : RadixRoot × Tables) × (link parent type maxoff t (root, tables) ≡ some r)
      × Linked tables r
unfolding link
link-Linked none type maxoff t root tables top = (_, refl, record { same_types = λ x. refl })
link-Linked (some parent) type maxoff t root tables (inl absent) = cc
link-Linked (some parent) type maxoff t root tables (inr lt) =
    link-child parent type maxoff t root tables lt

some_inj {ℓ} : {A : Type ℓ} {a b : A} → some a ≡ some b → a ≡ b
some_inj e = cc e

abbrev type_of : ℕ → TableType
type_of n =
    if leb n 1
    then TableType.table
    else if leb n 2
    then TableType.lmd
    else if leb n 3
    then TableType.lud
    else TableType.lgd

type_of-number : (type : TableType) → type_of (number type) ≡ type
type_of-number TableType.table = refl
type_of-number TableType.lmd = refl
type_of-number TableType.lud = refl
type_of-number TableType.lgd = refl

number_inj : (a b : TableType) → number a ≡ number b → a ≡ b
number_inj a b e = sym (type_of-number a) ∙ ap type_of e ∙ type_of-number b

number-next :
    (type next : TableType)
    → next_table_type type ≡ some next
    → (number type ≡ 1 + number next) × (number next < 4)
number-next TableType.table next e = cc
number-next TableType.lmd next e =
    subst (λ n. (2 ≡ 1 + number n) × (number n < 4)) (some_inj e) (refl, omega arith)
number-next TableType.lud next e =
    subst (λ n. (3 ≡ 1 + number n) × (number n < 4)) (some_inj e) (refl, omega arith)
number-next TableType.lgd next e =
    subst (λ n. (4 ≡ 1 + number n) × (number n < 4)) (some_inj e) (refl, omega arith)

number_last : (type : TableType) → next_table_type type ≡ none → number type ≡ 1
number_last TableType.table e = refl
number_last TableType.lmd e = cc
number_last TableType.lud e = cc
number_last TableType.lgd e = cc

number-le : (type : TableType) → number type ≤ 4
number-le TableType.table = omega arith
number-le TableType.lmd = omega arith
number-le TableType.lud = omega arith
number-le TableType.lgd = omega arith

number_pos : (type : TableType) → 0 < number type
number_pos TableType.table = omega arith
number_pos TableType.lmd = omega arith
number_pos TableType.lud = omega arith
number_pos TableType.lgd = omega arith

init_loop-Rooted :
    (rounds : ℕ) (deepest type : TableType) (parent : Option ℕ) (maxoff : ℕ) (root : RadixRoot)
    (h : TableHeap)
    → (parent ≡ none) ⊎ (number type < 4)
    → number deepest ≤ number type
    → number type ≤ rounds
    → WellFormed h.pool
    → number type ≤ left h.pool
    → (r : RadixRoot × TableHeap) × (init_loop rounds deepest type parent maxoff root h ≡ some r)
      × Rooted deepest r
unfolding init_loop
init_loop-Rooted zero deepest type parent maxoff root h top le enough ok stock =
    absurd (omega (arith, number_pos type))
init_loop-Rooted (suc rounds) deepest type parent maxoff root h top le enough ok stock =
    let (t, h', e1, new) = alloc_log_table-Allocated type h ok (omega (arith, number_pos type)) in
    let ((root', tables), e2, linked) = link-Linked parent type maxoff t root h'.tables top in
    let reached : type ≡ deepest
        → Rooted deepest (
          record root' { skip = some t; prev_table_index = 2 ^ 64 - 1 },
          record h' { tables = tables },
        ) =
      λ same. record {
        skip = t;
        skips = refl;
        same_type = linked.same_types t ∙ new.same_type ∙ same;
        none_kept = refl;
        well_formed = new.well_formed;
      } in
    elim (Option-cases (next_table_type type)) [
      | inl e ↦
          rw (e1, e2, e)
            (
              _,
              refl,
              reached
                  (number_inj type deepest (omega (arith, number_last type e, number_pos deepest))),
            )
      | inr (next, e) ↦ elim (Bool-cases (leb (number deepest) (number next))) [
        | inl deeper ↦
            (let (r, e3, rooted) =
                init_loop-Rooted rounds deepest next (some t) maxoff root'
                  (record h' { tables = tables }) (inr (number-next type next e).1)
                  (leb→le (number deepest) (number next) deeper)
                  (omega (arith, number-next type next e)) new.well_formed
                  (omega (arith, number-next type next e, new.one_less)) in
              rw (e1, e2, e, deeper) (r, e3, rooted))
        | inr last ↦
            rw (e1, e2, e, last)
              (
                _,
                refl,
                reached
                    (number_inj type deepest (ground (arith, last, le, number-next type next e))),
              )
      ]
    ]

pub init_radixlog-Rooted :
    (root : RadixRoot) (filesize : ℕ) (h : TableHeap)
    → WellFormed h.pool
    → 4 ≤ left h.pool
    → (r : RadixRoot × TableHeap) × (init_radixlog root filesize h ≡ some r)
      × Rooted (get_deepest_table_type (sub64 filesize 1)) r
unfolding init_radixlog
init_radixlog-Rooted root filesize h ok enough =
    let deepest = get_deepest_table_type (sub64 filesize 1) in
    init_loop-Rooted 4 deepest TableType.lgd none (sub64 filesize 1) root h (inl refl)
      (number-le deepest) (omega arith) ok enough
