-- ===== src/Radixlog/Sized.antt =====
-- src/radixlog.c: the log sizes that the tables have: one of the ten, or none yet.
use libnvmmio.Prelude.{ℕ, ◌≤◌, ◌≡◌, inl, inr, Bool-cases, some, >>=-eq-some, arith}
use libnvmmio.Config.{nr_log_sizes}
use libnvmmio.Radixlog.{TableType, RadixRoot, lgd_index, lud_index, lmd_index}
use libnvmmio.Radixlog.Size.{set_log_size-le}
use libnvmmio.Radixlog.Walk.{
  Tables, TableHeap, alloc_log_table, free_log_table, claim, alloc_table, child_or_alloc, get_from,
  get_log_table, check_prev_table,
}
use libnvmmio.Radixlog.Entries.{EntryHeap, get_log_size, get_log_entry, claim_entry}

-- `nr_log_sizes` stands for a table whose size is not set.
abbrev pub IsSized : Tables → Type 0
IsSized tables = (t : ℕ) → (tables t).log_size ≤ nr_log_sizes

child_or_alloc-IsSized :
    (parent index : ℕ) (type : TableType) (h : TableHeap) {r : ℕ × TableHeap}
    → child_or_alloc parent index type h ≡ some r
    → IsSized h.tables
    → IsSized r.1.tables
unfolding child_or_alloc alloc_table alloc_log_table claim free_log_table
child_or_alloc-IsSized parent index type h e sized x = ground (arith, e, sized x, sized parent)

get_from-IsSized :
    (type : TableType) (t offset : ℕ) (h : TableHeap) {r : ℕ × TableHeap}
    → get_from type t offset h ≡ some r
    → IsSized h.tables
    → IsSized r.1.tables
unfolding get_from
get_from-IsSized TableType.table t offset h e sized = λ x. ground (arith, e, sized x)
get_from-IsSized TableType.lmd t offset h e sized =
    child_or_alloc-IsSized t (lmd_index offset) TableType.table h e sized
get_from-IsSized TableType.lud t offset h e sized =
    let ((m, h'), e1, e2) = >>=-eq-some (child_or_alloc t (lud_index offset) TableType.lmd h) _ e in
    child_or_alloc-IsSized m (lmd_index offset) TableType.table h' e2
      (child_or_alloc-IsSized t (lud_index offset) TableType.lmd h e1 sized)
get_from-IsSized TableType.lgd t offset h e sized =
    let ((u, h'), e1, e2) = >>=-eq-some (child_or_alloc t (lgd_index offset) TableType.lud h) _ e in
    let ((m, h''), e3, e4) =
      >>=-eq-some (child_or_alloc u (lud_index offset) TableType.lmd h') _ e2 in
    child_or_alloc-IsSized m (lmd_index offset) TableType.table h'' e4 (
      child_or_alloc-IsSized u (lud_index offset) TableType.lmd h' e3
        (child_or_alloc-IsSized t (lgd_index offset) TableType.lud h e1 sized))

pub get_log_table-IsSized :
    (root : RadixRoot) (offset : ℕ) (h : TableHeap) {r : ℕ × RadixRoot × TableHeap}
    → get_log_table root offset h ≡ some r
    → IsSized h.tables
    → IsSized r.2.tables
unfolding get_log_table
get_log_table-IsSized root offset h {r} e sized =
    elim (Bool-cases (check_prev_table root.prev_table_index offset)) [
      | inl hit ↦ (λ x. ground (arith, e, hit, sized x))
      | inr miss ↦
          (let (skip, e1, e2) = >>=-eq-some root.skip _ (rw miss at e) in
            let ((t, h'), e3, e4) =
              >>=-eq-some (get_from (h.tables skip).type skip offset h) _ e2 in
            let sized' = get_from-IsSized (h.tables skip).type skip offset h e3 sized in
            λ x. ground (arith, e4, sized' x))
    ]

pub get_log_size-IsSized :
    (t offset len : ℕ) (tables : Tables)
    → IsSized tables
    → let r = get_log_size t offset len tables in (r.0 ≤ 9) × IsSized r.1
unfolding get_log_size
get_log_size-IsSized t offset len tables sized = (
  ground (arith, sized t, set_log_size-le offset len),
  λ x. ground (arith, sized x, set_log_size-le offset len),
)

pub get_log_entry-IsSized :
    (epoch t index log_size : ℕ) (tables : Tables) (h : EntryHeap) {r : ℕ × Tables × EntryHeap}
    → get_log_entry epoch t index log_size (tables, h) ≡ some r
    → IsSized tables
    → IsSized r.1
unfolding get_log_entry claim_entry
get_log_entry-IsSized epoch t index log_size tables h e sized x =
    ground (arith, e, sized x, sized t)
