-- ===== src/Radixlog/Walk.antt =====
-- src/radixlog.c: how the tables are built and walked.
use libnvmmio.Prelude.{
  ℕ, ◌/◌, ◌%◌, ◌^◌, Bool, Option, none, some, ◌>>=◌, ◌==◌, if◌then◌else◌, update,
}
use libnvmmio.Config.{nr_log_sizes}
use libnvmmio.Allocator.Pool.{Pool, pop_provider, push_collector}
use libnvmmio.Radixlog.{
  TableType, LogTable, RadixRoot, lgd_shift, lud_shift, lmd_shift, lgd_index, lud_index, lmd_index,
  table_span,
}

abbrev pub Tables : Type 0
Tables = ℕ → LogTable

-- The memory of the tables, and the free ones.
pub record TableHeap : Type 0 where
  pub tables : Tables
  pub pool : Pool

unfoldable pub alloc_log_table : TableType → TableHeap → Option (ℕ × TableHeap)
alloc_log_table type h = do
  (t, pool) ← pop_provider h.pool
  some (
    t,
    record {
      tables = update h.tables t (record (h.tables t) { log_size = nr_log_sizes; type = type });
      pool = pool;
    },
  )

unfoldable pub free_log_table : ℕ → TableHeap → Option TableHeap
free_log_table t h = do pool ← push_collector t h.pool; some (record h { pool = pool })

abbrev pub set_child : ℕ → ℕ → ℕ → Tables → Tables
set_child parent index t tables =
    update tables parent
      (record (tables parent) { entries = update (tables parent).entries index (some t) })

-- The compare-and-swap of ALLOC_TABLE, by what it finds: it fails where another thread was first.
unfoldable pub claim : (parent index t : ℕ) → Option ℕ → TableHeap → Option (ℕ × TableHeap)
claim parent index t none h = some (t, record h { tables = set_child parent index t h.tables })
claim parent index t (some other) h = do h' ← free_log_table t h; some (other, h')

-- ALLOC_TABLE
unfoldable pub alloc_table : (parent index : ℕ) → TableType → TableHeap → Option (ℕ × TableHeap)
alloc_table parent index type h = do
  (t, h') ← alloc_log_table type h
  claim parent index t ((h'.tables parent).entries index) h'

-- `x = parent->entries[index]; if (x == NULL) ALLOC_TABLE(x, ...)`
unfoldable pub child_or_alloc : (parent index : ℕ) → TableType → TableHeap → Option (ℕ × TableHeap)
child_or_alloc parent index type h = elim ((h.tables parent).entries index) [
  | none ↦ alloc_table parent index type h
  | some t ↦ some (t, h)
]

unfoldable pub check_prev_table : (prev_table_index offset : ℕ) → Bool
check_prev_table prev_table_index offset = prev_table_index == offset / 2 ^ lmd_shift % table_span

unfoldable pub get_deepest_table_type : ℕ → TableType
get_deepest_table_type maxoff =
    if maxoff / 2 ^ lmd_shift == 0
    then TableType.table
    else if maxoff / 2 ^ lud_shift == 0
    then TableType.lmd
    else if maxoff / 2 ^ lgd_shift == 0
    then TableType.lud
    else TableType.lgd

-- The `switch` of `find_log_table`, from a table of the given type on.
unfoldable pub find_from : TableType → ℕ → Tables → (offset : ℕ) → Option ℕ
find_from TableType.table t tables offset = some t
find_from TableType.lmd t tables offset = (tables t).entries (lmd_index offset)
find_from TableType.lud t tables offset = do
  m ← (tables t).entries (lud_index offset)
  (tables m).entries (lmd_index offset)
find_from TableType.lgd t tables offset = do
  u ← (tables t).entries (lgd_index offset)
  m ← (tables u).entries (lud_index offset)
  (tables m).entries (lmd_index offset)

unfoldable pub find_log_table : RadixRoot → Tables → (offset : ℕ) → Option ℕ
find_log_table root tables offset = do
  skip ← root.skip
  find_from (tables skip).type skip tables offset

-- The `switch` of `get_log_table`.
unfoldable pub get_from : TableType → ℕ → (offset : ℕ) → TableHeap → Option (ℕ × TableHeap)
get_from TableType.table t offset h = some (t, h)
get_from TableType.lmd t offset h = child_or_alloc t (lmd_index offset) TableType.table h
get_from TableType.lud t offset h = do
  (m, h') ← child_or_alloc t (lud_index offset) TableType.lmd h
  child_or_alloc m (lmd_index offset) TableType.table h'
get_from TableType.lgd t offset h = do
  (u, h') ← child_or_alloc t (lgd_index offset) TableType.lud h
  (m, h'') ← child_or_alloc u (lud_index offset) TableType.lmd h'
  child_or_alloc m (lmd_index offset) TableType.table h''

-- A root with no `skip` makes the source read through NULL: `none`.
unfoldable pub get_log_table :
    RadixRoot → (offset : ℕ) → TableHeap → Option (ℕ × RadixRoot × TableHeap)
get_log_table root offset h =
    if check_prev_table root.prev_table_index offset then some (root.prev_table, root, h) else (do
      skip ← root.skip
      (t, h') ← get_from (h.tables skip).type skip offset h
      some (
        t,
        record root { prev_table = t; prev_table_index = offset / 2 ^ lmd_shift % table_span },
        h',
      ))
