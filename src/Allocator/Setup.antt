-- ===== src/Allocator/Setup.antt =====
-- src/allocator.c: the free lists that init_allocator makes, out of memory that `malloc` and
-- `alloc_pmem` give.
use libnvmmio.Prelude.{ℕ, zero, suc, ◌+◌, ◌-◌, ◌*◌, ◌/◌, ◌%◌, ◌^◌, none, [], update}
use libnvmmio.Config.{
  nr_log_sizes, nr_node_fill, log_file_size, nr_alloc_tables, nr_mmios, nr_mmio_fill,
}
use libnvmmio.Lock.{unlocked}
use libnvmmio.Allocator.{Flist, alloc_flist, put_global}
use libnvmmio.Allocator.Pool.{Pool}
use libnvmmio.Radixlog.{IdxEntry, undo, log_bytes, page_shift}
use libnvmmio.Radixlog.Walk.{Tables, TableHeap}
use libnvmmio.Mmio.{Mmio}
use libnvmmio.FileHash.Delete.{init_mmio, Process}

module _ {ℓ} {S : Type ℓ} (addr size : ℕ) (init_obj : ℕ → S → S) where
  -- What is left of the loop from `i` on. A call with `init_obj` NULL has the function that does
  -- nothing.
  unfoldable pub create_loop : (rounds i : ℕ) → Flist × S → Flist × S
  create_loop zero i s = s
  create_loop (suc rounds) i (global, s) =
      let obj = addr + i * size in
      create_loop rounds (i + 1) (put_global obj global, init_obj obj s)

  unfoldable pub create_global_list : (count : ℕ) → Flist × S → Flist × S
  create_global_list count s = create_loop count 0 s

-- The lists of a thread that has used none yet.
unfoldable pub fresh_pool : Flist → Pool
fresh_pool global = record { provider = none; collector = none; global = global }

-- `memset` with 0. The 0 in `type` is none of the four table types; alloc_log_table sets it, and
-- it stays as it was here.
unfoldable pub init_table : ℕ → Tables → Tables
init_table obj tables =
    update tables obj (record (tables obj) { log_size = 0; entries = λ i. none })

-- The policy with number 0 is UNDO.
unfoldable pub init_idx : ℕ → (ℕ → IdxEntry) → ℕ → IdxEntry
init_idx obj entries = update entries obj (record (entries obj) {
  rwlock = unlocked;
  epoch = 0;
  offset = 0;
  len = 0;
  policy = undo;
  dst = 0;
  log = 0;
})

abbrev pub table_count : ℕ
table_count = nr_alloc_tables - nr_alloc_tables % nr_node_fill

abbrev pub log_count : ℕ → ℕ
log_count i = let count = log_file_size / log_bytes i in count - count % nr_node_fill

-- From `i` on, half as many again.
unfoldable pub grow_count : (rounds count : ℕ) → ℕ
grow_count zero count = count
grow_count (suc rounds) count = grow_count rounds (count + count / 2)

abbrev pub idx_count : ℕ
idx_count = grow_count (nr_log_sizes - 1) (log_file_size / 2 ^ page_shift)

abbrev pub mmio_count : ℕ
mmio_count = nr_mmios - nr_mmios % nr_mmio_fill

-- What the setup takes from outside: the addresses that `malloc` and `alloc_pmem` return, and the
-- sizes of the three types.
pub record Areas : Type 0 where
  pub tables_at : ℕ
  pub idx_at : ℕ
  pub mmio_at : ℕ
  pub logs_at : ℕ → ℕ
  pub table_size : ℕ
  pub idx_size : ℕ
  pub mmio_size : ℕ

module _ (areas : Areas) where
  unfoldable pub create_global_table_list : Tables → TableHeap
  create_global_table_list tables =
      let (global, tables') =
        create_global_list areas.tables_at areas.table_size init_table table_count
          (alloc_flist nr_node_fill, tables) in
      record { tables = tables'; pool = fresh_pool global }

  -- The list of the blocks of size `i`.
  unfoldable pub create_global_log_list : ℕ → Pool
  create_global_log_list i =
      fresh_pool
        (create_global_list (areas.logs_at i) (log_bytes i) (λ obj s. s) (log_count i)
          (alloc_flist nr_node_fill, tt {0})).0

  unfoldable pub create_global_idx_list : (ℕ → IdxEntry) → (ℕ → IdxEntry) × Pool
  create_global_idx_list entries =
      let (global, entries') =
        create_global_list areas.idx_at areas.idx_size init_idx idx_count
          (alloc_flist nr_node_fill, entries) in
      (entries', fresh_pool global)

  unfoldable pub create_global_mmio_list : (ℕ → Mmio) → (ℕ → Mmio) × Pool
  create_global_mmio_list mmios =
      let (global, mmios') =
        create_global_list areas.mmio_at areas.mmio_size (λ obj m. update m obj (init_mmio (m obj)))
          mmio_count (alloc_flist nr_mmio_fill, mmios) in
      (mmios', fresh_pool global)

  -- Over what stood in the memory before; the calls of `get_env` leave nothing here.
  unfoldable pub init_allocator : Process → Process
  init_allocator s =
      let (entries, idx_pool) = create_global_idx_list s.heap.entries in
      let (mmios, mmio_pool) = create_global_mmio_list s.files.mmios in
      record s {
        files = record s.files { mmios = mmios };
        tables = create_global_table_list s.tables.tables;
        heap = record { entries = entries; pool = idx_pool; data_pools = create_global_log_list };
        mmio_pool = mmio_pool;
      }

  unfoldable pub init_file_hash : Process → Process
  init_file_hash s = record s { files = record s.files { file_hash = λ index. [] } }

  -- Without `init_fops`, which finds the C library's functions.
  unfoldable pub init_libnvmmio : Process → Process
  init_libnvmmio s = init_file_hash (init_allocator s)
