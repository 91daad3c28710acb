-- ===== src/Radixlog/Entries.antt =====
-- src/allocator.c and src/radixlog.c: index entries, made, given back, and found in a table.
use libnvmmio.Prelude.{ℕ, ◌%◌, ◌^◌, Option, none, some, ◌>>=◌, ◌==◌, if◌then◌else◌, update}
use libnvmmio.Config.{nr_log_sizes}
use libnvmmio.Lock.{unlocked}
use libnvmmio.Allocator.Pool.{Pool, pop_provider, push_collector}
use libnvmmio.Radixlog.{Policy, IdxEntry}
use libnvmmio.Radixlog.Size.{set_log_size}
use libnvmmio.Radixlog.Walk.{Tables}

-- The index entries, the free ones, and the free log blocks of each size.
pub record EntryHeap : Type 0 where
  pub entries : ℕ → IdxEntry
  pub pool : Pool
  pub data_pools : ℕ → Pool

unfoldable pub alloc_log_data : (log_size : ℕ) → EntryHeap → Option (ℕ × EntryHeap)
alloc_log_data log_size h = do
  (address, pool) ← pop_provider (h.data_pools log_size)
  some (address, record h { data_pools = update h.data_pools log_size pool })

unfoldable pub free_log_data : (address log_size : ℕ) → EntryHeap → Option EntryHeap
free_log_data address log_size h = do
  pool ← push_collector address (h.data_pools log_size)
  some (record h { data_pools = update h.data_pools log_size pool })

unfoldable pub alloc_idx_entry : (log_size : ℕ) → EntryHeap → Option (ℕ × EntryHeap)
alloc_idx_entry log_size h = do
  (p, pool) ← pop_provider h.pool
  (address, h') ← alloc_log_data log_size (record h { pool = pool })
  some (
    p,
    record h' {
      entries = update h'.entries p (record (h'.entries p) { log = address; rwlock = unlocked });
    },
  )

-- `united = 0` clears the four bit-fields: the policy with number 0 is UNDO.
unfoldable pub free_idx_entry : (p log_size : ℕ) → EntryHeap → Option EntryHeap
free_idx_entry p log_size h = do
  h' ← free_log_data (h.entries p).log log_size h
  pool ← push_collector p h'.pool
  some (record h' {
    entries = update h'.entries p (record (h'.entries p) {
      log = 0;
      epoch = 0;
      offset = 0;
      len = 0;
      policy = Policy.undo;
      dst = 0;
    });
    pool = pool;
  })

-- The compare-and-swap of `get_log_size`, by what it finds: it fails where another thread set a size
-- first, and the retry then reads that size, as a size that is set stays.
abbrev pub claim_size : (t log_size found : ℕ) → Tables → ℕ × Tables
claim_size t log_size found tables =
    if found == nr_log_sizes
    then (log_size, update tables t (record (tables t) { log_size = log_size }))
    else (found, tables)

-- The size, and the table's memory: the first request to a table sets its size.
unfoldable pub get_log_size : (t offset len : ℕ) → Tables → ℕ × Tables
get_log_size t offset len tables =
    let old = (tables t).log_size in
    let log_size = set_log_size offset len in
    if old == nr_log_sizes then claim_size t log_size (tables t).log_size tables else (old, tables)

abbrev pub set_entry : (t index p : ℕ) → Tables → Tables
set_entry t index p tables =
    update tables t (record (tables t) { entries = update (tables t).entries index (some p) })

-- The compare-and-swap of `get_log_entry`, by what it finds: it fails where another thread was first,
-- and then the new entry is given back.
unfoldable pub claim_entry :
    (t index p log_size : ℕ) → Option ℕ → Tables × EntryHeap → Option (ℕ × Tables × EntryHeap)
claim_entry t index p log_size none (tables, h) = some (p, set_entry t index p tables, h)
claim_entry t index p log_size (some other) (tables, h) = do
  h' ← free_idx_entry p log_size h
  some (other, tables, h')

unfoldable pub get_log_entry :
    (epoch t index log_size : ℕ) → Tables × EntryHeap → Option (ℕ × Tables × EntryHeap)
get_log_entry epoch t index log_size (tables, h) = elim ((tables t).entries index) [
  | some p ↦ some (p, tables, h)
  | none ↦ (do
    (p, h') ← alloc_idx_entry log_size h
    let made : EntryHeap = record h' {
      entries = update h'.entries p (record (h'.entries p) { epoch = epoch % 2 ^ 20 });
    }
    claim_entry t index p log_size ((tables t).entries index) (tables, made))
]
