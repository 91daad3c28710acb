-- ===== src/Tests/Index.antt =====
-- The log index at concrete inputs.
use libnvmmio.Prelude.{ℕ, ◌+◌, ◌*◌, ◌%◌, ◌≤◌, ◌<◌, ◌≡◌, ◌^◌, refl, update, some, arith, ◌⊎◌}
use libnvmmio.Slist.{slist_pop, slist_empty, cut_after, slist_cut_splice}
use libnvmmio.Allocator.{alloc_flist, fill_local_provider}
use libnvmmio.Allocator.Pool.{pop_provider}
use libnvmmio.Allocator.Conserve.{stock, count}
use libnvmmio.Radixlog.{log_bytes, RadixRoot, TableType}
use libnvmmio.Radixlog.Size.{grow, set_log_size, set_log_size-covers}
use libnvmmio.Radixlog.Walk.{
  TableHeap, set_child, alloc_log_table, claim, alloc_table, child_or_alloc, check_prev_table,
  get_from, get_log_table,
}
use libnvmmio.Radixlog.Lookup.{IsCached, SkipInUse, Got, get_log_table-Got}
use libnvmmio.Tests.Data.{lmd_root, table_heap, empty_table, popped}

-- 5000 bytes from offset 8000 on need a block of 16 KB.
set_log_size_runs : set_log_size 8000 5000 ≡ 2
unfolding set_log_size grow log_bytes
set_log_size_runs = refl

set_log_size-covers_example :
    (set_log_size 8000 5000 ≤ 9)
    × ((set_log_size 8000 5000 ≡ 9) ⊎ (8000 % 2 ^ 12 + 5000 ≤ log_bytes (set_log_size 8000 5000)))
    × ((set_log_size 8000 5000 ≡ 0)
        ⊎ (log_bytes (set_log_size 8000 5000) < 2 * (8000 % 2 ^ 12 + 5000)))
set_log_size-covers_example = set_log_size-covers 8000 5000 (omega arith) (omega arith)

-- Nothing was kept yet: the number kept is no piece's.
lmd_root-IsCached : IsCached lmd_root table_heap.tables
unfolding check_prev_table
lmd_root-IsCached = record { hit = λ offset q. absurd (ground arith) }

lmd_root-SkipInUse : SkipInUse lmd_root table_heap
unfolding stock count alloc_flist
lmd_root-SkipInUse s e = ground arith

-- The third slot of the LMD table is filled by table 1.
abbrev got : ℕ × RadixRoot × TableHeap
got = (
  1,
  record lmd_root { prev_table = 1; prev_table_index = 2 },
  record {
    tables =
        set_child 7 2 1 (
          update table_heap.tables 1
            (record empty_table { log_size = 10; type = TableType.table }));
    pool = popped;
  },
)

gets : get_log_table lmd_root 5000000 table_heap ≡ some got
unfolding get_log_table check_prev_table get_from child_or_alloc alloc_table alloc_log_table claim
    pop_provider alloc_flist fill_local_provider slist_pop slist_empty cut_after slist_cut_splice
gets = refl

get_log_table-Got_example : Got lmd_root table_heap 5000000 got
get_log_table-Got_example =
    get_log_table-Got lmd_root table_heap 5000000 lmd_root-SkipInUse lmd_root-IsCached gets
