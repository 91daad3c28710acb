-- ===== src/Tests/Pools.antt =====
-- The free lists at concrete inputs.
use libnvmmio.Prelude.{◌≡◌, refl, some, [], ◌∷◌}
use libnvmmio.Prelude.{ℕ, List, ◌-◌, ◌≤◌, ◌^◌, arith, inr}
use libnvmmio.Radixlog.{log_bytes}
use libnvmmio.Radixlog.Bounds.{log_bytes_pos}
use libnvmmio.Allocator.{Flist}
use libnvmmio.Allocator.Units.{empty, closing, inner}
use libnvmmio.Allocator.Setup.{Areas, init_libnvmmio, fresh_pool, create_global_log_list, log_count}
use libnvmmio.Allocator.Supply.{WellFormed, HasLeft, pop_provider-WellFormed}
use libnvmmio.Allocator.Accept.{push_collector-WellFormed}
use libnvmmio.Allocator.Take.{take}
use libnvmmio.Allocator.Supplied.{Supplied, take-create_global_log_list}
use libnvmmio.Allocator.Conserve.{count}
use libnvmmio.Allocator.Ready.{Ready, init_libnvmmio-Ready}
use libnvmmio.Tests.Files.{process}
use libnvmmio.Radixlog.{RadixRoot, TableType}
use libnvmmio.Radixlog.Walk.{TableHeap}
use libnvmmio.Radixlog.Init.{init_radixlog}
use libnvmmio.Radixlog.Rooted.{Rooted}
use libnvmmio.Radixlog.Depth.{Covers, init_radixlog-Covers}
use libnvmmio.Allocator.Take.{left}
use libnvmmio.Tests.Data.{lmd_root}
use libnvmmio.Slist.{slist_empty}
use libnvmmio.Allocator.{alloc_flist}
use libnvmmio.Allocator.Pool.{Pool, pop_provider, push_collector}
use libnvmmio.Allocator.Conserve.{stock}

abbrev areas : Areas
areas = record {
  tables_at = 2 ^ 20;
  idx_at = 2 ^ 40;
  mmio_at = 2 ^ 41;
  logs_at = λ i. 2 ^ 42;
  table_size = 4112;
  idx_size = 48;
  mmio_size = 200;
}

-- Three of the 2048 blocks of 2 MB.
three_of_them : 3 ≤ log_count 9
unfolding log_bytes
three_of_them = omega arith

take-create_global_log_list_example :
    (ts : List ℕ) × (p' : Pool) × (take 3 (create_global_log_list areas 9) ≡ some (ts, p'))
    × Supplied (2 ^ 42) (log_bytes 9) (log_bytes_pos 9) (log_count 9) 3 ts
    × WellFormed p'
take-create_global_log_list_example = take-create_global_log_list areas 9 3 three_of_them

-- Objects 5 and 6 in one unit.
abbrev pub one_unit : Flist
one_unit = record {
  list_head = 6 ∷ 5 ∷ [];
  skip_head = 5 ∷ [];
  list_cnt = 2;
  skip_cnt = 1;
  skip_unit = 2;
}

pub pool-WellFormed : WellFormed (fresh_pool one_unit)
unfolding fresh_pool stock count alloc_flist slist_empty
pool-WellFormed = record {
  units = inner refl (closing empty);
  collects = record { units = empty; counted = refl; open_unit = λ h. cc };
  once = λ x. ground arith;
}

eight_is_new : stock (fresh_pool one_unit) 8 ≡ 0
unfolding fresh_pool stock count alloc_flist
eight_is_new = refl

pub one_left : HasLeft (fresh_pool one_unit)
unfolding fresh_pool slist_empty alloc_flist
one_left = inr refl

push_collector-WellFormed_example :
    (p' : Pool) × (push_collector 8 (fresh_pool one_unit) ≡ some p') × WellFormed p'
push_collector-WellFormed_example =
    push_collector-WellFormed (fresh_pool one_unit) 8 pool-WellFormed eight_is_new

pop_provider-WellFormed_example :
    (t : ℕ) × (p' : Pool) × (pop_provider (fresh_pool one_unit) ≡ some (t, p')) × WellFormed p'
pop_provider-WellFormed_example =
    pop_provider-WellFormed (fresh_pool one_unit) pool-WellFormed one_left

init_libnvmmio-Ready_example : Ready (init_libnvmmio areas process)
init_libnvmmio-Ready_example =
    init_libnvmmio-Ready areas process (omega arith) (omega arith) (omega arith)

-- Four tables in one unit.
abbrev pub four_tables : Flist
four_tables = record {
  list_head = 4 ∷ 3 ∷ 2 ∷ 1 ∷ [];
  skip_head = 1 ∷ [];
  list_cnt = 4;
  skip_cnt = 1;
  skip_unit = 4;
}

abbrev pub free_tables : TableHeap
free_tables = record { tables = process.tables.tables; pool = fresh_pool four_tables }

pub four_tables-WellFormed : WellFormed (fresh_pool four_tables)
unfolding fresh_pool stock count alloc_flist slist_empty
four_tables-WellFormed = record {
  units = inner refl (inner refl (inner refl (closing empty)));
  collects = record { units = empty; counted = refl; open_unit = λ h. cc };
  once = λ x. ground arith;
}

pub four_left : 4 ≤ left (fresh_pool four_tables)
unfolding left fresh_pool alloc_flist
four_left = omega arith

-- A file of 4 GB, whose deepest table is of type LUD.
init_radixlog-Covers_example :
    (type : TableType) × (r : RadixRoot × TableHeap) × (init_radixlog lmd_root (2 ^ 32) free_tables
      ≡ some r)
    × Rooted type r
    × Covers type (2 ^ 32 - 1)
init_radixlog-Covers_example =
    init_radixlog-Covers lmd_root (2 ^ 32) free_tables (omega arith) (omega arith)
      four_tables-WellFormed four_left
