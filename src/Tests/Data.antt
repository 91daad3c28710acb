-- ===== src/Tests/Data.antt =====
-- The values that the tests share: a memory, a mapping, an entry with a log, small pools.
use libnvmmio.Prelude.{◌-◌, ◌^◌, refl, none, some, [], ◌∷◌}
use libnvmmio.Lock.{unlocked}
use libnvmmio.Memory.{Mem, Pmem, memcpy}
use libnvmmio.Allocator.{Flist}
use libnvmmio.Allocator.Pool.{Pool}
use libnvmmio.Radixlog.{redo, TableType, IdxEntry, LogTable, RadixRoot}
use libnvmmio.Radixlog.Walk.{TableHeap}
use libnvmmio.Mmio.{Mmio}
use libnvmmio.Mmio.World.{World}

-- A machine whose `pmem_memcpy_nodrain` is `memcpy`.
abbrev pub plain_pmem : Pmem
plain_pmem = record { memcpy_nodrain = memcpy; memcpy_nodrain_lem = λ m dst src n a apart. refl }

-- Every byte holds its address.
abbrev pub ramp : Mem
ramp a = a

-- Bytes 10 to 29 of the block that is mapped at 8192 are in the log at 65536.
abbrev pub logged : IdxEntry
logged = record {
  epoch = 1;
  offset = 10;
  len = 20;
  policy = redo;
  log = 65536;
  dst = 8192;
  rwlock = unlocked;
  log_size = 0;
}

abbrev pub no_root : RadixRoot
no_root = record { lgd = none; skip = none; prev_table = 0; prev_table_index = 0 }

-- A root that skips to table 7, of type LMD, and has kept no table yet.
abbrev pub lmd_root : RadixRoot
lmd_root = record { lgd = some 9; skip = some 7; prev_table = 0; prev_table_index = 2 ^ 64 - 1 }

abbrev pub redo_mmio : Mmio
redo_mmio = record {
  rwlock = unlocked;
  start = 8192;
  end = 16384;
  ino = 3;
  offset = 0;
  epoch = 1;
  policy = redo;
  radixlog = no_root;
  read = 0;
  write = 5;
  fsize = 4096;
  ref = 1;
}

-- Six objects in units of two.
abbrev pub six : Flist
six = record {
  list_head = 1 ∷ 2 ∷ 3 ∷ 4 ∷ 5 ∷ 6 ∷ [];
  skip_head = 2 ∷ 4 ∷ 6 ∷ [];
  list_cnt = 6;
  skip_cnt = 3;
  skip_unit = 2;
}

abbrev pub pool : Pool
pool = record { provider = none; collector = none; global = six }

-- The provider is filled with the first two objects, of which one is handed out.
abbrev pub popped : Pool
popped = record pool {
  provider =
      some
        (record { list_head = 2 ∷ []; skip_head = []; list_cnt = 0; skip_cnt = 0; skip_unit = 0 });
  global = record six { list_head = 3 ∷ 4 ∷ 5 ∷ 6 ∷ []; skip_head = 4 ∷ 6 ∷ [] };
}

abbrev pub empty_table : LogTable
empty_table = record { log_size = 10; type = TableType.lmd; entries = λ i. none }

abbrev pub table_heap : TableHeap
table_heap = record { tables = λ t. empty_table; pool = pool }

abbrev pub world : World
world = record {
  mmio = redo_mmio;
  mem = ramp;
  tables = table_heap;
  heap = record { entries = λ p. logged; pool = pool; data_pools = λ s. pool };
}
