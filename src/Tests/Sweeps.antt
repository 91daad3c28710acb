-- ===== src/Tests/Sweeps.antt =====
-- A log index with one entry, swept by checkpoint_mmio.
use libnvmmio.Prelude.{
  ℕ, ◌+◌, ◌*◌, ◌^◌, ◌≡◌, ◌≢◌, ◌≤◌, refl, sym, none, some, ◌==◌, if◌then◌else◌, arith,
}
use mathlib.Core.Path.{subst}
use libnvmmio.Lock.{held, unlocked, read_trylock}
use libnvmmio.Allocator.{alloc_flist}
use libnvmmio.Allocator.Conserve.{stock, count}
use libnvmmio.Allocator.Setup.{fresh_pool}
use libnvmmio.Radixlog.{redo, log_bytes, LogTable, TableType, RadixRoot}
use libnvmmio.Radixlog.Walk.{Tables, find_from, find_log_table}
use libnvmmio.Memory.{Apart}
use libnvmmio.Mmio.View.{Logs}
use libnvmmio.Mmio.World.{World}
use libnvmmio.Mmio.Checkpoint.{checkpoint_slots, checkpoint_mmio}
use libnvmmio.Mmio.Checkpoint.Blocks.{Key, slot}
use libnvmmio.Mmio.Checkpoint.Slots.{Sound}
use libnvmmio.Mmio.Checkpoint.Emptied.{Swept, checkpoint_slots-Swept}
use libnvmmio.Mmio.Checkpoint.Levels.{Levels}
use libnvmmio.Mmio.Checkpoint.Whole.{Checkpointed, checkpoint_mmio-Checkpointed}
use libnvmmio.Mmio.Checkpoint.Pass.{set_mmio-Step}
use libnvmmio.FileHash.{get_hash_index, find_node}
use libnvmmio.FileHash.Map.{mapping_of}
use libnvmmio.FileHash.Delete.{Process, world_of, delete_mmio_hash}
use libnvmmio.FileHash.Drop.{OneEach, nodes_of-same_inos}
use libnvmmio.FileHash.LastClose.{Closed, delete_mmio_hash-Closed}
use libnvmmio.Tests.Files.{files, process, all_well, files-OneEach}
use libnvmmio.Tests.Data.{plain_pmem, logged, world}
use libnvmmio.Tests.Pools.{one_unit, pool-WellFormed}

-- Slot `i` of table 7 is the block at 2^20 + 4096 * i.
abbrev home : Key → ℕ
home k = if k.0 == 7 then 2 ^ 20 + k.1 * 4096 else 0

abbrev len : Key → ℕ
len k = if k.0 == 7 then 4096 else 0

-- Entry 4 stands in slot 2.
abbrev swept_table : LogTable
swept_table = record {
  log_size = 0;
  type = TableType.table;
  entries = λ i. if i == 2 then some 4 else none;
}

-- The others are of type LMD and hold table 7 in slot 0.
abbrev upper_table : LogTable
upper_table = record {
  log_size = 10;
  type = TableType.lmd;
  entries = λ i. if i == 0 then some 7 else none;
}

abbrev two_tables : Tables
two_tables t = if t == 7 then swept_table else upper_table

abbrev root : RadixRoot
root = record { lgd = none; skip = some 9; prev_table = 0; prev_table_index = 0 }

abbrev swept_world : World
swept_world = record world {
  mmio = record world.mmio { epoch = 9; radixlog = root };
  tables = record world.tables { tables = two_tables };
  heap = record {
    entries = λ p. record logged { dst = home (7, 2); log_size = 0 };
    pool = fresh_pool one_unit;
    data_pools = λ s. fresh_pool one_unit;
  };
}

only_slot : (k : Key) (p : ℕ) → slot swept_world k ≡ some p → (k.0 ≡ 7) × (k.1 ≡ 2) × (p ≡ 4)
only_slot k p there = ground (arith, there)

only_entry :
    (k l : Key) (p q : ℕ) → k ≢ l → slot swept_world k ≡ some p → slot swept_world l ≡ some q → ⊥
only_entry k l p q ne at_k at_l = ground (arith, ne, only_slot k p at_k, only_slot l q at_l)

log_is_low : (k l : Key) → Apart (home k) (len k) 65536 (len l)
log_is_low k l = ground arith

logged_block :
    (k : Key) (p : ℕ)
    → (k.0 ≡ 7) × (k.1 ≡ 2) × (p ≡ 4)
    → Logs redo (swept_world.heap.entries p) (home k)
unfolding log_bytes
logged_block k p at_2 = record {
  size = omega arith;
  range = omega arith;
  placed = λ some_bytes. ground (arith, at_2);
  kind = λ some_bytes. refl;
  apart = ground (arith, at_2);
}

swept_world-Sound : Sound home len swept_world
unfolding log_bytes stock fresh_pool count alloc_flist
swept_world-Sound = record {
  blocks = record {
    logs = λ k p there. logged_block k p (only_slot k p there);
    size = λ k p there. ground (arith, only_slot k p there);
    once = λ k l p q ne at_k at_l. absurd (only_entry k l p q ne at_k at_l);
    blocks_apart = λ k l ne. ground (arith, ne);
    log_apart = λ k l q ne there. log_is_low k l;
  };
  lent = record {
    entries_ok = pool-WellFormed;
    data_ok = λ s. pool-WellFormed;
    entry_out = λ k p there. ground (arith, only_slot k p there);
    log_out = λ k p there. refl;
    sized = λ k p there. ground (arith, only_slot k p there);
    logs_differ = λ k l p q ne at_k at_l. absurd (only_entry k l p q ne at_k at_l);
  };
}

checkpoint_slots-Swept_example :
    (w' : World) × (checkpoint_slots plain_pmem 512 9 7 0 0 swept_world ≡ some w')
    × Swept home len plain_pmem 9 7 0 512 swept_world w'
checkpoint_slots-Swept_example =
    checkpoint_slots-Swept home len plain_pmem 9 512 7 0 0 swept_world swept_world-Sound refl refl

found_is_7 : (offset t : ℕ) → find_log_table root two_tables offset ≡ some t → t ≡ 7
unfolding find_log_table find_from
found_is_7 offset t at_t = ground (arith, at_t)

swept_world-Levels : Levels root two_tables
swept_world-Levels = record {
  below_lgd = λ t i c e at_i. ground (arith, e);
  below_lud = λ t i c e at_i. ground (arith, e);
  below_lmd = λ t i c e at_i. ground (arith, e, at_i);
  sized = λ offset t at_t. ground (arith, found_is_7 offset t at_t);
}

can_lock : read_trylock unlocked ≡ some (held 1)
unfolding read_trylock
can_lock = refl

checkpoint_mmio-Checkpointed_example :
    (w' : World) × (checkpoint_mmio plain_pmem swept_world ≡ some w')
    × Checkpointed home len plain_pmem 9 8192 swept_world w'
checkpoint_mmio-Checkpointed_example =
    checkpoint_mmio-Checkpointed home len plain_pmem swept_world (held 1) swept_world-Sound
      swept_world-Levels can_lock

-- Mapping 1 is of inode 3 and has one holder.
abbrev closing_process : Process
closing_process = record process {
  files = record {
    file_hash = files.file_hash;
    mmios = λ p. record swept_world.mmio { ino = (files.mmios p).ino };
  };
  tables = swept_world.tables;
  heap = swept_world.heap;
  mmio_pool = fresh_pool one_unit;
}

closing_world-Sound : Sound home len (world_of 1 closing_process)
closing_world-Sound =
    (set_mmio-Step home len (closing_process.files.mmios 1) swept_world swept_world-Sound).sound

only_bucket : (i : ℕ) → get_hash_index 3 ≢ i → count 1 (closing_process.files.file_hash i) ≡ 0
unfolding get_hash_index count
only_bucket i differ = ground (arith, differ)

closing_process-OneEach : OneEach closing_process.files
closing_process-OneEach ino =
    subst (λ n. n ≤ 1)
      (sym (
        nodes_of-same_inos files.mmios closing_process.files.mmios ino (λ p. refl)
          (files.file_hash (get_hash_index ino))))
      (files-OneEach ino)

mapping_found : mapping_of closing_process.files 3 ≡ some 1
unfolding find_node get_hash_index
mapping_found = refl

new_one : stock (fresh_pool one_unit) 1 ≡ 0
unfolding fresh_pool stock count alloc_flist
new_one = refl

delete_mmio_hash-Closed_example :
    (s' : Process) × (delete_mmio_hash plain_pmem all_well 5 3 2 closing_process ≡ some s')
    × Closed home len plain_pmem all_well 1 3 2 5 closing_process s'
delete_mmio_hash-Closed_example =
    delete_mmio_hash-Closed home len plain_pmem all_well 1 3 2 5 closing_process
      closing_process-OneEach mapping_found only_bucket closing_world-Sound swept_world-Levels
      (record { free = refl; unmaps = refl; truncates = refl }) refl pool-WellFormed new_one
