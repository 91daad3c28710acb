-- ===== src/Mmio/Checkpoint.antt =====
-- src/mmio.c: `checkpoint_mmio` brings committed redo logs into the file and frees their entries.
pub mod Fuel
pub mod GivenBack
pub mod Unchanged
pub mod Levels
pub mod Blocks
pub mod Slots
pub mod Retired
pub mod Emptied
pub mod Pass
pub mod Whole
use libnvmmio.Prelude.{
  ℕ, zero, suc, ◌+◌, ◌-◌, ◌*◌, Option, none, some, ◌>>=◌, ltb, if◌then◌else◌, update,
}
use libnvmmio.Config.{log_4k, nr_log_sizes}
use libnvmmio.Lock.{read_trylock, write_trylock, unlock}
use libnvmmio.Memory.{Pmem}
use libnvmmio.Radixlog.{log_bytes, nr_entries}
use libnvmmio.Radixlog.Walk.{Tables, find_log_table}
use libnvmmio.Radixlog.Entries.{free_idx_entry}
use libnvmmio.Mmio.World.{World, set_mmio, put_entry}
use libnvmmio.Mmio.Entry.{apply_log}

-- `table->entries[i] = NULL`
abbrev pub clear_slot : (t i : ℕ) → Tables → Tables
clear_slot t i tables =
    update tables t (record (tables t) { entries = update (tables t).entries i none })

module _ (pmem : Pmem) where
  -- What is done with an entry of an earlier epoch, once it is locked.
  unfoldable pub retire : (t i p log_size : ℕ) → World → Option World
  retire t i p log_size w = do
    let mem = apply_log pmem w.mem (w.heap.entries p)
    let tables = record w.tables { tables = clear_slot t i w.tables.tables }
    heap ← free_idx_entry p log_size w.heap
    some (record w { mem = mem; tables = tables; heap = heap })

  -- One round of the inner loop. The epoch is tested before and after the lock is taken.
  unfoldable pub checkpoint_slot : (current_epoch t i log_size : ℕ) → World → Option World
  checkpoint_slot current_epoch t i log_size w = elim ((w.tables.tables t).entries i) [
    | none ↦ some w
    | some p ↦
        let old = ltb (w.heap.entries p).epoch current_epoch in
        if old
        then elim (write_trylock (w.heap.entries p).rwlock) [
          | none ↦ some w
          | some l ↦
              let e = w.heap.entries p in
              let locked = put_entry p (record e { rwlock = l }) w in
              if ltb (locked.heap.entries p).epoch current_epoch
              then retire t i p log_size locked
              else some (put_entry p (record e { rwlock = unlock l }) locked)
        ]
        else some w
  ]

  -- The inner loop, from slot `i` on.
  unfoldable pub checkpoint_slots : (rounds current_epoch t i log_size : ℕ) → World → Option World
  checkpoint_slots zero current_epoch t i log_size w = some w
  checkpoint_slots (suc rounds) current_epoch t i log_size w = do
    w' ← checkpoint_slot current_epoch t i log_size w
    checkpoint_slots rounds current_epoch t (i + 1) log_size w'

  -- The part of the outer loop under the reader lock: the log size that the step goes by. In a table
  -- whose size is not set, NR_ENTRIES shifts by a negative count, which has no meaning in C, and the
  -- loop leaves the table: `none`.
  unfoldable pub checkpoint_table : (current_epoch offset : ℕ) → World → Option (ℕ × World)
  checkpoint_table current_epoch offset w =
      elim (find_log_table w.mmio.radixlog w.tables.tables offset) [
        | none ↦ some (log_4k, w)
        | some t ↦
            let log_size = (w.tables.tables t).log_size in
            let swept = (do
              w' ← checkpoint_slots (nr_entries log_size) current_epoch t 0 log_size w
              some (log_size, w')) in
            if ltb log_size nr_log_sizes then swept else none
      ]

  -- One round of the outer loop, which passes over the piece if the reader lock is not to be had.
  unfoldable pub checkpoint_round : (current_epoch offset : ℕ) → World → Option (ℕ × World)
  checkpoint_round current_epoch offset w = elim (read_trylock w.mmio.rwlock) [
    | none ↦ some (log_4k, w)
    | some l ↦ (do
      (log_size, w') ←
          checkpoint_table current_epoch offset (set_mmio (record w.mmio { rwlock = l }) w)
      some (log_size, set_mmio (record w'.mmio { rwlock = unlock w'.mmio.rwlock }) w'))
  ]

  -- The outer loop. Each round moves on by at least one byte, so `endoff` rounds are enough.
  unfoldable pub checkpoint_loop : (rounds current_epoch offset endoff : ℕ) → World → Option World
  checkpoint_loop zero current_epoch offset endoff w = if ltb offset endoff then none else some w
  checkpoint_loop (suc rounds) current_epoch offset endoff w =
      let step = (do
        (log_size, w') ← checkpoint_round current_epoch offset w
        checkpoint_loop rounds current_epoch (offset + nr_entries log_size * log_bytes log_size)
            endoff w') in
      if ltb offset endoff then step else some w

  unfoldable pub checkpoint_mmio : World → Option World
  checkpoint_mmio w =
      let endoff = w.mmio.end - w.mmio.start in checkpoint_loop endoff w.mmio.epoch 0 endoff w
