-- ===== src/Lib.antt =====
-- Libnvmmio: a library that serves file reads and writes in user space, on a mapping of the file in
-- non-volatile memory, with per-block logs for atomicity. This development models its core, the C
-- files of the folder src of the repository.
--
-- The parts, and where they stand here:
-- - Config: the constants of src/config.h.
-- - Memory: bytes at absolute addresses, memcpy, and the PMDK call behind NTSTORE. PMDK is a
--   parameter (`Pmem`): it copies between ranges that do not overlap. Flushes and fences change no
--   content and have no place in the model.
-- - Lock: the pthread reader-writer locks of src/lock.h, by their try calls.
-- - Links: the doubly linked lists of src/list.h, by the links of their nodes; `Ring` says what the
--   links of a well-formed list are, and `Deletion`, `Sweep` and `Refines` are about the operations.
-- - Slist, Allocator: the lists of src/slist.h and the free lists of src/allocator.c. Lists are
--   sequences of nodes, and a node is named by the object that it carries. `Pool` has the macros,
--   `Setup` the lists and the table that init_libnvmmio makes; `Conserve`, `Units`, `Supply`,
--   `Accept`, `Take`, `Stocked`, `Supplied` and `Ready` are about which objects the lists hold.
-- - Radixlog: src/radixlog.c. `Size` picks the block size of a table, `Walk` has get_log_table and
--   find_log_table, `Init` has init_radixlog, `Entries` the index entries; `Bounds`, `Cache`,
--   `Lookup`, `Blocks`, `Sized`, `Rooted` and `Depth` have their laws.
-- - Mmio: src/mmio.c. `Overlap` has check_log, `Entry` a round of the loop of mmio_write, `Read` a
--   round of read_redolog, `World` the state of a mapped file and LOCK_ENTRIES, `Expend` the growth
--   of the mapping, `Write`, `ReadCall`, `Checkpoint` and `Commit` the handlers; `View` says what a
--   block reads as under its log, and `Logged`, `Redo` and `Undo` are about a round of the writes
--   under either policy, `Write.Block` a whole write in one block, `ReadBack` and `ReadBackUndo` a
--   read of what was written, `Calls` and `RoundTrip` the two as whole calls; `Counter` has
--   increase_counter with threads that run at once; `World.Rounds`, `World.Single`,
--   `Checkpoint.Fuel` and `Expend.Fits` are about the loops of LOCK_ENTRIES, checkpoint_mmio and
--   expend_mmio, and `Checkpoint.Blocks` to `Checkpoint.Whole` about the blocks of all tables in checkpoint_mmio.
-- - FileHash: the table of mappings of src/file_hash.c. `Delete` has delete_mmio_hash with the
--   release_mmio of src/allocator.c; `Map`, `Lookup`, `Drop` and `OneEach` take it as a map with counts,
--   `Buckets`, `LastDrop` and `LastClose` are about the close that releases a mapping.
-- - File: src/file.c, the table of descriptors and the calls on it. `Host` is the C library as a
--   parameter, `Open` has open and the get_new_mmio of src/allocator.c; `Position`, `Seek`,
--   `Sharing`, `NewFile` and `RoundTrip` are about positions, about open and close of a file that is mapped,
--   about open of one that is not, and about write, lseek and read; `Symbols` has init_fops and the
--   calls that only pass their arguments on.
-- - Bravo: src/bravo.c as a step relation, one access of one thread to the shared memory at a time.
--   `Hash` has the slot of a thread and a lock, `Invariant` who holds what in reachable states,
--   `Exclusion`, `Free` and `Collision` what follows, `Run` the steps of one thread.
-- - Tests: the theorems at concrete inputs.
--
-- Pointers are numbers, and a store is a function from them. A result `none` is a run that ends the
-- program (HANDLE_ERROR), waits for ever, or goes through a table of entries whose log size is not
-- set, which C leaves undefined. Numbers are natural numbers with the wrap-around of the
-- C types written out. But for Bravo and Mmio.Counter, one thread runs at a time: compare-and-swap
-- is translated with both outcomes, and a lock that is held stays held.
-- malloc is taken to succeed, but for the `file_t` of an open, where both outcomes are translated.
--
-- Fuel: LOCK_ENTRIES takes at least one byte off the length in each round, and has length + 1
-- rounds; checkpoint_mmio moves on by at least one byte, and has as many rounds as the mapping has
-- bytes; init_radixlog has a round for each of the four table types; expend_mmio doubles the
-- mapping, and 64 rounds pass any length up to 2^63.
--
-- Not modelled: how the handlers of a mapping interleave, where the lock of src/bravo.c is only its
-- readers or its writer; the thread that checkpoints on a timer; in the setup of the process, the
-- calls of the system that make and remove the log files; and what a crash leaves in memory.
pub mod Prelude
pub mod Config
pub mod Memory
pub mod Links
pub mod Lock
pub mod Radixlog
pub mod Slist
pub mod Allocator
pub mod Mmio
pub mod FileHash
pub mod File
pub mod Bravo
mod Tests
