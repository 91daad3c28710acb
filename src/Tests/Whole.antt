-- ===== src/Tests/Whole.antt =====
-- A write and a read as whole calls, at concrete inputs.
use libnvmmio.Prelude.{ℕ, ◌+◌, ◌%◌, ◌<◌, ◌≡◌, refl, Option, none, some, arith, update}
use libnvmmio.Prelude.Words.{to_int}
use libnvmmio.Lock.{write_trylock}
use libnvmmio.Memory.{Apart}
use libnvmmio.Slist.{slist_pop, slist_empty, slist_cut_splice, cut_after}
use libnvmmio.Allocator.{alloc_flist, fill_local_provider}
use libnvmmio.Allocator.Pool.{pop_provider}
use libnvmmio.Radixlog.{log_bytes, nr_entries, redo}
use libnvmmio.Radixlog.Size.{set_log_size, grow}
use libnvmmio.Radixlog.Walk.{
  get_log_table, check_prev_table, get_from, child_or_alloc, alloc_table, claim, alloc_log_table,
}
use libnvmmio.Radixlog.Entries.{
  get_log_size, get_log_entry, claim_entry, alloc_idx_entry, alloc_log_data,
}
use libnvmmio.Mmio.World.{World, LockType, lock_entry, trylock}
use libnvmmio.Mmio.Write.{mmio_write}
use libnvmmio.Mmio.Write.Block.{start_of, size_after}
use libnvmmio.Mmio.ReadCall.{mmio_read}
use libnvmmio.Mmio.View.{Logs}
use libnvmmio.Mmio.Logged.{Request}
use libnvmmio.Mmio.Calls.{with_readers}
use libnvmmio.Mmio.RoundTrip.{mmio_read-mmio_write}
use libnvmmio.Tests.Data.{plain_pmem, lmd_root, redo_mmio, world}
use libnvmmio.Tests.Growth.{kernel}
use libnvmmio.Tests.Files.{files, process}
use libnvmmio.Tests.Calls.{posix}
use libnvmmio.File.{FileStruct, Calls, read_call, write_call, lseek_call}
use libnvmmio.File.Host.{Whence}
use libnvmmio.File.Position.{IsOpen}
use libnvmmio.File.RoundTrip.{read_call-write_call}

-- An index without tables below its root.
abbrev fresh : World
fresh = record world { mmio = record redo_mmio { radixlog = lmd_root } }

abbrev found : Option (ℕ × ℕ × World)
found = lock_entry LockType.wr (to_int 30) 25 (with_readers 1 fresh)

abbrev got : Option (ℕ × ℕ × World) → ℕ × ℕ × World
got none = (77, 77, fresh)
got (some r) = r

abbrev locked : World
locked = (got found).2

found_it : found ≡ some (1, 4071, locked)
unfolding lock_entry trylock write_trylock get_log_table check_prev_table get_from child_or_alloc
    alloc_table claim alloc_log_table pop_provider fill_local_provider alloc_flist slist_pop
    slist_empty slist_cut_splice cut_after get_log_size set_log_size grow get_log_entry claim_entry
    alloc_idx_entry alloc_log_data log_bytes nr_entries
found_it = refl

-- Entry 1 has the log at byte 1, of 4096 bytes, and the block is mapped at 8192.
locked_lem :
    Request (locked.heap.entries 1) 8192 (start_of locked 25 200000 30)
    × (8192 % log_bytes (locked.heap.entries 1).log_size ≡ 0)
    × Logs redo (locked.heap.entries 1) 8192
    × (locked.mmio.policy ≡ redo)
    × Apart (locked.heap.entries 1).log (log_bytes (locked.heap.entries 1).log_size) 300000 10
    × Apart 8192 (log_bytes (locked.heap.entries 1).log_size) 300000 10
unfolding lock_entry trylock write_trylock get_log_table check_prev_table get_from child_or_alloc
    alloc_table claim alloc_log_table pop_provider fill_local_provider alloc_flist slist_pop
    slist_empty slist_cut_splice cut_after get_log_size set_log_size grow get_log_entry claim_entry
    alloc_idx_entry alloc_log_data log_bytes nr_entries
locked_lem = ground arith

-- Of the bytes 25 to 54 that were written, 30 to 39 are read.
mmio_read-mmio_write_example :
    (w' : World) × (w'' : World) × (mmio_write plain_pmem kernel 5 25 200000 30 fresh
      ≡ some (30, w'))
    × (mmio_read (25 + 5) 300000 10 w' ≡ some (10, w''))
    × ((i : ℕ) → i < 10 → w''.mem (300000 + i) ≡ fresh.mem (200000 + (5 + i)))
    × (w'.mmio.fsize ≡ size_after fresh 25 30)
mmio_read-mmio_write_example =
    let (req, aligned, logs, is_redo, log_apart, file_apart) = locked_lem in
    mmio_read-mmio_write redo plain_pmem kernel 5 8192 25 200000 30 0 1 4071 fresh locked refl
      (omega arith) (λ t. omega arith) found_it (omega arith) (omega arith) (omega arith) req
      aligned logs is_redo 5 300000 10 (omega arith) (omega arith) log_apart file_apart

-- Descriptor 5 is open at byte 25.
abbrev at_25 : FileStruct
at_25 = record { mmio = 1; flags = 2; mode = 0; pos = 25; ino = 3 }

abbrev open_calls : Calls (Unit {0})
open_calls = record {
  process = record process { files = record files { mmios = λ p. fresh.mmio } };
  fd_table = update (λ fd. none) 5 (some at_25);
  host = tt;
}

at_25-IsOpen : IsOpen open_calls 5 at_25
at_25-IsOpen = record { entry = refl; inside = omega arith; small = omega arith }

read_call-write_call_example :
    (s1 : Calls (Unit {0})) × (s2 : Calls (Unit {0})) × (s3 : Calls (Unit {0})) × (write_call posix
        plain_pmem kernel 5 200000 30 open_calls
      ≡ some (30, s1))
    × (lseek_call posix 5 (25 + 5) Whence.seek_set s1 ≡ some (25 + 5, s2))
    × (read_call posix 5 300000 10 s2 ≡ some (10, s3))
    × ((i : ℕ) → i < 10 → s3.process.mem (300000 + i) ≡ fresh.mem (200000 + (5 + i)))
read_call-write_call_example =
    let (req, aligned, logs, is_redo, log_apart, file_apart) = locked_lem in
    read_call-write_call posix redo plain_pmem kernel 5 at_25 open_calls at_25-IsOpen 8192 200000 30
      0 1 4071 locked refl (omega arith) (λ t. omega arith) found_it (omega arith) (omega arith)
      (omega arith) (omega arith) req aligned logs is_redo 5 300000 10 (omega arith) (omega arith)
      log_apart file_apart
