-- ===== src/Tests/Calls.antt =====
-- An open file: the theorems of File at concrete inputs.
use libnvmmio.Prelude.{
  ℕ, ◌-◌, ◌^◌, ◌≤◌, ◌<◌, ◌≡◌, ◌≢◌, refl, Option, true, none, some, ◌>>=◌, update, arith,
}
use mathlib.Core.Logic.{◌⊎◌}
use libnvmmio.Radixlog.{undo}
use libnvmmio.Lock.{read_trylock, unlock}
use libnvmmio.Slist.{slist_pop, slist_empty, slist_cut_splice, cut_after}
use libnvmmio.Allocator.{alloc_flist, fill_local_provider}
use libnvmmio.Allocator.Pool.{pop_provider}
use libnvmmio.Radixlog.{log_bytes, nr_entries}
use libnvmmio.Radixlog.Size.{set_log_size, grow}
use libnvmmio.Radixlog.Walk.{
  get_log_table, check_prev_table, get_from, child_or_alloc, alloc_table, claim, alloc_log_table,
}
use libnvmmio.Radixlog.Entries.{
  get_log_size, get_log_entry, claim_entry, alloc_idx_entry, alloc_log_data,
}
use libnvmmio.Mmio.World.{lock_entries, lock_loop, lock_entry, trylock, unlock_entries}
use libnvmmio.Mmio.Expend.{check_fsize}
use libnvmmio.Mmio.ReadCall.{mmio_read, read_and_unlock, read_locked}
use libnvmmio.Mmio.{Mmio}
use libnvmmio.FileHash.Map.{mapping_of, refs}
use libnvmmio.File.{read_open, FileStruct, Calls, get_file, lseek_call, read_call, close_call}
use libnvmmio.File.Host.{Posix, Whence}
use libnvmmio.File.Open.{libnvmmio_open}
use libnvmmio.File.Position.{IsOpen, ReadTo, read_call-ReadTo}
use libnvmmio.File.Seek.{from_end, backward, Sought, lseek_call-Sought}
use libnvmmio.File.Sharing.{close-open}
use libnvmmio.Tests.Data.{plain_pmem, lmd_root, redo_mmio}
use libnvmmio.Tests.Files.{files, process, all_well, files-OneEach, mapped}
use libnvmmio.Tests.Growth.{kernel}

-- A C library whose calls do nothing; it knows one inode. `Unit` is all that the kernel keeps.
abbrev pub posix : Posix (Unit {0})
posix = record {
  open_path = λ path flags mode k. (5, k);
  open64_path = λ path flags mode k. (5, k);
  read = λ fd buf count m k. (0, m, k);
  write = λ fd buf count m k. (0, m, k);
  pread = λ fd buf count pos m k. (0, m, k);
  pwrite = λ fd buf count pos m k. (0, m, k);
  fsync = λ fd k. (0, k);
  lseek = λ fd offset whence k. (0, k);
  ftruncate = λ fd length m k. (0, m, k);
  fxstat = λ fd k. some (3, 4096);
  close = λ fd k. (0, k);
  mmap = λ fd len prot m k. some (8192, m);
  malloc = λ k. true;
}

abbrev no_calls : Calls (Unit {0})
no_calls = record { process = process; fd_table = λ fd. none; host = tt }

-- Descriptor 5 is open at byte 4090 of 4096, under UNDO.
abbrev near_end : FileStruct
near_end = record { mmio = 1; flags = 2; mode = 0; pos = 4090; ino = 3 }

abbrev undo_file : Mmio
undo_file = record redo_mmio { policy = undo; radixlog = lmd_root; ino = 3 }

abbrev calls : Calls (Unit {0})
calls = record {
  process = record process { files = record files { mmios = λ p. undo_file } };
  fd_table = update (λ fd. none) 5 (some near_end);
  host = tt;
}

near_end-IsOpen : IsOpen calls 5 near_end
near_end-IsOpen = record { entry = refl; inside = omega arith; small = omega arith }

-- What a call returns, or a value that stands for its failure.
abbrev got : Option (ℕ × Calls (Unit {0})) → ℕ × Calls (Unit {0})
got none = (77, calls)
got (some r) = r

read_returns : read_call posix 5 300000 20 calls ≡ some (got (read_call posix 5 300000 20 calls))
unfolding read_call read_open mmio_read read_and_unlock read_locked lock_entries lock_loop
    lock_entry trylock read_trylock unlock unlock_entries get_log_table check_prev_table get_from
    child_or_alloc alloc_table claim alloc_log_table pop_provider fill_local_provider alloc_flist
    slist_pop slist_empty slist_cut_splice cut_after get_log_size set_log_size grow get_log_entry
    claim_entry alloc_idx_entry alloc_log_data log_bytes nr_entries check_fsize
read_returns = refl

read_call-Read_example : ReadTo posix near_end-IsOpen 20 (got (read_call posix 5 300000 20 calls))
read_call-Read_example = read_call-ReadTo posix near_end-IsOpen 300000 20 (omega arith) read_returns

-- Ten bytes before the end.
lseek_call-Sought_example :
    ((r : ℕ × Calls (Unit {0})) × (4086 ≤ 4096)
      × (lseek_call posix 5 (2 ^ 64 - 10) Whence.seek_end calls ≡ some r)
      × Sought posix near_end-IsOpen 4086 r)
    ⊎ ((4096 < 4086) × (lseek_call posix 5 (2 ^ 64 - 10) Whence.seek_end calls ≡ none))
lseek_call-Sought_example =
    lseek_call-Sought posix near_end-IsOpen Whence.seek_end 4096 (2 ^ 64 - 10) 4086 from_end
      (backward {n = 10} (omega arith) (omega arith) refl) (omega arith)

close-open_example :
    (s' : Calls (Unit {0})) × ((libnvmmio_open posix kernel 5 2 0 no_calls
        >>= close_call posix plain_pmem all_well 5)
      ≡ some (0, s'))
    × ((q : ℕ) → refs s'.process.files q ≡ refs files q)
    × ((x : ℕ) → mapping_of s'.process.files x ≡ mapping_of files x)
    × (s'.process.mem ≡ process.mem)
    × (get_file 5 s' ≡ none)
    × ((g : ℕ) → ◌≢◌ {A = ℕ} 5 g → get_file g s' ≡ get_file g no_calls)
close-open_example =
    close-open posix kernel plain_pmem all_well 5 2 0 3 4096 1 no_calls refl refl mapped
      files-OneEach (omega arith)
