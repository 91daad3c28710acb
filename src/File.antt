-- ===== src/File.antt =====
-- src/file.c: the calls of the C library that are served here, by the table of descriptors. A
-- descriptor without an entry goes to the C library.
pub mod Host
pub mod Open
pub mod Position
pub mod Seek
pub mod Sharing
pub mod RoundTrip
pub mod NewFile
pub mod Symbols
use libnvmmio.Prelude.{
  ℕ, ◌+◌, ◌%◌, ◌^◌, Option, none, some, ◌>>=◌, Bool, ltb, if◌then◌else◌, update,
}
use libnvmmio.Prelude.Words.{to_int, sign_extend}
use libnvmmio.Memory.{Pmem}
use libnvmmio.Mmio.World.{World}
use libnvmmio.Mmio.Expend.{Kernel}
use libnvmmio.Mmio.ReadCall.{mmio_read}
use libnvmmio.Mmio.Write.{mmio_write}
use libnvmmio.Mmio.Commit.{commit_mmio}
use libnvmmio.FileHash.Delete.{Process, Closing, world_of, put_world, delete_mmio_hash}
use libnvmmio.File.Host.{Posix, Whence}

-- `file_t`, less its mutex: a call is one step, as it holds the mutex.
pub record FileStruct : Type 0 where
  pub mmio : ℕ
  pub flags : ℕ
  pub mode : ℕ
  pub pos : ℕ
  pub ino : ℕ

-- `fd_table`, the mappings, and what the kernel keeps. A descriptor is the pattern of an `int`; the
-- code does not test that it is below the length of the table, and the table has no bound here.
pub record Calls (K : Type 0) : Type 0 where
  pub process : Process
  pub fd_table : ℕ → Option FileStruct
  pub host : K

-- `file->pos += ret`, where `ret` is an `int`, and the `ssize_t` that is returned.
abbrev pub to_ret : ℕ → ℕ
to_ret n = sign_extend (to_int n)

abbrev pub advance : FileStruct → (ret : ℕ) → FileStruct
advance file ret = record file { pos = (file.pos + ret) % 2 ^ 64 }

-- `a < b` on the patterns of `off_t`.
abbrev pub off_lt : ℕ → ℕ → Bool
off_lt a b = ltb ((a + 2 ^ 63) % 2 ^ 64) ((b + 2 ^ 63) % 2 ^ 64)

-- Where each case of the `switch` puts the position.
unfoldable pub seek_target : Whence → (pos fsize offset : ℕ) → Option ℕ
seek_target Whence.seek_set pos fsize offset = some offset
seek_target Whence.seek_cur pos fsize offset = some ((pos + offset) % 2 ^ 64)
seek_target Whence.seek_end pos fsize offset = some ((fsize + offset) % 2 ^ 64)
seek_target Whence.other pos fsize offset = none

module _ {K : Type 0} where
  abbrev pub get_file : ℕ → Calls K → Option FileStruct
  get_file fd s = s.fd_table fd

  abbrev pub put_file : ℕ → Option FileStruct → Calls K → Calls K
  put_file fd file s = record s { fd_table = update s.fd_table fd file }

  -- The entry and the mapping after `ret` bytes were read or written.
  abbrev pub moved_on : (fd : ℕ) → FileStruct → Calls K → ℕ × World → ℕ × Calls K
  moved_on fd file s (n, w) = (
    to_ret n,
    put_file fd (some (advance file (to_ret n)))
        (record s { process = put_world file.mmio w s.process }),
  )

  unfoldable pub read_open : (fd : ℕ) → FileStruct → (buf len : ℕ) → Calls K → Option (ℕ × Calls K)
  read_open fd file buf len s = do
    r ← mmio_read file.pos buf len (world_of file.mmio s.process)
    some (moved_on fd file s r)

  unfoldable pub write_open :
      Pmem → Kernel → (fd : ℕ) → FileStruct → (buf len : ℕ) → Calls K → Option (ℕ × Calls K)
  write_open pmem kernel fd file buf len s = do
    r ← mmio_write pmem kernel fd file.pos buf len (world_of file.mmio s.process)
    some (moved_on fd file s r)

module _ {K : Type 0} (posix : Posix K) where
  -- A position behind the end of the file ends the program.
  unfoldable pub lseek_call : (fd offset : ℕ) → Whence → Calls K → Option (ℕ × Calls K)
  lseek_call fd offset whence s = elim (get_file fd s) [
    | none ↦
        let (ret, host) = posix.lseek fd offset whence s.host in
        some (ret, record s { host = host })
    | some file ↦ (do
      let fsize = (s.process.files.mmios file.mmio).fsize
      target ← seek_target whence file.pos fsize offset
      (if off_lt fsize target
          then none
          else some (target, put_file fd (some (record file { pos = target })) s)))
  ]

  unfoldable pub read_call : (fd buf len : ℕ) → Calls K → Option (ℕ × Calls K)
  read_call fd buf len s = elim (get_file fd s) [
    | none ↦
        let (ret, mem, host) = posix.read fd buf len s.process.mem s.host in
        some (ret, record s { process = record s.process { mem = mem }; host = host })
    | some file ↦ read_open fd file buf len s
  ]

  -- `pread` and `pwrite` always go to the C library.
  unfoldable pub pread_call : (fd buf count pos : ℕ) → Calls K → ℕ × Calls K
  pread_call fd buf count pos s =
      let (ret, mem, host) = posix.pread fd buf count pos s.process.mem s.host in
      (ret, record s { process = record s.process { mem = mem }; host = host })

  unfoldable pub pwrite_call : (fd buf count pos : ℕ) → Calls K → ℕ × Calls K
  pwrite_call fd buf count pos s =
      let (ret, mem, host) = posix.pwrite fd buf count pos s.process.mem s.host in
      (ret, record s { process = record s.process { mem = mem }; host = host })

  unfoldable pub ftruncate_call : (fd length : ℕ) → Calls K → ℕ × Calls K
  ftruncate_call fd length s =
      let (ret, mem, host) = posix.ftruncate fd length s.process.mem s.host in
      (ret, record s { process = record s.process { mem = mem }; host = host })

  module _ (pmem : Pmem) where
    unfoldable pub write_call : Kernel → (fd buf len : ℕ) → Calls K → Option (ℕ × Calls K)
    write_call kernel fd buf len s = elim (get_file fd s) [
      | none ↦
          let (ret, mem, host) = posix.write fd buf len s.process.mem s.host in
          some (ret, record s { process = record s.process { mem = mem }; host = host })
      | some file ↦ write_open pmem kernel fd file buf len s
    ]

    unfoldable pub fsync_call : (fd : ℕ) → Calls K → Option (ℕ × Calls K)
    fsync_call fd s = elim (get_file fd s) [
      | none ↦ let (ret, host) = posix.fsync fd s.host in some (ret, record s { host = host })
      | some file ↦ (do
        w ← commit_mmio pmem (world_of file.mmio s.process)
        some (0, record s { process = put_world file.mmio w s.process }))
    ]

    unfoldable pub close_call : Closing → (fd : ℕ) → Calls K → Option (ℕ × Calls K)
    close_call closing fd s = do
      closed ← elim (get_file fd s) [
        | none ↦ some s
        | some file ↦ (do
          process ← delete_mmio_hash pmem closing fd file.ino file.flags s.process
          some (put_file fd none (record s { process = process })))
      ]
      let (ret, host) = posix.close fd closed.host
      some (ret, record closed { host = host })
