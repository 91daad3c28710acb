-- ===== src/File/Open.antt =====
-- src/file.c: `open` and `libnvmmio_open`, with the `get_new_mmio` of src/allocator.c.
use libnvmmio.Prelude.{ℕ, ◌+◌, ◌/◌, ◌%◌, ◌^◌, Option, none, some, ◌>>=◌, ◌==◌, if◌then◌else◌}
use libnvmmio.Config.{default_mmap_size}
use libnvmmio.Allocator.Pool.{pop_provider}
use libnvmmio.Radixlog.Init.{init_radixlog}
use libnvmmio.Mmio.Expend.{Kernel}
use libnvmmio.FileHash.{get_mmio_hash, put_mmio_hash}
use libnvmmio.FileHash.Delete.{put_mmio}
use libnvmmio.File.{FileStruct, Calls, put_file}
use libnvmmio.File.Host.{Posix}

-- PROT_READ is 1 and PROT_WRITE is 2; the mode 3 ends the program.
unfoldable pub get_prot : (flags : ℕ) → Option ℕ
get_prot flags =
    let mode = flags % 4 in
    if mode == 0 then some 1 else if mode == 1 then some 2 else if mode == 2 then some 3 else none

-- `flags & O_CREAT` and `flags & O_ATOMIC`
abbrev pub o_creat : ℕ → ℕ
o_creat flags = flags / 2 ^ 6 % 2

abbrev pub o_atomic : ℕ → ℕ
o_atomic flags = flags / 2 ^ 27 % 2

module _ {K : Type 0} (posix : Posix K) (kernel : Kernel) where
  -- An empty file is first made as long as its mapping. The thread that checkpoints is not modelled.
  unfoldable pub get_new_mmio : (fd flags ino fsize : ℕ) → Calls K → Option (ℕ × Calls K)
  get_new_mmio fd flags ino fsize s = do
    (p, mmio_pool) ← pop_provider s.process.mmio_pool
    len ←
        (if fsize == 0
          then if kernel.posix_fallocate fd default_mmap_size then some default_mmap_size else none
          else some fsize)
    prot ← get_prot flags
    (addr, mem) ← posix.mmap fd len prot s.process.mem s.host
    let mmio = s.process.files.mmios p
    (radixlog, tables) ← init_radixlog mmio.radixlog len s.process.tables
    let mapped = record mmio {
      radixlog = radixlog;
      start = addr;
      end = addr + len;
      fsize = fsize;
      ino = ino;
    }
    some (
      p,
      record s {
        process =
            put_mmio p mapped
              (record s.process { mem = mem; tables = tables; mmio_pool = mmio_pool });
      },
    )

  -- A mapping of the inode is shared; else a new one is made and put into the table.
  unfoldable pub find_or_map : (fd flags ino fsize : ℕ) → Calls K → Option (ℕ × Calls K)
  find_or_map fd flags ino fsize s = do
    let (found, files) = get_mmio_hash ino s.process.files
    elim found [
      | some p ↦ some (p, record s { process = record s.process { files = files } })
      | none ↦ (do
        (new, s') ← get_new_mmio fd flags ino fsize s
        let (p, files') = put_mmio_hash ino new s'.process.files
        some (p, record s' { process = record s'.process { files = files' } }))
    ]

  -- A failed `fstat` and a failed `malloc` end the program.
  unfoldable pub libnvmmio_open : (fd flags mode : ℕ) → Calls K → Option (Calls K)
  libnvmmio_open fd flags mode s = do
    (ino, fsize) ← posix.fxstat fd s.host
    (p, s') ← find_or_map fd flags ino fsize s
    let file : FileStruct = record { mmio = p; flags = flags; mode = mode; pos = 0; ino = ino }
    (if posix.malloc s'.host then some (put_file fd (some file) s') else none)

  -- `arg` is the third argument, which is there with O_CREAT. The result of `open` is not tested.
  unfoldable pub open_call : (path flags arg : ℕ) → Calls K → Option (ℕ × Calls K)
  open_call path flags arg s = do
    let mode : ℕ = if o_creat flags == 1 then arg else 0
    let (fd, host) = posix.open_path path flags mode s.host
    opened ←
        (if o_atomic flags == 1
          then libnvmmio_open fd flags mode (record s { host = host })
          else some (record s { host = host }))
    some (fd, opened)

  unfoldable pub open64_call : (path flags arg : ℕ) → Calls K → Option (ℕ × Calls K)
  open64_call path flags arg s = do
    let mode : ℕ = if o_creat flags == 1 then arg else 0
    let (fd, host) = posix.open64_path path flags mode s.host
    opened ←
        (if o_atomic flags == 1
          then libnvmmio_open fd flags mode (record s { host = host })
          else some (record s { host = host }))
    some (fd, opened)
