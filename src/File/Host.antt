-- ===== src/File/Host.antt =====
-- The calls that src/file.c passes on to the C library, found by `dlsym`, and `mmap`.
use libnvmmio.Prelude.{ℕ, Bool, Option}
use libnvmmio.Memory.{Mem}

-- The third argument of `lseek`.
pub data Whence : Type 0 where
  seek_set seek_cur seek_end other : Whence

-- `K` is what the kernel keeps. The results are returned as patterns of 64 bits; `fxstat` gives
-- the inode and the size, `mmap` the address and the memory with the file behind it, or none, and
-- `malloc` tells whether there is memory for a `file_t`.
pub record Posix (K : Type 0) : Type 0 where
  pub open_path : (path flags mode : ℕ) → K → ℕ × K
  pub open64_path : (path flags mode : ℕ) → K → ℕ × K
  pub read : (fd buf count : ℕ) → Mem → K → ℕ × Mem × K
  pub write : (fd buf count : ℕ) → Mem → K → ℕ × Mem × K
  pub pread : (fd buf count pos : ℕ) → Mem → K → ℕ × Mem × K
  pub pwrite : (fd buf count pos : ℕ) → Mem → K → ℕ × Mem × K
  pub fsync : (fd : ℕ) → K → ℕ × K
  pub lseek : (fd offset : ℕ) → Whence → K → ℕ × K
  pub ftruncate : (fd length : ℕ) → Mem → K → ℕ × Mem × K
  pub fxstat : (fd : ℕ) → K → Option (ℕ × ℕ)
  pub close : (fd : ℕ) → K → ℕ × K
  pub mmap : (fd len prot : ℕ) → Mem → K → Option (ℕ × Mem)
  pub malloc : K → Bool
