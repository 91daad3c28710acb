-- ===== src/Mmio.antt =====
-- src/mmio.h and src/mmio.c: a memory-mapped file whose updates go through per-block logs.
pub mod Counter
pub mod Overlap
pub mod World
pub mod Entry
pub mod View
pub mod Logged
pub mod Redo
pub mod Undo
pub mod Read
pub mod Expend
pub mod Write
pub mod ReadCall
pub mod ReadBack
pub mod Calls
pub mod RoundTrip
pub mod ReadBackUndo
pub mod Checkpoint
pub mod Commit
use libnvmmio.Prelude.{ℕ}
use libnvmmio.Lock.{RwLock}
use libnvmmio.Radixlog.{Policy, RadixRoot}

-- `mmio_t`, less its thread handle. `rwlock` is what the calls of src/bravo.c keep: its readers or
-- its writer.
pub record Mmio : Type 0 where
  pub rwlock : RwLock
  pub start : ℕ
  pub end : ℕ
  pub ino : ℕ
  pub offset : ℕ
  pub epoch : ℕ
  pub policy : Policy
  pub radixlog : RadixRoot
  pub read : ℕ
  pub write : ℕ
  pub fsize : ℕ
  pub ref : ℕ
