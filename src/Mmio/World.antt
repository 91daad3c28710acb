-- ===== src/Mmio/World.antt =====
-- src/mmio.c: all that the handlers of one mapped file read and change, and the locks of a request.
pub mod Kept
pub mod Rounds
pub mod Single
use libnvmmio.Prelude.{
  ℕ, zero, suc, ◌+◌, ◌-◌, Option, none, some, ◌>>=◌, List, [], ◌∷◌, if◌then◌else◌, update,
}
use libnvmmio.Prelude.Words.{to_int, int_positive, sign_extend, int_sub}
use libnvmmio.Lock.{RwLock, read_trylock, write_trylock, unlock}
use libnvmmio.Memory.{Mem}
use libnvmmio.Radixlog.{IdxEntry, log_bytes, log_offset_of, table_index}
use libnvmmio.Radixlog.Walk.{TableHeap, get_log_table}
use libnvmmio.Radixlog.Entries.{EntryHeap, get_log_size, get_log_entry}
use libnvmmio.Mmio.{Mmio}

pub record World : Type 0 where
  pub mmio : Mmio
  pub mem : Mem
  pub tables : TableHeap
  pub heap : EntryHeap

abbrev pub set_mmio : Mmio → World → World
set_mmio m w = record w { mmio = m }

abbrev pub put_entry : ℕ → IdxEntry → World → World
put_entry p e w = record w { heap = record w.heap { entries = update w.heap.entries p e } }

-- `wr` or `rd`, as LOCK_ENTRIES is given it.
pub data LockType : Type 0 where
  wr rd : LockType

unfoldable pub trylock : LockType → RwLock → Option RwLock
trylock LockType.wr l = write_trylock l
trylock LockType.rd l = read_trylock l

-- One round of LOCK_ENTRIES: the entry of the block at `off`, locked, and the length of its block
-- from `off` on. A lock that is held stays so, as no other thread runs: `none`.
unfoldable pub lock_entry : LockType → (n off : ℕ) → World → Option (ℕ × ℕ × World)
lock_entry type n off w = do
  (t, root, tables) ← get_log_table w.mmio.radixlog off w.tables
  let (log_size, sized) = get_log_size t off (sign_extend n) tables.tables
  (p, filled, heap) ←
      get_log_entry w.mmio.epoch t (table_index log_size off) log_size (sized, w.heap)
  l ← trylock type (heap.entries p).rwlock
  some (
    p,
    log_bytes log_size - log_offset_of off log_size,
    put_entry p (record (heap.entries p) { rwlock = l; log_size = log_size })
        (record w {
          mmio = record w.mmio { radixlog = root };
          tables = record tables { tables = filled };
          heap = heap;
        }),
  )

-- The loop of LOCK_ENTRIES. Each round takes at least 1 off `n`, so `n + 1` rounds are enough.
unfoldable pub lock_loop :
    (rounds : ℕ)
    → LockType
    → (n off : ℕ) → (entries_head : List ℕ) → World
    → Option (List ℕ × World)
lock_loop zero type n off entries_head w = none
lock_loop (suc rounds) type n off entries_head w =
    let step = (do
      (p, log_len, w') ← lock_entry type n off w
      lock_loop rounds type (int_sub n log_len) (off + log_len) (p ∷ entries_head) w') in
    if int_positive n then step else some (entries_head, w)

-- LOCK_ENTRIES: `slist_push` puts the entry of the last block first.
unfoldable pub lock_entries : LockType → (offset len : ℕ) → World → Option (List ℕ × World)
lock_entries type offset len w = lock_loop (suc (to_int len)) type (to_int len) offset [] w

-- UNLOCK_ENTRIES
unfoldable pub unlock_entries : List ℕ → World → World
unlock_entries [] w = w
unlock_entries (p ∷ ps) w =
    let e = w.heap.entries p in
    unlock_entries ps (put_entry p (record e { rwlock = unlock e.rwlock }) w)
