-- ===== src/Mmio/Write.antt =====
-- src/mmio.c: `mmio_write`.
pub mod Block
pub mod Extent
use libnvmmio.Prelude.{ℕ, ◌+◌, ◌%◌, ◌^◌, Option, some, ◌>>=◌, List, [], ◌∷◌, ltb, if◌then◌else◌}
use libnvmmio.Prelude.Words.{to_int}
use libnvmmio.Lock.{read_trylock, unlock}
use libnvmmio.Memory.{Mem, Pmem, ntstore}
use libnvmmio.Radixlog.{Policy, undo, redo}
use libnvmmio.Mmio.World.{World, LockType, set_mmio, put_entry, lock_entries, unlock_entries}
use libnvmmio.Mmio.Entry.{Cursor, write_entry}
use libnvmmio.Mmio.Expend.{Kernel, check_expend, expend_mmio}

module _ (pmem : Pmem) where
  -- The loop over the locked entries.
  unfoldable pub write_loop : List ℕ → Cursor → World → Cursor × World
  write_loop [] c w = (c, w)
  write_loop (p ∷ ps) c w =
      let (mem, e, c') = write_entry pmem w.mmio w.mem (w.heap.entries p) c in
      write_loop ps c' (put_entry p e (record w { mem = mem }))

  -- Under UNDO the file is written after its old data were logged.
  unfoldable pub store_file : Policy → Mem → (dst buf len : ℕ) → Mem
  store_file undo mem dst buf len = ntstore pmem mem dst buf len
  store_file redo mem dst buf len = mem

  -- From "Perform the write" to the update of `fsize`.
  unfoldable pub write_locked : (entries_head : List ℕ) → (offset buf len : ℕ) → World → ℕ × World
  write_locked entries_head offset buf len w =
      let start : Cursor = record {
        off = offset;
        dst = w.mmio.start + offset;
        src = buf;
        n = to_int len;
        ret = 0;
      } in
      let (c, w1) = write_loop entries_head start w in
      let mem = store_file w1.mmio.policy w1.mem (w1.mmio.start + offset) buf len in
      let fsize = if ltb w1.mmio.fsize (offset + c.ret) then offset + c.ret else w1.mmio.fsize in
      (
        c.ret,
        record w1 {
          mem = mem;
          mmio = record w1.mmio { write = (w1.mmio.write + 1) % 2 ^ 64; fsize = fsize };
        },
      )

  -- From "Perform the write" to the return.
  unfoldable pub write_and_unlock :
      (entries_head : List ℕ) → (offset buf len : ℕ) → World → ℕ × World
  write_and_unlock entries_head offset buf len w =
      let (ret, w1) = write_locked entries_head offset buf len w in
      let w2 = unlock_entries entries_head w1 in
      (ret, set_mmio (record w2.mmio { rwlock = unlock w2.mmio.rwlock }) w2)

  unfoldable pub mmio_write : Kernel → (fd offset buf len : ℕ) → World → Option (ℕ × World)
  mmio_write kernel fd offset buf len w = do
    shared ← read_trylock w.mmio.rwlock
    let w1 = set_mmio (record w.mmio { rwlock = shared }) w
    w2 ← (if check_expend w1.mmio offset len then expend_mmio kernel fd offset len w1 else some w1)
    (entries_head, w3) ← lock_entries LockType.wr offset len w2
    some (write_and_unlock entries_head offset buf len w3)
