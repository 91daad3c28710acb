-- ===== src/Mmio/ReadCall.antt =====
-- src/mmio.c: `mmio_read`.
pub mod Count
use mathlib.Core.List.{map}
use libnvmmio.Prelude.{ℕ, ◌+◌, ◌%◌, ◌^◌, Option, some, ◌>>=◌, List, if◌then◌else◌}
use libnvmmio.Prelude.Words.{sub64}
use libnvmmio.Lock.{read_trylock, unlock}
use libnvmmio.Memory.{Mem, memcpy}
use libnvmmio.Radixlog.{undo, redo}
use libnvmmio.Mmio.World.{World, LockType, set_mmio, lock_entries, unlock_entries}
use libnvmmio.Mmio.Expend.{check_fsize}
use libnvmmio.Mmio.Read.{read_redolog}

-- The `switch` on the policy. A length beyond the end of the file was cut before.
unfoldable pub read_locked : (entries_head : List ℕ) → (offset buf len : ℕ) → World → Mem
read_locked entries_head offset buf len w = elim w.mmio.policy [
  | undo ↦ memcpy w.mem buf (w.mmio.start + offset) len
  | redo ↦
      (read_redolog (map w.heap.entries entries_head) w.mmio.start
        (w.mem, record { dst = buf; offset = offset; len = len })).0
]

-- From the test against the end of the file to the return.
unfoldable pub read_and_unlock : (entries_head : List ℕ) → (offset buf len : ℕ) → World → ℕ × World
read_and_unlock entries_head offset buf len w =
    let len' = if check_fsize w.mmio offset len then sub64 w.mmio.fsize offset else len in
    let w1 = record w {
      mem = read_locked entries_head offset buf len' w;
      mmio = record w.mmio { read = (w.mmio.read + 1) % 2 ^ 64 };
    } in
    let w2 = unlock_entries entries_head w1 in
    (len', set_mmio (record w2.mmio { rwlock = unlock w2.mmio.rwlock }) w2)

unfoldable pub mmio_read : (offset buf len : ℕ) → World → Option (ℕ × World)
mmio_read offset buf len w = do
  shared ← read_trylock w.mmio.rwlock
  (entries_head, w1) ←
      lock_entries LockType.rd offset len (set_mmio (record w.mmio { rwlock = shared }) w)
  some (read_and_unlock entries_head offset buf len w1)
