-- ===== src/Mmio/Commit.antt =====
-- src/mmio.c: `determine_policy` and `commit_mmio`.
pub mod Effect
use libnvmmio.Prelude.{
  ℕ, ◌+◌, ◌*◌, ◌/◌, ◌%◌, ◌^◌, ◌==◌, Bool, Option, none, some, ◌>>=◌, ltb, if◌then◌else◌,
}
use libnvmmio.Config.{hybrid_write_ratio}
use libnvmmio.Lock.{write_trylock, unlock}
use libnvmmio.Memory.{Pmem}
use libnvmmio.Radixlog.{Policy, undo, redo}
use libnvmmio.Mmio.World.{World, set_mmio}
use libnvmmio.Mmio.Checkpoint.{checkpoint_mmio}

-- `policy != new_policy`
abbrev pub differs : Policy → Policy → Bool
differs undo undo = Bool.false
differs redo redo = Bool.false
differs undo redo = Bool.true
differs redo undo = Bool.true

unfoldable pub pick_policy : (read write : ℕ) → Policy
pick_policy read write =
    let total_cnt = (read + write) % 2 ^ 64 in
    let write_ratio = write / total_cnt * 100 in
    if ltb hybrid_write_ratio write_ratio then redo else undo

module _ (pmem : Pmem) where
  -- `new_policy` decides about the checkpoint, and is stored nowhere.
  unfoldable pub determine_policy : World → Option World
  determine_policy w =
      let total_cnt = (w.mmio.read + w.mmio.write) % 2 ^ 64 in
      let new_policy = pick_policy w.mmio.read w.mmio.write in
      let reset = set_mmio (record w.mmio { read = 0; write = 0 }) w in
      if ltb 0 total_cnt
      then (if differs w.mmio.policy new_policy then checkpoint_mmio pmem reset else some reset)
      else some w

  unfoldable pub commit_mmio : World → Option World
  commit_mmio w = do
    alone ← write_trylock w.mmio.rwlock
    let w1 = set_mmio (record w.mmio { rwlock = alone; epoch = (w.mmio.epoch + 1) % 2 ^ 64 }) w
    w2 ← determine_policy w1
    some (set_mmio (record w2.mmio { rwlock = unlock w2.mmio.rwlock }) w2)
