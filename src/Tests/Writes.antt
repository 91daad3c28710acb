-- ===== src/Tests/Writes.antt =====
-- Writes in one block, under both policies: the theorems of Mmio.Undo and Mmio.Write at concrete
-- inputs.
use libnvmmio.Prelude.{◌%◌, ◌<◌, ◌^◌, ◌≡◌, refl, arith, [], ◌∷◌}
use libnvmmio.Radixlog.{log_bytes, redo, undo, IdxEntry}
use libnvmmio.Mmio.{Mmio}
use libnvmmio.Mmio.World.{World}
use libnvmmio.Mmio.Entry.{Cursor, write_entry}
use libnvmmio.Mmio.View.{Logs}
use libnvmmio.Mmio.Logged.{Request}
use libnvmmio.Mmio.Undo.{Saved, write_entry-Saved}
use libnvmmio.Mmio.Write.{write_locked}
use libnvmmio.Mmio.Write.Block.{
  start_of, RedoWrite, UndoWrite, write_locked-RedoWrite, write_locked-UndoWrite,
}
use libnvmmio.Tests.Data.{plain_pmem, ramp, logged, redo_mmio, world}

abbrev undo_logged : IdxEntry
undo_logged = record logged { policy = undo }

abbrev undo_mmio : Mmio
undo_mmio = record redo_mmio { policy = undo }

abbrev undo_world : World
undo_world = record world {
  mmio = undo_mmio;
  heap = record world.heap { entries = λ p. undo_logged };
}

-- Thirty bytes from byte 25 on: the first five are in the log.
abbrev behind_log : Cursor
behind_log = record { off = 25; dst = 8217; src = 200000; n = 30; ret = 0 }

undo_logged-Logs : Logs undo undo_logged 8192
unfolding log_bytes
undo_logged-Logs = ground arith

logged-Logs : Logs redo logged 8192
unfolding log_bytes
logged-Logs = ground arith

behind_log-Request : Request undo_logged 8192 behind_log
unfolding log_bytes
behind_log-Request = ground arith

aligned : 8192 % log_bytes 0 ≡ 0
unfolding log_bytes
aligned = refl

write_entry-Saved_example :
    Saved ramp undo_logged 8192 behind_log
      (write_entry plain_pmem undo_mmio ramp undo_logged behind_log)
write_entry-Saved_example =
    write_entry-Saved plain_pmem undo_mmio ramp undo_logged-Logs behind_log-Request refl aligned

small : 30 < 2 ^ 31
small = omega arith

redo_Request : Request logged 8192 (start_of world 25 200000 30)
unfolding log_bytes
redo_Request = ground arith

undo_Request : Request undo_logged 8192 (start_of undo_world 25 200000 30)
unfolding log_bytes
undo_Request = ground arith

write_locked-RedoWrite_example :
    RedoWrite world 4 8192 25 200000 30 (write_locked plain_pmem (4 ∷ []) 25 200000 30 world)
write_locked-RedoWrite_example =
    write_locked-RedoWrite plain_pmem world 4 8192 25 200000 30 small redo_Request aligned
      logged-Logs refl

write_locked-UndoWrite_example :
    UndoWrite undo_world 4 8192 25 200000 30
      (write_locked plain_pmem (4 ∷ []) 25 200000 30 undo_world)
write_locked-UndoWrite_example =
    write_locked-UndoWrite plain_pmem undo_world 4 8192 25 200000 30 small undo_Request aligned
      undo_logged-Logs refl
