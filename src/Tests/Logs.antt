-- ===== src/Tests/Logs.antt =====
-- Logs, commits: the theorems of Mmio at concrete inputs.
use libnvmmio.Prelude.{◌%◌, ◌-◌, ◌+◌, ◌≡◌, ◌<◌, refl, some, arith}
use libnvmmio.Radixlog.{log_bytes}
use libnvmmio.Mmio.Overlap.{Overlap, check_log, Drawn, check_log-Drawn}
use libnvmmio.Mmio.Entry.{Cursor, write_entry, checkpoint_entry}
use libnvmmio.Mmio.View.{view, Logs}
use libnvmmio.Mmio.Redo.{Written, write_entry-Written, checkpoint_entry-view}
use libnvmmio.Mmio.Logged.{Request}
use libnvmmio.Radixlog.{redo}
use libnvmmio.Mmio.Read.{ReadCursor, read_entry}
use libnvmmio.Mmio.Read.Block.{read_entry-view, read_entry-tail}
use libnvmmio.Mmio.Commit.{commit_mmio}
use libnvmmio.Mmio.Commit.Effect.{committed, commit_mmio-committed}
use libnvmmio.Tests.Data.{plain_pmem, ramp, logged, redo_mmio, world}

-- Two bytes in front of the log, with a gap: case 1.
abbrev before_log : Cursor
before_log = record { off = 5; dst = 8197; src = 200000; n = 2; ret = 0 }

logged-Logs : Logs redo logged 8192
unfolding log_bytes
logged-Logs = ground arith

before_log-Request : Request logged 8192 before_log
unfolding log_bytes
before_log-Request = ground arith

aligned : 8192 % log_bytes 0 ≡ 0
unfolding log_bytes
aligned = refl

write_entry-Written_example :
    Written ramp logged 8192 before_log (write_entry plain_pmem redo_mmio ramp logged before_log)
write_entry-Written_example =
    write_entry-Written plain_pmem redo_mmio ramp logged-Logs before_log-Request refl aligned

in_block : 15 < log_bytes 0
unfolding log_bytes
in_block = omega arith

-- Byte 15 of the block is in the log, and reads the same after the log is emptied.
checkpoint_entry-view_example :
    let (mem', e') = checkpoint_entry plain_pmem redo_mmio ramp logged in
    (view mem' e' 8192 15 ≡ view ramp logged 8192 15) × (e'.len ≡ 0) × Logs redo e' 8192
checkpoint_entry-view_example =
    checkpoint_entry-view plain_pmem ramp logged-Logs redo_mmio 15 in_block

-- Bytes 5 to 24: five from the file, fifteen from the log.
abbrev into_log : ReadCursor
into_log = record { dst = 300000; offset = 5; len = 20 }

-- Bytes 5 to 44, where the log is bytes 10 to 29.
abbrev over_log : ReadCursor
over_log = record { dst = 300000; offset = 5; len = 40 }

read_entry-view_example :
    (read_entry logged 8192 (ramp, into_log)).0 (300000 + 7)
    ≡ view ramp logged (8192 + (5 - 5 % log_bytes 0)) (5 % log_bytes 0 + 7)
unfolding log_bytes
read_entry-view_example =
    read_entry-view logged ramp into_log 8192 (omega arith) (omega arith) (omega arith) 7
      (omega arith) (omega arith)

read_entry-tail_example :
    (read_entry logged 8192 (ramp, over_log)).0 (300000 + 30)
    ≡ ramp (8192 + 5 + 30 + (10 + 20 - 5 % log_bytes 0))
unfolding log_bytes
read_entry-tail_example =
    read_entry-tail logged ramp over_log 8192 (omega arith) (omega arith) (omega arith) 30
      (omega arith) (omega arith) (omega arith) (omega arith)

-- A request from 4 to 40 around a log from 10 to 30.
check_log-Drawn_example :
    ((check_log 4 40 10 30 ≡ Overlap.case_3) → Drawn Overlap.case_3 4 40 10 30)
    × (Drawn Overlap.case_3 4 40 10 30 → check_log 4 40 10 30 ≡ Overlap.case_3)
check_log-Drawn_example = check_log-Drawn 4 40 10 30 (omega arith) (omega arith) Overlap.case_3

commit_mmio-committed_example : commit_mmio plain_pmem world ≡ some (committed plain_pmem world)
commit_mmio-committed_example = commit_mmio-committed plain_pmem world refl
