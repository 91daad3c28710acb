-- ===== src/Mmio/RoundTrip.antt =====
-- src/mmio.c: what `mmio_write` was given is what `mmio_read` returns, under both policies.
use libnvmmio.Prelude.{
  ℕ, suc, ◌+◌, ◌%◌, ◌^◌, ◌≤◌, ◌<◌, ◌≡◌, ◌∙◌, ap, some, [], ◌∷◌, arith, ltb, if◌then◌else◌,
}
use libnvmmio.Prelude.Words.{to_int}
use libnvmmio.Lock.{held}
use libnvmmio.Memory.{Mem, Pmem, Apart}
use libnvmmio.Radixlog.{Policy, undo, redo, log_bytes}
use libnvmmio.Radixlog.Sized.{IsSized}
use libnvmmio.Mmio.View.{Logs}
use libnvmmio.Mmio.Logged.{Request}
use libnvmmio.Mmio.World.{World, LockType, lock_entry}
use libnvmmio.Mmio.ReadCall.{read_locked, mmio_read}
use libnvmmio.Mmio.Expend.{Kernel}
use libnvmmio.Mmio.Write.{write_locked, mmio_write}
use libnvmmio.Mmio.Write.Block.{
  start_of, size_after, write_locked-RedoWrite, write_locked-UndoWrite,
}
use libnvmmio.Mmio.ReadBack.{read_locked-write_locked}
use libnvmmio.Mmio.ReadBackUndo.{read_locked-undo_write}
use libnvmmio.Mmio.Calls.{with_readers, write_and_read}

-- What the two calls need of the write between its locks.
record Writes (p file offset buf len : ℕ) (w : World) (r : ℕ × World) : Type 0 where
  ret : r.0 ≡ len
  fsize : r.1.mmio.fsize ≡ size_after w offset len
  log_size : (r.1.heap.entries p).log_size ≡ (w.heap.entries p).log_size
  rwlock : (r.1.heap.entries p).rwlock ≡ (w.heap.entries p).rwlock
  reads :
      (d rbuf rlen i : ℕ)
      → d + rlen ≤ len
      → i < rlen
      → Apart (w.heap.entries p).log (log_bytes (w.heap.entries p).log_size) rbuf rlen
      → Apart file (log_bytes (w.heap.entries p).log_size) rbuf rlen
      → read_locked (p ∷ []) (offset + d) rbuf rlen r.1 (rbuf + i) ≡ w.mem (buf + (d + i))

write_locked-Writes :
    (policy : Policy) (pmem : Pmem) (w : World) (p file offset buf len : ℕ)
    → len < 2 ^ 31
    → Request (w.heap.entries p) file (start_of w offset buf len)
    → file % log_bytes (w.heap.entries p).log_size ≡ 0
    → Logs policy (w.heap.entries p) file
    → w.mmio.policy ≡ policy
    → Writes p file offset buf len w (write_locked pmem (p ∷ []) offset buf len w)
write_locked-Writes redo pmem w p file offset buf len small req aligned logs same =
    let r = write_locked-RedoWrite pmem w p file offset buf len small req aligned logs same in
    record {
      ret = r.ret;
      fsize = r.fsize;
      log_size = r.log_size;
      rwlock = r.rwlock;
      reads = λ d rbuf rlen i inside lt log_apart file_apart.
          read_locked-write_locked pmem w p file offset buf len small req aligned logs same d rbuf
            rlen i inside lt log_apart file_apart;
    }
write_locked-Writes undo pmem w p file offset buf len small req aligned logs same =
    let r = write_locked-UndoWrite pmem w p file offset buf len small req aligned logs same in
    record {
      ret = r.ret;
      fsize = r.fsize;
      log_size = r.log_size;
      rwlock = r.rwlock;
      reads = λ d rbuf rlen i inside lt log_apart file_apart.
          read_locked-undo_write pmem w p file offset buf len small req aligned logs same (p ∷ []) d
            rbuf rlen i inside lt;
    }

module _ (policy : Policy) (pmem : Pmem) (kernel : Kernel) (fd file offset buf len k p log_len : ℕ)
    (w w1 : World) (free : w.mmio.rwlock ≡ held k) (room : w.mmio.start + offset + len ≤ w.mmio.end)
    (sized : IsSized w.tables.tables)
    (found : lock_entry LockType.wr (to_int len) offset (with_readers (suc k) w)
      ≡ some (p, log_len, w1))
    (some_bytes : 0 < len) (fits : len ≤ log_len) (small : len < 2 ^ 31)
    (req : Request (w1.heap.entries p) file (start_of w1 offset buf len))
    (aligned : file % log_bytes (w1.heap.entries p).log_size ≡ 0)
    (logs : Logs policy (w1.heap.entries p) file) (same : w1.mmio.policy ≡ policy) where
  -- A write and then a read of any part of what was written, as whole calls and under either policy:
  -- where at most readers hold the mapping, the tables have one of the ten log sizes or none yet, the
  -- request fits the mapping and the first entry that is locked, whose log, if it holds any, is of
  -- this block and this policy, the block is mapped at a multiple of its size, and the log and the
  -- block are apart from the buffers, both calls return, and the read gives the bytes written. The
  -- file ends where the write does, or where it did before if that is later.
  pub mmio_read-mmio_write :
      (d rbuf rlen : ℕ)
      → 0 < rlen
      → d + rlen ≤ len
      → Apart (w1.heap.entries p).log (log_bytes (w1.heap.entries p).log_size) rbuf rlen
      → Apart file (log_bytes (w1.heap.entries p).log_size) rbuf rlen
      → (w' : World) × (w'' : World) × (mmio_write pmem kernel fd offset buf len w ≡ some (len, w'))
        × (mmio_read (offset + d) rbuf rlen w' ≡ some (rlen, w''))
        × ((i : ℕ) → i < rlen → w''.mem (rbuf + i) ≡ w.mem (buf + (d + i)))
        × (w'.mmio.fsize ≡ size_after w offset len)
  mmio_read-mmio_write d rbuf rlen some_read inside log_apart file_apart =
      let r =
        write_locked-Writes policy pmem w1 p file offset buf len small req aligned logs same in
      let (w', w'', wrote, read, back, kept, end, end_before) =
        write_and_read pmem kernel fd offset buf len k p log_len w free room sized found some_bytes
          fits (ground (arith, r.fsize)) r.log_size r.rwlock d rbuf rlen some_read inside in
      (
        w',
        w'',
        wrote ∙ ap (λ n. some (n, w')) r.ret,
        read,
        λ i lt.
            ap (λ (m : Mem). m (rbuf + i)) back
            ∙ r.reads d rbuf rlen i inside lt log_apart file_apart
            ∙ ap (λ (m : Mem). m (buf + (d + i))) kept,
        end ∙ r.fsize ∙ ap (λ f. if ltb f (offset + len) then offset + len else f) end_before,
      )
