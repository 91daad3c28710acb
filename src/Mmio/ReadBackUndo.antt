-- ===== src/Mmio/ReadBackUndo.antt =====
-- src/mmio.c: `mmio_read` between its locks, after `mmio_write`, under the undo policy.
use libnvmmio.Prelude.{ℕ, ◌+◌, ◌%◌, ◌^◌, ◌≤◌, ◌<◌, ◌≡◌, refl, arith, ◌∙◌, List, [], ◌∷◌, ap}
use libnvmmio.Memory.{Pmem, memcpy}
use libnvmmio.Radixlog.{undo, log_bytes, log_offset_of}
use libnvmmio.Mmio.View.{Logs}
use libnvmmio.Mmio.Logged.{Request}
use libnvmmio.Mmio.World.{World}
use libnvmmio.Mmio.ReadCall.{read_locked}
use libnvmmio.Mmio.Write.{write_loop, write_locked}
use libnvmmio.Mmio.Write.Block.{start_of, UndoWrite, write_locked-UndoWrite}

read_locked-file :
    (ps : List ℕ) (offset buf len k : ℕ) (w : World)
    → w.mmio.policy ≡ undo
    → k < len
    → read_locked ps offset buf len w (buf + k) ≡ w.mem (w.mmio.start + offset + k)
unfolding read_locked
read_locked-file ps offset buf len k w is_undo lt = rw is_undo (copied w.mmio.start)
  where
    copied :
        (start : ℕ) → memcpy w.mem buf (start + offset) len (buf + k) ≡ w.mem (start + offset + k)
    copied start = ground (arith, lt)

module _ (pmem : Pmem) (w : World) (p file offset buf len : ℕ) (small : len < 2 ^ 31)
    (req : Request (w.heap.entries p) file (start_of w offset buf len))
    (aligned : file % log_bytes (w.heap.entries p).log_size ≡ 0)
    (logs : Logs undo (w.heap.entries p) file) (is_undo : w.mmio.policy ≡ undo) where
  abbrev written : World
  written = (write_locked pmem (p ∷ []) offset buf len w).1

  done : UndoWrite w p file offset buf len (write_locked pmem (p ∷ []) offset buf len w)
  done = write_locked-UndoWrite pmem w p file offset buf len small req aligned logs is_undo

  policy_lem : written.mmio.policy ≡ undo
  unfolding write_locked write_loop
  policy_lem = is_undo

  start_lem : written.mmio.start ≡ w.mmio.start
  unfolding write_locked write_loop
  start_lem = refl

  fits :
      log_offset_of offset (w.heap.entries p).log_size + len ≤ log_bytes (w.heap.entries p).log_size
  fits = ground (arith, req.fits, small)

  place :
      (d k : ℕ)
      → written.mmio.start + (offset + d) + k
        ≡ file + (log_offset_of offset (w.heap.entries p).log_size + (d + k))
  place d k = ap (λ s. s + (offset + d) + k) start_lem ∙ omega (arith, req.placed)

  -- A read inside a request that was written in one block returns the bytes that were written, for
  -- an undo mapping as `write_locked-UndoWrite` has it, under any entries.
  pub read_locked-undo_write :
      (ps : List ℕ) (d rbuf rlen k : ℕ)
      → d + rlen ≤ len
      → k < rlen
      → read_locked ps (offset + d) rbuf rlen written (rbuf + k) ≡ w.mem (buf + (d + k))
  read_locked-undo_write ps d rbuf rlen k inside lt =
      read_locked-file ps (offset + d) rbuf rlen k written policy_lem lt
      ∙ ap written.mem (place d k)
      ∙ done.writes (log_offset_of offset (w.heap.entries p).log_size + (d + k))
          (omega (arith, fits, inside, lt))
      ∙ ground (arith, inside, lt)
