-- ===== src/Mmio/ReadBack.antt =====
-- src/mmio.c: `mmio_read` between its locks, after `mmio_write`, under the redo policy.
use libnvmmio.Prelude.{ℕ, ◌+◌, ◌-◌, ◌%◌, ◌^◌, ◌≤◌, ◌<◌, ◌≡◌, refl, sym, arith, ◌∙◌, [], ◌∷◌, ap}
use mathlib.Core.Path.{ap₂, subst}
use libnvmmio.Memory.{Mem, Pmem, Apart}
use libnvmmio.Radixlog.{redo, IdxEntry, log_bytes, log_offset_of}
use libnvmmio.Radixlog.Bounds.{log_offset_of-add}
use libnvmmio.Mmio.View.{view, Logs}
use libnvmmio.Mmio.Logged.{Request}
use libnvmmio.Mmio.World.{World}
use libnvmmio.Mmio.Read.{ReadCursor, read_entry, read_redolog}
use libnvmmio.Mmio.Read.Block.{read_entry-view, share}
use libnvmmio.Mmio.ReadCall.{read_locked}
use libnvmmio.Mmio.Write.{write_loop, write_locked}
use libnvmmio.Mmio.Write.Block.{start_of, RedoWrite, write_locked-RedoWrite}

-- A read from `offset + d` on, inside a request from `offset` on that the log covers.
module _ (e : IdxEntry) (mem : Mem) (file_addr file offset d dst len n : ℕ)
    (logs : Logs redo e file) (placed : file_addr + offset ≡ file + log_offset_of offset e.log_size)
    (fits : log_offset_of offset e.log_size + n ≤ log_bytes e.log_size)
    (covers : (e.offset ≤ log_offset_of offset e.log_size)
      × (log_offset_of offset e.log_size + n ≤ e.offset + e.len))
    (inside : d + len ≤ n) (log_apart : Apart e.log (log_bytes e.log_size) dst len)
    (file_apart : Apart file (log_bytes e.log_size) dst len) where
  abbrev c : ReadCursor
  c = record { dst = dst; offset = offset + d; len = len }

  abbrev o : ℕ
  o = log_offset_of offset e.log_size

  read_inside :
      (k : ℕ)
      → k < len
      → (read_entry e file_addr (mem, c)).0 (dst + k) ≡ view mem e file (o + d + k)
  read_inside k lt =
      read_entry-view e mem c file_addr logs.range
        (subst (λ x. Apart e.log (log_bytes e.log_size) dst x) (sym whole) log_apart)
        (rw (block, whole) file_apart) k (λ tail. omega (arith, tail, moved, whole, covers, inside))
        (subst (λ x. k < x) (sym whole) lt)
      ∙ ap₂ (λ b x. view mem e b (x + k)) block moved
    where
      moved : log_offset_of (offset + d) e.log_size ≡ o + d
      moved = log_offset_of-add e.log_size offset d (omega (arith, inside, fits, lt))

      whole : share e (offset + d) len ≡ len
      whole = ground (arith, moved, inside, fits)

      block : file_addr + (offset + d - log_offset_of (offset + d) e.log_size) ≡ file
      block = omega (arith, moved, placed)

read_locked-one :
    (p offset buf len : ℕ) (w : World)
    → w.mmio.policy ≡ redo
    → read_locked (p ∷ []) offset buf len w
      ≡ (read_entry
          (w.heap.entries p)
          w.mmio.start
          (w.mem, record { dst = buf; offset = offset; len = len })).0
unfolding read_locked read_redolog
read_locked-one p offset buf len w is_redo = rw is_redo

module _ (pmem : Pmem) (w : World) (p file offset buf len : ℕ) (small : len < 2 ^ 31)
    (req : Request (w.heap.entries p) file (start_of w offset buf len))
    (aligned : file % log_bytes (w.heap.entries p).log_size ≡ 0)
    (logs : Logs redo (w.heap.entries p) file) (is_redo : w.mmio.policy ≡ redo) where
  abbrev written : World
  written = (write_locked pmem (p ∷ []) offset buf len w).1

  done : RedoWrite w p file offset buf len (write_locked pmem (p ∷ []) offset buf len w)
  done = write_locked-RedoWrite pmem w p file offset buf len small req aligned logs is_redo

  abbrev e : IdxEntry
  e = w.heap.entries p

  abbrev e' : IdxEntry
  e' = written.heap.entries p

  policy_lem : written.mmio.policy ≡ redo
  unfolding write_locked write_loop
  policy_lem = is_redo

  start_lem : written.mmio.start ≡ w.mmio.start
  unfolding write_locked write_loop
  start_lem = refl

  placed' : written.mmio.start + offset ≡ file + log_offset_of offset e'.log_size
  placed' =
      ap (λ s. s + offset) start_lem
      ∙ req.placed
      ∙ ap (λ s. file + log_offset_of offset s) (sym done.log_size)

  fits : log_offset_of offset e.log_size + len ≤ log_bytes e.log_size
  fits = ground (arith, req.fits, small)

  -- A read inside a request that was written in one block returns the bytes that were written, for
  -- a redo mapping as `write_locked-RedoWrite` has it and a buffer of the reader that overlaps
  -- neither the log nor the block.
  pub read_locked-write_locked :
      (d rbuf rlen k : ℕ)
      → d + rlen ≤ len
      → k < rlen
      → Apart (w.heap.entries p).log (log_bytes (w.heap.entries p).log_size) rbuf rlen
      → Apart file (log_bytes (w.heap.entries p).log_size) rbuf rlen
      → read_locked (p ∷ []) (offset + d) rbuf rlen written (rbuf + k) ≡ w.mem (buf + (d + k))
  read_locked-write_locked d rbuf rlen k inside lt log_apart file_apart =
      ap (λ m. m (rbuf + k)) (read_locked-one p (offset + d) rbuf rlen written policy_lem)
      ∙ read_inside e' written.mem written.mmio.start file offset d rbuf rlen len done.logs placed'
          (rw done.log_size fits) (rw done.log_size done.covers) inside
          (rw (done.log_size, done.log) log_apart) (rw done.log_size file_apart) k lt
      ∙ ap (λ s. view written.mem e' file (log_offset_of offset s + d + k)) done.log_size
      ∙ done.reads (log_offset_of offset e.log_size + d + k) (omega (arith, fits, inside, lt))
      ∙ ground (arith, inside, lt)
