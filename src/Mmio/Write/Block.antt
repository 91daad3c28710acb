-- ===== src/Mmio/Write/Block.antt =====
-- src/mmio.c: `mmio_write` between its locks, for a request in one block, under both policies.
use libnvmmio.Prelude.{
  ℕ, ◌+◌, ◌-◌, ◌%◌, ◌^◌, ◌≤◌, ◌<◌, ◌≡◌, refl, true, arith, ltb, if◌then◌else◌, ◌∙◌, [], ◌∷◌, ap,
  update_self, sym,
}
use mathlib.Core.Path.{ap₂, subst}
use libnvmmio.Memory.{Mem, Pmem, ntstore, ntstore_lem, within}
use libnvmmio.Prelude.Words.{to_int}
use libnvmmio.Radixlog.{undo, redo, Policy, IdxEntry, log_bytes, log_offset_of}
use libnvmmio.Mmio.Entry.{Cursor, write_entry}
use libnvmmio.Mmio.View.{view, Logs}
use libnvmmio.Mmio.Logged.{Request}
use libnvmmio.Mmio.Redo.{Written, write_entry-Written}
use libnvmmio.Mmio.Undo.{Saved, write_entry-Saved}
use libnvmmio.Mmio.World.{World}
use libnvmmio.Mmio.Write.{store_file, write_loop, write_locked}

-- The variables before the loop.
abbrev pub start_of : World → (offset buf len : ℕ) → Cursor
start_of w offset buf len = record {
  off = offset;
  dst = w.mmio.start + offset;
  src = buf;
  n = to_int len;
  ret = 0;
}

-- What holds of the size and the result under both policies.
abbrev pub size_after : World → (offset len : ℕ) → ℕ
size_after w offset len = if ltb w.mmio.fsize (offset + len) then offset + len else w.mmio.fsize

-- The call returned `len`, the file ends no earlier than the request, the log covers the request,
-- and the block, under its log, reads as the request over what it read as.
pub record RedoWrite (w : World) (p file offset buf len : ℕ) (r : ℕ × World) : Type 0 where
  pub ret : r.0 ≡ len
  pub fsize : r.1.mmio.fsize ≡ size_after w offset len
  pub logs : Logs redo (r.1.heap.entries p) file
  pub log_size : (r.1.heap.entries p).log_size ≡ (w.heap.entries p).log_size
  pub rwlock : (r.1.heap.entries p).rwlock ≡ (w.heap.entries p).rwlock
  pub log : (r.1.heap.entries p).log ≡ (w.heap.entries p).log
  pub covers :
      ((r.1.heap.entries p).offset ≤ log_offset_of offset (w.heap.entries p).log_size)
      × (log_offset_of offset (w.heap.entries p).log_size + len
          ≤ (r.1.heap.entries p).offset + (r.1.heap.entries p).len)
  pub reads :
      (x : ℕ)
      → x < log_bytes (w.heap.entries p).log_size
      → view r.1.mem (r.1.heap.entries p) file x ≡ (
          if within (log_offset_of offset (w.heap.entries p).log_size) len x
          then w.mem (buf + (x - log_offset_of offset (w.heap.entries p).log_size))
          else view w.mem (w.heap.entries p) file x)

-- The call returned `len`, the file ends no earlier than the request and holds the request over what
-- it held, and the log holds what the file held under the request.
pub record UndoWrite (w : World) (p file offset buf len : ℕ) (r : ℕ × World) : Type 0 where
  pub ret : r.0 ≡ len
  pub fsize : r.1.mmio.fsize ≡ size_after w offset len
  pub logs : Logs undo (r.1.heap.entries p) file
  pub log_size : (r.1.heap.entries p).log_size ≡ (w.heap.entries p).log_size
  pub rwlock : (r.1.heap.entries p).rwlock ≡ (w.heap.entries p).rwlock
  pub covers :
      ((r.1.heap.entries p).offset ≤ log_offset_of offset (w.heap.entries p).log_size)
      × (log_offset_of offset (w.heap.entries p).log_size + len
          ≤ (r.1.heap.entries p).offset + (r.1.heap.entries p).len)
  pub writes :
      (x : ℕ)
      → x < log_bytes (w.heap.entries p).log_size
      → r.1.mem (file + x) ≡ (
          if within (log_offset_of offset (w.heap.entries p).log_size) len x
          then w.mem (buf + (x - log_offset_of offset (w.heap.entries p).log_size))
          else w.mem (file + x))
  pub saves :
      (x : ℕ)
      → within (log_offset_of offset (w.heap.entries p).log_size) len x ≡ true
      → r.1.mem ((r.1.heap.entries p).log + x) ≡ w.mem (file + x)

module _ (pmem : Pmem) {policy : Policy} (mem : Mem) (dst buf len : ℕ) where
  store_file-redo : policy ≡ redo → store_file pmem policy mem dst buf len ≡ mem
  unfolding store_file
  store_file-redo e = rw e

  store_file-undo :
      policy ≡ undo → store_file pmem policy mem dst buf len ≡ ntstore pmem mem dst buf len
  unfolding store_file
  store_file-undo e = rw e

module _ (pmem : Pmem) (w : World) (p file offset buf len : ℕ) (small : len < 2 ^ 31)
    (req : Request (w.heap.entries p) file (start_of w offset buf len))
    (aligned : file % log_bytes (w.heap.entries p).log_size ≡ 0) where
  abbrev e : IdxEntry
  e = w.heap.entries p

  abbrev round : Mem × IdxEntry × Cursor
  round = write_entry pmem w.mmio w.mem e (start_of w offset buf len)

  whole : to_int len ≡ len
  whole = omega arith

  abbrev result : ℕ × World
  result = write_locked pmem (p ∷ []) offset buf len w

  abbrev filled : Mem
  filled = store_file pmem w.mmio.policy round.0 (w.mmio.start + offset) buf len

  -- The log of an entry holds the request's first `n` bytes.
  abbrev Covered : ℕ → IdxEntry → Type 0
  Covered n e' =
      (e'.offset ≤ log_offset_of offset e.log_size)
      × (log_offset_of offset e.log_size + n ≤ e'.offset + e'.len)

  entry_lem : result.1.heap.entries p ≡ round.1
  unfolding write_locked write_loop
  entry_lem = update_self w.heap.entries p round.1

  mem_lem : result.1.mem ≡ filled
  unfolding write_locked write_loop
  mem_lem = refl

  ret_lem : round.2.ret ≡ len → result.0 ≡ len
  unfolding write_locked write_loop
  ret_lem e = e

  fsize_lem : round.2.ret ≡ len → result.1.mmio.fsize ≡ size_after w offset len
  unfolding write_locked write_loop
  fsize_lem e = rw e

  -- Between the locks, `mmio_write` under REDO writes a request in one block as it means to. The
  -- request is shorter than 2 GB, an older log is of this block under REDO, the block is mapped at a
  -- multiple of its size, and the buffer overlaps neither the log nor the block.
  pub write_locked-RedoWrite :
      Logs redo e file
      → w.mmio.policy ≡ redo
      → RedoWrite w p file offset buf len (write_locked pmem (p ∷ []) offset buf len w)
  write_locked-RedoWrite logs is_redo = record {
    ret = ret_lem returned;
    fsize = fsize_lem returned;
    logs = subst (λ e'. Logs redo e' file) (sym entry_lem) done.logs;
    log_size = ap (λ (e' : IdxEntry). e'.log_size) entry_lem ∙ done.log_size;
    rwlock = ap (λ (e' : IdxEntry). e'.rwlock) entry_lem ∙ done.rwlock;
    log = ap (λ (e' : IdxEntry). e'.log) entry_lem ∙ done.log;
    covers = subst (Covered len) (sym entry_lem) (subst (λ n. Covered n round.1) whole done.covers);
    reads = λ x lt.
        ap₂ (λ m e'. view m e' file x) (mem_lem ∙ unchanged) entry_lem
        ∙ done.reads x lt
        ∙ ap
            (λ n.
              if within (log_offset_of offset e.log_size) n x
              then w.mem (buf + (x - log_offset_of offset e.log_size))
              else view w.mem e file x)
            whole;
  }
    where
      done : Written w.mem e file (start_of w offset buf len) round
      done = write_entry-Written pmem w.mmio w.mem logs req is_redo aligned

      returned : round.2.ret ≡ len
      returned = ap (λ (c : Cursor). c.ret) done.cursor ∙ omega arith

      unchanged : filled ≡ round.0
      unchanged = store_file-redo pmem round.0 (w.mmio.start + offset) buf len is_redo

  -- Between the locks, `mmio_write` under UNDO writes a request in one block to the file, and saves
  -- to the log what the file held there. The conditions are those for REDO, with an older log of this
  -- block under UNDO.
  pub write_locked-UndoWrite :
      Logs undo e file
      → w.mmio.policy ≡ undo
      → UndoWrite w p file offset buf len (write_locked pmem (p ∷ []) offset buf len w)
  write_locked-UndoWrite logs is_undo = record {
    ret = ret_lem returned;
    fsize = fsize_lem returned;
    logs = subst (λ e'. Logs undo e' file) (sym entry_lem) done.logs;
    log_size = ap (λ (e' : IdxEntry). e'.log_size) entry_lem ∙ done.log_size;
    rwlock = ap (λ (e' : IdxEntry). e'.rwlock) entry_lem ∙ done.rwlock;
    covers = subst (Covered len) (sym entry_lem) (subst (λ n. Covered n round.1) whole done.covers);
    writes = λ x lt. ap (λ m. m (file + x)) mem_lem ∙ written x lt;
    saves = λ x inside.
        ap₂ (λ m e'. m (e'.log + x)) mem_lem entry_lem
        ∙ ap (λ a. filled (a + x)) done.log
        ∙ saved x inside;
  }
    where
      done : Saved w.mem e file (start_of w offset buf len) round
      done = write_entry-Saved pmem w.mmio w.mem logs req is_undo aligned

      returned : round.2.ret ≡ len
      returned = ap (λ (c : Cursor). c.ret) done.cursor ∙ omega arith

      stored :
          (a : ℕ)
          → filled a ≡ (
              if within (w.mmio.start + offset) len a
              then round.0 (buf + (a - (w.mmio.start + offset)))
              else round.0 a)
      stored a =
          ap (λ (m : Mem). m a)
            (store_file-undo pmem round.0 (w.mmio.start + offset) buf len is_undo)
          ∙ ntstore_lem pmem round.0 (w.mmio.start + offset) buf len a
              (ground (arith, req.outside, req.placed, req.fits, whole))

      kept_buf : (a : ℕ) → within buf len a ≡ true → round.0 a ≡ w.mem a
      kept_buf a inside = done.frame a (ground (arith, req.source, whole))

      kept_file : (x : ℕ) → x < log_bytes e.log_size → round.0 (file + x) ≡ w.mem (file + x)
      kept_file x lt = done.frame (file + x) (ground (arith, logs.apart))

      written :
          (x : ℕ)
          → x < log_bytes e.log_size
          → filled (file + x) ≡ (
              if within (log_offset_of offset e.log_size) len x
              then w.mem (buf + (x - log_offset_of offset e.log_size))
              else w.mem (file + x))
      written x lt = ground (
        arith,
        stored (file + x),
        kept_file x lt,
        kept_buf (buf + (x - log_offset_of offset e.log_size)),
        req.placed,
      )

      saved :
          (x : ℕ)
          → within (log_offset_of offset e.log_size) len x ≡ true
          → filled (e.log + x) ≡ w.mem (file + x)
      saved x inside =
          ground (arith, stored (e.log + x), done.saves x, req.placed, req.fits, logs.apart, whole)
