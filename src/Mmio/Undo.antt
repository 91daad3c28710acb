-- ===== src/Mmio/Undo.antt =====
-- src/mmio.c under the undo policy: a round of the loop of `mmio_write`.
use libnvmmio.Prelude.{
  ℕ, ◌+◌, ◌%◌, ◌^◌, ◌≤◌, ◌≡◌, inl, inr, Bool-cases, true, false, arith, ltb, ◌∙◌,
}
use libnvmmio.Memory.{Mem, Pmem, ntstore_lem, within}
use libnvmmio.Radixlog.{undo, IdxEntry, log_bytes, log_offset_of}
use libnvmmio.Mmio.{Mmio}
use libnvmmio.Mmio.Entry.{Cursor, apply_log, checkpoint_entry, log_entry, write_entry}
use libnvmmio.Mmio.View.{Logs}
use libnvmmio.Mmio.Logged.{Request, Logged, log_entry-Logged}

-- The log covers the request, and holds there what the file held just before the round. No byte
-- changes outside the log.
pub record Saved (mem : Mem) (e : IdxEntry) (file : ℕ) (c : Cursor) (r : Mem × IdxEntry × Cursor)
    : Type 0 where
  pub logs : Logs undo r.1 file
  pub log : r.1.log ≡ e.log
  pub log_size : r.1.log_size ≡ e.log_size
  pub rwlock : r.1.rwlock ≡ e.rwlock
  pub covers :
      (r.1.offset ≤ log_offset_of c.off e.log_size)
      × (log_offset_of c.off e.log_size + c.n ≤ r.1.offset + r.1.len)
  pub saves :
      (x : ℕ)
      → within (log_offset_of c.off e.log_size) c.n x ≡ true
      → r.0 (e.log + x) ≡ mem (file + x)
  pub frame : (a : ℕ) → within e.log (log_bytes e.log_size) a ≡ false → r.0 a ≡ mem a
  pub cursor : r.2 ≡ record {
    off = c.off + c.n;
    dst = c.dst + c.n;
    src = c.src + c.n;
    n = c.n;
    ret = c.ret + c.n;
  }

module _ {mem : Mem} {e : IdxEntry} {file : ℕ} {c : Cursor} {r : Mem × IdxEntry × Cursor}
    (logs : Logs undo e file) (req : Request e file c) (w : Logged undo mem e file c r) where
  Logged-saves :
      (x : ℕ)
      → within (log_offset_of c.off e.log_size) c.n x ≡ true
      → r.0 (e.log + x) ≡ mem (file + x)
  Logged-saves x inside = ground (arith, w.reads x, w.covers, w.log, req.fits, req.placed)

module _ (pmem : Pmem) (mmio : Mmio) (mem : Mem) {e : IdxEntry} {file : ℕ} {c : Cursor}
    (logs : Logs undo e file) (req : Request e file c) (is_undo : mmio.policy ≡ undo)
    (aligned : file % log_bytes e.log_size ≡ 0) where
  -- A checkpoint under UNDO changes no memory.
  apply_log-undo : (a : ℕ) → apply_log pmem mem e a ≡ mem a
  unfolding apply_log
  apply_log-undo a =
      ground (arith, ntstore_lem pmem mem (e.dst + e.offset) (e.log + e.offset) e.len a, logs.kind)

  current-Saved : Saved mem e file c (log_entry pmem mmio mem e c)
  current-Saved = record {
    logs = w.logs;
    log = w.log;
    log_size = w.log_size;
    rwlock = w.rwlock;
    covers = w.covers;
    saves = Logged-saves logs req w;
    frame = w.frame;
    cursor = w.cursor;
  }
    where
      w : Logged undo mem e file c (log_entry pmem mmio mem e c)
      w = log_entry-Logged pmem mmio mem logs req is_undo aligned

  stale-Saved :
      Saved mem e file c
        (let (mem', e') = checkpoint_entry pmem mmio mem e in log_entry pmem mmio mem' e' c)
  unfolding checkpoint_entry
  stale-Saved = record {
    logs = w.logs;
    log = w.log;
    log_size = w.log_size;
    rwlock = w.rwlock;
    covers = w.covers;
    saves =
        λ x inside. Logged-saves fresh-Logs fresh-Request w x inside ∙ apply_log-undo (file + x);
    frame = λ a out. w.frame a out ∙ apply_log-undo a;
    cursor = w.cursor;
  }
    where
      fresh : IdxEntry
      fresh = record e { epoch = mmio.epoch % 2 ^ 20; policy = mmio.policy; len = 0; offset = 0 }

      fresh-Logs : Logs undo fresh file
      fresh-Logs = ground (arith, logs.apart, logs.size)

      fresh-Request : Request fresh file c
      fresh-Request = record {
        placed = req.placed;
        some_bytes = req.some_bytes;
        fits = req.fits;
        source = req.source;
        outside = req.outside;
      }

      w :
          Logged undo
            (apply_log pmem mem e)
            fresh
            file
            c
            (log_entry pmem mmio (apply_log pmem mem e) fresh c)
      w = log_entry-Logged pmem mmio (apply_log pmem mem e) fresh-Logs fresh-Request is_undo aligned

  -- Where an older log is of this block under UNDO, the block is mapped at a multiple of its size and
  -- the buffer is apart from log and block, a round of the undo `mmio_write` in one block saves what
  -- the file holds under the request to the log, for a
  -- new entry, one of an earlier epoch or one of this epoch, and writes nowhere else.
  pub write_entry-Saved : Saved mem e file c (write_entry pmem mmio mem e c)
  unfolding write_entry
  write_entry-Saved = elim (Bool-cases (ltb e.epoch mmio.epoch)) [
    | inl stale ↦ rw stale stale-Saved
    | inr current ↦ rw current current-Saved
  ]
