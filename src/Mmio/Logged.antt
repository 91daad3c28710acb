-- ===== src/Mmio/Logged.antt =====
-- src/mmio.c: a round of `mmio_write` for an entry of the current epoch, under either policy.
use libnvmmio.Prelude.{ℕ, ◌+◌, ◌-◌, ◌%◌, ◌≤◌, ◌<◌, ◌≡◌, refl, false, arith, ltb, if◌then◌else◌, ◌∙◌}
use libnvmmio.Prelude.Words.{sign_extend}
use libnvmmio.Memory.{Mem, Pmem, ntstore, ntstore_lem, within, Apart}
use libnvmmio.Radixlog.{redo, IdxEntry, log_bytes, log_offset_of}
use libnvmmio.Radixlog.Bounds.{log_bytes-le}
use libnvmmio.Mmio.{Mmio}
use libnvmmio.Radixlog.{undo, Policy}
use libnvmmio.Mmio.Entry.{Cursor, fill_log, update_entry, log_entry}
use libnvmmio.Mmio.View.{view, Logs, Updated, update_entry-Updated}

-- A request that lies in the block of `e`, mapped at `file`, from a buffer that is neither in the
-- log nor in the block.
pub record Request (e : IdxEntry) (file : ℕ) (c : Cursor) : Type 0 where
  pub placed : c.dst ≡ file + log_offset_of c.off e.log_size
  pub some_bytes : 0 < c.n
  pub fits : log_offset_of c.off e.log_size + c.n ≤ log_bytes e.log_size
  pub source : Apart e.log (log_bytes e.log_size) c.src c.n
  pub outside : Apart file (log_bytes e.log_size) c.src c.n

-- Where the log takes its bytes from: under UNDO the file, under REDO the buffer.
abbrev pub log_source : Policy → Cursor → ℕ
log_source undo c = c.dst
log_source redo c = c.src

-- The request is logged: under its log the block reads as before, but for the bytes of the request,
-- which are those that the log took; no byte changes outside the log.
pub record Logged (policy : Policy) (mem : Mem) (e : IdxEntry) (file : ℕ) (c : Cursor)
    (r : Mem × IdxEntry × Cursor) : Type 0 where
  pub logs : Logs policy r.1 file
  pub log : r.1.log ≡ e.log
  pub log_size : r.1.log_size ≡ e.log_size
  pub rwlock : r.1.rwlock ≡ e.rwlock
  pub covers :
      (r.1.offset ≤ log_offset_of c.off e.log_size)
      × (log_offset_of c.off e.log_size + c.n ≤ r.1.offset + r.1.len)
  pub reads :
      (x : ℕ)
      → x < log_bytes e.log_size
      → view r.0 r.1 file x ≡ (
          if within (log_offset_of c.off e.log_size) c.n x
          then mem (log_source policy c + (x - log_offset_of c.off e.log_size))
          else view mem e file x)
  pub frame : (a : ℕ) → within e.log (log_bytes e.log_size) a ≡ false → r.0 a ≡ mem a
  pub cursor : r.2 ≡ record {
    off = c.off + c.n;
    dst = c.dst + c.n;
    src = c.src + c.n;
    n = c.n;
    ret = c.ret + c.n;
  }

module _ {policy : Policy} (pmem : Pmem) (mmio : Mmio) (mem : Mem) {e : IdxEntry} {file : ℕ}
    {c : Cursor} (logs : Logs policy e file) (req : Request e file c) (same : mmio.policy ≡ policy)
    (aligned : file % log_bytes e.log_size ≡ 0) where
  abbrev o : ℕ
  o = log_offset_of c.off e.log_size

  abbrev filled : Mem
  filled = ntstore pmem mem (e.log + o) (log_source policy c) c.n

  updated :
      Updated policy filled e file o c.n
        (update_entry pmem mmio filled e o (e.log + o) (file + o) c.n)
  updated =
      update_entry-Updated pmem mmio filled e file o c.n logs req.fits req.some_bytes same aligned

  source-Apart : Apart (e.log + o) c.n (log_source policy c) c.n
  source-Apart = by_policy policy
    where
      by_policy : (q : Policy) → Apart (e.log + o) c.n (log_source q c) c.n
      by_policy undo = ground (arith, req.fits, req.placed, logs.apart)
      by_policy redo = ground (arith, req.fits, req.source)

  filled_lem :
      (a : ℕ)
      → filled a ≡ (
          if within (e.log + o) c.n a then mem (log_source policy c + (a - (e.log + o))) else mem a)
  filled_lem a = ntstore_lem pmem mem (e.log + o) (log_source policy c) c.n a source-Apart

  fill_log_lem :
      (q : Policy)
      → fill_log pmem q mem (e.log + o) c.dst c.src c.n
        ≡ ntstore pmem mem (e.log + o) (log_source q c) c.n
  unfolding fill_log
  fill_log_lem undo = refl
  fill_log_lem redo = refl

  log_entry_lem : log_entry pmem mmio mem e c ≡ (
      let (mem', e') = update_entry pmem mmio filled e o (e.log + o) (file + o) c.n in
      (
        mem',
        e',
        record {
          off = c.off + c.n;
          dst = c.dst + c.n;
          src = c.src + c.n;
          n = c.n;
          ret = c.ret + c.n;
        },
      ))
  unfolding log_entry
  log_entry_lem = rw (whole, same, fill_log_lem policy, req.placed)
    where
      whole : ltb (log_bytes e.log_size - o) (sign_extend c.n) ≡ false
      whole = ground (arith, req.fits, logs.size, log_bytes-le e.log_size)

  pub log_entry-Logged : Logged policy mem e file c (log_entry pmem mmio mem e c)
  log_entry-Logged = rw log_entry_lem (record {
    logs = updated.logs;
    log = updated.log;
    log_size = updated.log_size;
    rwlock = updated.rwlock;
    covers = updated.covers;
    reads = λ x lt.
        updated.reads x lt
        ∙ ground (
          arith,
          filled_lem (e.log + x),
          filled_lem (file + x),
          logs.range,
          logs.apart,
          req.fits,
        );
    frame = λ a out. updated.frame a out ∙ ground (arith, filled_lem a, req.fits);
    cursor = refl;
  })
