-- ===== src/Mmio/Redo.antt =====
-- src/mmio.c under the redo policy: the checkpoint of an entry, and one round of `mmio_write`.
use libnvmmio.Prelude.{
  ℕ, ◌+◌, ◌-◌, ◌%◌, ◌^◌, ◌≤◌, ◌<◌, ◌≡◌, refl, inl, inr, Bool-cases, true, false, arith, ltb,
  if◌then◌else◌, ◌∙◌,
}
use libnvmmio.Memory.{Mem, Pmem, ntstore_lem, within}
use libnvmmio.Radixlog.{redo, IdxEntry, log_bytes, log_offset_of}
use libnvmmio.Radixlog.Bounds.{log_bytes_pos}
use libnvmmio.Mmio.{Mmio}
use libnvmmio.Mmio.Entry.{Cursor, apply_log, checkpoint_entry, log_entry, write_entry}
use libnvmmio.Mmio.View.{view, Logs}
use libnvmmio.Mmio.Logged.{Request, Logged, log_entry-Logged}

module _ (pmem : Pmem) (mem : Mem) {e : IdxEntry} {file : ℕ} (logs : Logs redo e file) where
  -- Applying the log puts the bytes that the block read as into the file, and nothing elsewhere.
  pub apply_log-view :
      (a : ℕ)
      → apply_log pmem mem e a
        ≡ (if within file (log_bytes e.log_size) a then view mem e file (a - file) else mem a)
  unfolding apply_log
  apply_log-view a =
      ground (arith, ntstore_lem pmem mem (e.dst + e.offset) (e.log + e.offset) e.len a)

  -- A checkpoint of an entry whose log, if it holds any, is of its block under REDO leaves each byte
  -- of the block reading as before, and the log empty.
  pub checkpoint_entry-view :
      (mmio : Mmio) (x : ℕ)
      → x < log_bytes e.log_size
      → let (mem', e') = checkpoint_entry pmem mmio mem e in
        (view mem' e' file x ≡ view mem e file x) × (e'.len ≡ 0) × Logs redo e' file
  unfolding checkpoint_entry
  checkpoint_entry-view mmio x lt =
      (ground (arith, apply_log-view (file + x)), refl, ground (arith, log_bytes_pos e.log_size))

-- The block reads as before, but for the bytes of the request, which are those of the buffer; no
-- byte changes outside the log and the block.
pub record Written (mem : Mem) (e : IdxEntry) (file : ℕ) (c : Cursor) (r : Mem × IdxEntry × Cursor)
    : Type 0 where
  pub logs : Logs redo r.1 file
  pub log : r.1.log ≡ e.log
  pub log_size : r.1.log_size ≡ e.log_size
  pub rwlock : r.1.rwlock ≡ e.rwlock
  pub covers :
      (r.1.offset ≤ log_offset_of c.off e.log_size)
      × (log_offset_of c.off e.log_size + c.n ≤ r.1.offset + r.1.len)
  pub reads :
      (x : ℕ)
      → x < log_bytes e.log_size
      → view r.0 r.1 file x ≡ (
          if within (log_offset_of c.off e.log_size) c.n x
          then mem (c.src + (x - log_offset_of c.off e.log_size))
          else view mem e file x)
  pub frame :
      (a : ℕ)
      → within e.log (log_bytes e.log_size) a ≡ false
      → within file (log_bytes e.log_size) a ≡ false
      → r.0 a ≡ mem a
  pub cursor : r.2 ≡ record {
    off = c.off + c.n;
    dst = c.dst + c.n;
    src = c.src + c.n;
    n = c.n;
    ret = c.ret + c.n;
  }

module _ (pmem : Pmem) (mmio : Mmio) (mem : Mem) {e : IdxEntry} {file : ℕ} {c : Cursor}
    (logs : Logs redo e file) (req : Request e file c) (is_redo : mmio.policy ≡ redo)
    (aligned : file % log_bytes e.log_size ≡ 0) where
  current-Written :
      {r : Mem × IdxEntry × Cursor} → Logged redo mem e file c r → Written mem e file c r
  current-Written w = record {
    logs = w.logs;
    log = w.log;
    log_size = w.log_size;
    rwlock = w.rwlock;
    covers = w.covers;
    reads = w.reads;
    frame = λ a out other. w.frame a out;
    cursor = w.cursor;
  }

  outside_kept :
      (a : ℕ) → within file (log_bytes e.log_size) a ≡ false → apply_log pmem mem e a ≡ mem a
  outside_kept a out = apply_log-view pmem mem logs a ∙ rw out

  in_buffer :
      (x : ℕ)
      → within (log_offset_of c.off e.log_size) c.n x ≡ true
      → within file (log_bytes e.log_size) (c.src + (x - log_offset_of c.off e.log_size)) ≡ false
  in_buffer x inside = ground (arith, req.outside)

  stale-Written :
      Written mem e file c
        (let (mem', e') = checkpoint_entry pmem mmio mem e in log_entry pmem mmio mem' e' c)
  unfolding checkpoint_entry
  stale-Written = record {
    logs = w.logs;
    log = w.log;
    log_size = w.log_size;
    rwlock = w.rwlock;
    covers = w.covers;
    reads = λ x lt. w.reads x lt ∙ kept x lt;
    frame = λ a out other. w.frame a out ∙ outside_kept a other;
    cursor = w.cursor;
  }
    where
      o : ℕ
      o = log_offset_of c.off e.log_size

      source_kept :
          (x : ℕ)
          → within o c.n x ≡ true
          → apply_log pmem mem e (c.src + (x - o)) ≡ mem (c.src + (x - o))
      source_kept x inside = outside_kept (c.src + (x - o)) (in_buffer x inside)

      emptied : IdxEntry
      emptied = record e { epoch = mmio.epoch % 2 ^ 20; policy = mmio.policy; len = 0; offset = 0 }

      kept :
          (x : ℕ)
          → x < log_bytes e.log_size
          → (if within o c.n x
              then apply_log pmem mem e (c.src + (x - o))
              else view (apply_log pmem mem e) emptied file x)
            ≡ (if within o c.n x then mem (c.src + (x - o)) else view mem e file x)
      kept x lt = elim (Bool-cases (within o c.n x)) [
        | inl inside ↦ rw inside (source_kept x inside)
        | inr out ↦ rw out (checkpoint_entry-view pmem mem logs mmio x lt).0
      ]

      emptied-Logs : Logs redo emptied file
      emptied-Logs = ground (arith, logs.apart, logs.size)

      w :
          Logged redo
            (apply_log pmem mem e)
            emptied
            file
            c
            (log_entry pmem mmio (apply_log pmem mem e) emptied c)
      w =
          log_entry-Logged pmem mmio (apply_log pmem mem e) emptied-Logs
            (record {
              placed = req.placed;
              some_bytes = req.some_bytes;
              fits = req.fits;
              source = req.source;
              outside = req.outside;
            })
            is_redo aligned

  -- Where an older log is of this block under REDO, the block is mapped at a multiple of its size and
  -- the buffer is apart from log and block, a round of the redo `mmio_write` in one block writes the
  -- request over what the block reads as, however the request lies to the log, and whether or not the
  -- entry is of an earlier epoch; no byte outside the log and the block changes.
  pub write_entry-Written : Written mem e file c (write_entry pmem mmio mem e c)
  unfolding write_entry
  write_entry-Written = elim (Bool-cases (ltb e.epoch mmio.epoch)) [
    | inl stale ↦ rw stale stale-Written
    | inr current ↦
        rw current (current-Written (log_entry-Logged pmem mmio mem logs req is_redo aligned))
  ]
