-- ===== src/Mmio/View.antt =====
-- What a block of the file reads as under its log, and how a write to the log changes that.
use libnvmmio.Prelude.{
  ℕ, ◌+◌, ◌-◌, ◌%◌, ◌≤◌, ◌<◌, ◌≡◌, refl, inl, inr, Bool-cases, false, ◌&&◌, arith, ltb, ◌==◌,
  if◌then◌else◌,
}
use mathlib.Core.Bool.{not}
use libnvmmio.Memory.{Mem, Pmem, ntstore_lem, within, Apart}
use libnvmmio.Radixlog.{Policy, IdxEntry, log_bytes}
use libnvmmio.Radixlog.Bounds.{log_bytes-le, log_base_of-add}
use libnvmmio.Mmio.{Mmio}
use libnvmmio.Mmio.Overlap.{Overlap, Drawn, check_log-Drawn}
use libnvmmio.Mmio.Entry.{overwrite, update_entry}

-- The byte at `x` in the block that is mapped at `file`: the log's where it has one.
abbrev pub view : Mem → IdxEntry → (file x : ℕ) → ℕ
view mem e file x = if within e.offset e.len x then mem (e.log + x) else mem (file + x)

-- An entry that logs the block mapped at `file` under one policy.
pub record Logs (policy : Policy) (e : IdxEntry) (file : ℕ) : Type 0 where
  pub size : e.log_size ≤ 9
  pub range : e.offset + e.len ≤ log_bytes e.log_size
  pub placed : 0 < e.len → e.dst ≡ file
  pub kind : 0 < e.len → e.policy ≡ policy
  pub apart : Apart e.log (log_bytes e.log_size) file (log_bytes e.log_size)

module _ {policy : Policy} (pmem : Pmem) (mem : Mem) (e : IdxEntry) (file o n : ℕ)
    (logs : Logs policy e file) (fits : o + n ≤ log_bytes e.log_size) where
  overwrite-view :
      (c : Overlap) (x : ℕ)
      → 0 < e.len
      → x < log_bytes e.log_size
      → Drawn c (e.log + o) (e.log + o + n) (e.log + e.offset) (e.log + e.offset + e.len)
      → let (mem', e') = overwrite pmem c mem e o (e.log + o) (file + o) n in
        view mem' e' file x ≡ (if within o n x then mem (e.log + x) else view mem e file x)
  unfolding overwrite
  overwrite-view Overlap.case_1 x pos lt d = ground (
    arith,
    log_bytes-le e.log_size,
    ntstore_lem pmem mem (e.log + o + n) (file + o + n) (e.log + e.offset - (e.log + o + n))
        (e.log + x),
    ntstore_lem pmem mem (e.log + o + n) (file + o + n) (e.log + e.offset - (e.log + o + n))
        (file + x),
  )
  overwrite-view Overlap.case_2 x pos lt d = ground (arith, log_bytes-le e.log_size)
  overwrite-view Overlap.case_3 x pos lt d = ground (arith, log_bytes-le e.log_size)
  overwrite-view Overlap.case_4 x pos lt d = ground (arith, log_bytes-le e.log_size)
  overwrite-view Overlap.case_5 x pos lt d = ground (arith, log_bytes-le e.log_size)
  overwrite-view Overlap.case_6 x pos lt d = ground (
    arith,
    log_bytes-le e.log_size,
    ntstore_lem pmem mem (e.log + e.offset + e.len)
        (file + o - (e.log + o - (e.log + e.offset + e.len)))
        (e.log + o - (e.log + e.offset + e.len)) (e.log + x),
    ntstore_lem pmem mem (e.log + e.offset + e.len)
        (file + o - (e.log + o - (e.log + e.offset + e.len)))
        (e.log + o - (e.log + e.offset + e.len)) (file + x),
  )

  overwrite-Logs :
      (c : Overlap)
      → 0 < e.len
      → 0 < n
      → Drawn c (e.log + o) (e.log + o + n) (e.log + e.offset) (e.log + e.offset + e.len)
      → let e' = (overwrite pmem c mem e o (e.log + o) (file + o) n).1 in
        Logs policy e' file
        × (e'.log ≡ e.log)
        × (e'.log_size ≡ e.log_size)
        × (e'.offset ≤ o)
        × (o + n ≤ e'.offset + e'.len)
        × (e'.epoch ≡ e.epoch)
        × (e'.rwlock ≡ e.rwlock)
  unfolding overwrite
  overwrite-Logs Overlap.case_1 pos some_data d = ground (arith, log_bytes-le e.log_size)
  overwrite-Logs Overlap.case_2 pos some_data d = ground (arith, log_bytes-le e.log_size)
  overwrite-Logs Overlap.case_3 pos some_data d = ground (arith, log_bytes-le e.log_size)
  overwrite-Logs Overlap.case_4 pos some_data d = ground (arith, log_bytes-le e.log_size)
  overwrite-Logs Overlap.case_5 pos some_data d = ground (arith, log_bytes-le e.log_size)
  overwrite-Logs Overlap.case_6 pos some_data d = ground (arith, log_bytes-le e.log_size)

  overwrite-frame :
      (c : Overlap) (a : ℕ)
      → within e.log (log_bytes e.log_size) a ≡ false
      → Drawn c (e.log + o) (e.log + o + n) (e.log + e.offset) (e.log + e.offset + e.len)
      → (overwrite pmem c mem e o (e.log + o) (file + o) n).0 a ≡ mem a
  unfolding overwrite
  overwrite-frame Overlap.case_1 a out d = ground (
    arith,
    ntstore_lem pmem mem (e.log + o + n) (file + o + n) (e.log + e.offset - (e.log + o + n)) a,
  )
  overwrite-frame Overlap.case_2 a out d = refl
  overwrite-frame Overlap.case_3 a out d = refl
  overwrite-frame Overlap.case_4 a out d = refl
  overwrite-frame Overlap.case_5 a out d = refl
  overwrite-frame Overlap.case_6 a out d = ground (
    arith,
    ntstore_lem pmem mem (e.log + e.offset + e.len)
        (file + o - (e.log + o - (e.log + e.offset + e.len)))
        (e.log + o - (e.log + e.offset + e.len)) a,
  )

-- What filling the log at `o`, `n` bytes long, and then updating the entry achieves. `mem` is the
-- memory with the log filled.
pub record Updated (policy : Policy) (mem : Mem) (e : IdxEntry) (file o n : ℕ) (r : Mem × IdxEntry)
    : Type 0 where
  pub logs : Logs policy r.1 file
  pub log : r.1.log ≡ e.log
  pub log_size : r.1.log_size ≡ e.log_size
  pub epoch : r.1.epoch ≡ e.epoch
  pub rwlock : r.1.rwlock ≡ e.rwlock
  pub covers : (r.1.offset ≤ o) × (o + n ≤ r.1.offset + r.1.len)
  pub frame : (a : ℕ) → within e.log (log_bytes e.log_size) a ≡ false → r.0 a ≡ mem a
  pub reads :
      (x : ℕ)
      → x < log_bytes e.log_size
      → view r.0 r.1 file x ≡ (if within o n x then mem (e.log + x) else view mem e file x)

module _ {policy : Policy} (pmem : Pmem) (mmio : Mmio) (mem : Mem) (e : IdxEntry) (file o n : ℕ)
    (logs : Logs policy e file) (fits : o + n ≤ log_bytes e.log_size) (some_bytes : 0 < n) where
  overwrite-Updated :
      (c : Overlap)
      → 0 < e.len
      → Drawn c (e.log + o) (e.log + o + n) (e.log + e.offset) (e.log + e.offset + e.len)
      → Updated policy mem e file o n (overwrite pmem c mem e o (e.log + o) (file + o) n)
  overwrite-Updated c pos d =
      let kept = overwrite-Logs pmem mem e file o n logs fits c pos some_bytes d in
      record {
        logs = kept.0;
        log = kept.1;
        log_size = kept.2;
        epoch = kept.5;
        rwlock = kept.6;
        covers = (kept.3, kept.4);
        frame = λ a out. overwrite-frame pmem mem e file o n logs fits c a out d;
        reads = λ x lt. overwrite-view pmem mem e file o n logs fits c x pos lt d;
      }

  pub update_entry-Updated :
      mmio.policy ≡ policy
      → file % log_bytes e.log_size ≡ 0
      → Updated policy mem e file o n (update_entry pmem mmio mem e o (e.log + o) (file + o) n)
  unfolding update_entry
  update_entry-Updated same aligned =
      elim (Bool-cases (ltb 0 e.len && not (n == log_bytes e.log_size))) [
        | inl old ↦ rw old (
            overwrite-Updated _ (ground arith) (
              (check_log-Drawn (e.log + o) (e.log + o + n) (e.log + e.offset)
                  (e.log + e.offset + e.len) (omega arith) (omega arith) _).0
                refl))
        | inr new ↦ rw new (record {
          logs = ground (arith, log_bytes-le e.log_size, log_base_of-add e.log_size file o);
          log = refl;
          log_size = refl;
          epoch = refl;
          rwlock = refl;
          covers = omega (arith, log_bytes-le e.log_size);
          frame = λ a out. refl;
          reads = λ x lt. ground (arith, log_bytes-le e.log_size);
        })
      ]
