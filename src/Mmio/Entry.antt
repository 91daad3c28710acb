-- ===== src/Mmio/Entry.antt =====
-- src/mmio.c: what `mmio_write`, `read_redolog` and the checkpoints do with one index entry.
use libnvmmio.Prelude.{ℕ, ◌+◌, ◌-◌, ◌%◌, ◌^◌, ◌&&◌, ltb, ◌==◌, if◌then◌else◌}
use mathlib.Core.Bool.{not}
use libnvmmio.Prelude.Words.{sign_extend}
use libnvmmio.Memory.{Mem, Pmem, ntstore}
use libnvmmio.Radixlog.{Policy, undo, redo, IdxEntry, log_bytes, log_offset_of, log_base_of}
use libnvmmio.Mmio.{Mmio}
use libnvmmio.Mmio.Overlap.{Overlap, check_log}

-- The variables of the loops over the entries: `n` is an `int` in `mmio_write`.
pub record Cursor : Type 0 where
  pub off : ℕ
  pub dst : ℕ
  pub src : ℕ
  pub n : ℕ
  pub ret : ℕ

-- Stores to the bit-fields of an entry.
abbrev pub set_range : IdxEntry → (offset len : ℕ) → IdxEntry
set_range e offset len = record e { offset = offset % 2 ^ 21; len = len % 2 ^ 22 }

module _ (pmem : Pmem) where
  -- The redo case of the checkpoints.
  unfoldable pub apply_log : Mem → IdxEntry → Mem
  apply_log mem e = elim e.policy [
    | undo ↦ mem
    | redo ↦ ntstore pmem mem (e.dst + e.offset) (e.log + e.offset) e.len
  ]

  unfoldable pub checkpoint_entry : Mmio → Mem → IdxEntry → Mem × IdxEntry
  checkpoint_entry mmio mem e = (
    apply_log mem e,
    record e { epoch = mmio.epoch % 2 ^ 20; policy = mmio.policy; len = 0; offset = 0 },
  )

  -- The `switch` on the policy: the log takes the old data or the new.
  unfoldable pub fill_log : Policy → Mem → (log_start dst src n : ℕ) → Mem
  fill_log policy mem log_start dst src n = elim policy [
    | undo ↦ ntstore pmem mem log_start dst n
    | redo ↦ ntstore pmem mem log_start src n
  ]

  -- The `switch` on `check_log`. Each difference is taken where the case makes it at least 0.
  unfoldable pub overwrite :
      Overlap → Mem → IdxEntry → (log_offset log_start dst n : ℕ) → Mem × IdxEntry
  overwrite Overlap.case_1 mem e log_offset log_start dst n =
      let prev_start = e.log + e.offset in
      let prev_end = prev_start + e.len in
      let log_end = log_start + n in
      (
        ntstore pmem mem log_end (dst + n) (prev_start - log_end),
        set_range e log_offset (prev_end - log_start),
      )
  overwrite Overlap.case_2 mem e log_offset log_start dst n =
      (mem, set_range e log_offset (e.log + e.offset + e.len - log_start))
  overwrite Overlap.case_3 mem e log_offset log_start dst n = (mem, set_range e log_offset n)
  overwrite Overlap.case_4 mem e log_offset log_start dst n = (mem, e)
  overwrite Overlap.case_5 mem e log_offset log_start dst n =
      (mem, record e { len = (log_start + n - (e.log + e.offset)) % 2 ^ 22 })
  overwrite Overlap.case_6 mem e log_offset log_start dst n =
      let prev_start = e.log + e.offset in
      let prev_end = prev_start + e.len in
      let overwrite_len = log_start - prev_end in
      (
        ntstore pmem mem prev_end (dst - overwrite_len) overwrite_len,
        record e { len = (log_start + n - prev_start) % 2 ^ 22 },
      )

  -- The entry after its log was filled.
  unfoldable pub update_entry :
      Mmio → Mem → IdxEntry → (log_offset log_start dst n : ℕ) → Mem × IdxEntry
  update_entry mmio mem e log_offset log_start dst n =
      if ltb 0 e.len && not (n == log_bytes e.log_size)
      then (let prev_start = e.log + e.offset in
          overwrite (check_log log_start (log_start + n) prev_start (prev_start + e.len)) mem e
            log_offset log_start dst n)
      else (
        mem,
        record (set_range e log_offset n) {
          dst = log_base_of dst e.log_size;
          policy = mmio.policy;
        },
      )

  -- One round of the loop of `mmio_write`, for an entry that was checked against the epoch.
  unfoldable pub log_entry : Mmio → Mem → IdxEntry → Cursor → Mem × IdxEntry × Cursor
  log_entry mmio mem e c =
      let log_offset = log_offset_of c.off e.log_size in
      let log_start = e.log + log_offset in
      let log_len = log_bytes e.log_size - log_offset in
      let n = if ltb log_len (sign_extend c.n) then log_len else c.n in
      let (mem', e') =
        update_entry mmio (fill_log mmio.policy mem log_start c.dst c.src n) e log_offset log_start
          c.dst n in
      (
        mem',
        e',
        record { off = c.off + n; dst = c.dst + n; src = c.src + n; n = n; ret = c.ret + n },
      )

  -- One round of the loop of `mmio_write`.
  unfoldable pub write_entry : Mmio → Mem → IdxEntry → Cursor → Mem × IdxEntry × Cursor
  write_entry mmio mem e c =
      let (mem', e') = if ltb e.epoch mmio.epoch then checkpoint_entry mmio mem e else (mem, e) in
      log_entry mmio mem' e' c
