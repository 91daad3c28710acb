-- ===== src/Mmio/Calls.antt =====
-- src/mmio.c: `mmio_write` and then `mmio_read`, as whole calls, for a request in one block.
use libnvmmio.Prelude.{
  ℕ, suc, ◌+◌, ◌-◌, ◌^◌, ◌≤◌, ◌<◌, ◌≡◌, refl, sym, ◌∙◌, ap, false, some, [], ◌∷◌, arith, ltb,
  update_self,
}
use mathlib.Core.Path.{subst, ap₂}
use mathlib.Core.Logic.{◌⊎◌, inl, inr}
use libnvmmio.Prelude.Words.{to_int}
use libnvmmio.Lock.{RwLock, held, read_trylock, unlock}
use libnvmmio.Memory.{Mem, Pmem, memcpy}
use libnvmmio.Radixlog.{Policy, undo, redo, IdxEntry, log_bytes, log_offset_of}
use libnvmmio.Radixlog.Bounds.{log_bytes-le}
use libnvmmio.Radixlog.Sized.{IsSized}
use libnvmmio.Mmio.World.{
  World, LockType, trylock, set_mmio, lock_entry, lock_entries, unlock_entries,
}
use libnvmmio.Mmio.{Mmio}
use libnvmmio.Mmio.World.Kept.{lock_entries-Kept}
use libnvmmio.Mmio.World.Single.{
  Locked, lock_entry-Locked, lock_entry-writing, Locked-lock_entry, lock_entries-one, relocked,
}
use libnvmmio.Mmio.Read.{read_entry, read_redolog}
use libnvmmio.Mmio.ReadCall.{read_locked, read_and_unlock, mmio_read}
use libnvmmio.Mmio.Expend.{Kernel, check_expend, check_fsize}
use libnvmmio.Mmio.Write.{write_loop, write_locked, write_and_unlock, mmio_write}

abbrev pub with_readers : ℕ → World → World
with_readers k w = set_mmio (record w.mmio { rwlock = held k }) w

Policy-cases : (policy : Policy) → (policy ≡ undo) ⊎ (policy ≡ redo)
Policy-cases undo = inl refl
Policy-cases redo = inr refl

-- The read between the locks, in the parts of the world that it looks at.
read_parts : Policy → (start : ℕ) → Mem → IdxEntry → (offset buf len : ℕ) → Mem
read_parts undo start mem e offset buf len = memcpy mem buf (start + offset) len
read_parts redo start mem e offset buf len =
    (read_entry e start (mem, record { dst = buf; offset = offset; len = len })).0

read_locked-parts :
    (p offset buf len : ℕ) (w : World)
    → read_locked (p ∷ []) offset buf len w
      ≡ read_parts w.mmio.policy w.mmio.start w.mem (w.heap.entries p) offset buf len
unfolding read_locked read_redolog read_parts
read_locked-parts p offset buf len w = elim (Policy-cases w.mmio.policy) [
  | inl is_undo ↦ rw is_undo
  | inr is_redo ↦ rw is_redo
]

-- The lock of the entry makes no difference.
read_parts-rwlock :
    (policy : Policy) (start : ℕ) (mem : Mem) (e : IdxEntry) (offset buf len : ℕ) (l : RwLock)
    → read_parts policy start mem (record e { rwlock = l }) offset buf len
      ≡ read_parts policy start mem e offset buf len
unfolding read_parts read_entry
read_parts-rwlock undo start mem e offset buf len l = refl
read_parts-rwlock redo start mem e offset buf len l = refl

module _ (pmem : Pmem) (kernel : Kernel) (fd offset buf len k p log_len : ℕ) (w : World)
    {w1 : World} (free : w.mmio.rwlock ≡ held k) (room : w.mmio.start + offset + len ≤ w.mmio.end)
    (sized : IsSized w.tables.tables)
    (found : lock_entry LockType.wr (to_int len) offset (with_readers (suc k) w)
      ≡ some (p, log_len, w1))
    (some_bytes : 0 < len) (fits : len ≤ log_len) where
  abbrev written : ℕ × World
  written = write_locked pmem (p ∷ []) offset buf len w1

  abbrev after : World
  after = (write_and_unlock pmem (p ∷ []) offset buf len w1).1

  locked : Locked offset p log_len w1
  locked = lock_entry-Locked LockType.wr (to_int len) offset (with_readers (suc k) w) found sized

  few : log_len ≤ 2 ^ 21
  few = omega (arith, locked.len, log_bytes-le locked.s locked.small)

  one_write : lock_entries LockType.wr offset len (with_readers (suc k) w) ≡ some (p ∷ [], w1)
  one_write =
      lock_entries-one LockType.wr offset len (with_readers (suc k) w) found some_bytes fits few

  mmio_write_lem : mmio_write pmem kernel fd offset buf len w ≡ some (written.0, after)
  unfolding mmio_write check_expend read_trylock write_and_unlock
  mmio_write_lem =
      let fits_mapping : ltb w.mmio.end (w.mmio.start + offset + len) ≡ false =
        ground (arith, room) in
      rw (free, fits_mapping, one_write) refl

  after-tables : after.tables ≡ w1.tables
  unfolding write_and_unlock write_locked write_loop unlock_entries
  after-tables = refl

  after-radixlog : after.mmio.radixlog ≡ w1.mmio.radixlog
  unfolding write_and_unlock write_locked write_loop unlock_entries
  after-radixlog = refl

  after-mmio : after.mmio ≡ record written.1.mmio { rwlock = unlock written.1.mmio.rwlock }
  unfolding write_and_unlock unlock_entries
  after-mmio = refl

  after-mem : after.mem ≡ written.1.mem
  unfolding write_and_unlock unlock_entries
  after-mem = refl

  after-entry :
      after.heap.entries p
      ≡ record (written.1.heap.entries p) { rwlock = unlock (written.1.heap.entries p).rwlock }
  unfolding write_and_unlock unlock_entries
  after-entry = update_self written.1.heap.entries p _

  written-rwlock : written.1.mmio.rwlock ≡ w1.mmio.rwlock
  unfolding write_locked write_loop
  written-rwlock = refl

  after-rwlock : after.mmio.rwlock ≡ held k
  unfolding unlock
  after-rwlock =
      ap (λ (m : Mmio). m.rwlock) after-mmio
      ∙ ap unlock (
          written-rwlock
          ∙ ap (λ (m : Mmio). m.rwlock) (lock_entries-Kept LockType.wr offset len one_write).mmio)

  -- A read of a part of the request, after a write that returned its length.
  module _ (size : offset + len ≤ written.1.mmio.fsize)
      (log_size : (written.1.heap.entries p).log_size ≡ (w1.heap.entries p).log_size)
      (rwlock : (written.1.heap.entries p).rwlock ≡ (w1.heap.entries p).rwlock) (d rbuf rlen : ℕ)
      (some_read : 0 < rlen) (inside : d + rlen ≤ len) where
    abbrev seen : World
    seen = relocked p locked.s (held 1) (with_readers (suc k) after)

    lockable : trylock LockType.rd (after.heap.entries p).rwlock ≡ some (held 1)
    unfolding trylock read_trylock unlock
    lockable =
        subst (λ l. trylock LockType.rd l ≡ some (held 1))
          (sym (
            ap (λ (e : IdxEntry). e.rwlock) after-entry
            ∙ ap unlock
                (rwlock ∙ lock_entry-writing (to_int len) offset (with_readers (suc k) w) found)))
          refl

    found_again :
        lock_entry LockType.rd (to_int rlen) (offset + d) (with_readers (suc k) after)
        ≡ some (p, log_bytes locked.s - (log_offset_of offset locked.s + d), seen)
    found_again =
        Locked-lock_entry locked (with_readers (suc k) after) LockType.rd (to_int rlen) d (held 1)
          after-tables after-radixlog (omega (arith, locked.len, fits, inside, some_read)) lockable

    mmio_read_lem :
        mmio_read (offset + d) rbuf rlen after
        ≡ some (read_and_unlock (p ∷ []) (offset + d) rbuf rlen seen)
    unfolding mmio_read read_trylock
    mmio_read_lem =
        let one =
          lock_entries-one LockType.rd (offset + d) rlen (with_readers (suc k) after) found_again
            some_read (omega (arith, locked.len, fits, inside))
            (omega (arith, log_bytes-le locked.s locked.small)) in
        rw (after-rwlock, one) refl

    same_entry : seen.heap.entries p ≡ record (written.1.heap.entries p) { rwlock = held 1 }
    same_entry =
        update_self after.heap.entries p _
        ∙ ap (λ (e : IdxEntry). record e { rwlock = held 1; log_size = locked.s }) after-entry
        ∙ ap (λ s. record (written.1.heap.entries p) { rwlock = held 1; log_size = s })
            (sym (log_size ∙ locked.entry_sized))

    not_past_end : ltb after.mmio.fsize (offset + d + rlen) ≡ false
    not_past_end = ground (arith, ap (λ (m : Mmio). m.fsize) after-mmio, size, inside)

    read_len : (read_and_unlock (p ∷ []) (offset + d) rbuf rlen seen).0 ≡ rlen
    unfolding read_and_unlock check_fsize
    read_len = rw not_past_end

    same_read :
        read_locked (p ∷ []) (offset + d) rbuf rlen seen
        ≡ read_locked (p ∷ []) (offset + d) rbuf rlen written.1
    same_read =
        read_locked-parts p (offset + d) rbuf rlen seen
        ∙ ap₂
            (λ (m : Mmio) (mem : Mem).
              read_parts m.policy m.start mem (seen.heap.entries p) (offset + d) rbuf rlen)
            after-mmio after-mem
        ∙ ap
            (λ e.
              read_parts written.1.mmio.policy written.1.mmio.start written.1.mem e (offset + d)
                rbuf rlen)
            same_entry
        ∙ read_parts-rwlock written.1.mmio.policy written.1.mmio.start written.1.mem
            (written.1.heap.entries p) (offset + d) rbuf rlen (held 1)
        ∙ sym (read_locked-parts p (offset + d) rbuf rlen written.1)

    read_mem :
        (read_and_unlock (p ∷ []) (offset + d) rbuf rlen seen).1.mem
        ≡ read_locked (p ∷ []) (offset + d) rbuf rlen written.1
    unfolding read_and_unlock check_fsize unlock_entries
    read_mem = rw not_past_end same_read

    -- The write returns, and the read returns what a read between the locks gives.
    pub write_and_read :
        (w' : World) × (w'' : World) × (mmio_write pmem kernel fd offset buf len w
          ≡ some ((write_locked pmem (p ∷ []) offset buf len w1).0, w'))
        × (mmio_read (offset + d) rbuf rlen w' ≡ some (rlen, w''))
        × (w''.mem
            ≡ read_locked
                (p ∷ [])
                (offset + d)
                rbuf
                rlen
                (write_locked pmem (p ∷ []) offset buf len w1).1)
        × (w1.mem ≡ w.mem)
        × (w'.mmio.fsize ≡ (write_locked pmem (p ∷ []) offset buf len w1).1.mmio.fsize)
        × (w1.mmio.fsize ≡ w.mmio.fsize)
    write_and_read =
        let r = read_and_unlock (p ∷ []) (offset + d) rbuf rlen seen in
        (
          after,
          r.1,
          mmio_write_lem,
          mmio_read_lem ∙ ap (λ n. some (n, r.1)) read_len,
          read_mem,
          (lock_entries-Kept LockType.wr offset len one_write).mem,
          ap (λ (m : Mmio). m.fsize) after-mmio,
          ap (λ (m : Mmio). m.fsize) (lock_entries-Kept LockType.wr offset len one_write).mmio,
        )
