-- ===== src/Mmio/Write/Extent.antt =====
-- src/mmio.c: the size of the file and the lock of the mapping after `mmio_write`.
use libnvmmio.Prelude.{
  ℕ, ◌+◌, ◌≤◌, ◌≡◌, refl, some, >>=-eq-some, List, [], ◌∷◌, if◌then◌else◌, ap, arith, ltb,
}
use mathlib.Core.Path.{subst}
use libnvmmio.Prelude.Words.{to_int}
use libnvmmio.Lock.{read_trylock}
use libnvmmio.Memory.{Pmem}
use libnvmmio.Mmio.{Mmio}
use libnvmmio.Mmio.World.{World, LockType, set_mmio, lock_entries, unlock_entries}
use libnvmmio.Mmio.World.Kept.{unlock_entries-Kept}
use libnvmmio.Mmio.Entry.{Cursor}
use libnvmmio.Mmio.Expend.{Kernel, check_expend, expend_mmio}
use libnvmmio.Mmio.Write.{write_loop, write_locked, write_and_unlock, mmio_write}

larger : (f x : ℕ) → (x ≤ (if ltb f x then x else f)) × (f ≤ (if ltb f x then x else f))
larger f x = ground arith

module _ (pmem : Pmem) where
  write_loop-mmio :
      (ps : List ℕ) (c : Cursor) (w : World) → (write_loop pmem ps c w).1.mmio ≡ w.mmio
  unfolding write_loop
  write_loop-mmio [] c w = refl
  write_loop-mmio (p ∷ ps) c w = write_loop-mmio ps _ _

  -- The file ends behind what was written.
  write_locked-fsize :
      (ps : List ℕ) (offset buf len : ℕ) (w : World)
      → let r = write_locked pmem ps offset buf len w in
        (offset + r.0 ≤ r.1.mmio.fsize) × (w.mmio.fsize ≤ r.1.mmio.fsize)
  unfolding write_locked
  write_locked-fsize ps offset buf len w =
      let start : Cursor = record {
        off = offset;
        dst = w.mmio.start + offset;
        src = buf;
        n = to_int len;
        ret = 0;
      } in
      let (c, w1) = write_loop pmem ps start w in
      let same : w1.mmio.fsize ≡ w.mmio.fsize =
        ap (λ (m : Mmio). m.fsize) (write_loop-mmio ps start w) in
      let (ends, grows) = larger w1.mmio.fsize (offset + c.ret) in
      (ends, omega (arith, same, grows))

  write_and_unlock-fsize :
      (ps : List ℕ) (offset buf len : ℕ) (w : World)
      → let r = write_and_unlock pmem ps offset buf len w in
        (offset + r.0 ≤ r.1.mmio.fsize) × (w.mmio.fsize ≤ r.1.mmio.fsize)
  unfolding write_and_unlock
  write_and_unlock-fsize ps offset buf len w =
      let (ret, w1) = write_locked pmem ps offset buf len w in
      let k = unlock_entries-Kept ps w1 in
      let same : (unlock_entries ps w1).mmio.fsize ≡ w1.mmio.fsize =
        ap (λ (m : Mmio). m.fsize) k.mmio in
      rw same (write_locked-fsize ps offset buf len w)

  -- `mmio_write`, if it returns, leaves a file that ends no earlier than what it wrote.
  pub mmio_write-fsize :
      (kernel : Kernel) (fd offset buf len : ℕ) (w : World) {r : ℕ × World}
      → mmio_write pmem kernel fd offset buf len w ≡ some r
      → offset + r.0 ≤ r.1.mmio.fsize
  unfolding mmio_write
  mmio_write-fsize kernel fd offset buf len w {r} h =
      let (shared, e1, h1) = >>=-eq-some (read_trylock w.mmio.rwlock) _ h in
      let w1 = set_mmio (record w.mmio { rwlock = shared }) w in
      let (w2, e2, h2) =
        >>=-eq-some
          (if check_expend w1.mmio offset len then expend_mmio kernel fd offset len w1 else some w1)
          _ h1 in
      let ((ps, w3), e3, h3) = >>=-eq-some (lock_entries LockType.wr offset len w2) _ h2 in
      let back : write_and_unlock pmem ps offset buf len w3 ≡ r = cc h3 in
      subst (λ (x : ℕ × World). offset + x.0 ≤ x.1.mmio.fsize) back
        (write_and_unlock-fsize ps offset buf len w3).0
