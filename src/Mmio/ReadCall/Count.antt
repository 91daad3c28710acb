-- ===== src/Mmio/ReadCall/Count.antt =====
-- src/mmio.c: how much `mmio_read` reads, and what it leaves as it is.
use libnvmmio.Prelude.{ℕ, ◌+◌, ◌≡◌, refl, some, >>=-eq-some, List, if◌then◌else◌, ◌∙◌, ap, ltb}
use mathlib.Core.Path.{subst}
use libnvmmio.Prelude.Words.{sub64}
use libnvmmio.Lock.{read_trylock, unlock, unlock-read_trylock}
use libnvmmio.Mmio.{Mmio}
use libnvmmio.Mmio.World.{World, LockType, set_mmio, lock_entries}
use libnvmmio.Mmio.World.Kept.{lock_entries-Kept, unlock_entries-Kept}
use libnvmmio.Mmio.Expend.{check_fsize}
use libnvmmio.Mmio.ReadCall.{mmio_read, read_and_unlock}

-- The bytes that are read: those that are asked for, or those up to the end of the file.
abbrev pub read_count : Mmio → (offset len : ℕ) → ℕ
read_count mmio offset len = if check_fsize mmio offset len then sub64 mmio.fsize offset else len

-- The count, the size of the file and the lock after the call.
pub record Counted (w : World) (offset len : ℕ) (r : ℕ × World) : Type 0 where
  pub count : r.0 ≡ read_count w.mmio offset len
  pub fsize : r.1.mmio.fsize ≡ w.mmio.fsize
  pub rwlock : r.1.mmio.rwlock ≡ w.mmio.rwlock

read_and_unlock-Counted :
    (ps : List ℕ) (offset buf len : ℕ) (w : World)
    → let r = read_and_unlock ps offset buf len w in
      (r.0 ≡ read_count w.mmio offset len)
      × (r.1.mmio.fsize ≡ w.mmio.fsize)
      × (r.1.mmio.rwlock ≡ unlock w.mmio.rwlock)
unfolding read_and_unlock
read_and_unlock-Counted ps offset buf len w =
    let k = unlock_entries-Kept ps _ in
    (refl, ap (λ (m : Mmio). m.fsize) k.mmio, ap (λ (m : Mmio). unlock m.rwlock) k.mmio)

-- `mmio_read`, if it returns, returns the bytes asked for or those up to the end of the file, and
-- gives the lock of the mapping back.
pub mmio_read-Counted :
    (offset buf len : ℕ) (w : World) {r : ℕ × World}
    → mmio_read offset buf len w ≡ some r
    → Counted w offset len r
unfolding mmio_read check_fsize
mmio_read-Counted offset buf len w {r} h =
    let (shared, e1, h1) = >>=-eq-some (read_trylock w.mmio.rwlock) _ h in
    let w0 = set_mmio (record w.mmio { rwlock = shared }) w in
    let ((ps, w1), e2, h2) = >>=-eq-some (lock_entries LockType.rd offset len w0) _ h1 in
    let k = lock_entries-Kept LockType.rd offset len e2 in
    let (count, fsize, rwlock) = read_and_unlock-Counted ps offset buf len w1 in
    let same : w1.mmio.fsize ≡ w.mmio.fsize = ap (λ (m : Mmio). m.fsize) k.mmio in
    let back : read_and_unlock ps offset buf len w1 ≡ r = cc h2 in
    subst (Counted w offset len) back (record {
      count = count ∙ ap (λ f. if ltb f (offset + len) then sub64 f offset else len) same;
      fsize = fsize ∙ same;
      rwlock = rwlock ∙ ap (λ (m : Mmio). unlock m.rwlock) k.mmio ∙ unlock-read_trylock e1;
    })
