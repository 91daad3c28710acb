-- ===== src/Bravo/Invariant/Defs.antt =====
-- src/bravo.c: who holds what, by where each thread stands.
use libnvmmio.Prelude.{ℕ, ◌≡◌, Bool, true, false, ◌&&◌, Option, none, some, leb, ◌==◌}
use libnvmmio.Bravo.{
  BravoMem, Pc, reserve, recheck, withdraw, wait, timed, bias, reading, clearing, releasing,
  claimed, revoke, scan, writing, fast, slow,
}
use libnvmmio.Bravo.Hash.{bravo_hash}

-- The lock whose slot the thread has set.
abbrev pub slot_lock : Pc → Option ℕ
slot_lock (recheck _ l) = some l
slot_lock (withdraw _ l) = some l
slot_lock (reading fast l) = some l
slot_lock (clearing fast l) = some l
slot_lock _ = none

-- The lock that the thread reads under by its slot alone.
abbrev pub fast_lock : Pc → Option ℕ
fast_lock (reading fast l) = some l
fast_lock (clearing fast l) = some l
fast_lock _ = none

-- The lock whose pthread lock the thread holds as a reader.
abbrev pub slow_lock : Pc → Option ℕ
slow_lock (timed l) = some l
slow_lock (bias l) = some l
slow_lock (reading slow l) = some l
slow_lock (releasing slow l) = some l
slow_lock _ = none

-- The lock whose pthread lock the thread holds as its writer.
abbrev pub write_lock : Pc → Option ℕ
write_lock (claimed l) = some l
write_lock (revoke l) = some l
write_lock (scan _ _ l) = some l
write_lock (writing l) = some l
write_lock _ = none

-- The lock that the thread revoked the bias of, or found without.
abbrev pub plain_lock : Pc → Option ℕ
plain_lock (scan _ _ l) = some l
plain_lock (writing l) = some l
plain_lock _ = none

-- The lock that the thread is in a reader's call for.
abbrev pub call_lock : Pc → Option ℕ
call_lock (reserve _ l) = some l
call_lock (recheck _ l) = some l
call_lock (withdraw _ l) = some l
call_lock (wait _ l) = some l
call_lock (timed l) = some l
call_lock (bias l) = some l
call_lock (reading _ l) = some l
call_lock (clearing _ l) = some l
call_lock (releasing _ l) = some l
call_lock _ = none

-- An unlock that goes the other way than the lock did.
abbrev pub crossed : Pc → Bool
crossed (clearing slow _) = true
crossed (releasing fast _) = true
crossed _ = false

-- The writer has yet to look at slot `j` for `l`.
abbrev pub scans : Pc → (l j : ℕ) → Bool
scans (scan _ i l') l j = l' == l && leb i j
scans _ l j = false

abbrev pub writer_scans : Option ℕ → (ℕ → Pc) → (l j : ℕ) → Bool
writer_scans none pc l j = false
writer_scans (some w) pc l j = scans (pc w) l j

-- No two calls of the program share a slot.
abbrev pub IsApart : (ℕ → ℕ → Bool) → Type 0
IsApart uses =
    (t l t' l' : ℕ)
    → uses t l ≡ true
    → uses t' l' ≡ true
    → bravo_hash t l ≡ bravo_hash t' l'
    → (t ≡ t') × (l ≡ l')

-- A thread that has set slot `i` for `l`.
abbrev pub SlotOwner : (ℕ → Pc) → (i l : ℕ) → Type 0
SlotOwner pc i l = (t : ℕ) × (bravo_hash t l ≡ i) × (slot_lock (pc t) ≡ some l)

pub record Inv (uses : ℕ → ℕ → Bool) (m : BravoMem) (pc : ℕ → Pc) : Type 0 where
  pub used : (t l : ℕ) → call_lock (pc t) ≡ some l → uses t l ≡ true
  pub straight : (t : ℕ) → crossed (pc t) ≡ false
  pub exclusive : (l w t : ℕ) → (m.locks l).writer ≡ some w → (m.locks l).readers t ≡ false
  pub shared : (t l : ℕ) → slow_lock (pc t) ≡ some l → (m.locks l).readers t ≡ true
  pub held : (t l : ℕ) → (m.locks l).readers t ≡ true → slow_lock (pc t) ≡ some l
  pub claims : (w l : ℕ) → (m.locks l).writer ≡ some w → write_lock (pc w) ≡ some l
  pub owned : (t l : ℕ) → write_lock (pc t) ≡ some l → (m.locks l).writer ≡ some t
  pub visible : (t l : ℕ) → slot_lock (pc t) ≡ some l → m.visible_readers (bravo_hash t l) ≡ some l
  pub taken : (i l : ℕ) → m.visible_readers i ≡ some l → SlotOwner pc i l
  pub plain : (t l : ℕ) → plain_lock (pc t) ≡ some l → (m.locks l).rbias ≡ false
  pub barred :
      (t l : ℕ)
      → fast_lock (pc t) ≡ some l
      → (m.locks l).rbias ≡ false
      → writer_scans (m.locks l).writer pc l (bravo_hash t l) ≡ true
