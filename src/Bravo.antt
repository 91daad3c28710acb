-- ===== src/Bravo.antt =====
-- src/bravo.c: the biased reader-writer lock, one shared access of one thread at a time.
pub mod Hash
pub mod Invariant
pub mod Exclusion
pub mod Run
pub mod Free
pub mod Collision
use libnvmmio.Prelude.{
  ℕ, suc, ◌+◌, ◌-◌, ◌*◌, ◌%◌, ◌^◌, ◌≤◌, ◌<◌, ◌≡◌, ◌≢◌, ◌⊎◌, Bool, true, false, Option, none, some,
  update,
}
use libnvmmio.Bravo.Hash.{bravo_hash, nr_slots}

-- `bravo_rwlock_t`. The pthread lock underneath is seen by who holds it: a writer, or readers. By
-- its documentation a read lock waits for the writer, a write lock for all others, and only a
-- holder may unlock.
pub record BravoLock : Type 0 where
  pub rbias : Bool
  pub inhibit_until : ℕ
  pub writer : Option ℕ
  pub readers : ℕ → Bool

-- `visible_readers`, and the locks by their addresses.
pub record BravoMem : Type 0 where
  pub visible_readers : ℕ → Option ℕ
  pub locks : ℕ → BravoLock

-- The calls that read: one waits, the other returns.
pub data ReadCall : Type 0 where
  lock try : ReadCall

-- By which way a reader got the lock. The code does not keep this.
pub data Way : Type 0 where
  fast slow : Way

-- Where a thread stands in a call for one lock, with the locals that are live there.
pub data Pc : Type 0 where
  idle : Pc
  reserve : ReadCall → ℕ → Pc  -- before the compare-and-swap
  recheck : ReadCall → ℕ → Pc  -- before the second test of `rbias`
  withdraw : ReadCall → ℕ → Pc  -- before the slot is reset
  wait : ReadCall → ℕ → Pc  -- start of the slow path
  timed : ℕ → Pc  -- before the test that may set `rbias`
  bias : ℕ → Pc  -- before `rbias` is set
  reading : Way → ℕ → Pc  -- the caller has the lock
  clearing : Way → ℕ → Pc  -- `bravo_read_unlock`, the slot was not NULL
  releasing : Way → ℕ → Pc  -- `bravo_read_unlock`, the slot was NULL
  claimed : ℕ → Pc  -- `bravo_write_lock`, before the test of `rbias`
  revoke : ℕ → Pc  -- start of `revocate`
  scan : (start i l : ℕ) → Pc  -- before slot `i` is looked at
  writing : ℕ → Pc  -- the caller has the lock

abbrev pub put_lock : ℕ → BravoLock → BravoMem → BravoMem
put_lock l b m = record m { locks = update m.locks l b }

abbrev pub put_slot : ℕ → Option ℕ → BravoMem → BravoMem
put_slot i v m = record m { visible_readers = update m.visible_readers i v }

-- One step of thread `t`, which is its `pthread_self()`. `uses t l` are the calls that the program
-- makes. A clock gives any time.
pub data Move (uses : ℕ → ℕ → Bool) (t : ℕ) (m : BravoMem) : Pc → BravoMem → Pc → Type 0 where
  read_biased :
      {c : ReadCall} {l : ℕ}
      → uses t l ≡ true
      → (m.locks l).rbias ≡ true
      → Move uses t m idle m (reserve c l)
  read_plain :
      {c : ReadCall} {l : ℕ}
      → uses t l ≡ true
      → (m.locks l).rbias ≡ false
      → Move uses t m idle m (wait c l)
  cas_win :
      {c : ReadCall} {l : ℕ}
      → m.visible_readers (bravo_hash t l) ≡ none
      → Move uses t m (reserve c l) (put_slot (bravo_hash t l) (some l) m) (recheck c l)
  cas_lose :
      {c : ReadCall} {l : ℕ}
      → m.visible_readers (bravo_hash t l) ≢ none
      → Move uses t m (reserve c l) m (wait c l)
  still_biased :
      {c : ReadCall} {l : ℕ}
      → (m.locks l).rbias ≡ true
      → Move uses t m (recheck c l) m (reading fast l)
  not_biased :
      {c : ReadCall} {l : ℕ}
      → (m.locks l).rbias ≡ false
      → Move uses t m (recheck c l) m (withdraw c l)
  retract :
      {c : ReadCall} {l : ℕ}
      → Move uses t m (withdraw c l) (put_slot (bravo_hash t l) none m) (wait c l)
  rdlock :
      {c : ReadCall} {l : ℕ}
      → (m.locks l).writer ≡ none
      → Move uses t m
          (wait c l)
          (put_lock l (record (m.locks l) { readers = update (m.locks l).readers t true }) m)
          (timed l)
  busy : {l w : ℕ} → (m.locks l).writer ≡ some w → Move uses t m (wait try l) m idle
  bias_due :
      {l now : ℕ}
      → (m.locks l).rbias ≡ false
      → (m.locks l).inhibit_until ≤ now
      → Move uses t m (timed l) m (bias l)
  bias_set : {l : ℕ} → (m.locks l).rbias ≡ true → Move uses t m (timed l) m (reading slow l)
  bias_early :
      {l now : ℕ} → now < (m.locks l).inhibit_until → Move uses t m (timed l) m (reading slow l)
  set_bias :
      {l : ℕ}
      → Move uses t m (bias l) (put_lock l (record (m.locks l) { rbias = true }) m) (reading slow l)
  seen :
      {k : Way} {l l' : ℕ}
      → m.visible_readers (bravo_hash t l) ≡ some l'
      → Move uses t m (reading k l) m (clearing k l)
  unseen :
      {k : Way} {l : ℕ}
      → m.visible_readers (bravo_hash t l) ≡ none
      → Move uses t m (reading k l) m (releasing k l)
  clear : {k : Way} {l : ℕ} → Move uses t m (clearing k l) (put_slot (bravo_hash t l) none m) idle
  release :
      {k : Way} {l : ℕ}
      → (m.locks l).readers t ≡ true
      → Move uses t m
          (releasing k l)
          (put_lock l (record (m.locks l) { readers = update (m.locks l).readers t false }) m)
          idle
  wrlock :
      {l : ℕ}
      → uses t l ≡ true
      → (m.locks l).writer ≡ none
      → ((s : ℕ) → (m.locks l).readers s ≡ false)
      → Move uses t m idle (put_lock l (record (m.locks l) { writer = some t }) m) (claimed l)
  claim_biased : {l : ℕ} → (m.locks l).rbias ≡ true → Move uses t m (claimed l) m (revoke l)
  claim_plain : {l : ℕ} → (m.locks l).rbias ≡ false → Move uses t m (claimed l) m (writing l)
  reset_bias :
      {l : ℕ} (start : ℕ)
      → Move uses t m
          (revoke l)
          (put_lock l (record (m.locks l) { rbias = false }) m)
          (scan start 0 l)
  pass :
      {start i l : ℕ}
      → i < nr_slots
      → m.visible_readers i ≢ some l
      → Move uses t m (scan start i l) m (scan start (suc i) l)
  scanned :
      {start l : ℕ} (now : ℕ)
      → start ≤ now
      → Move uses t m
          (scan start nr_slots l)
          (put_lock l (record (m.locks l) { inhibit_until = (now + (now - start) * 9) % 2 ^ 64 }) m)
          (writing l)
  write_unlock :
      {l : ℕ} → Move uses t m (writing l) (put_lock l (record (m.locks l) { writer = none }) m) idle

-- All threads, interleaved in any order.
pub record BravoState : Type 0 where
  pub mem : BravoMem
  pub pc : ℕ → Pc

pub data Step (uses : ℕ → ℕ → Bool) (s : BravoState) : BravoState → Type 0 where
  pick :
      (t : ℕ) {m : BravoMem} {p : Pc}
      → Move uses t s.mem (s.pc t) m p
      → Step uses s (record { mem = m; pc = update s.pc t p })

-- `bravo_rwlock_init`
abbrev pub new_lock : BravoLock
new_lock = record { rbias = true; inhibit_until = 0; writer = none; readers = λ t. false }

abbrev pub init : BravoState
init = record {
  mem = record { visible_readers = λ i. none; locks = λ l. new_lock };
  pc = λ t. idle;
}

pub data Reach (uses : ℕ → ℕ → Bool) : BravoState → Type 0 where
  start : Reach uses init
  later : {s s' : BravoState} → Reach uses s → Step uses s s' → Reach uses s'
