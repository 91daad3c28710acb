-- ===== src/Mmio/Commit/Effect.antt =====
-- src/mmio.c: what `commit_mmio` changes, on every path.
use libnvmmio.Prelude.{
  ℕ, zero, suc, ◌+◌, ◌*◌, ◌%◌, ◌^◌, ◌≤◌, ◌<◌, ◌≡◌, refl, Bool, true, false, Bool-cases, inl, inr,
  some, ltb, if◌then◌else◌, arith,
}
use libnvmmio.Config.{log_4k}
use libnvmmio.Lock.{unlocked, writing, read_trylock, write_trylock, unlock}
use libnvmmio.Memory.{Pmem}
use libnvmmio.Radixlog.{log_bytes, nr_entries}
use libnvmmio.Mmio.World.{World, set_mmio}
use libnvmmio.Mmio.Checkpoint.{checkpoint_round, checkpoint_loop, checkpoint_mmio}
use libnvmmio.Mmio.Commit.{differs, pick_policy, determine_policy, commit_mmio}

step_pos : 0 < nr_entries log_4k * log_bytes log_4k
unfolding nr_entries log_bytes
step_pos = omega arith

module _ (pmem : Pmem) where
  checkpoint_round-writing :
      (current_epoch offset : ℕ) (w : World)
      → w.mmio.rwlock ≡ writing
      → checkpoint_round pmem current_epoch offset w ≡ some (log_4k, w)
  unfolding checkpoint_round read_trylock
  checkpoint_round-writing current_epoch offset w held = rw held

  checkpoint_loop-writing :
      (rounds current_epoch offset endoff : ℕ) (w : World)
      → w.mmio.rwlock ≡ writing
      → endoff ≤ offset + rounds
      → checkpoint_loop pmem rounds current_epoch offset endoff w ≡ some w
  unfolding checkpoint_loop
  checkpoint_loop-writing zero current_epoch offset endoff w held enough = ground arith
  checkpoint_loop-writing (suc rounds) current_epoch offset endoff w held enough =
      elim (Bool-cases (ltb offset endoff)) [
        | inl more ↦
            rw (more, checkpoint_round-writing current_epoch offset w held)
              (checkpoint_loop-writing rounds current_epoch _ endoff w held
                (omega (arith, step_pos)))
        | inr done ↦ rw done
      ]

  -- A checkpoint that is called with the writer lock of the mapping held changes nothing.
  pub checkpoint_mmio-writing :
      (w : World) → w.mmio.rwlock ≡ writing → checkpoint_mmio pmem w ≡ some w
  unfolding checkpoint_mmio
  checkpoint_mmio-writing w held = checkpoint_loop-writing _ _ 0 _ w held (omega arith)

  -- The counters start again if anything was counted.
  abbrev pub recounted : World → World
  recounted w =
      let counted = ltb 0 ((w.mmio.read + w.mmio.write) % 2 ^ 64) in
      set_mmio
        (record w.mmio {
          read = if counted then 0 else w.mmio.read;
          write = if counted then 0 else w.mmio.write;
        })
        w

  determine_policy-writing :
      (w : World) → w.mmio.rwlock ≡ writing → determine_policy pmem w ≡ some (recounted w)
  unfolding determine_policy
  determine_policy-writing w held =
      elim (Bool-cases (ltb 0 ((w.mmio.read + w.mmio.write) % 2 ^ 64))) [
        | inl counted ↦
            rw counted (reset_lem (differs w.mmio.policy (pick_policy w.mmio.read w.mmio.write)))
        | inr uncounted ↦ rw uncounted
      ]
    where
      reset : World
      reset = set_mmio (record w.mmio { read = 0; write = 0 }) w

      reset_lem : (b : Bool) → (if b then checkpoint_mmio pmem reset else some reset) ≡ some reset
      reset_lem true = checkpoint_mmio-writing reset held
      reset_lem false = refl

  -- The state after a commit.
  abbrev pub committed : World → World
  committed w = recounted (set_mmio (record w.mmio { epoch = (w.mmio.epoch + 1) % 2 ^ 64 }) w)

  -- With the lock free, `commit_mmio` returns, and the only changes are the new epoch and the two
  -- counters: the policy, the tables, the entries and the memory stay.
  pub commit_mmio-committed :
      (w : World) → w.mmio.rwlock ≡ unlocked → commit_mmio pmem w ≡ some (committed w)
  unfolding commit_mmio write_trylock unlock
  commit_mmio-committed w free = rw (
    free,
    determine_policy-writing
        (set_mmio (record w.mmio { rwlock = writing; epoch = (w.mmio.epoch + 1) % 2 ^ 64 }) w) refl,
  )
