-- ===== src/Mmio/Checkpoint/Fuel.antt =====
-- src/mmio.c: the rounds of the outer loop of `checkpoint_mmio`.
use libnvmmio.Prelude.{
  ℕ, zero, suc, ◌+◌, ◌-◌, ◌*◌, ◌%◌, ◌^◌, ◌≤◌, ◌<◌, ◌≡◌, inl, inr, none, some, arith, ltb,
  Bool-cases, Option-cases, Option,
}
use native.Mathlib.Nat.{mul-pos}
use libnvmmio.Prelude.Words.{two_pow_pos}
use libnvmmio.Memory.{Pmem}
use libnvmmio.Radixlog.{log_bytes, nr_entries, lmd_shift, log_shift}
use libnvmmio.Radixlog.Bounds.{log_bytes_pos}
use libnvmmio.Mmio.World.{World}
use libnvmmio.Mmio.Checkpoint.{checkpoint_round, checkpoint_loop, checkpoint_mmio}

table_bytes_pos : (s : ℕ) → 0 < nr_entries s * log_bytes s
unfolding nr_entries
table_bytes_pos s =
    mul-pos (two_pow_pos ((lmd_shift + 2 ^ 6 - log_shift s) % 2 ^ 6)) (log_bytes_pos s)

module _ (pmem : Pmem) (current_epoch endoff : ℕ) where
  -- The `while` loop from `offset` on in the world `w` ends with `r`: at the end of the mapping, in
  -- a round that ends the program, or after a round from which it goes on.
  pub data Ends : ℕ → World → Option World → Type 0 where
    over : {offset : ℕ} {w : World} → endoff ≤ offset → Ends offset w (some w)
    fails :
        {offset : ℕ} {w : World}
        → offset < endoff
        → checkpoint_round pmem current_epoch offset w ≡ none
        → Ends offset w none
    next :
        {offset s : ℕ} {w w' : World} {r : Option World}
        → offset < endoff
        → checkpoint_round pmem current_epoch offset w ≡ some (s, w')
        → Ends (offset + nr_entries s * log_bytes s) w' r
        → Ends offset w r

  -- The outer loop of `checkpoint_mmio` ends as the model has it, with a round for each byte.
  checkpoint_loop-Ends :
      (rounds offset : ℕ) (w : World)
      → endoff ≤ offset + rounds
      → Ends offset w (checkpoint_loop pmem rounds current_epoch offset endoff w)
  unfolding checkpoint_loop
  checkpoint_loop-Ends zero offset w enough = elim (Bool-cases (ltb offset endoff)) [
    | inl within ↦ absurd (ground (arith, within, enough))
    | inr out ↦ rw out (over (ground (arith, out)))
  ]
  checkpoint_loop-Ends (suc rounds) offset w enough = elim (Bool-cases (ltb offset endoff)) [
    | inl within ↦ elim (Option-cases (checkpoint_round pmem current_epoch offset w)) [
      | inl failed ↦ rw (within, failed) (fails (ground (arith, within)) failed)
      | inr ((s, w'), e) ↦
          rw (within, e)
            (next (ground (arith, within)) e (
              checkpoint_loop-Ends rounds (offset + nr_entries s * log_bytes s) w'
                (omega (arith, table_bytes_pos s, enough))))
    ]
    | inr out ↦ rw out (over (ground (arith, out)))
  ]

-- The outer loop of `checkpoint_mmio` ends, with the result that the model computes: the rounds that
-- it is given are enough.
pub checkpoint_mmio-Ends :
    (pmem : Pmem) (w : World)
    → Ends pmem w.mmio.epoch (w.mmio.end - w.mmio.start) 0 w (checkpoint_mmio pmem w)
unfolding checkpoint_mmio
checkpoint_mmio-Ends pmem w =
    let endoff = w.mmio.end - w.mmio.start in
    checkpoint_loop-Ends pmem w.mmio.epoch endoff endoff 0 w (omega arith)
