-- ===== src/Mmio/Checkpoint/Whole.antt =====
-- src/mmio.c: the whole of checkpoint_mmio.
use libnvmmio.Prelude.{
  ℕ, zero, suc, ◌+◌, ◌-◌, ◌*◌, ◌%◌, ◌^◌, ◌≤◌, ◌<◌, ◌≡◌, refl, inl, inr, Bool-cases, none, some,
  arith, ltb, ◌∙◌, sym, ap,
}
use mathlib.Core.Path.{subst}
use libnvmmio.Lock.{RwLock, read_trylock}
use libnvmmio.Memory.{Pmem}
use libnvmmio.Radixlog.{log_bytes, nr_entries}
use libnvmmio.Radixlog.Cache.{piece}
use libnvmmio.Radixlog.Walk.{find_log_table}
use libnvmmio.Mmio.{Mmio}
use libnvmmio.Mmio.World.{World}
use libnvmmio.Mmio.Checkpoint.{checkpoint_loop, checkpoint_mmio}
use libnvmmio.Mmio.Checkpoint.Pass.{Found, Passed, table_bytes, checkpoint_round-Passed}
use libnvmmio.Mmio.Checkpoint.Blocks.{Key, slot, reads, reads_free}
use libnvmmio.Mmio.Checkpoint.Levels.{
  Levels, find_log_table-piece, find_log_table-Kept, Levels-Kept,
}
use libnvmmio.Mmio.Checkpoint.Slots.{Sound, Step, both-Step, same-Step}
use libnvmmio.Mmio.Checkpoint.Emptied.{Idle, Left, same-Untouched, none-Left, both-Left, Left-Idle}

-- Offsets in one piece, which starts at the first of them.
same_piece :
    (offset x : ℕ) → offset % 2 ^ 21 ≡ 0 → offset ≤ x → x < offset + 2 ^ 21 → piece offset ≡ piece x
same_piece offset x aligned ge lt = omega (arith, aligned, ge, lt)

module _ (home len : Key → ℕ) (pmem : Pmem) (current_epoch : ℕ) where
  -- What the rounds for the offsets from `lo` to `hi - 1` leave.
  pub record Flushed (lo hi : ℕ) (w w' : World) : Type 0 where
    pub step : Step home len w w'
    pub same_mmio : w'.mmio ≡ w.mmio
    pub left : (k : Key) → Left home len pmem current_epoch w w' k
    pub emptied :
        (x t j : ℕ)
        → lo ≤ x
        → x < hi
        → Found w x t
        → j < nr_entries (w.tables.tables t).log_size
        → Idle home len pmem current_epoch w (t, j)
        → slot w' (t, j) ≡ none

  stopped-Flushed :
      (offset endoff : ℕ) (w : World)
      → Sound home len w
      → endoff ≤ offset
      → Flushed offset endoff w w
  stopped-Flushed offset endoff w sound out = record {
    step = same-Step home len w sound;
    same_mmio = refl;
    left = λ k. inr (same-Untouched home len pmem current_epoch w k);
    emptied = λ x t j ge lt at_t lt_j idle. absurd (omega (arith, out, ge, lt));
  }

  -- A round for a piece of 2 MB, and then the rounds for what is behind it.
  next-Flushed :
      {w w1 w' : World} (offset bytes endoff : ℕ)
      → Levels w.mmio.radixlog w.tables.tables
      → offset % 2 ^ 21 ≡ 0
      → bytes ≡ 2 ^ 21
      → Passed home len pmem current_epoch offset w w1
      → Flushed (offset + bytes) endoff w1 w'
      → Flushed offset endoff w w'
  next-Flushed {w = w} {w1 = w1} offset bytes endoff levels aligned whole round rest =
      let root = w.mmio.radixlog in
      let kept = round.step.kept in
      record {
        step = both-Step home len round.step rest.step;
        same_mmio = rest.same_mmio ∙ round.same_mmio;
        left = λ k. both-Left home len pmem current_epoch k (round.left k) (rest.left k);
        emptied = λ x t j ge lt at_t lt_j idle. elim (Bool-cases (ltb x (offset + bytes))) [
          | inl near ↦
              (let same =
                  find_log_table-piece root w.tables.tables offset x
                    (same_piece offset x aligned ge (ground (arith, near, whole))) in
                none-Left home len pmem current_epoch (t, j)
                  (round.emptied t j (same ∙ at_t) lt_j idle) (rest.left (t, j)))
          | inr far ↦
              rest.emptied x t j (ground (arith, far)) lt
                (ap (λ (m : Mmio). find_log_table m.radixlog w1.tables.tables x) round.same_mmio
                  ∙ find_log_table-Kept root w w1 levels kept x
                  ∙ at_t)
                (subst (λ s. j < nr_entries s) (sym (kept.same_size t)) lt_j)
                (Left-Idle home len pmem current_epoch (t, j) (round.left (t, j)) idle)
        ];
      }

  checkpoint_loop-Flushed :
      (rounds offset endoff : ℕ) (w : World) (l : RwLock)
      → Sound home len w
      → Levels w.mmio.radixlog w.tables.tables
      → read_trylock w.mmio.rwlock ≡ some l
      → offset % 2 ^ 21 ≡ 0
      → endoff ≤ offset + rounds
      → (w' : World) × (checkpoint_loop pmem rounds current_epoch offset endoff w ≡ some w')
        × Flushed offset endoff w w'
  unfolding checkpoint_loop
  checkpoint_loop-Flushed zero offset endoff w l sound levels locks aligned enough =
      elim (Bool-cases (ltb offset endoff)) [
        | inl within ↦ absurd (ground (arith, within, enough))
        | inr out ↦ rw out (w, refl, stopped-Flushed offset endoff w sound (ground (arith, out)))
      ]
  checkpoint_loop-Flushed (suc rounds) offset endoff w l sound levels locks aligned enough =
      elim (Bool-cases (ltb offset endoff)) [
        | inr out ↦ rw out (w, refl, stopped-Flushed offset endoff w sound (ground (arith, out)))
        | inl within ↦
            (let (s, w1, e, le, round) =
                checkpoint_round-Passed home len pmem current_epoch offset w l sound levels locks in
              let bytes = nr_entries s * log_bytes s in
              let whole = table_bytes s le in
              let (w', e', rest) =
                checkpoint_loop-Flushed rounds (offset + bytes) endoff w1 l round.step.sound
                  (subst (λ (m : Mmio). Levels m.radixlog w1.tables.tables) (sym round.same_mmio)
                    (Levels-Kept w.mmio.radixlog w w1 levels round.step.kept))
                  (subst (λ (m : Mmio). read_trylock m.rwlock ≡ some l) (sym round.same_mmio) locks)
                  (omega (arith, whole, aligned)) (omega (arith, whole, enough)) in
              rw (within, e, e')
                (w', refl, next-Flushed offset bytes endoff levels aligned whole round rest))
      ]

  -- What was logged is in the file.
  Flushed-in_file :
      {w w' : World} (lo hi : ℕ)
      → Flushed lo hi w w'
      → (x t j o : ℕ) → lo ≤ x
      → x < hi
      → Found w x t
      → j < nr_entries (w.tables.tables t).log_size
      → Idle home len pmem current_epoch w (t, j)
      → o < len (t, j)
      → w'.mem (home (t, j) + o) ≡ reads home len w (t, j) o
  Flushed-in_file {w' = w'} lo hi flushed x t j o ge lt at_t lt_j idle lt_o =
      sym (reads_free home len w' (t, j) o (flushed.emptied x t j ge lt at_t lt_j idle))
      ∙ flushed.step.same_reads (t, j) o lt_o

  -- What checkpoint_mmio leaves of a mapping of `size` bytes.
  pub record Checkpointed (size : ℕ) (w w' : World) : Type 0 where
    pub sound : Sound home len w'
    pub same_mmio : w'.mmio ≡ w.mmio
    pub same_reads : (k : Key) (o : ℕ) → o < len k → reads home len w' k o ≡ reads home len w k o
    pub in_file :
        (x t j o : ℕ)
        → x < size
        → Found w x t
        → j < nr_entries (w.tables.tables t).log_size
        → Idle home len pmem current_epoch w (t, j)
        → o < len (t, j)
        → w'.mem (home (t, j) + o) ≡ reads home len w (t, j) o

-- Where the log index is in levels and each table that a walk finds has one of the ten log sizes, the
-- entries of the tables log the blocks of their slots under REDO, apart from each other, and are
-- not on the free lists, which are well-formed, nor are their logs, and the lock of the mapping is
-- to be had for reading: checkpoint_mmio returns; the mapping and its lock are as before; every
-- block reads as before; and for each offset of the mapping, each block of the table that
-- find_log_table finds for it stands in the file itself as it reads, if its entry, where it has one,
-- is of an earlier epoch and not locked. A table has no size from its making to its first request.
pub checkpoint_mmio-Checkpointed :
    (home len : Key → ℕ) (pmem : Pmem) (w : World) (l : RwLock)
    → Sound home len w
    → Levels w.mmio.radixlog w.tables.tables
    → read_trylock w.mmio.rwlock ≡ some l
    → (w' : World) × (checkpoint_mmio pmem w ≡ some w')
      × Checkpointed home len pmem w.mmio.epoch (w.mmio.end - w.mmio.start) w w'
unfolding checkpoint_mmio
checkpoint_mmio-Checkpointed home len pmem w l sound levels locks =
    let size = w.mmio.end - w.mmio.start in
    let (w', e, flushed) =
      checkpoint_loop-Flushed home len pmem w.mmio.epoch size 0 size w l sound levels locks refl
        (omega arith) in
    (
      w',
      e,
      record {
        sound = flushed.step.sound;
        same_mmio = flushed.same_mmio;
        same_reads = flushed.step.same_reads;
        in_file = λ x t j o lt at_t lt_j idle lt_o.
            Flushed-in_file home len pmem w.mmio.epoch 0 size flushed x t j o (omega arith) lt at_t
              lt_j idle lt_o;
      },
    )
