-- ===== src/Mmio/Checkpoint/Pass.antt =====
-- src/mmio.c: one round of the outer loop of checkpoint_mmio.
use libnvmmio.Prelude.{
  ℕ, ◌*◌, ◌^◌, ◌≤◌, ◌<◌, ◌≡◌, refl, inl, inr, Option-cases, none, some, true, ltb, Option, arith,
  ◌∙◌, sym, ap,
}
use mathlib.Core.Path.{subst}
use native.Mathlib.Nat.{mul_comm}
use libnvmmio.Config.{log_4k, nr_log_sizes}
use libnvmmio.Lock.{RwLock, read_trylock, unlock, unlock-read_trylock}
use libnvmmio.Memory.{Pmem}
use libnvmmio.Radixlog.{log_bytes, nr_entries}
use libnvmmio.Radixlog.Blocks.{log_bytes-nr_entries}
use libnvmmio.Radixlog.Walk.{find_log_table}
use libnvmmio.Mmio.{Mmio}
use libnvmmio.Mmio.World.{World, set_mmio}
use libnvmmio.Mmio.Checkpoint.{checkpoint_table, checkpoint_round}
use libnvmmio.Mmio.Checkpoint.Blocks.{Key, slot, reads}
use libnvmmio.Mmio.Checkpoint.Levels.{Levels, find_log_table-leaf}
use libnvmmio.Mmio.Checkpoint.Unchanged.{tables-Kept}
use libnvmmio.Mmio.Checkpoint.Slots.{Sound, Step, both-Step, same-Step}
use libnvmmio.Mmio.Checkpoint.Emptied.{
  Idle, Left, Untouched, same-Untouched, both-Left, checkpoint_slots-Swept,
}

module _ (home len : Key → ℕ) where
  -- The fields of the mapping do not matter to the blocks.
  pub set_mmio-Step : (m : Mmio) (w : World) → Sound home len w → Step home len w (set_mmio m w)
  unfolding reads
  set_mmio-Step m w sound = record {
    sound = record {
      blocks = record {
        logs = sound.blocks.logs;
        size = sound.blocks.size;
        once = sound.blocks.once;
        blocks_apart = sound.blocks.blocks_apart;
        log_apart = sound.blocks.log_apart;
      };
      lent = record {
        entries_ok = sound.lent.entries_ok;
        data_ok = sound.lent.data_ok;
        entry_out = sound.lent.entry_out;
        log_out = sound.lent.log_out;
        sized = sound.lent.sized;
        logs_differ = sound.lent.logs_differ;
      };
    };
    kept = tables-Kept w (set_mmio m w) refl;
    same_reads = λ i x lt. refl;
  }

-- The walk to a table of a mapping.
abbrev pub Found : World → (offset t : ℕ) → Type 0
Found w offset t = find_log_table w.mmio.radixlog w.tables.tables offset ≡ some t

same_table {ℓ} :
    {r : Option ℕ} {t t' : ℕ} → r ≡ some t → r ≡ some t' → (P : ℕ → Type ℓ) → P t → P t'
same_table e e' P holds = subst P (ground (arith, sym e ∙ e')) holds

pub table_bytes : (s : ℕ) → s ≤ 9 → nr_entries s * log_bytes s ≡ 2 ^ 21
table_bytes s le = mul_comm (nr_entries s) (log_bytes s) ∙ log_bytes-nr_entries s le

module _ (home len : Key → ℕ) (pmem : Pmem) (current_epoch : ℕ) where
  -- What the part under the reader lock leaves of the piece at `offset`.
  pub record Passed (offset : ℕ) (w w' : World) : Type 0 where
    pub step : Step home len w w'
    pub same_mmio : w'.mmio ≡ w.mmio
    pub left : (k : Key) → Left home len pmem current_epoch w w' k
    pub emptied :
        (t j : ℕ)
        → Found w offset t
        → j < nr_entries (w.tables.tables t).log_size
        → Idle home len pmem current_epoch w (t, j)
        → slot w' (t, j) ≡ none

  checkpoint_table-Passed :
      (offset : ℕ) (w : World)
      → Sound home len w
      → Levels w.mmio.radixlog w.tables.tables
      → (s : ℕ) × (w' : World) × (checkpoint_table pmem current_epoch offset w ≡ some (s, w'))
        × (s ≤ 9)
        × Passed offset w w'
  unfolding checkpoint_table
  checkpoint_table-Passed offset w sound levels =
      elim (Option-cases (find_log_table w.mmio.radixlog w.tables.tables offset)) [
        | inl gone ↦
            rw (checkpoint_table, gone)
              (
                log_4k,
                w,
                refl,
                omega arith,
                record {
                  step = same-Step home len w sound;
                  same_mmio = refl;
                  left = λ k. inr (same-Untouched home len pmem current_epoch w k);
                  emptied = λ t j at_t lt idle. absurd (ground (arith, gone, at_t));
                },
              )
        | inr (t, at_t) ↦
            (let s = (w.tables.tables t).log_size in
              let has_size : ltb s nr_log_sizes ≡ true =
                ground (arith, levels.sized offset t at_t) in
              let (w', e, swept) =
                checkpoint_slots-Swept home len pmem current_epoch (nr_entries s) t 0 s w sound
                  (find_log_table-leaf w.mmio.radixlog w.tables.tables levels offset t at_t) refl in
              rw (checkpoint_table, at_t, has_size, e)
                (
                  s,
                  w',
                  refl,
                  levels.sized offset t at_t,
                  record {
                    step = swept.step;
                    same_mmio = swept.same_mmio;
                    left = swept.left;
                    emptied = λ t' j at_t' lt idle.
                        same_table at_t at_t'
                          (λ x.
                            j < nr_entries (w.tables.tables x).log_size
                            → Idle home len pmem current_epoch w (x, j)
                            → slot w' (x, j) ≡ none)
                          (λ lt idle. swept.emptied j (omega arith) (omega (arith, lt)) idle) lt
                          idle;
                  },
                ))
      ]

  set_mmio-Untouched :
      (m : Mmio) (w : World) (k : Key) → Untouched home len pmem current_epoch w (set_mmio m w) k
  set_mmio-Untouched m w k = record { same_slot = refl; same_entry = λ q there. refl }

  pub checkpoint_round-Passed :
      (offset : ℕ) (w : World) (l : RwLock)
      → Sound home len w
      → Levels w.mmio.radixlog w.tables.tables
      → read_trylock w.mmio.rwlock ≡ some l
      → (s : ℕ) × (w' : World) × (checkpoint_round pmem current_epoch offset w ≡ some (s, w'))
        × (s ≤ 9)
        × Passed offset w w'
  unfolding checkpoint_round
  checkpoint_round-Passed offset w l sound levels locks =
      let m0 = record w.mmio { rwlock = l } in
      let w0 = set_mmio m0 w in
      let step0 = set_mmio-Step home len m0 w sound in
      let (s, w1, e, le, passed) = checkpoint_table-Passed offset w0 step0.sound levels in
      let m1 = record w1.mmio { rwlock = unlock w1.mmio.rwlock } in
      (
        s,
        set_mmio m1 w1,
        rw (checkpoint_round, locks, e) refl,
        le,
        record {
          step =
              both-Step home len (both-Step home len step0 passed.step)
                (set_mmio-Step home len m1 w1 passed.step.sound);
          same_mmio =
              ap (λ (m : Mmio). record m { rwlock = unlock m.rwlock }) passed.same_mmio
              ∙ ap (λ r. record w.mmio { rwlock = r }) (unlock-read_trylock locks);
          left = λ k. both-Left home len pmem current_epoch k (inr (set_mmio-Untouched m0 w k)) (
              both-Left home len pmem current_epoch k (passed.left k)
                (inr (set_mmio-Untouched m1 w1 k)));
          emptied = λ t j at_t lt idle. passed.emptied t j at_t lt idle;
        },
      )
