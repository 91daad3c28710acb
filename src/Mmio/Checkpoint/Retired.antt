-- ===== src/Mmio/Checkpoint/Retired.antt =====
-- src/mmio.c: an entry that checkpoint_mmio gives back, among the slots of the tables.
use libnvmmio.Prelude.{equal_or_not, ℕ, ◌≡◌, ◌≢◌, refl, inl, inr, none, some, arith, ◌∙◌, sym, ap}
use mathlib.Core.Path.{subst, subst₂}
use libnvmmio.Allocator.Conserve.{stock}
use libnvmmio.Memory.{Pmem}
use libnvmmio.Radixlog.{IdxEntry, TableType}
use libnvmmio.Radixlog.Entries.{EntryHeap}
use libnvmmio.Mmio.World.{World}
use libnvmmio.Mmio.Checkpoint.Slots.{Sound, Step}
use libnvmmio.Mmio.Checkpoint.{retire}
use libnvmmio.Mmio.Checkpoint.GivenBack.{Freed, free_idx_entry-Freed}
use libnvmmio.Mmio.Checkpoint.Unchanged.{clear_slot-log_size, clear_slot-type, clear_slot-entries}
use libnvmmio.Mmio.Checkpoint.Blocks.{
  Key, slot, slot-type, slot-here, slot-other, retired, retired-Same, slot-still, entry-other,
}

module _ (home len : Key → ℕ) where
  -- Slot `i` is emptied, and the others are left alone.
  pub record Cleared (i : Key) (w w' : World) : Type 0 where
    pub same_mmio : w'.mmio ≡ w.mmio
    pub slot_here : slot w' i ≡ none
    pub slot_other : (j : Key) → i ≢ j → slot w' j ≡ slot w j
    pub entry_other :
        (j : Key) (q : ℕ) → i ≢ j → slot w j ≡ some q → w'.heap.entries q ≡ w.heap.entries q

  -- The log of an entry is not on the free lists after another entry is given back.
  other_log :
      (w : World) (sound : Sound home len w) (heap : EntryHeap) (i j : Key) (p q log_size : ℕ)
      → i ≢ j
      → slot w i ≡ some p
      → slot w j ≡ some q
      → log_size ≡ (w.heap.entries p).log_size
      → Freed p log_size w.heap heap
      → stock (heap.data_pools (w.heap.entries q).log_size) (w.heap.entries q).log ≡ 0
  other_log w sound heap i j p q log_size ne here there own_size freed =
      let out = sound.lent.log_out j q there in
      elim (equal_or_not log_size (w.heap.entries q).log_size) [
        | inl same ↦
            subst (λ s. stock (heap.data_pools s) (w.heap.entries q).log ≡ 0) same
              (ground (
                arith,
                freed.log_back (w.heap.entries q).log,
                subst (λ s. stock (w.heap.data_pools s) (w.heap.entries q).log ≡ 0) (sym same) out,
                sound.lent.logs_differ i j p q ne here there,
              ))
        | inr differ ↦
            ap (λ b. stock b (w.heap.entries q).log)
              (freed.other_pools (w.heap.entries q).log_size differ)
            ∙ out
      ]

  module _ (pmem : Pmem) where
    pub retire-Step :
        (i : Key) (p log_size : ℕ) (w : World)
        → Sound home len w
        → slot w i ≡ some p
        → log_size ≡ (w.heap.entries p).log_size
        → (w' : World) × (retire pmem i.0 i.1 p log_size w ≡ some w')
          × Step home len w w'
          × Cleared i w w'
    unfolding retire
    retire-Step i p log_size w sound here own_size =
        let (heap, e, freed) =
          free_idx_entry-Freed p log_size w.heap sound.lent.entries_ok sound.lent.data_ok
            (sound.lent.entry_out i p here)
            (subst (λ s. stock (w.heap.data_pools s) (w.heap.entries p).log ≡ 0) (sym own_size)
              (sound.lent.log_out i p here)) in
        let same = retired-Same home len pmem i p log_size w sound.blocks here heap e in
        let still = slot-still home len pmem i p log_size w sound.blocks here heap e in
        let other = entry-other home len pmem i p log_size w sound.blocks here heap e in
        (
          retired home len pmem i p log_size w sound.blocks here heap e,
          rw e refl,
          record {
            sound = record {
              blocks = same.blocks;
              lent = record {
                entries_ok = freed.entries_ok;
                data_ok = freed.data_ok;
                entry_out = λ j q there.
                    let (ne, there') = still j q there in
                    ground (
                      arith,
                      freed.entry_back q,
                      sound.lent.entry_out j q there',
                      sound.blocks.once i j p q ne here there',
                    );
                log_out = λ j q there.
                    let (ne, there') = still j q there in
                    subst (λ (e' : IdxEntry). stock (heap.data_pools e'.log_size) e'.log ≡ 0)
                      (sym (other j q ne there'))
                      (other_log w sound heap i j p q log_size ne here there' own_size freed);
                sized = λ j q there.
                    let (ne, there') = still j q there in
                    ap (λ (e' : IdxEntry). e'.log_size) (other j q ne there')
                    ∙ sound.lent.sized j q there'
                    ∙ sym (clear_slot-log_size i.0 i.1 j.0 w.tables.tables);
                logs_differ = λ j k q r ne at_j at_k.
                    let (ne_j, there_j) = still j q at_j in
                    let (ne_k, there_k) = still k r at_k in
                    subst₂ (λ (a b : IdxEntry). a.log ≢ b.log) (sym (other j q ne_j there_j))
                      (sym (other k r ne_k there_k))
                      (sound.lent.logs_differ j k q r ne there_j there_k);
              };
            };
            kept = record {
              same_type = λ s. clear_slot-type i.0 i.1 s w.tables.tables;
              same_size = λ s. clear_slot-log_size i.0 i.1 s w.tables.tables;
              same_upper = λ s j upper. clear_slot-entries i.0 i.1 s j w.tables.tables (λ same.
                  upper (
                    subst (λ r. (w.tables.tables r).type ≡ TableType.table) same
                      (slot-type w i p here)));
            };
            same_reads = same.same_reads;
          },
          record {
            same_mmio = refl;
            slot_here = slot-here home len pmem i p log_size w sound.blocks here heap e;
            slot_other = slot-other home len pmem i p log_size w sound.blocks here heap e;
            entry_other = other;
          },
        )
