-- ===== src/Mmio/Checkpoint/Slots.antt =====
-- src/mmio.c: the inner loop of checkpoint_mmio over the slots of the tables.
use libnvmmio.Prelude.{
  equal_or_not, ℕ, ◌<◌, ◌≡◌, ◌≢◌, refl, inl, inr, Option-cases, some, update, update_self,
  update_ne, ◌∙◌, sym,
}
use mathlib.Core.Path.{subst}
use libnvmmio.Allocator.Conserve.{stock}
use libnvmmio.Allocator.Supply.{WellFormed}
use libnvmmio.Lock.{RwLock}
use libnvmmio.Memory.{Apart}
use libnvmmio.Radixlog.{redo, log_bytes, IdxEntry, TableType}
use libnvmmio.Mmio.World.{World, put_entry}
use libnvmmio.Mmio.View.{view, Logs}
use libnvmmio.Mmio.Checkpoint.Unchanged.{Kept, tables-Kept}
use libnvmmio.Mmio.Checkpoint.Blocks.{Key, slot, reads, Blocks, reads_free, reads_logged}

-- A lock of an entry does not matter to what holds of the entries' logs.
relocked {ℓ} :
    (P : IdxEntry → Type ℓ) (w : World) (p q : ℕ) (l : RwLock)
    → P (record (w.heap.entries q) { rwlock = l })
    → P (w.heap.entries q)
    → P ((put_entry p (record (w.heap.entries p) { rwlock = l }) w).heap.entries q)
relocked P w p q l changed kept = elim (equal_or_not p q) [
  | inl same ↦
      subst (λ r. P (update w.heap.entries p (record (w.heap.entries p) { rwlock = l }) r)) same
        (subst P (sym (update_self w.heap.entries p (record (w.heap.entries p) { rwlock = l })))
          (subst (λ r. P (record (w.heap.entries r) { rwlock = l })) (sym same) changed))
  | inr ne ↦
      subst P (sym (update_ne w.heap.entries p q (record (w.heap.entries p) { rwlock = l }) ne))
        kept
]

module _ (home len : Key → ℕ) where
  -- The entries and the logs of the tables are not on the free lists, which are well-formed.
  pub record Lent (w : World) : Type 0 where
    pub entries_ok : WellFormed w.heap.pool
    pub data_ok : (s : ℕ) → WellFormed (w.heap.data_pools s)
    pub entry_out : (i : Key) (p : ℕ) → slot w i ≡ some p → stock w.heap.pool p ≡ 0
    pub log_out :
        (i : Key) (p : ℕ)
        → slot w i ≡ some p
        → stock (w.heap.data_pools (w.heap.entries p).log_size) (w.heap.entries p).log ≡ 0
    pub sized :
        (i : Key) (p : ℕ)
        → slot w i ≡ some p
        → (w.heap.entries p).log_size ≡ (w.tables.tables i.0).log_size
    pub logs_differ :
        (i j : Key) (p q : ℕ)
        → i ≢ j
        → slot w i ≡ some p
        → slot w j ≡ some q
        → (w.heap.entries p).log ≢ (w.heap.entries q).log

  -- What is known of a world before and after a step.
  pub record Sound (w : World) : Type 0 where
    pub blocks : Blocks home len w
    pub lent : Lent w

  pub record Step (w w' : World) : Type 0 where
    pub sound : Sound w'
    pub kept : Kept w w'
    pub same_reads : (i : Key) (x : ℕ) → x < len i → reads home len w' i x ≡ reads home len w i x

  pub both-Step : {u v w : World} → Step u v → Step v w → Step u w
  both-Step a b = record {
    sound = b.sound;
    kept = record {
      same_type = λ t. b.kept.same_type t ∙ a.kept.same_type t;
      same_size = λ t. b.kept.same_size t ∙ a.kept.same_size t;
      same_upper = λ t i upper.
          b.kept.same_upper t i (subst (λ y. y ≢ TableType.table) (sym (a.kept.same_type t)) upper)
          ∙ a.kept.same_upper t i upper;
    };
    same_reads = λ i x lt. b.same_reads i x lt ∙ a.same_reads i x lt;
  }

  module _ (w : World) (sound : Sound w) (p : ℕ) (l : RwLock) where
    abbrev pub locked : World
    locked = put_entry p (record (w.heap.entries p) { rwlock = l }) w

    pub locked-Step : Step w locked
    locked-Step = record {
      kept = tables-Kept w locked refl;
      sound = record {
        blocks = record {
          logs = λ i q there.
              let k = sound.blocks.logs i q there in
              relocked (λ e. Logs redo e (home i)) w p q l
                (record {
                  size = k.size;
                  range = k.range;
                  placed = k.placed;
                  kind = k.kind;
                  apart = k.apart;
                })
                k;
          size = λ i q there.
              let k = sound.blocks.size i q there in
              relocked (λ e. log_bytes e.log_size ≡ len i) w p q l k k;
          once = sound.blocks.once;
          blocks_apart = sound.blocks.blocks_apart;
          log_apart = λ i j q ne there.
              let k = sound.blocks.log_apart i j q ne there in
              relocked (λ e. Apart (home i) (len i) e.log (len j)) w p q l k k;
        };
        lent = record {
          entries_ok = sound.lent.entries_ok;
          data_ok = sound.lent.data_ok;
          entry_out = sound.lent.entry_out;
          log_out = λ i q there.
              let k = sound.lent.log_out i q there in
              relocked (λ e. stock (w.heap.data_pools e.log_size) e.log ≡ 0) w p q l k k;
          sized = λ i q there.
              let k = sound.lent.sized i q there in
              relocked (λ e. e.log_size ≡ (w.tables.tables i.0).log_size) w p q l k k;
          logs_differ = λ i j q r ne at_i at_j.
              let k = sound.lent.logs_differ i j q r ne at_i at_j in
              let k' = relocked (λ e. (w.heap.entries q).log ≢ e.log) w p r l k k in
              relocked (λ e. e.log ≢ (locked.heap.entries r).log) w p q l k' k';
        };
      };
      same_reads = λ i x lt. elim (Option-cases (slot w i)) [
        | inl gone ↦ reads_free home len locked i x gone ∙ sym (reads_free home len w i x gone)
        | inr (q, there) ↦
            reads_logged home len locked i q x there
            ∙ relocked (λ e. view w.mem e (home i) x ≡ view w.mem (w.heap.entries q) (home i) x) w p
                q l refl refl
            ∙ sym (reads_logged home len w i q x there)
      ];
    }

  pub same-Step : (w : World) → Sound w → Step w w
  same-Step w sound = record {
    sound = sound;
    kept = tables-Kept w w refl;
    same_reads = λ i x lt. refl;
  }
