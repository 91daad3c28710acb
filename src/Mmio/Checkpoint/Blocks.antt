-- ===== src/Mmio/Checkpoint/Blocks.antt =====
-- src/mmio.c: the blocks of all tables under the inner loop of checkpoint_mmio.
use libnvmmio.Prelude.{
  ℕ, ◌+◌, ◌<◌, ◌≡◌, ◌≢◌, refl, inl, inr, false, Option-cases, Option, none, some, >>=-eq-some,
  arith, ◌∙◌, sym, ap,
}
use mathlib.Core.Path.{subst}
use mathlib.Core.Logic.{◌⊎◌}
use libnvmmio.Allocator.Pool.{push_collector}
use libnvmmio.Memory.{Pmem, Mem, Apart, within}
use libnvmmio.Radixlog.{redo, log_bytes, IdxEntry, TableType}
use libnvmmio.Radixlog.Entries.{EntryHeap, free_idx_entry, free_log_data}
use libnvmmio.Mmio.World.{World}
use libnvmmio.Mmio.Entry.{apply_log}
use libnvmmio.Mmio.View.{view, Logs}
use libnvmmio.Mmio.Redo.{apply_log-view}
use libnvmmio.Mmio.Checkpoint.{clear_slot}

-- The table and the index of a slot.
abbrev pub Key : Type 0
Key = ℕ × ℕ

pub key_equal_or_not : (k l : Key) → (k ≡ l) ⊎ (k ≢ l)
key_equal_or_not k l = ground arith

differ-parts : (k l : Key) → k ≢ l → (k.0 ≢ l.0) ⊎ (k.1 ≢ l.1)
differ-parts k l ne = ground (arith, ne)

-- Tables above the last level hold tables.
abbrev entry_slot : TableType → Option ℕ → Option ℕ
entry_slot TableType.table o = o
entry_slot TableType.lmd o = none
entry_slot TableType.lud o = none
entry_slot TableType.lgd o = none

abbrev pub slot : World → Key → Option ℕ
slot w k = entry_slot (w.tables.tables k.0).type ((w.tables.tables k.0).entries k.1)

entry_slot-type :
    (type : TableType) (o : Option ℕ) (p : ℕ) → entry_slot type o ≡ some p → type ≡ TableType.table
entry_slot-type TableType.table o p there = refl
entry_slot-type TableType.lmd o p there = cc
entry_slot-type TableType.lud o p there = cc
entry_slot-type TableType.lgd o p there = cc

-- Only a table of the last level has an entry.
pub slot-type :
    (w : World) (k : Key) (p : ℕ) → slot w k ≡ some p → (w.tables.tables k.0).type ≡ TableType.table
slot-type w k p there =
    entry_slot-type (w.tables.tables k.0).type ((w.tables.tables k.0).entries k.1) p there

pub slot-leaf :
    (w : World) (k : Key)
    → (w.tables.tables k.0).type ≡ TableType.table
    → slot w k ≡ (w.tables.tables k.0).entries k.1
slot-leaf w k leaf = ap (λ y. entry_slot y ((w.tables.tables k.0).entries k.1)) leaf

-- Each slot has a block, mapped at `home` and `len` bytes long; a slot behind the last one has 0 bytes.
module _ (home len : Key → ℕ) where
  -- The byte at `x` in the block of slot `i`.
  unfoldable pub reads : World → (i : Key) → (x : ℕ) → ℕ
  reads w i x = elim (slot w i) [
    | none ↦ w.mem (home i + x)
    | some p ↦ view w.mem (w.heap.entries p) (home i) x
  ]

  pub reads_free :
      (w : World) (i : Key) (x : ℕ) → slot w i ≡ none → reads w i x ≡ w.mem (home i + x)
  unfolding reads
  reads_free w i x gone = rw (reads, gone) refl

  pub reads_logged :
      (w : World) (i : Key) (p x : ℕ)
      → slot w i ≡ some p
      → reads w i x ≡ view w.mem (w.heap.entries p) (home i) x
  unfolding reads
  reads_logged w i p x there = rw (reads, there) refl

  -- The entries of a table under REDO: each logs the block of its slot, and no slot's log or block
  -- overlaps the block of another.
  pub record Blocks (w : World) : Type 0 where
    pub logs : (i : Key) (p : ℕ) → slot w i ≡ some p → Logs redo (w.heap.entries p) (home i)
    pub size :
        (i : Key) (p : ℕ) → slot w i ≡ some p → (log_bytes (w.heap.entries p).log_size ≡ len i)
    pub once : (i j : Key) (p q : ℕ) → i ≢ j → slot w i ≡ some p → slot w j ≡ some q → p ≢ q
    pub blocks_apart : (i j : Key) → i ≢ j → Apart (home i) (len i) (home j) (len j)
    pub log_apart :
        (i j : Key) (q : ℕ)
        → i ≢ j
        → slot w j ≡ some q
        → Apart (home i) (len i) (w.heap.entries q).log (len j)

  -- What a step leaves: every block reads as before.
  pub record Same (w w' : World) : Type 0 where
    pub blocks : Blocks w'
    pub same_reads : (i : Key) (x : ℕ) → x < len i → reads w' i x ≡ reads w i x

  -- What `free_idx_entry` does to the entries.
  free_idx_entry-others :
      (p size : ℕ) (h : EntryHeap) {h' : EntryHeap} (q : ℕ)
      → free_idx_entry p size h ≡ some h'
      → p ≢ q
      → h'.entries q ≡ h.entries q
  unfolding free_idx_entry free_log_data
  free_idx_entry-others p size h q e ne =
      let (h1, e1, e2) = >>=-eq-some (free_log_data (h.entries p).log size h) _ e in
      let (pool1, e3, e4) =
        >>=-eq-some (push_collector (h.entries p).log (h.data_pools size)) _ e1 in
      let (pool2, e5, e6) = >>=-eq-some (push_collector p h1.pool) _ e2 in ground (arith, ne)

  module _ (pmem : Pmem) (i : Key) (p log_size : ℕ) (w : World) (ok : Blocks w)
      (here : slot w i ≡ some p) where
    abbrev applied : Mem
    applied = apply_log pmem w.mem (w.heap.entries p)

    applied-own :
        (x : ℕ) → x < len i → applied (home i + x) ≡ view w.mem (w.heap.entries p) (home i) x
    applied-own x lt =
        ground (arith, apply_log-view pmem w.mem (ok.logs i p here) (home i + x), ok.size i p here)

    applied-other : (a : ℕ) → within (home i) (len i) a ≡ false → applied a ≡ w.mem a
    applied-other a out =
        ground (arith, apply_log-view pmem w.mem (ok.logs i p here) a, ok.size i p here)

    -- The state after the entry is retired.
    module _ (heap : EntryHeap) (freed : free_idx_entry p log_size w.heap ≡ some heap) where
      abbrev pub retired : World
      retired = record w {
        mem = applied;
        tables = record w.tables { tables = clear_slot i.0 i.1 w.tables.tables };
        heap = heap;
      }

      pub slot-here : slot retired i ≡ none
      slot-here = ground arith

      pub slot-other : (j : Key) → i ≢ j → slot retired j ≡ slot w j
      slot-other j ne = ground (arith, differ-parts i j ne)

      pub slot-still : (j : Key) (q : ℕ) → slot retired j ≡ some q → (i ≢ j) × (slot w j ≡ some q)
      slot-still j q there = elim (key_equal_or_not i j) [
        | inl same ↦
            absurd
              (ground (arith, subst (λ k. slot retired k ≡ some q) (sym same) there, slot-here))
        | inr ne ↦ (ne, sym (slot-other j ne) ∙ there)
      ]

      pub entry-other :
          (j : Key) (q : ℕ) → i ≢ j → slot w j ≡ some q → heap.entries q ≡ w.heap.entries q
      entry-other j q ne there =
          free_idx_entry-others p log_size w.heap q freed (ok.once i j p q ne here there)

      retired-Blocks : Blocks retired
      retired-Blocks = record {
        logs = λ j q there.
            let (ne, there') = slot-still j q there in
            subst (λ e. Logs redo e (home j)) (sym (entry-other j q ne there'))
              (ok.logs j q there');
        size = λ j q there.
            let (ne, there') = slot-still j q there in
            ap (λ (e : IdxEntry). log_bytes e.log_size) (entry-other j q ne there')
            ∙ ok.size j q there';
        once = λ j k q r ne at_j at_k.
            ok.once j k q r ne (slot-still j q at_j).1 (slot-still k r at_k).1;
        blocks_apart = ok.blocks_apart;
        log_apart = λ j k q ne there.
            let (ne', there') = slot-still k q there in
            subst (λ (e : IdxEntry). Apart (home j) (len j) e.log (len k))
              (sym (entry-other k q ne' there')) (ok.log_apart j k q ne there');
      }

      reads-here : (x : ℕ) → x < len i → reads retired i x ≡ reads w i x
      reads-here x lt =
          reads_free retired i x slot-here ∙ applied-own x lt ∙ sym (reads_logged w i p x here)

      reads-other : (j : Key) (x : ℕ) → i ≢ j → x < len j → reads retired j x ≡ reads w j x
      reads-other j x ne lt = elim (Option-cases (slot w j)) [
        | inl gone ↦
            reads_free retired j x (slot-other j ne ∙ gone)
            ∙ applied-other (home j + x) (ground (arith, ok.blocks_apart i j ne, lt))
            ∙ sym (reads_free w j x gone)
        | inr (q, there) ↦
            reads_logged retired j q x (slot-other j ne ∙ there)
            ∙ ap (λ e. view applied e (home j) x) (entry-other j q ne there)
            ∙ ground (
              arith,
              applied-other (home j + x) (ground (arith, ok.blocks_apart i j ne, lt)),
              applied-other ((w.heap.entries q).log + x)
                  (ground (arith, ok.log_apart i j q ne there, lt)),
            )
            ∙ sym (reads_logged w j q x there)
      ]

      pub retired-Same : Same w retired
      retired-Same = record {
        blocks = retired-Blocks;
        same_reads = λ j x lt. elim (key_equal_or_not i j) [
          | inl same ↦
              subst (λ k. reads retired k x ≡ reads w k x) same
                (reads-here x (subst (λ k. x < len k) (sym same) lt))
          | inr ne ↦ reads-other j x ne lt
        ];
      }
