-- ===== src/Mmio/Checkpoint/Unchanged.antt =====
-- src/mmio.c: what checkpoint_mmio leaves of the tables.
use libnvmmio.Prelude.{ℕ, ◌≡◌, ◌≢◌, arith, ap}
use libnvmmio.Radixlog.{TableType}
use libnvmmio.Radixlog.Walk.{Tables, TableHeap}
use libnvmmio.Mmio.World.{World}
use libnvmmio.Mmio.Checkpoint.{clear_slot}

pub clear_slot-log_size :
    (t i s : ℕ) (tables : Tables) → (clear_slot t i tables s).log_size ≡ (tables s).log_size
clear_slot-log_size t i s tables = ground arith

pub clear_slot-type :
    (t i s : ℕ) (tables : Tables) → (clear_slot t i tables s).type ≡ (tables s).type
clear_slot-type t i s tables = ground arith

pub clear_slot-entries :
    (t i s j : ℕ) (tables : Tables)
    → t ≢ s
    → (clear_slot t i tables s).entries j ≡ (tables s).entries j
clear_slot-entries t i s j tables ne = ground (arith, ne)

-- What a step leaves of the tables: all but the slots for entries.
pub record Kept (w w' : World) : Type 0 where
  pub same_type : (t : ℕ) → (w'.tables.tables t).type ≡ (w.tables.tables t).type
  pub same_size : (t : ℕ) → (w'.tables.tables t).log_size ≡ (w.tables.tables t).log_size
  pub same_upper :
      (t i : ℕ)
      → (w.tables.tables t).type ≢ TableType.table
      → (w'.tables.tables t).entries i ≡ (w.tables.tables t).entries i

pub tables-Kept : (w w' : World) → w'.tables ≡ w.tables → Kept w w'
tables-Kept w w' same = record {
  same_type = λ t. ap (λ (h : TableHeap). (h.tables t).type) same;
  same_size = λ t. ap (λ (h : TableHeap). (h.tables t).log_size) same;
  same_upper = λ t i upper. ap (λ (h : TableHeap). (h.tables t).entries i) same;
}
