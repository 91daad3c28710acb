-- ===== src/Allocator/Ready.antt =====
-- src/file.c: the process as init_libnvmmio leaves it.
use libnvmmio.Prelude.{ℕ, ◌<◌, ◌≡◌, refl, none, update}
use libnvmmio.Config.{nr_node_fill, nr_mmio_fill}
use libnvmmio.Allocator.Supply.{WellFormed}
use libnvmmio.Allocator.Setup.{
  Areas, init_table, init_idx, table_count, log_count, idx_count, mmio_count,
  create_global_table_list, create_global_log_list, create_global_idx_list, create_global_mmio_list,
  init_allocator, init_file_hash, init_libnvmmio,
}
use libnvmmio.Allocator.Supplied.{create_global_list-WellFormed}
use libnvmmio.Radixlog.{log_bytes}
use libnvmmio.Radixlog.Bounds.{log_bytes_pos}
use libnvmmio.FileHash.{find_node}
use libnvmmio.FileHash.Delete.{Process, init_mmio}
use libnvmmio.FileHash.Map.{mapping_of}

-- Every free list can be taken from and given to, and no file is mapped.
pub record Ready (s : Process) : Type 0 where
  pub tables : WellFormed s.tables.pool
  pub entries : WellFormed s.heap.pool
  pub logs : (i : ℕ) → WellFormed (s.heap.data_pools i)
  pub mmios : WellFormed s.mmio_pool
  pub none_mapped : (ino : ℕ) → mapping_of s.files ino ≡ none

-- For types of some bytes, init_libnvmmio leaves well-formed free lists and no mapping, whatever
-- stood in the memory.
pub init_libnvmmio-Ready :
    (areas : Areas) (s : Process)
    → 0 < areas.table_size
    → 0 < areas.idx_size
    → 0 < areas.mmio_size
    → Ready (init_libnvmmio areas s)
unfolding init_libnvmmio init_file_hash init_allocator create_global_table_list
    create_global_log_list create_global_idx_list create_global_mmio_list find_node
init_libnvmmio-Ready areas s table_pos idx_pos mmio_pos = record {
  tables =
      create_global_list-WellFormed areas.tables_at areas.table_size table_pos init_table
        table_count nr_node_fill s.tables.tables;
  entries =
      create_global_list-WellFormed areas.idx_at areas.idx_size idx_pos init_idx idx_count
        nr_node_fill s.heap.entries;
  logs = λ i.
      create_global_list-WellFormed (areas.logs_at i) (log_bytes i) (log_bytes_pos i) (λ obj t. t)
        (log_count i) nr_node_fill (tt {0});
  mmios =
      create_global_list-WellFormed areas.mmio_at areas.mmio_size mmio_pos
        (λ obj m. update m obj (init_mmio (m obj))) mmio_count nr_mmio_fill s.files.mmios;
  none_mapped = λ ino. refl;
}
