-- ===== src/Config.antt =====
-- src/config.h: the constants that the model uses, and the number of log sizes.
use libnvmmio.Prelude.{ℕ, ◌^◌}

abbrev pub basic_mmap_size : ℕ
basic_mmap_size = 2 ^ 26

abbrev pub default_mmap_size : ℕ
default_mmap_size = 2 ^ 20

abbrev pub hybrid_write_ratio : ℕ
hybrid_write_ratio = 40

abbrev pub max_skip_nodes : ℕ
max_skip_nodes = 2

abbrev pub nr_node_fill : ℕ
nr_node_fill = 1024

abbrev pub file_hash_size : ℕ
file_hash_size = 1024

-- `log_size_t` is its number: LOG_4K is 0, LOG_2M is 9.
abbrev pub log_4k : ℕ
log_4k = 0

abbrev pub nr_log_sizes : ℕ
nr_log_sizes = 10

abbrev pub log_file_size : ℕ
log_file_size = 2 ^ 32

abbrev pub nr_alloc_tables : ℕ
nr_alloc_tables = 2 ^ 19

-- Twice MAX_FD.
abbrev pub nr_mmios : ℕ
nr_mmios = 2048

abbrev pub nr_mmio_fill : ℕ
nr_mmio_fill = 50
