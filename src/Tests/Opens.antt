-- ===== src/Tests/Opens.antt =====
-- An open of an empty file that is not mapped yet.
use libnvmmio.Prelude.{◌≡◌, refl, none, some, arith}
use libnvmmio.Allocator.{alloc_flist}
use libnvmmio.Allocator.Conserve.{stock, count}
use libnvmmio.Allocator.Setup.{fresh_pool}
use libnvmmio.FileHash.{get_hash_index, find_node}
use libnvmmio.FileHash.Map.{mapping_of}
use libnvmmio.FileHash.Delete.{Process}
use libnvmmio.File.{Calls}
use libnvmmio.File.Host.{Posix}
use libnvmmio.File.Open.{get_prot, libnvmmio_open}
use libnvmmio.File.NewFile.{AllFree, Opened, libnvmmio_open-Opened}
use libnvmmio.Tests.Data.{ramp}
use libnvmmio.Tests.Files.{files, process}
use libnvmmio.Tests.Calls.{posix}
use libnvmmio.Tests.Growth.{kernel}
use libnvmmio.Tests.Pools.{
  one_unit, pool-WellFormed, one_left, free_tables, four_tables-WellFormed, four_left,
}

-- Mappings 5 and 6 are free.
abbrev opening : Process
opening = record process {
  files = record files { mmios = λ p. record (files.mmios p) { ref = 0 } };
  tables = free_tables;
  mmio_pool = fresh_pool one_unit;
}

abbrev opening_calls : Calls (Unit {0})
opening_calls = record { process = opening; fd_table = λ fd. none; host = tt }

-- Every file is empty, and inode 8.
abbrev empty_files : Posix (Unit {0})
empty_files = record posix { fxstat = λ fd k. some (8, 0) }

opening-AllFree : AllFree opening
unfolding stock fresh_pool count alloc_flist
opening-AllFree p free = (refl, λ i. ground (arith, free))

not_mapped : mapping_of opening.files 8 ≡ none
unfolding find_node get_hash_index
not_mapped = refl

for_both : get_prot 2 ≡ some 3
unfolding get_prot
for_both = refl

libnvmmio_open-Opened_example :
    (s' : Calls (Unit {0})) × (libnvmmio_open empty_files kernel 5 2 0 opening_calls ≡ some s')
    × Opened empty_files kernel 5 2 0 8 0 opening_calls 8192 ramp s'
libnvmmio_open-Opened_example =
    libnvmmio_open-Opened empty_files kernel 5 2 0 8 0 opening_calls 8192 ramp refl refl not_mapped
      refl 3 for_both refl pool-WellFormed one_left opening-AllFree four_tables-WellFormed four_left
