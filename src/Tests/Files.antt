-- ===== src/Tests/Files.antt =====
-- A table with one open mapping: the theorems of FileHash at concrete inputs.
use libnvmmio.Prelude.{
  ℕ, ◌%◌, ◌≡◌, refl, some, true, inl, inr, List, [], ◌∷◌, ◌==◌, arith, Bool-cases, if◌then◌else◌,
}
use libnvmmio.Mmio.{Mmio}
use libnvmmio.FileHash.{Files, get_hash_index, find_node, put_mmio_hash}
use libnvmmio.FileHash.Map.{mapping_of, Put, put_mmio_hash-Put}
use libnvmmio.FileHash.{get_mmio_hash}
use libnvmmio.FileHash.Lookup.{Found, get_mmio_hash-Found}
use libnvmmio.FileHash.Delete.{Closing, Process, delete_mmio_hash}
use libnvmmio.FileHash.Drop.{OneEach, nodes_of, released, delete_mmio_hash-released}
use libnvmmio.FileHash.OneEach.{put_mmio_hash-OneEach}
use libnvmmio.Tests.Data.{plain_pmem, ramp, logged, redo_mmio, table_heap, pool}

-- Mapping 1 is of inode 3, all others of inode 1027, which falls into the same bucket.
abbrev mmios : ℕ → Mmio
mmios p = record redo_mmio { ino = if p == 1 then 3 else 1027; ref = 2 }

abbrev buckets : ℕ → List ℕ
buckets i = if i == 3 then 1 ∷ [] else []

abbrev pub files : Files
files = record { file_hash = buckets; mmios = mmios }

abbrev pub all_well : Closing
all_well = record { munmap = λ addr len. true; ftruncate = λ fd len. true }

abbrev pub process : Process
process = record {
  files = files;
  mem = ramp;
  tables = table_heap;
  heap = record { entries = λ p. logged; pool = pool; data_pools = λ s. pool };
  mmio_pool = pool;
}

pub files-OneEach : OneEach files
unfolding nodes_of get_hash_index
files-OneEach ino = elim (Bool-cases (ino % 1024 == 3)) [
  | inl third ↦ rw third (ground arith)
  | inr other ↦ rw other (omega arith)
]

pub mapped : mapping_of files 3 ≡ some 1
unfolding find_node get_hash_index
mapped = refl

get_mmio_hash-Found_example : Found files 3 (get_mmio_hash 3 files)
get_mmio_hash-Found_example = get_mmio_hash-Found 3 files

put_mmio_hash-Put_example : Put files 1027 2 (put_mmio_hash 1027 2 files)
put_mmio_hash-Put_example = put_mmio_hash-Put 1027 2 files refl

put_mmio_hash-OneEach_example : OneEach (put_mmio_hash 1027 2 files).1
put_mmio_hash-OneEach_example = put_mmio_hash-OneEach 1027 2 files refl files-OneEach

delete_mmio_hash-released_example :
    delete_mmio_hash plain_pmem all_well 5 3 2 process ≡ some (released 1 process)
delete_mmio_hash-released_example =
    delete_mmio_hash-released plain_pmem all_well 5 3 2 process 1 files-OneEach mapped (omega arith)
