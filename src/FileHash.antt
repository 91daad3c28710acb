-- ===== src/FileHash.antt =====
-- src/file_hash.c: the table of the open mappings, by inode number. Each operation runs under the
-- mutex of its bucket, so it is one step.
pub mod Map
pub mod Delete
pub mod Drop
pub mod OneEach
pub mod Buckets
pub mod Lookup
pub mod LastDrop
pub mod LastClose
use libnvmmio.Prelude.{
  ℕ, ◌+◌, ◌-◌, ◌%◌, Option, none, some, List, [], ◌∷◌, ◌==◌, if◌then◌else◌, update,
}
use libnvmmio.Config.{file_hash_size}
use libnvmmio.Mmio.{Mmio}

-- The buckets hold pointers to mappings, and a node is named by the pointer it carries.
pub record Files : Type 0 where
  pub file_hash : ℕ → List ℕ
  pub mmios : ℕ → Mmio

unfoldable pub get_hash_index : ℕ → ℕ
get_hash_index ino = ino % file_hash_size

-- The walk of a bucket up to the first mapping of `ino`.
unfoldable pub find_node : (ino : ℕ) → (ℕ → Mmio) → List ℕ → Option ℕ
find_node ino mmios [] = none
find_node ino mmios (p ∷ ps) =
    let rest = find_node ino mmios ps in if ino == (mmios p).ino then some p else rest

-- `mmio->ref++`: an overflow of the `int` is undefined in C, and the count has no bound here.
unfoldable pub add_ref : ℕ → Files → Files
add_ref p files =
    let mmio = files.mmios p in
    record files { mmios = update files.mmios p (record mmio { ref = mmio.ref + 1 }) }

unfoldable pub get_mmio_hash : (ino : ℕ) → Files → Option ℕ × Files
get_mmio_hash ino files = elim (find_node ino files.mmios (files.file_hash (get_hash_index ino))) [
  | none ↦ (none, files)
  | some p ↦ (some p, add_ref p files)
]

-- `list_add` puts the node first.
unfoldable pub put_mmio_hash : (ino mmio : ℕ) → Files → ℕ × Files
put_mmio_hash ino mmio files =
    let index = get_hash_index ino in
    elim (find_node ino files.mmios (files.file_hash index)) [
      | none ↦
          let counted = add_ref mmio files in
          (
            mmio,
            record counted {
              file_hash = update counted.file_hash index (mmio ∷ counted.file_hash index);
            },
          )
      | some p ↦ (p, files)
    ]
