-- ===== src/FileHash/Lookup.antt =====
-- src/file_hash.c: what `get_mmio_hash` finds, told without the walk of the bucket.
use mathlib.Core.Path.{subst}
use libnvmmio.Prelude.{
  ℕ, ◌+◌, ◌%◌, ◌^◌, ◌<◌, ◌≡◌, ◌≢◌, Option, refl, sym, inl, inr, none, some, Bool-cases,
  Option-cases, List, [], ◌∷◌, ◌==◌, if◌then◌else◌, arith,
}
use libnvmmio.Allocator.Conserve.{count}
use libnvmmio.Mmio.{Mmio}
use libnvmmio.FileHash.{Files, get_hash_index, find_node, add_ref, get_mmio_hash}
use libnvmmio.FileHash.Drop.{nodes_of}
use libnvmmio.FileHash.Buckets.{count-nodes_of}

-- A mapping that is found is in the bucket, and of the inode.
find_node-found :
    (ino : ℕ) (mmios : ℕ → Mmio) (ps : List ℕ) (p : ℕ)
    → find_node ino mmios ps ≡ some p
    → (0 < count p ps) × ((mmios p).ino ≡ ino)
unfolding find_node count
find_node-found ino mmios [] p found = cc
find_node-found ino mmios (q ∷ ps) p found = elim (Bool-cases (ino == (mmios q).ino)) [
  | inl same ↦
      (let found_first : some q ≡ some p = rw same at found in
        let first : q ≡ p = cc found_first in
        subst (λ r. (0 < count r (q ∷ ps)) × ((mmios r).ino ≡ ino)) first (ground (arith, same)))
  | inr other ↦
      (let (there, own) = find_node-found ino mmios ps p (rw other at found) in
        (ground (arith, there), own))
]

find_node-missed :
    (ino : ℕ) (mmios : ℕ → Mmio) (ps : List ℕ)
    → find_node ino mmios ps ≡ none
    → nodes_of ino mmios ps ≡ 0
unfolding find_node nodes_of
find_node-missed ino mmios [] missed = refl
find_node-missed ino mmios (q ∷ ps) missed = elim (Bool-cases (ino == (mmios q).ino)) [
  | inl same ↦ ground (arith, same, missed)
  | inr other ↦ rw other (find_node-missed ino mmios ps (rw other at missed))
]

add_ref-mmios :
    (p : ℕ) (files : Files) (q : ℕ)
    → (add_ref p files).mmios q
      ≡ (if p == q then record (files.mmios q) { ref = (files.mmios q).ref + 1 } else files.mmios q)
unfolding add_ref
add_ref-mmios p files q = ground arith

same_some : {p q : ℕ} → some p ≡ some q → p ≡ q
same_some e = cc e

-- The mapping that is returned is in the bucket of the inode, and of the inode; if none is, no
-- mapping of the bucket is of the inode. The buckets are as before, and so are the mappings, but
-- that the one that is returned has one holder more.
pub record Found (files : Files) (ino : ℕ) (r : Option ℕ × Files) : Type 0 where
  pub hit :
      (p : ℕ)
      → r.0 ≡ some p
      → (0 < count p (files.file_hash (ino % 2 ^ 10))) × ((files.mmios p).ino ≡ ino)
  pub miss :
      r.0 ≡ none
      → (p : ℕ) → 0 < count p (files.file_hash (ino % 2 ^ 10))
      → (files.mmios p).ino ≢ ino
  pub buckets : r.1.file_hash ≡ files.file_hash
  pub same_mmios :
      (q : ℕ)
      → r.1.mmios q ≡ (elim r.0 [
        | none ↦ files.mmios q
        | some p ↦
            if p == q
            then record (files.mmios q) { ref = (files.mmios q).ref + 1 }
            else files.mmios q
      ])

-- `get_mmio_hash` finds a mapping of the inode in its bucket exactly where there is one, counts one
-- holder more of it, and changes nothing else.
pub get_mmio_hash-Found : (ino : ℕ) (files : Files) → Found files ino (get_mmio_hash ino files)
unfolding get_mmio_hash get_hash_index add_ref
get_mmio_hash-Found ino files =
    let bucket = files.file_hash (get_hash_index ino) in
    elim (Option-cases (find_node ino files.mmios bucket)) [
      | inl missing ↦
          rw (get_mmio_hash, missing)
            (record {
              hit = λ p e. cc e;
              miss = λ e p there own. omega (
                arith,
                there,
                count-nodes_of files.mmios p bucket,
                subst (λ x. nodes_of x files.mmios bucket ≡ 0) (sym own)
                    (find_node-missed ino files.mmios bucket missing),
              );
              buckets = refl;
              same_mmios = λ q. refl;
            })
      | inr (p, found) ↦
          rw (get_mmio_hash, found)
            (record {
              hit = λ q e.
                  subst (λ r. (0 < count r bucket) × ((files.mmios r).ino ≡ ino)) (same_some e)
                    (find_node-found ino files.mmios bucket p found);
              miss = λ e. cc e;
              buckets = refl;
              same_mmios = add_ref-mmios p files;
            })
    ]
