-- ===== src/FileHash/Map.antt =====
-- src/file_hash.c: the table as a map from inode numbers to mappings, each with its count.
use libnvmmio.Prelude.{
  ℕ, ◌+◌, ◌≡◌, ◌≢◌, refl, sym, inl, inr, Option, none, some, Option-cases, List, [], ◌∷◌, ◌==◌,
  if◌then◌else◌, update, arith, ◌∙◌, Bool-cases, update_self, update_ne, ==_iff,
}
use mathlib.Core.Path.{subst}
use libnvmmio.Mmio.{Mmio}
use libnvmmio.FileHash.{Files, get_hash_index, find_node, add_ref, get_mmio_hash, put_mmio_hash}

-- The mapping that the table has for an inode.
abbrev pub mapping_of : Files → ℕ → Option ℕ
mapping_of files ino = find_node ino files.mmios (files.file_hash (get_hash_index ino))

-- How many holders a mapping has.
abbrev pub refs : Files → ℕ → ℕ
refs files p = (files.mmios p).ref

pub find_node-same_inos :
    (mmios mmios' : ℕ → Mmio) (ino : ℕ)
    → ((p : ℕ) → (mmios' p).ino ≡ (mmios p).ino)
    → (ps : List ℕ) → find_node ino mmios' ps ≡ find_node ino mmios ps
unfolding find_node
find_node-same_inos mmios mmios' ino same [] = refl
find_node-same_inos mmios mmios' ino same (p ∷ ps) =
    rw (same p, find_node-same_inos mmios mmios' ino same ps)

pub add_ref-ino :
    (p : ℕ) (files : Files) (q : ℕ) → ((add_ref p files).mmios q).ino ≡ (files.mmios q).ino
unfolding add_ref
add_ref-ino p files q = ground arith

pub add_ref-refs :
    (p : ℕ) (files : Files) (q : ℕ)
    → refs (add_ref p files) q ≡ (if p == q then refs files q + 1 else refs files q)
unfolding add_ref
add_ref-refs p files q = ground arith

pub add_ref-mapping_of :
    (p : ℕ) (files : Files) (ino : ℕ) → mapping_of (add_ref p files) ino ≡ mapping_of files ino
unfolding add_ref
add_ref-mapping_of p files ino =
    find_node-same_inos files.mmios (add_ref p files).mmios ino (add_ref-ino p files)
      (files.file_hash (get_hash_index ino))

-- Every mapping stays where it was, and the one that is returned has one holder more.
pub record Shared (files : Files) (ino : ℕ) (r : Option ℕ × Files) : Type 0 where
  pub result : r.0 ≡ mapping_of files ino
  pub kept : (x : ℕ) → mapping_of r.1 x ≡ mapping_of files x
  pub counts :
      (q : ℕ)
      → refs r.1 q ≡ (elim r.0 [
        | none ↦ refs files q
        | some p ↦ if p == q then refs files q + 1 else refs files q
      ])

-- `get_mmio_hash` returns the mapping of the inode, counts one holder more of it, and changes no
-- other count and no other mapping of the table.
pub get_mmio_hash-Shared : (ino : ℕ) (files : Files) → Shared files ino (get_mmio_hash ino files)
unfolding get_mmio_hash
get_mmio_hash-Shared ino files = elim (Option-cases (mapping_of files ino)) [
  | inl missing ↦
      rw (get_mmio_hash, missing)
        (record { result = sym missing; kept = λ x. refl; counts = λ q. refl })
  | inr (p, found) ↦
      rw (get_mmio_hash, found)
        (record {
          result = sym found;
          kept = add_ref-mapping_of p files;
          counts = add_ref-refs p files;
        })
]

pub get_mmio_hash-missing :
    (ino : ℕ) (files : Files)
    → mapping_of files ino ≡ none
    → get_mmio_hash ino files ≡ (none, files)
unfolding get_mmio_hash
get_mmio_hash-missing ino files missing = rw (get_mmio_hash, missing)

pub put_mmio_hash-missing :
    (ino p : ℕ) (files : Files)
    → mapping_of files ino ≡ none
    → let counted = add_ref p files in
      put_mmio_hash ino p files ≡ (
        p,
        record counted {
          file_hash =
              update counted.file_hash
                (get_hash_index ino)
                (p ∷ counted.file_hash (get_hash_index ino));
        },
      )
unfolding put_mmio_hash
put_mmio_hash-missing ino p files missing = rw (put_mmio_hash, missing)

-- The table has the mapping that is returned for the inode, and for every other inode what it had.
-- A mapping that was there is left with the count that it had; else the new one is counted.
pub record Put (files : Files) (ino mmio : ℕ) (r : ℕ × Files) : Type 0 where
  pub mapped : mapping_of r.1 ino ≡ some r.0
  pub result : r.0 ≡ (elim (mapping_of files ino) [ none ↦ mmio | some p ↦ p ])
  pub kept : (x : ℕ) → x ≢ ino → mapping_of r.1 x ≡ mapping_of files x
  pub counts :
      (q : ℕ)
      → refs r.1 q ≡ (elim (mapping_of files ino) [
        | none ↦ if mmio == q then refs files q + 1 else refs files q
        | some p ↦ refs files q
      ])

module _ (ino mmio : ℕ) (files : Files) (same : (files.mmios mmio).ino ≡ ino) where
  find_node-new :
      (counted : ℕ → Mmio) (ps : List ℕ)
      → (counted mmio).ino ≡ ino
      → find_node ino counted (mmio ∷ ps) ≡ some mmio
  unfolding find_node
  find_node-new counted ps e = ground (arith, e)

  find_node-other :
      (counted : ℕ → Mmio) (ps : List ℕ) (x : ℕ)
      → x ≢ ino
      → (counted mmio).ino ≡ ino
      → find_node x counted (mmio ∷ ps) ≡ find_node x counted ps
  unfolding find_node
  find_node-other counted ps x other e = ground (arith, e, other)

  abbrev counted : Files
  counted = add_ref mmio files

  abbrev bucket : ℕ → List ℕ
  bucket =
      update counted.file_hash (get_hash_index ino) (mmio ∷ counted.file_hash (get_hash_index ino))

  new_ino : (counted.mmios mmio).ino ≡ ino
  new_ino = add_ref-ino mmio files mmio ∙ same

  mapped_lem : find_node ino counted.mmios (bucket (get_hash_index ino)) ≡ some mmio
  mapped_lem =
      rw
        (update_self counted.file_hash (get_hash_index ino)
          (mmio ∷ counted.file_hash (get_hash_index ino)))
        (find_node-new counted.mmios (counted.file_hash (get_hash_index ino)) new_ino)

  kept_lem :
      (x : ℕ) → x ≢ ino → find_node x counted.mmios (bucket (get_hash_index x)) ≡ mapping_of files x
  unfolding add_ref
  kept_lem x other = elim (Bool-cases (get_hash_index ino == get_hash_index x)) [
    | inl hit ↦
        subst
          (λ i. find_node x counted.mmios (bucket i) ≡ find_node x files.mmios (files.file_hash i))
          ((==_iff (get_hash_index ino) (get_hash_index x)).0 hit)
          (rw
            (update_self counted.file_hash (get_hash_index ino)
              (mmio ∷ counted.file_hash (get_hash_index ino)))
            (find_node-other counted.mmios (counted.file_hash (get_hash_index ino)) x other new_ino
              ∙ find_node-same_inos files.mmios counted.mmios x (add_ref-ino mmio files) _))
    | inr miss ↦
        rw
          (update_ne counted.file_hash (get_hash_index ino) (get_hash_index x)
            (mmio ∷ counted.file_hash (get_hash_index ino)) (ground (arith, miss)))
          (add_ref-mapping_of mmio files x)
  ]

  -- `put_mmio_hash`, given a mapping of the inode, adds it unless the table has one: the table then
  -- has the mapping that is returned, and every other inode has what it had.
  pub put_mmio_hash-Put : Put files ino mmio (put_mmio_hash ino mmio files)
  unfolding put_mmio_hash
  put_mmio_hash-Put = elim (Option-cases (mapping_of files ino)) [
    | inl missing ↦
        rw (put_mmio_hash, missing)
          (record {
            mapped = mapped_lem;
            result = rw missing;
            kept = kept_lem;
            counts = λ q. rw missing (add_ref-refs mmio files q);
          })
    | inr (p, found) ↦
        rw (put_mmio_hash, found)
          (record {
            mapped = found;
            result = rw found;
            kept = λ x other. refl;
            counts = λ q. rw found;
          })
  ]
