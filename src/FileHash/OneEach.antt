-- ===== src/FileHash/OneEach.antt =====
-- src/file_hash.c: the nodes that the table has for an inode.
use mathlib.Core.Path.{subst}
use libnvmmio.Prelude.{
  ℕ, ◌≤◌, ◌≡◌, ◌≢◌, refl, sym, inl, inr, none, some, List, [], ◌∷◌, ◌==◌, update, update_self,
  update_ne, arith, ◌∙◌, Bool-cases, Option-cases, ==_iff,
}
use libnvmmio.Mmio.{Mmio}
use libnvmmio.FileHash.{Files, get_hash_index, find_node, add_ref, put_mmio_hash}
use libnvmmio.FileHash.Map.{mapping_of, add_ref-ino}
use libnvmmio.FileHash.Drop.{nodes_of, nodes_of-same_inos, OneEach}

nodes_of-missing :
    (mmios : ℕ → Mmio) (ino : ℕ) (ps : List ℕ)
    → find_node ino mmios ps ≡ none
    → nodes_of ino mmios ps ≡ 0
unfolding nodes_of find_node
nodes_of-missing mmios ino [] h = refl
nodes_of-missing mmios ino (p ∷ ps) h = elim (Bool-cases (ino == (mmios p).ino)) [
  | inl same ↦ (let found : some p ≡ none = rw same at h in cc found)
  | inr other ↦ rw other (nodes_of-missing mmios ino ps (rw other at h))
]

module _ (ino mmio : ℕ) (files : Files) (same : (files.mmios mmio).ino ≡ ino) (one : OneEach files)
    (missing : mapping_of files ino ≡ none) where
  abbrev counted : Files
  counted = add_ref mmio files

  abbrev home : List ℕ
  home = files.file_hash (get_hash_index ino)

  new_ino : (counted.mmios mmio).ino ≡ ino
  new_ino = add_ref-ino mmio files mmio ∙ same

  nodes_of-new :
      (x : ℕ) (ps : List ℕ)
      → x ≡ ino
      → nodes_of x counted.mmios ps ≡ 0
      → nodes_of x counted.mmios (mmio ∷ ps) ≤ 1
  unfolding nodes_of
  nodes_of-new x ps e none_there = ground (arith, new_ino, e, none_there)

  nodes_of-other :
      (x : ℕ) (ps : List ℕ)
      → x ≢ ino
      → nodes_of x counted.mmios (mmio ∷ ps) ≡ nodes_of x counted.mmios ps
  unfolding nodes_of
  nodes_of-other x ps other = ground (arith, new_ino, other)

  kept_nodes : (x : ℕ) (ps : List ℕ) → nodes_of x counted.mmios ps ≡ nodes_of x files.mmios ps
  kept_nodes x ps = nodes_of-same_inos files.mmios counted.mmios x (add_ref-ino mmio files) ps

  at_home :
      (x : ℕ) → get_hash_index ino ≡ get_hash_index x → nodes_of x counted.mmios (mmio ∷ home) ≤ 1
  at_home x hit = elim (Bool-cases (x == ino)) [
    | inl is_new ↦
        (let e : x ≡ ino = (==_iff x ino).0 is_new in
          nodes_of-new x home e (
            kept_nodes x home
            ∙ nodes_of-missing files.mmios x home
                (subst (λ y. find_node y files.mmios home ≡ none) (sym e) missing)))
    | inr other ↦
        rw (nodes_of-other x home (ground (arith, other)), kept_nodes x home)
          (subst (λ i. nodes_of x files.mmios (files.file_hash i) ≤ 1) (sym hit) (one x))
  ]

  by_bucket :
      (x : ℕ)
      → nodes_of x counted.mmios (
          update counted.file_hash
            (get_hash_index ino)
            (mmio ∷ counted.file_hash (get_hash_index ino))
            (get_hash_index x))
        ≤ 1
  unfolding add_ref
  by_bucket x = elim (Bool-cases (get_hash_index ino == get_hash_index x)) [
    | inl same_bucket ↦
        (let hit : get_hash_index ino ≡ get_hash_index x =
            (==_iff (get_hash_index ino) (get_hash_index x)).0 same_bucket in
          subst
            (λ i.
              nodes_of x counted.mmios (update files.file_hash (get_hash_index ino) (mmio ∷ home) i)
              ≤ 1)
            hit
            (rw (update_self files.file_hash (get_hash_index ino) (mmio ∷ home)) (at_home x hit)))
    | inr miss ↦
        rw
          (
            update_ne files.file_hash (get_hash_index ino) (get_hash_index x) (mmio ∷ home)
                (ground (arith, miss)),
            kept_nodes x (files.file_hash (get_hash_index x)),
          )
          (one x)
  ]

  added-OneEach : OneEach (put_mmio_hash ino mmio files).1
  unfolding put_mmio_hash
  added-OneEach = rw (put_mmio_hash, missing) by_bucket

-- `put_mmio_hash`, given a mapping of the inode, keeps the table without two nodes for an inode.
pub put_mmio_hash-OneEach :
    (ino mmio : ℕ) (files : Files)
    → (files.mmios mmio).ino ≡ ino
    → OneEach files
    → OneEach (put_mmio_hash ino mmio files).1
unfolding put_mmio_hash
put_mmio_hash-OneEach ino mmio files same one = elim (Option-cases (mapping_of files ino)) [
  | inl missing ↦ added-OneEach ino mmio files same one missing
  | inr (p, found) ↦ rw (put_mmio_hash, found) one
]
