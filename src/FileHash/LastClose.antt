-- ===== src/FileHash/LastClose.antt =====
-- src/file_hash.c: `delete_mmio_hash` by the last holder of a mapping.
use libnvmmio.Prelude.{
  ℕ, suc, ◌≤◌, ◌≡◌, ◌≢◌, refl, sym, inl, inr, none, some, List, [], ◌∷◌, ◌==◌, arith, ◌∙◌, ap,
  Bool-cases, equal_or_not, update, update_self, update_ne,
}
use mathlib.Core.Path.{subst}
use libnvmmio.Memory.{Pmem}
use libnvmmio.Allocator.Conserve.{stock, count}
use libnvmmio.Allocator.Supply.{WellFormed}
use libnvmmio.Mmio.{Mmio}
use libnvmmio.Mmio.Checkpoint.Blocks.{Key}
use libnvmmio.Mmio.Checkpoint.Levels.{Levels}
use libnvmmio.Mmio.Checkpoint.Slots.{Sound}
use libnvmmio.FileHash.{get_hash_index, find_node}
use libnvmmio.FileHash.Map.{mapping_of}
use libnvmmio.FileHash.Delete.{
  Closing, Process, world_of, list_del, drop_ref, delete_loop, delete_mmio_hash,
}
use libnvmmio.FileHash.Drop.{OneEach, nodes_of, delete_loop-other}
use libnvmmio.FileHash.LastDrop.{Releasable, LastDropped, drop_ref-LastDropped}
use libnvmmio.FileHash.Buckets.{
  nodes_of-without, find_node-without, find_node-missing, count-nodes_of, count-list_del,
  find_node-list_del, nodes_of-list_del,
}

find_node-ino :
    (ino : ℕ) (mmios : ℕ → Mmio) (ps : List ℕ) (p : ℕ)
    → find_node ino mmios ps ≡ some p
    → ino ≡ (mmios p).ino
unfolding find_node
find_node-ino ino mmios [] p found = cc
find_node-ino ino mmios (q ∷ ps) p found = elim (Bool-cases (ino == (mmios q).ino)) [
  | inl same ↦
      (let found_first : some q ≡ some p = rw same at found in
        let first : q ≡ p = cc found_first in
        subst (λ r. ino ≡ (mmios r).ino) first (ground (arith, same)))
  | inr other ↦ find_node-ino ino mmios ps p (rw other at found)
]

-- What is left of a bucket without the mapping has no node of the inode.
rest-nodes_of :
    (ino p : ℕ) (mmios mmios' : ℕ → Mmio) (ps : List ℕ)
    → ((q : ℕ) → p ≢ q → (mmios' q).ino ≡ (mmios q).ino)
    → ino ≡ (mmios p).ino
    → nodes_of ino mmios ps ≡ 0
    → nodes_of ino mmios' ps ≡ 0
rest-nodes_of ino p mmios mmios' ps others own empty =
    nodes_of-without mmios mmios' p others ino ps
      (omega (arith, count-nodes_of mmios p ps, subst (λ x. nodes_of x mmios ps ≡ 0) own empty))
    ∙ empty

-- The loop, where the one node of the inode loses its last holder.
delete_loop-last :
    (pmem : Pmem) (closing : Closing) (ino index flags fd : ℕ) (ps : List ℕ) (p : ℕ)
    (s s' : Process)
    → nodes_of ino s.files.mmios ps ≤ 1
    → find_node ino s.files.mmios ps ≡ some p
    → ino ≡ (s.files.mmios p).ino
    → drop_ref pmem closing index p flags fd s ≡ some s'
    → ((q : ℕ) → p ≢ q → s'.files.mmios q ≡ s.files.mmios q)
    → delete_loop pmem closing ino index flags fd ps s ≡ some s'
unfolding delete_loop nodes_of find_node
delete_loop-last pmem closing ino index flags fd [] p s s' one found own drops others = cc
delete_loop-last pmem closing ino index flags fd (q ∷ ps) p s s' one found own drops others =
    elim (Bool-cases (ino == (s.files.mmios q).ino)) [
      | inl same ↦
          (let found_first : some q ≡ some p = rw same at found in
            let first : q ≡ p = cc found_first in
            let one_first : suc (nodes_of ino s.files.mmios ps) ≤ 1 = rw same at one in
            let drops' =
              subst (λ r. drop_ref pmem closing index r flags fd s ≡ some s') (sym first) drops in
            rw (same, drops')
              (delete_loop-other pmem closing ino index flags fd ps s' (
                rest-nodes_of ino p s.files.mmios s'.files.mmios ps
                  (λ r ne. ap (λ (m : Mmio). m.ino) (others r ne)) own (omega (arith, one_first)))))
      | inr other ↦ rw other (
          delete_loop-last pmem closing ino index flags fd ps p s s' (rw other at one)
            (rw other at found) own drops others)
    ]

module _ (home len : Key → ℕ) (pmem : Pmem) (closing : Closing) (p ino flags fd : ℕ) where
  -- What `delete_mmio_hash` leaves where it takes the last holder of mapping `p`.
  pub record Closed (s s' : Process) : Type 0 where
    pub gone : mapping_of s'.files ino ≡ none
    pub kept : (x : ℕ) → x ≢ ino → mapping_of s'.files x ≡ mapping_of s.files x
    pub dropped : LastDropped home len pmem closing p flags fd s s'

  module _ (s s' : Process) (one : OneEach s.files) (found : mapping_of s.files ino ≡ some p)
      (elsewhere : (i : ℕ) → get_hash_index ino ≢ i → count p (s.files.file_hash i) ≡ 0)
      (heads : s'.files.file_hash
        ≡ update s.files.file_hash
            (get_hash_index ino)
            (list_del p (s.files.file_hash (get_hash_index ino))))
      (others : (q : ℕ) → p ≢ q → (s'.files.mmios q).ino ≡ (s.files.mmios q).ino) where
    abbrev bucket : List ℕ
    bucket = s.files.file_hash (get_hash_index ino)

    own : ino ≡ (s.files.mmios p).ino
    own = find_node-ino ino s.files.mmios bucket p found

    no_more : nodes_of ino s.files.mmios (list_del p bucket) ≡ 0
    no_more =
        subst (λ x. nodes_of x s.files.mmios (list_del p bucket) ≡ 0) (sym own)
          (omega (
            arith,
            nodes_of-list_del s.files.mmios p bucket
                (subst (λ x. find_node x s.files.mmios bucket ≡ some p) own found),
            subst (λ x. nodes_of x s.files.mmios bucket ≤ 1) own (one ino),
          ))

    once : count p bucket ≤ 1
    once = omega (
      arith,
      count-nodes_of s.files.mmios p bucket,
      subst (λ x. nodes_of x s.files.mmios bucket ≤ 1) own (one ino),
    )

    bucket_here :
        (x : ℕ)
        → get_hash_index ino ≡ get_hash_index x
        → s'.files.file_hash (get_hash_index x) ≡ list_del p bucket
    bucket_here x same =
        ap (λ f. f (get_hash_index x)) heads
        ∙ subst
            (λ i.
              update s.files.file_hash (get_hash_index ino) (list_del p bucket) i
              ≡ list_del p bucket)
            same (update_self s.files.file_hash (get_hash_index ino) (list_del p bucket))

    bucket_other :
        (x : ℕ)
        → get_hash_index ino ≢ get_hash_index x
        → s'.files.file_hash (get_hash_index x) ≡ s.files.file_hash (get_hash_index x)
    bucket_other x differ =
        ap (λ f. f (get_hash_index x)) heads
        ∙ update_ne s.files.file_hash (get_hash_index ino) (get_hash_index x) (list_del p bucket)
            differ

    unlinked : (x : ℕ) → count p (s'.files.file_hash (get_hash_index x)) ≡ 0
    unlinked x = elim (equal_or_not (get_hash_index ino) (get_hash_index x)) [
      | inl same ↦ ap (count p) (bucket_here x same) ∙ count-list_del s.files.mmios p bucket once
      | inr differ ↦ ap (count p) (bucket_other x differ) ∙ elsewhere (get_hash_index x) differ
    ]

    mapping_lem :
        (x : ℕ)
        → mapping_of s'.files x ≡ find_node x s.files.mmios (s'.files.file_hash (get_hash_index x))
    mapping_lem x =
        find_node-without s.files.mmios s'.files.mmios p others x
          (s'.files.file_hash (get_hash_index x)) (unlinked x)

    gone_lem : mapping_of s'.files ino ≡ none
    gone_lem =
        mapping_lem ino
        ∙ ap (find_node ino s.files.mmios) (bucket_here ino refl)
        ∙ find_node-missing s.files.mmios ino (list_del p bucket) no_more

    kept_lem : (x : ℕ) → x ≢ ino → mapping_of s'.files x ≡ mapping_of s.files x
    kept_lem x ne = mapping_lem x ∙ elim (equal_or_not (get_hash_index ino) (get_hash_index x)) [
      | inl same ↦
          ap (find_node x s.files.mmios) (bucket_here x same)
          ∙ find_node-list_del s.files.mmios p x bucket (λ e. ne (e ∙ sym own))
          ∙ ap (λ i. find_node x s.files.mmios (s.files.file_hash i)) same
      | inr differ ↦ ap (find_node x s.files.mmios) (bucket_other x differ)
    ]

  module _ (s : Process) (one : OneEach s.files) (found : mapping_of s.files ino ≡ some p)
      (elsewhere : (i : ℕ) → get_hash_index ino ≢ i → count p (s.files.file_hash i) ≡ 0)
      (sound : Sound home len (world_of p s))
      (levels : Levels (s.files.mmios p).radixlog s.tables.tables)
      (ok : Releasable closing fd (s.files.mmios p)) (last : (s.files.mmios p).ref ≡ 1)
      (pool_ok : WellFormed s.mmio_pool) (out : stock s.mmio_pool p ≡ 0) where
    -- In a table without two nodes for an inode, where the mapping of the inode is in no other bucket
    -- and has one holder left and nobody in it, its log index is in levels and each table that a
    -- walk finds has one of the ten log sizes, the entries of all tables log the blocks of their
    -- slots under REDO, apart from each other, and are not on the free lists, nor are their logs,
    -- munmap and ftruncate succeed, and the free lists and free mappings are well-formed, with the
    -- mapping not among the free ones: delete_mmio_hash returns; the table has no mapping of the
    -- inode and all others as before, no other mapping changes, the mapping is given back once; and
    -- for each offset of the mapping, each block of the table that find_log_table finds for it stands
    -- in the file itself as it read, if its entry, where it has one, is of an earlier epoch and not
    -- locked. A table has no size from its making to its first request.
    pub delete_mmio_hash-Closed :
        (s' : Process) × (delete_mmio_hash pmem closing fd ino flags s ≡ some s') × Closed s s'
    unfolding delete_mmio_hash
    delete_mmio_hash-Closed =
        let index = get_hash_index ino in
        let (s', drops, heads, dropped) =
          drop_ref-LastDropped home len pmem closing p flags fd s index sound levels ok last pool_ok
            out in
        let others : (q : ℕ) → p ≢ q → (s'.files.mmios q).ino ≡ (s.files.mmios q).ino =
          λ q ne. ap (λ (m : Mmio). m.ino) (dropped.others q ne) in
        (
          s',
          delete_loop-last pmem closing ino index flags fd (s.files.file_hash index) p s s'
              (one ino) found (find_node-ino ino s.files.mmios (s.files.file_hash index) p found)
              drops dropped.others,
          record {
            gone = gone_lem s s' one found elsewhere heads others;
            kept = kept_lem s s' one found elsewhere heads others;
            dropped = dropped;
          },
        )
