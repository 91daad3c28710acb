-- ===== src/FileHash/Drop.antt =====
-- src/file_hash.c: `delete_mmio_hash` on a mapping that keeps other holders.
use mathlib.Core.Path.{subst}
use libnvmmio.Prelude.{
  ℕ, suc, ◌-◌, ◌≤◌, ◌<◌, ◌≡◌, refl, sym, inl, inr, true, false, some, List, [], ◌∷◌, ◌==◌,
  if◌then◌else◌, arith, ◌∙◌, Bool-cases, leb,
}
use libnvmmio.Memory.{Pmem}
use libnvmmio.Mmio.{Mmio}
use libnvmmio.FileHash.{Files, get_hash_index, find_node}
use libnvmmio.FileHash.Map.{mapping_of, refs}
use libnvmmio.FileHash.Delete.{Closing, Process, put_mmio, drop_ref, delete_loop, delete_mmio_hash}

-- The nodes of a bucket whose mapping is of `ino`.
unfoldable pub nodes_of : (ino : ℕ) → (ℕ → Mmio) → List ℕ → ℕ
nodes_of ino mmios [] = 0
nodes_of ino mmios (p ∷ ps) =
    let rest = nodes_of ino mmios ps in if ino == (mmios p).ino then suc rest else rest

-- No inode has two nodes.
abbrev pub OneEach : Files → Type 0
OneEach files = (ino : ℕ) → nodes_of ino files.mmios (files.file_hash (get_hash_index ino)) ≤ 1

pub nodes_of-same_inos :
    (mmios mmios' : ℕ → Mmio) (ino : ℕ)
    → ((p : ℕ) → (mmios' p).ino ≡ (mmios p).ino)
    → (ps : List ℕ) → nodes_of ino mmios' ps ≡ nodes_of ino mmios ps
unfolding nodes_of
nodes_of-same_inos mmios mmios' ino same [] = refl
nodes_of-same_inos mmios mmios' ino same (p ∷ ps) =
    rw (same p, nodes_of-same_inos mmios mmios' ino same ps)

-- One holder less of `p`.
abbrev pub released : ℕ → Process → Process
released p s = let m = s.files.mmios p in put_mmio p (record m { ref = m.ref - 1 }) s

module _ (pmem : Pmem) (closing : Closing) (ino index flags fd : ℕ) where
  pub delete_loop-other :
      (ps : List ℕ) (s : Process)
      → nodes_of ino s.files.mmios ps ≡ 0
      → delete_loop pmem closing ino index flags fd ps s ≡ some s
  unfolding delete_loop nodes_of
  delete_loop-other [] s h = refl
  delete_loop-other (p ∷ ps) s h = elim (Bool-cases (ino == (s.files.mmios p).ino)) [
    | inl same ↦ ground (arith, same, h)
    | inr other ↦ rw other (delete_loop-other ps s (rw other at h))
  ]

  drop_ref-released :
      (p : ℕ) (s : Process)
      → 1 < refs s.files p
      → drop_ref pmem closing index p flags fd s ≡ some (released p s)
  unfolding drop_ref
  drop_ref-released p s more = rw (the_test)
    where
      the_test : leb (refs s.files p - 1) 0 ≡ false
      the_test = ground (arith, more)

  released-inos :
      (p : ℕ) (s : Process) (q : ℕ) → ((released p s).files.mmios q).ino ≡ (s.files.mmios q).ino
  released-inos p s q = ground arith

  delete_loop-first :
      (ps : List ℕ) (s : Process) (p : ℕ)
      → ino == (s.files.mmios p).ino ≡ true
      → nodes_of ino s.files.mmios ps ≡ 0
      → 1 < refs s.files p
      → delete_loop pmem closing ino index flags fd (p ∷ ps) s ≡ some (released p s)
  unfolding delete_loop
  delete_loop-first ps s p same no_other more =
      rw (same, drop_ref-released p s more)
        (delete_loop-other ps (released p s) (
          nodes_of-same_inos s.files.mmios (released p s).files.mmios ino (released-inos p s) ps
          ∙ no_other))

  delete_loop-released :
      (ps : List ℕ) (s : Process) (p : ℕ)
      → nodes_of ino s.files.mmios ps ≤ 1
      → find_node ino s.files.mmios ps ≡ some p
      → 1 < refs s.files p
      → delete_loop pmem closing ino index flags fd ps s ≡ some (released p s)
  unfolding delete_loop nodes_of find_node
  delete_loop-released [] s p one found more = cc
  delete_loop-released (q ∷ ps) s p one found more =
      elim (Bool-cases (ino == (s.files.mmios q).ino)) [
        | inl same ↦
            (let found_first : some q ≡ some p = rw same at found in
              let first : q ≡ p = cc found_first in
              let one_first : suc (nodes_of ino s.files.mmios ps) ≤ 1 = rw same at one in
              subst
                (λ x. delete_loop pmem closing ino index flags fd (q ∷ ps) s ≡ some (released x s))
                first
                (delete_loop-first ps s q same (omega (arith, one_first))
                  (subst (λ x. 1 < refs s.files x) (sym first) more)))
        | inr other ↦
            rw other (delete_loop-released ps s p (rw other at one) (rw other at found) more)
      ]

module _ (pmem : Pmem) (closing : Closing) (fd ino flags : ℕ) (s : Process) (p : ℕ) where
  -- In a table without two nodes for an inode, `delete_mmio_hash` of an inode whose mapping has more
  -- than one holder returns, and takes one off the count of that mapping, and changes nothing else.
  pub delete_mmio_hash-released :
      OneEach s.files
      → mapping_of s.files ino ≡ some p
      → 1 < refs s.files p
      → delete_mmio_hash pmem closing fd ino flags s ≡ some (released p s)
  unfolding delete_mmio_hash
  delete_mmio_hash-released one found more =
      delete_loop-released pmem closing ino (get_hash_index ino) flags fd
        (s.files.file_hash (get_hash_index ino)) s p (one ino) found more
