-- ===== src/FileHash/Buckets.antt =====
-- src/file_hash.c: a bucket after the node of one mapping is deleted.
use mathlib.Core.Path.{subst}
use libnvmmio.Prelude.{
  ℕ, suc, ◌≤◌, ◌≡◌, ◌≢◌, refl, inl, inr, false, none, some, List, [], ◌∷◌, ◌==◌, arith, Bool-cases,
  equal_or_not,
}
use libnvmmio.Allocator.Conserve.{count}
use libnvmmio.Mmio.{Mmio}
use libnvmmio.FileHash.{find_node}
use libnvmmio.FileHash.Delete.{list_del}
use libnvmmio.FileHash.Drop.{nodes_of}

module _ (mmios mmios' : ℕ → Mmio) (p : ℕ)
    (others : (q : ℕ) → p ≢ q → (mmios' q).ino ≡ (mmios q).ino) (x : ℕ) where
  -- What becomes of a mapping does not matter to a bucket that it is not in.
  pub nodes_of-without : (ps : List ℕ) → count p ps ≡ 0 → nodes_of x mmios' ps ≡ nodes_of x mmios ps
  unfolding count nodes_of
  nodes_of-without [] h = refl
  nodes_of-without (q ∷ ps) h =
      rw (others q (ground (arith, h)), nodes_of-without ps (ground (arith, h)))

  pub find_node-without :
      (ps : List ℕ) → count p ps ≡ 0 → find_node x mmios' ps ≡ find_node x mmios ps
  unfolding count find_node
  find_node-without [] h = refl
  find_node-without (q ∷ ps) h =
      rw (others q (ground (arith, h)), find_node-without ps (ground (arith, h)))

ne_test : (p q : ℕ) → p ≢ q → p == q ≡ false
ne_test p q ne = ground (arith, ne)

module _ (mmios : ℕ → Mmio) where
  pub find_node-missing :
      (ino : ℕ) (ps : List ℕ) → nodes_of ino mmios ps ≡ 0 → find_node ino mmios ps ≡ none
  unfolding nodes_of find_node
  find_node-missing ino [] h = refl
  find_node-missing ino (q ∷ ps) h = elim (Bool-cases (ino == (mmios q).ino)) [
    | inl same ↦ ground (arith, same, h)
    | inr other ↦ rw other (find_node-missing ino ps (rw other at h))
  ]

  module _ (p : ℕ) where
    -- A mapping stands in a bucket at most as often as its inode has nodes there.
    pub count-nodes_of : (ps : List ℕ) → count p ps ≤ nodes_of (mmios p).ino mmios ps
    unfolding count nodes_of
    count-nodes_of [] = omega arith
    count-nodes_of (q ∷ ps) = elim (equal_or_not p q) [
      | inl same ↦
          subst (λ r. count p (r ∷ ps) ≤ nodes_of (mmios p).ino mmios (r ∷ ps)) same
            (ground (arith, count-nodes_of ps))
      | inr ne ↦ ground (arith, ne, count-nodes_of ps)
    ]

    pub count-list_del : (ps : List ℕ) → count p ps ≤ 1 → count p (list_del p ps) ≡ 0
    unfolding count list_del
    count-list_del [] h = refl
    count-list_del (q ∷ ps) h = elim (equal_or_not p q) [
      | inl same ↦ ground (arith, same, h)
      | inr ne ↦ rw (list_del, ne_test p q ne) (ground (arith, ne, h, count-list_del ps))
    ]

    pub find_node-list_del :
        (x : ℕ) (ps : List ℕ)
        → x ≢ (mmios p).ino
        → find_node x mmios (list_del p ps) ≡ find_node x mmios ps
    unfolding find_node list_del
    find_node-list_del x [] ne = refl
    find_node-list_del x (q ∷ ps) ne = elim (equal_or_not p q) [
      | inl same ↦
          subst (λ r. find_node x mmios (list_del p (r ∷ ps)) ≡ find_node x mmios (r ∷ ps)) same
            (ground (arith, ne))
      | inr differ ↦ rw (ne_test p q differ) (ground (arith, find_node-list_del x ps ne))
    ]

    pub nodes_of-list_del :
        (ps : List ℕ)
        → find_node (mmios p).ino mmios ps ≡ some p
        → nodes_of (mmios p).ino mmios ps ≡ suc (nodes_of (mmios p).ino mmios (list_del p ps))
    unfolding find_node nodes_of list_del
    nodes_of-list_del [] found = cc
    nodes_of-list_del (q ∷ ps) found = elim (equal_or_not p q) [
      | inl same ↦
          subst
            (λ r.
              nodes_of (mmios p).ino mmios (r ∷ ps)
              ≡ suc (nodes_of (mmios p).ino mmios (list_del p (r ∷ ps))))
            same (ground arith)
      | inr differ ↦ elim (Bool-cases ((mmios p).ino == (mmios q).ino)) [
        | inl same ↦
            (let first : some q ≡ some p = rw same at found in ground (arith, first, differ))
        | inr other ↦ rw (ne_test p q differ, other) (nodes_of-list_del ps (rw other at found))
      ]
    ]
