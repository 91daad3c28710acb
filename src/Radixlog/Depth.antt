-- ===== src/Radixlog/Depth.antt =====
-- src/radixlog.c: the type of the table that init_radixlog lets lookups skip to.
use libnvmmio.Prelude.{ℕ, ◌-◌, ◌/◌, ◌^◌, ◌≤◌, ◌<◌, ◌≡◌, ◌==◌, inl, inr, Bool-cases, some, arith}
use mathlib.Core.Path.{subst}
use libnvmmio.Prelude.Words.{sub64}
use libnvmmio.Allocator.Supply.{WellFormed}
use libnvmmio.Allocator.Take.{left}
use libnvmmio.Radixlog.{TableType, RadixRoot, lmd_shift, lud_shift, lgd_shift}
use libnvmmio.Radixlog.Walk.{TableHeap, get_deepest_table_type}
use libnvmmio.Radixlog.Init.{init_radixlog}
use libnvmmio.Radixlog.Rooted.{Rooted, init_radixlog-Rooted}

-- The last offset of the file is in what a table of the type covers, 2 MB, 1 GB or 512 GB, and not in
-- what a table of the next lower type covers.
unfoldable pub Covers : TableType → (maxoff : ℕ) → Type 0
Covers TableType.table maxoff = maxoff < 2 ^ 21
Covers TableType.lmd maxoff = (2 ^ 21 ≤ maxoff) × (maxoff < 2 ^ 30)
Covers TableType.lud maxoff = (2 ^ 30 ≤ maxoff) × (maxoff < 2 ^ 39)
Covers TableType.lgd maxoff = 2 ^ 39 ≤ maxoff

get_deepest_table_type-Covers : (maxoff : ℕ) → Covers (get_deepest_table_type maxoff) maxoff
unfolding get_deepest_table_type Covers
get_deepest_table_type-Covers maxoff = elim (Bool-cases (maxoff / 2 ^ lmd_shift == 0)) [
  | inl small ↦ rw small (ground (arith, small))
  | inr more ↦ elim (Bool-cases (maxoff / 2 ^ lud_shift == 0)) [
    | inl small ↦ rw (more, small) (ground (arith, more, small))
    | inr many ↦ elim (Bool-cases (maxoff / 2 ^ lgd_shift == 0)) [
      | inl small ↦ rw (more, many, small) (ground (arith, many, small))
      | inr most ↦ rw (more, many, most) (ground (arith, most))
    ]
  ]
]

-- With well-formed free tables, four of them left, init_radixlog of a file of some bytes, fewer than
-- 2^64, ends within its four rounds: lookups then skip to a table of the lowest type that covers the
-- file, no table is kept from an earlier call, and the free tables are well-formed.
pub init_radixlog-Covers :
    (root : RadixRoot) (filesize : ℕ) (h : TableHeap)
    → 0 < filesize
    → filesize < 2 ^ 64
    → WellFormed h.pool
    → 4 ≤ left h.pool
    → (type : TableType) × (r : RadixRoot × TableHeap) × (init_radixlog root filesize h ≡ some r)
      × Rooted type r
      × Covers type (filesize - 1)
init_radixlog-Covers root filesize h some_bytes few ok enough =
    let (r, e, rooted) = init_radixlog-Rooted root filesize h ok enough in
    (
      get_deepest_table_type (sub64 filesize 1),
      r,
      e,
      rooted,
      subst (Covers (get_deepest_table_type (sub64 filesize 1))) (omega (arith, some_bytes, few))
          (get_deepest_table_type-Covers (sub64 filesize 1)),
    )
