-- ===== src/Radixlog/Init.antt =====
-- src/radixlog.c: `init_radixlog` builds one path, down to the table that lookups will skip to.
use libnvmmio.Prelude.{ℕ, zero, suc, ◌-◌, ◌^◌, Option, none, some, ◌>>=◌, leb, if◌then◌else◌}
use libnvmmio.Prelude.Words.{sub64}
use libnvmmio.Radixlog.{TableType, RadixRoot, lgd_index, lud_index, lmd_index}
use libnvmmio.Radixlog.Walk.{Tables, TableHeap, alloc_log_table, set_child, get_deepest_table_type}

-- The numbers of the enumeration.
abbrev pub number : TableType → ℕ
number TableType.table = 1
number TableType.lmd = 2
number TableType.lud = 3
number TableType.lgd = 4

-- NEXT_TABLE_TYPE; `none` is the number 0, which is below every type.
abbrev pub next_table_type : TableType → Option TableType
next_table_type TableType.table = none
next_table_type TableType.lmd = some TableType.table
next_table_type TableType.lud = some TableType.lmd
next_table_type TableType.lgd = some TableType.lud

-- The `switch` on the type of the child; at LGD the source ends with "wrong table type".
abbrev pub path_index : TableType → (maxoff : ℕ) → Option ℕ
path_index TableType.table maxoff = some (lmd_index maxoff)
path_index TableType.lmd maxoff = some (lud_index maxoff)
path_index TableType.lud maxoff = some (lgd_index maxoff)
path_index TableType.lgd maxoff = none

-- `parent->entries[index] = table`, or `root->lgd = table` where there is no parent yet.
unfoldable pub link :
    Option ℕ → TableType → (maxoff t : ℕ) → RadixRoot × Tables → Option (RadixRoot × Tables)
link none type maxoff t (root, tables) = some (record root { lgd = some t }, tables)
link (some parent) type maxoff t (root, tables) = do
  index ← path_index type maxoff
  some (root, set_child parent index t tables)

-- The `do` loop, in at most `rounds` rounds: four types make four rounds enough.
unfoldable pub init_loop :
    (rounds : ℕ)
    → (deepest type : TableType) → (parent : Option ℕ) → (maxoff : ℕ) → RadixRoot
    → TableHeap
    → Option (RadixRoot × TableHeap)
init_loop zero deepest type parent maxoff root h = none
init_loop (suc rounds) deepest type parent maxoff root h = do
  (t, h') ← alloc_log_table type h
  (root', tables) ← link parent type maxoff t (root, h'.tables)
  let last =
      some (
        record root' { skip = some t; prev_table_index = 2 ^ 64 - 1 },
        record h' { tables = tables },
      )
  elim (next_table_type type) [
    | none ↦ last
    | some next ↦
        if leb (number deepest) (number next)
        then init_loop rounds deepest next (some t) maxoff root' (record h' { tables = tables })
        else last
  ]

unfoldable pub init_radixlog :
    RadixRoot → (filesize : ℕ) → TableHeap → Option (RadixRoot × TableHeap)
init_radixlog root filesize h =
    let maxoff = sub64 filesize 1 in
    init_loop 4 (get_deepest_table_type maxoff) TableType.lgd none maxoff root h
