-- ===== src/Allocator.antt =====
-- src/allocator.h and src/allocator.c: free lists of preallocated objects. A list node is named by
-- the object that it carries, so `get_fnode` and `put_fnode` leave no trace here.
pub mod Pool
pub mod Conserve
pub mod Units
pub mod Setup
pub mod Supply
pub mod Accept
pub mod Take
pub mod Stocked
pub mod Supplied
pub mod Ready
use libnvmmio.Prelude.{
  ℕ, ◌+◌, ◌-◌, ◌%◌, Bool, true, false, Option, none, some, ◌>>=◌, List, [], ◌==◌, leb,
  if◌then◌else◌,
}
use libnvmmio.Config.{max_skip_nodes}
use libnvmmio.Slist.{slist_push, slist_pop, slist_empty, slist_cut_splice}

-- `flist_t`, less its mutex: the calls here run with the mutex held.
pub record Flist : Type 0 where
  pub list_head : List ℕ
  pub skip_head : List ℕ
  pub list_cnt : ℕ
  pub skip_cnt : ℕ
  pub skip_unit : ℕ

unfoldable pub alloc_flist : ℕ → Flist
alloc_flist skip_unit = record {
  list_head = [];
  skip_head = [];
  list_cnt = 0;
  skip_cnt = 0;
  skip_unit = skip_unit;
}

-- A node goes on the skip list, and is counted there.
abbrev pub push_skip : ℕ → Flist → Flist
push_skip node l = record l { skip_head = slist_push node l.skip_head; skip_cnt = l.skip_cnt + 1 }

abbrev pub push_list : ℕ → Flist → Flist
push_list node l = record l { list_head = slist_push node l.list_head; list_cnt = l.list_cnt + 1 }

unfoldable pub put_global : ℕ → Flist → Flist
put_global node global =
    push_list node
      (if global.list_cnt % global.skip_unit == 0 then push_skip node global else global)

-- The new provider and the new global list; `none` is the error "skip_list is empty".
unfoldable pub fill_local_provider : Flist → Flist → Option (Flist × Flist)
fill_local_provider provider global = do
  (node, skips) ← slist_pop global.skip_head
  let (rest, filled) = slist_cut_splice global.list_head node provider.list_head
  some (
    record provider { list_head = filled },
    record global { list_head = rest; skip_head = skips },
  )

-- The first unit of the collector's nodes goes back to the global list.
unfoldable pub return_unit : Flist → Flist → Option (Flist × Flist)
return_unit collector global = do
  (skip_node, skips) ← slist_pop collector.skip_head
  let (rest, filled) = slist_cut_splice collector.list_head skip_node global.list_head
  some (
    record collector {
      list_head = rest;
      skip_head = skips;
      list_cnt = collector.list_cnt - collector.skip_unit;
      skip_cnt = collector.skip_cnt - 1;
    },
    record global {
      list_head = filled;
      skip_head = slist_push skip_node global.skip_head;
      list_cnt = global.list_cnt + collector.skip_unit;
      skip_cnt = global.skip_cnt + 1;
    },
  )

-- The new collector and the new global list.
unfoldable pub put_local_collector : ℕ → Flist → Flist → Option (Flist × Flist)
put_local_collector node collector global =
    if collector.list_cnt % collector.skip_unit == 0
    then (do
      (c, g) ←
          (if leb max_skip_nodes collector.skip_cnt
            then return_unit collector global
            else some (collector, global))
      some (push_list node (push_skip node c), g))
    else some (push_list node collector, global)
