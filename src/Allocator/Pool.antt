-- ===== src/Allocator/Pool.antt =====
-- src/allocator.h: the two macros that take an object from a thread's lists and give it back.
use libnvmmio.Prelude.{ℕ, Option, none, some, ◌>>=◌, if◌then◌else◌}
use libnvmmio.Slist.{slist_pop, slist_empty}
use libnvmmio.Allocator.{Flist, alloc_flist, fill_local_provider, put_local_collector}

-- The lists of one kind of object: two of the running thread, NULL before their first use, and
-- the one that the threads share.
pub record Pool : Type 0 where
  pub provider : Option Flist
  pub collector : Option Flist
  pub global : Flist

abbrev pub or_new : Option Flist → ℕ → Flist
or_new none skip_unit = alloc_flist skip_unit
or_new (some l) skip_unit = l

-- POP_PROVIDER
unfoldable pub pop_provider : Pool → Option (ℕ × Pool)
pop_provider p = do
  let provider = or_new p.provider 0
  (filled, global) ←
      (if slist_empty provider.list_head
        then fill_local_provider provider p.global
        else some (provider, p.global))
  (obj, rest) ← slist_pop filled.list_head
  some (obj, record p { provider = some (record filled { list_head = rest }); global = global })

-- PUSH_COLLECTOR
unfoldable pub push_collector : ℕ → Pool → Option Pool
push_collector obj p = do
  (collector, global) ← put_local_collector obj (or_new p.collector p.global.skip_unit) p.global
  some (record p { collector = some collector; global = global })
