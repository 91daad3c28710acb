-- ===== src/FileHash/Delete.antt =====
-- src/file_hash.c: `delete_mmio_hash`, and the `release_mmio` of src/allocator.c that it ends in.
use libnvmmio.Prelude.{
  ℕ, ◌-◌, ◌%◌, Option, none, some, ◌>>=◌, List, [], ◌∷◌, Bool, ◌==◌, leb, ltb, if◌then◌else◌,
  update,
}
use libnvmmio.Lock.{unlocked, write_trylock}
use libnvmmio.Memory.{Mem, Pmem}
use libnvmmio.Allocator.Pool.{Pool, push_collector}
use libnvmmio.Radixlog.{undo}
use libnvmmio.Radixlog.Walk.{TableHeap}
use libnvmmio.Radixlog.Entries.{EntryHeap}
use libnvmmio.Mmio.{Mmio}
use libnvmmio.Mmio.World.{World}
use libnvmmio.Mmio.Checkpoint.{checkpoint_mmio}
use libnvmmio.FileHash.{Files, get_hash_index}

-- Whether `munmap` and `ftruncate` succeed.
pub record Closing : Type 0 where
  pub munmap : (addr len : ℕ) → Bool
  pub ftruncate : (fd len : ℕ) → Bool

-- All mappings, and what their handlers share.
pub record Process : Type 0 where
  pub files : Files
  pub mem : Mem
  pub tables : TableHeap
  pub heap : EntryHeap
  pub mmio_pool : Pool

abbrev pub world_of : ℕ → Process → World
world_of p s = record { mmio = s.files.mmios p; mem = s.mem; tables = s.tables; heap = s.heap }

abbrev pub put_mmio : ℕ → Mmio → Process → Process
put_mmio p m s = record s { files = record s.files { mmios = update s.files.mmios p m } }

abbrev pub put_world : ℕ → World → Process → Process
put_world p w s = put_mmio p w.mmio (record s { mem = w.mem; tables = w.tables; heap = w.heap })

-- `list_del` of the node that carries `p`: it is in the list once.
unfoldable pub list_del : (p : ℕ) → List ℕ → List ℕ
list_del p [] = []
list_del p (q ∷ qs) = let rest = list_del p qs in if p == q then qs else q ∷ rest

-- The epoch, the count and the kept table stay. DEFAULT_POLICY is UNDO.
unfoldable pub init_mmio : Mmio → Mmio
init_mmio m = record m {
  rwlock = unlocked;
  start = 0;
  end = 0;
  ino = 0;
  offset = 0;
  policy = undo;
  radixlog = record m.radixlog { lgd = none; skip = none };
  read = 0;
  write = 0;
  fsize = 0;
}

-- A failed call ends the program. `bravo_rwlock_destroy` waits for the writer lock.
unfoldable pub release_mmio : Closing → (p flags fd : ℕ) → Process → Option Process
release_mmio closing p flags fd s = do
  let m = s.files.mmios p
  unmapped ← (if closing.munmap m.start (m.end - m.start) then some s else none)
  resized ←
      (if ltb 0 (flags % 4)
        then if closing.ftruncate fd m.fsize then some unmapped else none
        else some unmapped)
  l ← write_trylock m.rwlock
  mmio_pool ← push_collector p resized.mmio_pool
  some (put_mmio p (init_mmio m) (record resized { mmio_pool = mmio_pool }))

module _ (pmem : Pmem) (closing : Closing) where
  -- What is done with the mapping that loses its last holder.
  unfoldable pub close_node : (index p flags fd : ℕ) → Process → Option Process
  close_node index p flags fd s = do
    w ← checkpoint_mmio pmem (world_of p s)
    let flushed = put_world p w s
    let heads = update flushed.files.file_hash index (list_del p (flushed.files.file_hash index))
    release_mmio closing p flags fd
        (record flushed { files = record flushed.files { file_hash = heads } })

  -- One round of the loop, for a node of the inode. A count is at least 1 here, so that taking 1
  -- off does not go below 0.
  unfoldable pub drop_ref : (index p flags fd : ℕ) → Process → Option Process
  drop_ref index p flags fd s =
      let m = s.files.mmios p in
      let dropped = put_mmio p (record m { ref = m.ref - 1 }) s in
      if leb (m.ref - 1) 0 then close_node index p flags fd dropped else some dropped

  -- The loop over the nodes. `tmp` holds the next node, so a node that is deleted does no harm.
  unfoldable pub delete_loop : (ino index flags fd : ℕ) → List ℕ → Process → Option Process
  delete_loop ino index flags fd [] s = some s
  delete_loop ino index flags fd (p ∷ ps) s = do
    s' ← (if ino == (s.files.mmios p).ino then drop_ref index p flags fd s else some s)
    delete_loop ino index flags fd ps s'

  unfoldable pub delete_mmio_hash : (fd ino flags : ℕ) → Process → Option Process
  delete_mmio_hash fd ino flags s =
      let index = get_hash_index ino in delete_loop ino index flags fd (s.files.file_hash index) s
