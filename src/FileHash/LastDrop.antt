-- ===== src/FileHash/LastDrop.antt =====
-- src/file_hash.c: the mapping that loses its last holder, and the release_mmio of src/allocator.c.
use libnvmmio.Prelude.{
  ℕ, ◌+◌, ◌-◌, ◌%◌, ◌<◌, ◌≡◌, ◌≢◌, refl, sym, inl, inr, true, some, List, arith, ◌∙◌, ap,
  Bool-cases, update, update_self, ltb, leb,
}
use mathlib.Core.Path.{subst}
use libnvmmio.Lock.{unlocked, held, read_trylock, write_trylock}
use libnvmmio.Memory.{Pmem}
use libnvmmio.Allocator.Pool.{Pool, push_collector}
use libnvmmio.Allocator.Conserve.{stock, one_if, push_collector-stock}
use libnvmmio.Allocator.Supply.{WellFormed}
use libnvmmio.Allocator.Accept.{push_collector-WellFormed}
use libnvmmio.Radixlog.{nr_entries}
use libnvmmio.Mmio.{Mmio}
use libnvmmio.Mmio.World.{World, set_mmio}
use libnvmmio.Mmio.Checkpoint.{checkpoint_mmio}
use libnvmmio.Mmio.Checkpoint.Blocks.{Key, reads}
use libnvmmio.Mmio.Checkpoint.Levels.{Levels}
use libnvmmio.Mmio.Checkpoint.Slots.{Sound}
use libnvmmio.Mmio.Checkpoint.Emptied.{Idle}
use libnvmmio.Mmio.Checkpoint.Pass.{Found, set_mmio-Step}
use libnvmmio.Mmio.Checkpoint.Whole.{checkpoint_mmio-Checkpointed}
use libnvmmio.FileHash.Delete.{
  Closing, Process, world_of, put_world, put_mmio, list_del, init_mmio, release_mmio, close_node,
  drop_ref,
}

-- What a release needs of a mapping: no holder of its lock, and calls of the system that succeed.
pub record Releasable (closing : Closing) (fd : ℕ) (m : Mmio) : Type 0 where
  pub free : m.rwlock ≡ unlocked
  pub unmaps : closing.munmap m.start (m.end - m.start) ≡ true
  pub truncates : closing.ftruncate fd m.fsize ≡ true

release_mmio_lem :
    (closing : Closing) (p flags fd : ℕ) (s : Process) {pool : Pool}
    → Releasable closing fd (s.files.mmios p)
    → push_collector p s.mmio_pool ≡ some pool
    → release_mmio closing p flags fd s
      ≡ some (put_mmio p (init_mmio (s.files.mmios p)) (record s { mmio_pool = pool }))
unfolding release_mmio write_trylock
release_mmio_lem closing p flags fd s ok pushed = elim (Bool-cases (ltb 0 (flags % 4))) [
  | inl writes ↦ rw (ok.unmaps, writes, ok.truncates, ok.free, pushed) refl
  | inr reads ↦ rw (ok.unmaps, reads, ok.free, pushed) refl
]

module _ (home len : Key → ℕ) (pmem : Pmem) (closing : Closing) (p flags fd : ℕ) (s : Process) where
  -- What the last close leaves of the memory, the mappings and the free ones.
  pub record LastDropped (s' : Process) : Type 0 where
    pub others : (q : ℕ) → p ≢ q → s'.files.mmios q ≡ s.files.mmios q
    pub pool_ok : WellFormed s'.mmio_pool
    pub given_back : (x : ℕ) → stock s'.mmio_pool x ≡ stock s.mmio_pool x + one_if p x
    pub in_file :
        (x t j o : ℕ)
        → x < (s.files.mmios p).end - (s.files.mmios p).start
        → Found (world_of p s) x t
        → j < nr_entries (s.tables.tables t).log_size
        → Idle home len pmem (s.files.mmios p).epoch (world_of p s) (t, j)
        → o < len (t, j)
        → s'.mem (home (t, j) + o) ≡ reads home len (world_of p s) (t, j) o

  module _ (index : ℕ) (sound : Sound home len (world_of p s))
      (levels : Levels (s.files.mmios p).radixlog s.tables.tables)
      (ok : Releasable closing fd (s.files.mmios p)) (last : (s.files.mmios p).ref ≡ 1)
      (pool_ok : WellFormed s.mmio_pool) (out : stock s.mmio_pool p ≡ 0) where
    abbrev unheld : Mmio
    unheld = record (s.files.mmios p) { ref = (s.files.mmios p).ref - 1 }

    -- The world of the checkpoint.
    abbrev closing_world : World
    closing_world = set_mmio unheld (world_of p s)

    same_world : world_of p (put_mmio p unheld s) ≡ closing_world
    same_world = ap (λ m. set_mmio m (world_of p s)) (update_self s.files.mmios p unheld)

    lockable : read_trylock unheld.rwlock ≡ some (held 1)
    unfolding read_trylock
    lockable = rw ok.free refl

    abbrev heads : ℕ → List ℕ
    heads = update s.files.file_hash index (list_del p (s.files.file_hash index))

    pub drop_ref-LastDropped :
        (s' : Process) × (drop_ref pmem closing index p flags fd s ≡ some s')
        × (s'.files.file_hash ≡ heads)
        × LastDropped s'
    unfolding drop_ref close_node reads
    drop_ref-LastDropped =
        let step = set_mmio-Step home len unheld (world_of p s) sound in
        let (w', e, flushed) =
          checkpoint_mmio-Checkpointed home len pmem closing_world (held 1) step.sound levels
            lockable in
        let (pool, pushed, pool_ok') = push_collector-WellFormed s.mmio_pool p pool_ok out in
        let dropped = put_mmio p unheld s in
        let after = put_world p w' dropped in
        let unlinked = record after { files = record after.files { file_hash = heads } } in
        let here : unlinked.files.mmios p ≡ unheld =
          update_self dropped.files.mmios p w'.mmio ∙ flushed.same_mmio in
        let ok' =
          subst (Releasable closing fd) (sym here)
            (record { free = ok.free; unmaps = ok.unmaps; truncates = ok.truncates }) in
        let drops : leb ((s.files.mmios p).ref - 1) 0 ≡ true = ground (arith, last) in
        (
          put_mmio p (init_mmio (unlinked.files.mmios p)) (record unlinked { mmio_pool = pool }),
          rw (drops, ap (checkpoint_mmio pmem) same_world ∙ e)
              (release_mmio_lem closing p flags fd unlinked ok' pushed),
          refl,
          record {
            others = λ q ne. ground (arith, ne);
            pool_ok = pool_ok';
            given_back = λ x. push_collector-stock s.mmio_pool p x pushed;
            in_file = flushed.in_file;
          },
        )
