-- ===== src/Mmio/Expend.antt =====
-- src/mmio.c: the mapping grows until a request fits.
pub mod Fits
use libnvmmio.Prelude.{
  ℕ, zero, suc, ◌+◌, ◌-◌, ◌*◌, ◌%◌, ◌^◌, Bool, Option, none, some, ◌>>=◌, ltb, leb, if◌then◌else◌,
}
use libnvmmio.Config.{basic_mmap_size}
use libnvmmio.Lock.{read_trylock, write_trylock, unlock}
use libnvmmio.Memory.{Mem}
use libnvmmio.Mmio.{Mmio}
use libnvmmio.Mmio.World.{World, set_mmio}

-- The kernel. `posix_fallocate fd len` tells whether it returned 0. `mremap` gives the new address
-- and the memory behind it, or `none` for MAP_FAILED.
pub record Kernel : Type 0 where
  pub posix_fallocate : (fd len : ℕ) → Bool
  pub mremap : Mem → (start old_len new_len : ℕ) → Option (ℕ × Mem)

unfoldable pub check_expend : Mmio → (offset len : ℕ) → Bool
check_expend mmio offset len = ltb mmio.end (mmio.start + offset + len)

unfoldable pub check_fsize : Mmio → (offset len : ℕ) → Bool
check_fsize mmio offset len = ltb mmio.fsize (offset + len)

abbrev pub grown_len : ℕ → ℕ
grown_len current_len =
    if leb basic_mmap_size current_len then current_len * 2 % 2 ^ 64 else basic_mmap_size

module _ (kernel : Kernel) where
  -- One round of the `while`.
  unfoldable pub grow_mapping : (fd : ℕ) → World → Option World
  grow_mapping fd w =
      let current_len = w.mmio.end - w.mmio.start in
      let new_len = grown_len current_len in
      let moved = (do
        (start, mem) ← kernel.mremap w.mem w.mmio.start current_len new_len
        some (record w {
          mmio = record w.mmio { start = start; end = start + new_len };
          mem = mem;
        })) in
      if kernel.posix_fallocate fd new_len then moved else none

  unfoldable pub expend_loop : (rounds fd offset len : ℕ) → World → Option World
  expend_loop zero fd offset len w = none
  expend_loop (suc rounds) fd offset len w =
      let step = (do w' ← grow_mapping fd w; expend_loop rounds fd offset len w') in
      if check_expend w.mmio offset len then step else some w

  -- A mapping of 64 MB or more doubles in each round, so 64 rounds pass any length up to 2^63.
  unfoldable pub expend_mmio : (fd offset len : ℕ) → World → Option World
  expend_mmio fd offset len w = do
    alone ← write_trylock (unlock w.mmio.rwlock)
    w' ← expend_loop 64 fd offset len (set_mmio (record w.mmio { rwlock = alone }) w)
    shared ← read_trylock (unlock w'.mmio.rwlock)
    some (set_mmio (record w'.mmio { rwlock = shared }) w')
