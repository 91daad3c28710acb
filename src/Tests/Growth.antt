-- ===== src/Tests/Growth.antt =====
-- A mapping of 8 KB that has to grow to 100 MB: the theorem of Mmio.Expend.Fits at a concrete input.
use libnvmmio.Prelude.{some, true}
use libnvmmio.Lock.{held}
use libnvmmio.Mmio.World.{World}
use libnvmmio.Mmio.Expend.{Kernel}
use libnvmmio.Tests.Data.{redo_mmio, world}

-- A kernel that leaves every mapping where it is.
abbrev pub kernel : Kernel
kernel = record {
  posix_fallocate = λ fd len. true;
  mremap = λ mem start old_len new_len. some (start, mem);
}

abbrev small_world : World
small_world = record world { mmio = record redo_mmio { rwlock = held 1 } }
