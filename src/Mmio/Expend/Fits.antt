-- ===== src/Mmio/Expend/Fits.antt =====
-- src/mmio.c: the rounds of `expend_mmio`, and the mapping after them.
use libnvmmio.Prelude.{ℕ, ◌^◌, ◌≡◌, true, some, leb, if◌then◌else◌}
use libnvmmio.Memory.{Mem}
use libnvmmio.Mmio.World.{World}
use libnvmmio.Mmio.Expend.{Kernel}

-- A kernel that has room: both calls succeed.
pub record HasRoom (kernel : Kernel) : Type 0 where
  pub allocates : (fd len : ℕ) → kernel.posix_fallocate fd len ≡ true
  pub remaps :
      (mem : Mem) (start old_len new_len : ℕ)
      → (r : ℕ × Mem) × (kernel.mremap mem start old_len new_len ≡ some r)

-- A length from which `rounds` doublings give the length after as many rounds.
abbrev least : ℕ → ℕ
least len = if leb (2 ^ 26) len then len else 2 ^ 25
