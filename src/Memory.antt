-- ===== src/Memory.antt =====
-- Bytes at addresses, libc's `memcpy`, and the PMDK call that src/mmio.h names NTSTORE.
use libnvmmio.Prelude.{ℕ, ◌+◌, ◌-◌, ◌≤◌, ◌≡◌, ◌⊎◌, Bool, ◌&&◌, ltb, leb, if◌then◌else◌}

abbrev pub Mem : Type 0
Mem = ℕ → ℕ

-- The address `a` is one of the `n` from `dst` on.
abbrev pub within : ℕ → ℕ → ℕ → Bool
within dst n a = leb dst a && ltb a (dst + n)

-- Two ranges share no address.
abbrev pub Apart : ℕ → ℕ → ℕ → ℕ → Type 0
Apart a n b k = (a + n ≤ b) ⊎ (b + k ≤ a)

abbrev pub memcpy : Mem → ℕ → ℕ → ℕ → Mem
memcpy m dst src n a = if within dst n a then m (src + (a - dst)) else m a

-- PMDK: `pmem_memcpy_nodrain` copies between ranges that do not overlap. `pmem_drain` and
-- `pmem_flush` change no content, so the model has no call for them.
pub record Pmem : Type 0 where
  pub memcpy_nodrain : Mem → ℕ → ℕ → ℕ → Mem
  pub memcpy_nodrain_lem :
      (m : Mem) (dst src n a : ℕ)
      → Apart dst n src n
      → memcpy_nodrain m dst src n a ≡ memcpy m dst src n a

module _ (pmem : Pmem) where
  unfoldable pub ntstore : Mem → ℕ → ℕ → ℕ → Mem
  ntstore = pmem.memcpy_nodrain

  pub ntstore_lem :
      (m : Mem) (dst src n a : ℕ) → Apart dst n src n → ntstore m dst src n a ≡ memcpy m dst src n a
  unfolding ntstore
  ntstore_lem = pmem.memcpy_nodrain_lem
