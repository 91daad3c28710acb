-- ===== src/Radixlog/Bounds.antt =====
-- src/radixlog.h: sizes of log blocks, and how many of them a table covers.
use libnvmmio.Prelude.{ℕ, zero, suc, ◌+◌, ◌*◌, ◌%◌, ◌^◌, ◌≤◌, ◌<◌, ◌≡◌, refl, sym, ◌∙◌, arith}
use libnvmmio.Prelude.Words.{two_pow_pos}
use libnvmmio.Radixlog.{log_bytes, log_shift, log_base_of, log_offset_of}
use native.Mathlib.Nat.{add-suc, pow-suc, pow-le-pow_right, mod-add-mod, mod-eq_of_lt}

pub log_bytes_pos : (s : ℕ) → 0 < log_bytes s
unfolding log_bytes
log_bytes_pos s = two_pow_pos (log_shift s)

-- A block of any size is a piece of what one table covers, 2 MB.
pub log_bytes-le : (s : ℕ) → s ≤ 9 → log_bytes s ≤ 2 ^ 21
unfolding log_bytes
log_bytes-le s h = pow-le-pow_right {n = 2} (omega arith) {j = 21} (omega arith)

pub log_bytes-suc : (s : ℕ) → log_bytes (suc s) ≡ log_bytes s * 2
unfolding log_bytes
log_bytes-suc s = rw (add-suc, pow-suc)

pub log_bytes-units : (s : ℕ) → log_bytes s ≡ 2 ^ s * 2 ^ 12
unfolding log_bytes
log_bytes-units zero = refl
log_bytes-units (suc s) = omega (arith, log_bytes-suc s, log_bytes-units s, pow-suc 2 s)

mod_add : (k base o : ℕ) → base % k ≡ 0 → o < k → (base + o) % k ≡ o
mod_add k base o aligned lt = grind arith

-- The start of the block that holds `base + o`, where `base` is a multiple of the block size.
pub log_base_of-add :
    (s base o : ℕ) → base % log_bytes s ≡ 0 → o < log_bytes s → log_base_of (base + o) s ≡ base
log_base_of-add s base o aligned lt = omega (arith, mod_add (log_bytes s) base o aligned lt)

-- Moving on inside a block moves on the offset in the block.
pub log_offset_of-add :
    (s addr d : ℕ)
    → log_offset_of addr s + d < log_bytes s
    → log_offset_of (addr + d) s ≡ log_offset_of addr s + d
log_offset_of-add s addr d lt = sym (mod-add-mod addr (log_bytes s) d) ∙ mod-eq_of_lt lt
