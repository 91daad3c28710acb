-- ===== src/Radixlog/Size.antt =====
-- src/radixlog.c: `set_log_size` picks the block size of a table from the first request to it.
use libnvmmio.Prelude.{
  ℕ, zero, suc, ◌+◌, ◌-◌, ◌*◌, ◌/◌, ◌%◌, ◌^◌, ◌≤◌, ◌<◌, ◌≡◌, ◌⊎◌, refl, ap, ◌&&◌, arith, ltb,
  if◌then◌else◌,
}
use libnvmmio.Prelude.Words.{sub64}
use libnvmmio.Config.{log_4k, nr_log_sizes}
use libnvmmio.Radixlog.{log_bytes, log_shift}
use libnvmmio.Radixlog.Bounds.{log_bytes-units}
use libnvmmio.Prelude.Words.{two_pow_pos}
use native.Mathlib.Nat.{pow-suc, div-div-eq-div-mul}
use native.Mathlib.Numerals.{add-one}

-- `while (len && log_size < max_log_size)`, in at most `rounds` rounds. A round halves `len` and
-- adds one to `log_size`, which stops at 9: nine rounds are enough.
unfoldable pub grow : (rounds len s : ℕ) → ℕ
grow zero len s = s
grow (suc rounds) len s =
    let bigger = grow rounds (len / 2) (s + 1) in
    if ltb 0 len && ltb s (nr_log_sizes - 1) then bigger else s

unfoldable pub set_log_size : (offset len : ℕ) → ℕ
set_log_size offset len =
    let len' = (len + offset % log_bytes log_4k) % 2 ^ 64 in
    grow 9 (sub64 len' 1 / 2 ^ log_shift log_4k) log_4k

halve : (units s : ℕ) → units / 2 ^ s / 2 ≡ units / 2 ^ (s + 1)
halve units s = rw (add-one, pow-suc, div-div-eq-div-mul)

double : (s : ℕ) → 2 ^ (s + 1) ≡ 2 ^ s + 2 ^ s
double s = rw (add-one, pow-suc) (omega arith)

quotient_pos : (u p : ℕ) → 0 < p → ((0 < u / p) → p ≤ u) × ((u / p ≡ 0) → u < p)
quotient_pos u p h = grind arith

-- The loop from `s` on, with `rounds` to go, ends at the first size that covers `units`, or at 9.
grow-bounds :
    (rounds s units r : ℕ)
    → rounds + s ≡ 9
    → grow rounds (units / 2 ^ s) s ≡ r
    → (r ≤ 9) × ((r ≡ 9) ⊎ (units < 2 ^ r)) × ((r ≡ s) ⊎ (2 ^ r ≤ 2 * units))
unfolding grow
grow-bounds zero s units r h e = ground arith
grow-bounds (suc rounds) s units r h e = ground (
  arith,
  quotient_pos units (2 ^ s) (two_pow_pos s),
  double s,
  halve units s,
  grow-bounds rounds (s + 1) units r,
)

-- The size that is set holds the request from its first 4 KB page on, unless it is the largest, and
-- no smaller size does. The sum must not overflow 64 bits.
pub set_log_size-covers :
    (offset len : ℕ)
    → 0 < len
    → offset % 2 ^ 12 + len < 2 ^ 64
    → (set_log_size offset len ≤ 9)
      × ((set_log_size offset len ≡ 9)
          ⊎ (offset % 2 ^ 12 + len ≤ log_bytes (set_log_size offset len)))
      × ((set_log_size offset len ≡ 0)
          ⊎ (log_bytes (set_log_size offset len) < 2 * (offset % 2 ^ 12 + len)))
unfolding set_log_size log_bytes
set_log_size-covers offset len pos fits = ground (
  arith,
  log_bytes-units (set_log_size offset len),
  grow-bounds 9 0 units (set_log_size offset len) refl (ap (λ k. grow 9 k 0) counted),
)
  where
    units : ℕ
    units = (offset % 2 ^ 12 + len - 1) / 2 ^ 12

    counted :
        units / 2 ^ 0 ≡ sub64 ((len + offset % log_bytes log_4k) % 2 ^ 64) 1 / 2 ^ log_shift log_4k
    counted = omega (arith, log_bytes-units 0)

-- The size is one of the ten, whatever the request.
pub set_log_size-le : (offset len : ℕ) → set_log_size offset len ≤ 9
unfolding set_log_size
set_log_size-le offset len =
    (grow-bounds 9 0 units (grow 9 units 0) refl (ap (λ k. grow 9 k 0) whole)).0
  where
    units : ℕ
    units = sub64 ((len + offset % log_bytes log_4k) % 2 ^ 64) 1 / 2 ^ log_shift log_4k

    whole : units / 2 ^ 0 ≡ units
    whole = omega arith
