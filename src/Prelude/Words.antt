-- ===== src/Prelude/Words.antt =====
-- Machine words as native numbers: `unsigned long` and `size_t` have 64 bits, `int` has 32.
use Prim.Native.Nat.{ℕ, ◌+◌, ◌-◌, ◌%◌, ◌^◌, ◌<◌}
use mathlib.Core.Bool.{Bool, ◌&&◌}
use native.Mathlib.Omega.{arith}
use native.Mathlib.Nat.{one-le-pow}
use libnvmmio.Prelude.Tests.{ltb, if◌then◌else◌}

-- `a - b` on `unsigned long`.
abbrev pub sub64 : ℕ → ℕ → ℕ
sub64 a b = (a + 2 ^ 64 - b % 2 ^ 64) % 2 ^ 64

-- `(int)a`, as a bit pattern of 32 bits.
abbrev pub to_int : ℕ → ℕ
to_int a = a % 2 ^ 32

-- `n > 0` on the pattern of an `int`.
abbrev pub int_positive : ℕ → Bool
int_positive n = ltb 0 n && ltb n (2 ^ 31)

-- `(unsigned long)n` of the pattern of an `int`: the sign is extended.
abbrev pub sign_extend : ℕ → ℕ
sign_extend n = if ltb n (2 ^ 31) then n else n + (2 ^ 64 - 2 ^ 32)

-- `n -= k` on the pattern of an `int`.
abbrev pub int_sub : ℕ → ℕ → ℕ
int_sub n k = (n + 2 ^ 32 - k % 2 ^ 32) % 2 ^ 32

pub two_pow_pos : (k : ℕ) → 0 < 2 ^ k
two_pow_pos k = one-le-pow k 2 (omega arith)
