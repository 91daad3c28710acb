-- ===== src/Bravo/Hash.antt =====
-- src/bravo.c: the slot of a thread and a lock.
use Prim.Native.Nat.{bit_xor}
use libnvmmio.Prelude.{ℕ, ◌+◌, ◌-◌, ◌*◌, ◌/◌, ◌%◌, ◌^◌, ◌<◌, ltb, if◌then◌else◌, arith}

-- NR_ENTRIES of this file.
abbrev pub nr_slots : ℕ
nr_slots = 4096

-- `abs((int)a)`. The `abs` of the least `int` is undefined in C; here it is 2^31, a multiple of
-- the number of slots like the value that two's complement gives.
abbrev abs_int : ℕ → ℕ
abs_int a = let n = a % 2 ^ 32 in if ltb n (2 ^ 31) then n else 2 ^ 32 - n

unfoldable pub mix32 : ℕ → ℕ
mix32 z =
    let z1 = bit_xor z (z / 2 ^ 33) * 0xff51afd7ed558ccd % 2 ^ 64 in
    let z2 = bit_xor z1 (z1 / 2 ^ 33) * 0xc4ceb9fe1a85ec53 % 2 ^ 64 in abs_int (z2 / 2 ^ 32)

-- `self` is `pthread_self()`, as a number.
unfoldable pub bravo_hash : (self l : ℕ) → ℕ
bravo_hash self l = mix32 ((self + l) % 2 ^ 64) % nr_slots

pub bravo_hash-lt : (self l : ℕ) → bravo_hash self l < nr_slots
unfolding bravo_hash
bravo_hash-lt self l = omega arith
