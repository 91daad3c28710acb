-- ===== src/Radixlog/Blocks.antt =====
-- src/radixlog.h: the offsets of one block have one place in the index.
use libnvmmio.Prelude.{
  ℕ, zero, suc, ◌+◌, ◌*◌, ◌-◌, ◌/◌, ◌%◌, ◌^◌, ◌≤◌, ◌<◌, ◌≡◌, sym, ◌∙◌, ap, arith,
}
use native.Mathlib.Nat.{
  div-eq_of_lt-le, div-add-mod', add-mul, div-div-eq-div-mul, add-suc, add-zero, pow-suc, mul_assoc,
}
use libnvmmio.Radixlog.{
  log_bytes, log_shift, lmd_shift, log_offset_of, nr_entries, table_index, table_span,
}
use libnvmmio.Radixlog.Cache.{piece}

pow-add : (a b : ℕ) → 2 ^ (a + b) ≡ 2 ^ a * 2 ^ b
pow-add a zero = rw (add-zero) (omega arith)
pow-add a (suc b) =
    rw (add-suc) (simp (pow-suc) (omega (arith, pow-add a b, mul_assoc (2 ^ a) (2 ^ b) 2)))

-- A table covers 2 MB, whatever the size of its blocks.
pub log_bytes-nr_entries : (s : ℕ) → s ≤ 9 → log_bytes s * nr_entries s ≡ 2 ^ 21
unfolding log_bytes nr_entries
log_bytes-nr_entries s h =
    sym (pow-add (log_shift s) ((lmd_shift + 2 ^ 6 - log_shift s) % 2 ^ 6))
    ∙ ap (λ n. 2 ^ n) {y = 21} (omega (arith, h))

block_number :
    (s off d : ℕ)
    → log_offset_of off s + d < log_bytes s
    → (off + d) / log_bytes s ≡ off / log_bytes s
block_number s off d lt =
    div-eq_of_lt-le (log_bytes s) (omega (arith, div-add-mod' off (log_bytes s)))
      (omega (arith, div-add-mod' off (log_bytes s), add-mul (off / log_bytes s) 1 (log_bytes s)))

pub table_index-add :
    (s off d : ℕ)
    → log_offset_of off s + d < log_bytes s
    → table_index s (off + d) ≡ table_index s off
table_index-add s off d lt = ap (λ n. n % nr_entries s) (block_number s off d lt)

-- A block lies in one table.
pub piece-add :
    (s off d : ℕ) → s ≤ 9 → log_offset_of off s + d < log_bytes s → piece (off + d) ≡ piece off
piece-add s off d h lt =
    ap (λ n. n % table_span)
      (whole (off + d) ∙ ap (λ n. n / nr_entries s) (block_number s off d lt) ∙ sym (whole off))
  where
    whole : (x : ℕ) → x / 2 ^ 21 ≡ x / log_bytes s / nr_entries s
    whole x =
        ap (λ n. x / n) (sym (log_bytes-nr_entries s h))
        ∙ sym (div-div-eq-div-mul x (log_bytes s) (nr_entries s))
