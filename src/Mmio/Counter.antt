-- ===== src/Mmio/Counter.antt =====
-- src/mmio.c: `increase_counter`, which threads run at once, one access to the counter at a time.
use libnvmmio.Prelude.{
  ℕ, suc, ◌+◌, ◌%◌, ◌^◌, ◌≤◌, ◌<◌, ◌≡◌, ◌≢◌, refl, sym, inl, inr, arith, update, update_self,
  update_ne, equal_or_not,
}
use mathlib.Core.Path.{subst}

-- Where a thread is: at the start of the loop, or with `old`, or with `old` and `new`.
pub data Progress : Type 0 where
  at_start : Progress
  has_old : (old : ℕ) → Progress
  has_both : (old new : ℕ) → Progress

-- The counter, the threads, and how many calls have returned.
pub record Counter : Type 0 where
  pub cnt : ℕ
  pub pcs : ℕ → Progress
  pub calls : ℕ

-- `old = *cnt`, `new = *cnt + 1`, and the compare-and-swap with either outcome.
pub data Access : Counter → Counter → Type 0 where
  read_old :
      {s : Counter} (t : ℕ)
      → s.pcs t ≡ at_start
      → Access s (record s { pcs = update s.pcs t (has_old s.cnt) })
  read_new :
      {s : Counter} (t old : ℕ)
      → s.pcs t ≡ has_old old
      → Access s (record s { pcs = update s.pcs t (has_both old ((s.cnt + 1) % 2 ^ 64)) })
  swap :
      {s : Counter} (t old new : ℕ)
      → s.pcs t ≡ has_both old new
      → s.cnt ≡ old
      → Access s (record { cnt = new; pcs = update s.pcs t at_start; calls = suc s.calls })
  retry :
      {s : Counter} (t old new : ℕ)
      → s.pcs t ≡ has_both old new
      → s.cnt ≢ old
      → Access s (record s { pcs = update s.pcs t at_start })

pub data Accesses : Counter → Counter → Type 0 where
  stay : {s : Counter} → Accesses s s
  then : {s s' s'' : Counter} → Accesses s s' → Access s' s'' → Accesses s s''

-- What a thread knows of the counter: it was `old` and, later on, one less than `new`.
abbrev Knows : ℕ → Progress → Type 0
Knows cnt at_start = Unit {0}
Knows cnt (has_old old) = old ≤ cnt
Knows cnt (has_both old new) = (c : ℕ) × (new ≡ (c + 1) % 2 ^ 64) × (old ≤ c) × (c ≤ cnt)

Knows-later : (cnt cnt' : ℕ) (pc : Progress) → cnt ≤ cnt' → Knows cnt pc → Knows cnt' pc
Knows-later cnt cnt' at_start le k = tt
Knows-later cnt cnt' (has_old old) le k = omega (arith, le, k)
Knows-later cnt cnt' (has_both old new) le (c, e, lo, hi) = (c, e, lo, omega (arith, le, hi))

record Counts (start : ℕ) (s : Counter) : Type 0 where
  total : s.cnt ≡ start + s.calls
  knows : (t : ℕ) → Knows s.cnt (s.pcs t)

-- One thread goes on, and the counter does not fall.
moved :
    (pcs : ℕ → Progress) (t : ℕ) (pc : Progress) (cnt cnt' : ℕ)
    → cnt ≤ cnt'
    → Knows cnt' pc
    → ((u : ℕ) → Knows cnt (pcs u))
    → (u : ℕ) → Knows cnt' (update pcs t pc u)
moved pcs t pc cnt cnt' le here all u = elim (equal_or_not t u) [
  | inl same ↦
      subst (λ v. Knows cnt' (update pcs t pc v)) same
        (subst (Knows cnt') (sym (update_self pcs t pc)) here)
  | inr ne ↦
      subst (Knows cnt') (sym (update_ne pcs t u pc ne)) (Knows-later cnt cnt' (pcs u) le (all u))
]

Access-calls : {s s' : Counter} → Access s s' → s.calls ≤ s'.calls
Access-calls (read_old t e) = omega arith
Access-calls (read_new t old e) = omega arith
Access-calls (swap t old new e same) = omega arith
Access-calls (retry t old new e differ) = omega arith

Access-Counts :
    (start : ℕ) {s s' : Counter}
    → start + s'.calls < 2 ^ 64
    → Access s s'
    → Counts start s
    → Counts start s'
Access-Counts start {s = s} small (read_old t e) k = record {
  total = k.total;
  knows = moved s.pcs t (has_old s.cnt) s.cnt s.cnt (omega arith) (omega arith) k.knows;
}
Access-Counts start {s = s} small (read_new t old e) k = record {
  total = k.total;
  knows =
      moved s.pcs t (has_both old ((s.cnt + 1) % 2 ^ 64)) s.cnt s.cnt (omega arith)
        (s.cnt, refl, subst (Knows s.cnt) e (k.knows t), omega arith) k.knows;
}
Access-Counts start {s = s} small (swap t old new e same) k =
    let (c, e_new, lo, hi) = subst (Knows s.cnt) e (k.knows t) in
    let total : new ≡ start + suc s.calls = omega (arith, e_new, lo, hi, same, k.total, small) in
    record {
      total = total;
      knows = moved s.pcs t at_start s.cnt new (omega (arith, total, k.total)) tt k.knows;
    }
Access-Counts start {s = s} small (retry t old new e differ) k = record {
  total = k.total;
  knows = moved s.pcs t at_start s.cnt s.cnt (omega arith) tt k.knows;
}

Accesses-Counts :
    (s s' : Counter)
    → ((t : ℕ) → s.pcs t ≡ at_start)
    → s.calls ≡ 0
    → s.cnt + s'.calls < 2 ^ 64
    → Accesses s s'
    → Counts s.cnt s'
Accesses-Counts s _ fresh none_yet small stay = record {
  total = omega (arith, none_yet);
  knows = λ t. subst (Knows s.cnt) (sym (fresh t)) tt;
}
Accesses-Counts s _ fresh none_yet small (then {s' = s1} moves move) =
    Access-Counts s.cnt small move
      (Accesses-Counts s s1 fresh none_yet (omega (arith, small, Access-calls move)) moves)

-- From a counter that no thread is at, any accesses of any threads, with less than 2^64 in all: the
-- counter has gone up by one for each call that returned, so no call is lost and none counts twice.
pub Accesses-counted :
    (s s' : Counter)
    → ((t : ℕ) → s.pcs t ≡ at_start)
    → s.calls ≡ 0
    → s.cnt + s'.calls < 2 ^ 64
    → Accesses s s'
    → s'.cnt ≡ s.cnt + s'.calls
Accesses-counted s s' fresh none_yet small moves =
    (Accesses-Counts s s' fresh none_yet small moves).total
