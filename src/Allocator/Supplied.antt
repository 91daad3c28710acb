-- ===== src/Allocator/Supplied.antt =====
-- src/allocator.c: the objects that threads take from the lists of init_allocator.
use libnvmmio.Prelude.{
  ℕ, ◌+◌, ◌*◌, ◌≤◌, ◌<◌, ◌≡◌, ◌≢◌, refl, inl, inr, some, List, length, arith, ap,
}
use mathlib.Core.Logic.{◌⊎◌}
use mathlib.Core.Path.{subst, subst₂, sym, ◌∙◌}
use native.Mathlib.Nat.{mul-le-mul_right, zero-mod, zero-add}
use libnvmmio.Config.{nr_node_fill}
use libnvmmio.Memory.{Apart}
use libnvmmio.Slist.{slist_empty}
use libnvmmio.Allocator.{Flist, alloc_flist}
use libnvmmio.Allocator.Pool.{Pool}
use libnvmmio.Allocator.Conserve.{count, stock}
use libnvmmio.Allocator.Units.{empty}
use libnvmmio.Allocator.Supply.{WellFormed, Collects}
use libnvmmio.Allocator.Take.{take, left, Taken, take-Taken}
use libnvmmio.Allocator.Setup.{
  create_loop, create_global_list, fresh_pool, create_global_log_list, log_count, Areas,
}
use libnvmmio.Radixlog.{log_bytes}
use libnvmmio.Radixlog.Bounds.{log_bytes_pos}
use libnvmmio.Allocator.Stocked.{Made, create_loop-Made}

compare-cases : (j k : ℕ) → (j ≡ k) ⊎ ((j < k) ⊎ (k < j))
compare-cases j k = ground arith

stock-fresh_pool : (g : Flist) (x : ℕ) → stock (fresh_pool g) x ≡ count x g.list_head
unfolding stock fresh_pool alloc_flist count
stock-fresh_pool g x = omega arith

left-fresh_pool : (g : Flist) → left (fresh_pool g) ≡ length g.list_head
unfolding left fresh_pool alloc_flist
left-fresh_pool g = omega arith

new-Collects : (unit : ℕ) → Collects (alloc_flist unit)
unfolding alloc_flist slist_empty
new-Collects unit = record {
  units = empty;
  counted = refl;
  open_unit = λ h. ground (arith, h, zero-mod unit);
}

module _ (addr size : ℕ) (pos : 0 < size) where
  -- What a thread that takes `n` objects of `count` has.
  pub record Supplied (count_ n : ℕ) (ts : List ℕ) : Type 0 where
    pub number : length ts ≡ n
    pub once : (x : ℕ) → count x ts ≤ 1
    pub inside : (x : ℕ) → 0 < count x ts → (addr ≤ x) × (x + size ≤ addr + count_ * size)
    pub apart : (x y : ℕ) → 0 < count x ts → 0 < count y ts → x ≢ y → Apart x size y size

  object-inside : (j n : ℕ) → j < n → addr + j * size + size ≤ addr + n * size
  object-inside j n lt = omega (arith, mul-le-mul_right size lt)

  objects-Apart :
      (j k : ℕ)
      → addr + j * size ≢ addr + k * size
      → Apart (addr + j * size) size (addr + k * size) size
  objects-Apart j k differ = elim (compare-cases j k) [
    | inl same ↦ absurd (differ (ap (λ i. addr + i * size) same))
    | inr (inl lt) ↦ inl (omega (arith, mul-le-mul_right size lt))
    | inr (inr gt) ↦ inr (omega (arith, mul-le-mul_right size gt))
  ]

  made-WellFormed : (n : ℕ) (g : Flist) → Made addr size pos n g → WellFormed (fresh_pool g)
  unfolding fresh_pool
  made-WellFormed n g made = record {
    units = made.units;
    collects = new-Collects g.skip_unit;
    once = λ x. omega (arith, stock-fresh_pool g x, made.once x);
  }

  Taken-Supplied :
      {ts : List ℕ} {p' : Pool} (n m : ℕ) (g : Flist)
      → Made addr size pos n g
      → Taken m (fresh_pool g) ts p'
      → Supplied n m ts
  Taken-Supplied {ts} n m g made taken =
      let object : (x : ℕ) → 0 < count x ts → (j : ℕ) × (j < n) × (x ≡ addr + j * size) =
        λ x some_there.
          made.objects x (omega (arith, taken.from_stock x, stock-fresh_pool g x, some_there)) in
      record {
        number = taken.number;
        once = λ x. omega (arith, taken.from_stock x, stock-fresh_pool g x, made.once x);
        inside = λ x some_there.
            let (j, lt, e) = object x some_there in
            (omega (arith, e), omega (arith, e, object-inside j n lt));
        apart = λ x y here there differ.
            let (j, lt, e) = object x here in
            let (k, lt', e') = object y there in
            subst₂ (λ a b. Apart a size b size) (sym e) (sym e')
              (objects-Apart j k (λ same. differ (e ∙ same ∙ sym e')));
      }

  new-Made : (unit : ℕ) → Made addr size pos 0 (alloc_flist unit)
  unfolding alloc_flist count
  new-Made unit = record {
    units = empty;
    open_unit = (new-Collects unit).open_unit;
    number = refl;
    once = λ x. omega arith;
    objects = λ x none_there. absurd (omega (arith, none_there));
  }

  pub create_global_list-WellFormed {ℓ} :
      {S : Type ℓ} (init_obj : ℕ → S → S) (n unit : ℕ) (s : S)
      → WellFormed (fresh_pool (create_global_list addr size init_obj n (alloc_flist unit, s)).0)
  unfolding create_global_list
  create_global_list-WellFormed init_obj n unit s =
      made-WellFormed (0 + n) (create_loop addr size init_obj n 0 (alloc_flist unit, s)).0
        (create_loop-Made addr size pos init_obj n 0 (alloc_flist unit) s (new-Made unit))

  -- From the list that create_global_list makes of `n` objects, a thread takes up to `n`.
  pub take-create_global_list {ℓ} :
      {S : Type ℓ} (init_obj : ℕ → S → S) (n m unit : ℕ) (s : S)
      → m ≤ n
      → let p = fresh_pool (create_global_list addr size init_obj n (alloc_flist unit, s)).0 in
        (ts : List ℕ) × (p' : Pool) × (take m p ≡ some (ts, p')) × Supplied n m ts × WellFormed p'
  unfolding create_global_list
  take-create_global_list init_obj n m unit s le =
      let g = (create_loop addr size init_obj n 0 (alloc_flist unit, s)).0 in
      let made =
        subst (λ k. Made addr size pos k g) (zero-add n)
          (create_loop-Made addr size pos init_obj n 0 (alloc_flist unit) s (new-Made unit)) in
      let (ts, p', e, taken) =
        take-Taken m (fresh_pool g) (made-WellFormed n g made)
          (omega (arith, left-fresh_pool g, made.number, le)) in
      (ts, p', e, Taken-Supplied n m g made taken, taken.well_formed)

-- A thread that takes up to `log_count i` log blocks of size `i`, with none given back, gets them
-- all: inside of the log file, no two of them overlapping.
pub take-create_global_log_list :
    (areas : Areas) (i m : ℕ)
    → m ≤ log_count i
    → (ts : List ℕ) × (p' : Pool) × (take m (create_global_log_list areas i) ≡ some (ts, p'))
      × Supplied (areas.logs_at i) (log_bytes i) (log_bytes_pos i) (log_count i) m ts
      × WellFormed p'
unfolding create_global_log_list
take-create_global_log_list areas i m le =
    take-create_global_list (areas.logs_at i) (log_bytes i) (log_bytes_pos i) (λ obj s. s)
      (log_count i) m nr_node_fill (tt {0}) le
