-- ===== src/Allocator/Stocked.antt =====
-- src/allocator.c: what create_global_list makes.
use libnvmmio.Prelude.{
  ℕ, zero, suc, ◌+◌, ◌*◌, ◌%◌, ◌≤◌, ◌<◌, ◌≡◌, ◌≢◌, refl, inl, inr, false, Bool-cases, ◌∷◌, ◌==◌,
  length, arith,
}
use mathlib.Core.Path.{subst, sym}
use mathlib.Core.Logic.{◌⊎◌}
use native.Mathlib.Nat.{mul-le-mul_right}
use libnvmmio.Slist.{slist_push, slist_empty}
use libnvmmio.Allocator.{Flist, put_global}
use libnvmmio.Allocator.Conserve.{count}
use libnvmmio.Allocator.Units.{Units, closing, inner}
use libnvmmio.Allocator.Accept.{open_skip}
use libnvmmio.Allocator.Setup.{create_loop}

zero_or_pos : (n : ℕ) → (n ≡ 0) ⊎ (0 < n)
zero_or_pos zero = inl refl
zero_or_pos (suc n) = inr (omega arith)

module _ (addr size : ℕ) (pos : 0 < size) where
  -- The global list after `i` rounds.
  pub record Made (i : ℕ) (g : Flist) : Type 0 where
    pub units : Units g.list_head g.skip_head
    pub open_unit : (g.list_cnt % g.skip_unit == 0) ≡ false → slist_empty g.skip_head ≡ false
    pub number : length g.list_head ≡ i
    pub once : (x : ℕ) → count x g.list_head ≤ 1
    pub objects : (x : ℕ) → 0 < count x g.list_head → (j : ℕ) × (j < i) × (x ≡ addr + j * size)

  objects_differ : (i j : ℕ) → j < i → addr + i * size ≢ addr + j * size
  objects_differ i j lt same = omega (arith, mul-le-mul_right size lt)

  -- The object of a round is new.
  object-fresh : (i : ℕ) (g : Flist) → Made i g → count (addr + i * size) g.list_head ≡ 0
  object-fresh i g made = elim (zero_or_pos (count (addr + i * size) g.list_head)) [
    | inl fresh ↦ fresh
    | inr old ↦
        let (j, lt, e) = made.objects (addr + i * size) old in absurd (objects_differ i j lt e)
  ]

  -- A round keeps the counts of the lists, whatever unit it opens.
  module _ {i : ℕ} {g : Flist} (made : Made i g) where
    once-more : (x : ℕ) → count x ((addr + i * size) ∷ g.list_head) ≤ 1
    unfolding count
    once-more x = ground (arith, made.once x, object-fresh i g made)

    objects-more :
        (x : ℕ)
        → 0 < count x ((addr + i * size) ∷ g.list_head)
        → (j : ℕ) × (j < i + 1) × (x ≡ addr + j * size)
    unfolding count
    objects-more x some_there = elim (zero_or_pos (count x g.list_head)) [
      | inr old ↦ let (j, lt, e) = made.objects x old in (j, omega arith, e)
      | inl fresh ↦ (i, omega arith, ground (arith, some_there, fresh))
    ]

    put_global-Made : Made (i + 1) (put_global (addr + i * size) g)
    unfolding put_global slist_push slist_empty
    put_global-Made = elim (Bool-cases (g.list_cnt % g.skip_unit == 0)) [
      | inl new_unit ↦ rw new_unit (record {
        units = closing made.units;
        open_unit = λ h. refl;
        number = omega (arith, made.number);
        once = once-more;
        objects = objects-more;
      })
      | inr same ↦
          let (y, rest, e) = open_skip g.skip_head (made.open_unit same) in
          rw same (record {
            units =
                subst (Units ((addr + i * size) ∷ g.list_head)) (sym e)
                  (inner (object-fresh i g made) (subst (Units g.list_head) e made.units));
            open_unit = λ h. made.open_unit same;
            number = omega (arith, made.number);
            once = once-more;
            objects = objects-more;
          })
    ]

  pub create_loop-Made {ℓ} :
      {S : Type ℓ} (init_obj : ℕ → S → S) (rounds i : ℕ) (g : Flist) (s : S)
      → Made i g
      → Made (i + rounds) (create_loop addr size init_obj rounds i (g, s)).0
  unfolding create_loop
  create_loop-Made init_obj zero i g s made = subst (λ n. Made n g) (omega arith) made
  create_loop-Made init_obj (suc rounds) i g s made =
      let obj = addr + i * size in
      subst
        (λ n.
          Made n
            (create_loop addr size init_obj rounds (i + 1) (put_global obj g, init_obj obj s)).0)
        (omega arith)
        (create_loop-Made init_obj rounds (i + 1) (put_global obj g) (init_obj obj s)
          (put_global-Made made))
