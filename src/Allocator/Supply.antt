-- ===== src/Allocator/Supply.antt =====
-- src/allocator.h: when the two macros find what they need.
use libnvmmio.Prelude.{
  ℕ, ◌%◌, ◌≤◌, ◌≡◌, refl, inl, inr, false, Bool-cases, some, List, [], ◌∷◌, ◌++◌, ◌==◌,
  if◌then◌else◌, length, arith,
}
use mathlib.Core.Path.{subst, sym}
use mathlib.Core.Logic.{◌⊎◌}
use libnvmmio.Slist.{slist_pop, slist_empty, cut_after, slist_cut_splice}
use libnvmmio.Allocator.{Flist, fill_local_provider}
use libnvmmio.Allocator.Pool.{Pool, or_new, pop_provider}
use libnvmmio.Allocator.Conserve.{stock, pop_provider-stock}
use libnvmmio.Allocator.Units.{Units, empty, closing, inner, cut_after-rest, cut_after-filled}

-- A collector: its lists are in units, as the two counts say.
pub record Collects (c : Flist) : Type 0 where
  pub units : Units c.list_head c.skip_head
  pub counted : length c.skip_head ≡ c.skip_cnt
  pub open_unit : (c.list_cnt % c.skip_unit == 0) ≡ false → slist_empty c.skip_head ≡ false

-- The lists of a pool are well-formed: the two that are cut are in units, and no object is listed
-- twice.
pub record WellFormed (p : Pool) : Type 0 where
  pub units : Units p.global.list_head p.global.skip_head
  pub collects : Collects (or_new p.collector p.global.skip_unit)
  pub once : (x : ℕ) → stock p x ≤ 1

-- An object is left for `POP_PROVIDER`.
abbrev pub HasLeft : Pool → Type 0
HasLeft p =
    (slist_empty (or_new p.provider 0).list_head ≡ false) ⊎ (slist_empty p.global.list_head ≡ false)

-- A list in units has a node, and so a skip node.
Units-skip :
    {list skips : List ℕ}
    → Units list skips
    → slist_empty list ≡ false
    → (y : ℕ) × (rest : List ℕ) × (skips ≡ y ∷ rest)
unfolding slist_empty
Units-skip empty filled = cc
Units-skip (closing {x = x} {skips = skips} u) filled = (x, skips, refl)
Units-skip (inner {y = y} {skips = skips} fresh u) filled = (y, skips, refl)

slist_pop-filled :
    (l : List ℕ)
    → slist_empty l ≡ false
    → (o : ℕ) × (rest : List ℕ) × (slist_pop l ≡ some (o, rest))
unfolding slist_empty slist_pop
slist_pop-filled [] filled = cc
slist_pop-filled (o ∷ rest) filled = (o, rest, refl)

-- What a fill leaves.
record Filled (provider global : Flist) (r : Flist × Flist) : Type 0 where
  filled : slist_empty r.0.list_head ≡ false
  units : Units r.1.list_head r.1.skip_head
  same_unit : r.1.skip_unit ≡ global.skip_unit

fill_local_provider-Filled :
    (provider global : Flist)
    → Units global.list_head global.skip_head
    → slist_empty global.list_head ≡ false
    → (r : Flist × Flist) × (fill_local_provider provider global ≡ some r)
      × Filled provider global r
unfolding fill_local_provider slist_pop slist_cut_splice
fill_local_provider-Filled provider global u left =
    let (y, rest, e) = Units-skip u left in
    let u' = subst (Units global.list_head) e u in
    rw e (
      (
        record provider { list_head = (cut_after y global.list_head).0 ++ provider.list_head },
        record global { list_head = (cut_after y global.list_head).1; skip_head = rest },
      ),
      refl,
      record {
        filled = cut_after-filled y provider.list_head u';
        units = cut_after-rest y u';
        same_unit = refl;
      },
    )

refill-Filled :
    (p : Pool)
    → WellFormed p
    → HasLeft p
    → let provider = or_new p.provider 0 in
      (r : Flist × Flist) × ((if slist_empty provider.list_head
          then fill_local_provider provider p.global
          else some (provider, p.global))
        ≡ some r)
      × Filled provider p.global r
refill-Filled p ok left = elim (Bool-cases (slist_empty (or_new p.provider 0).list_head)) [
  | inr some_left ↦ rw some_left (
    (or_new p.provider 0, p.global),
    refl,
    record { filled = some_left; units = ok.units; same_unit = refl },
  )
  | inl none_left ↦ rw none_left (
      fill_local_provider-Filled (or_new p.provider 0) p.global ok.units
        (elim left [ inl filled ↦ absurd (cc) | inr filled ↦ filled ]))
]

pop-steps :
    (p : Pool) {provider global : Flist} {t : ℕ} {rest : List ℕ}
    → (if slist_empty (or_new p.provider 0).list_head
        then fill_local_provider (or_new p.provider 0) p.global
        else some (or_new p.provider 0, p.global))
      ≡ some (provider, global)
    → slist_pop provider.list_head ≡ some (t, rest)
    → pop_provider p
      ≡ some
          (t, record p { provider = some (record provider { list_head = rest }); global = global })
unfolding pop_provider
pop-steps p e e' = rw (e, e') refl

-- `POP_PROVIDER` finds an object where one is left, and keeps the lists well-formed.
pub pop_provider-WellFormed :
    (p : Pool)
    → WellFormed p
    → HasLeft p
    → (t : ℕ) × (p' : Pool) × (pop_provider p ≡ some (t, p')) × WellFormed p'
pop_provider-WellFormed p ok left =
    let ((provider, global), e, f) = refill-Filled p ok left in
    let (t, rest, e') = slist_pop-filled provider.list_head f.filled in
    let p' = record p { provider = some (record provider { list_head = rest }); global = global } in
    let h = pop-steps p e e' in
    (
      t,
      p',
      h,
      record {
        units = f.units;
        collects = subst (λ u. Collects (or_new p.collector u)) (sym f.same_unit) ok.collects;
        once = λ x. omega (arith, pop_provider-stock p x h, ok.once x);
      },
    )
