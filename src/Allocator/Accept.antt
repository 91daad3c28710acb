-- ===== src/Allocator/Accept.antt =====
-- src/allocator.c: an object given back always finds its place.
use libnvmmio.Prelude.{
  ℕ, ◌+◌, ◌-◌, ◌%◌, ◌≤◌, ◌≡◌, refl, inl, inr, true, false, Bool-cases, some, List, [], ◌∷◌, ◌++◌,
  ◌==◌, leb, if◌then◌else◌, length, arith,
}
use mathlib.Core.Path.{subst, sym}
use libnvmmio.Config.{max_skip_nodes}
use libnvmmio.Slist.{slist_push, slist_pop, slist_empty, cut_after, slist_cut_splice}
use libnvmmio.Allocator.{Flist, push_skip, push_list, return_unit, put_local_collector}
use libnvmmio.Allocator.Pool.{Pool, or_new, push_collector}
use libnvmmio.Allocator.Conserve.{count, stock, push_collector-stock}
use libnvmmio.Allocator.Units.{Units, closing, inner, cut_after-rest, cut_after-front}
use libnvmmio.Allocator.Supply.{Collects, WellFormed}

-- What is asked of a collector and the global list.
record Both (c g : Flist) : Type 0 where
  collects : Collects c
  units : Units g.list_head g.skip_head
  apart : (x : ℕ) → count x c.list_head + count x g.list_head ≤ 1

-- A collector and a global list after a call, from the global list `g`.
record Placed (g : Flist) (r : Flist × Flist) : Type 0 where
  collects : Collects r.0
  units : Units r.1.list_head r.1.skip_head
  same_unit : r.1.skip_unit ≡ g.skip_unit

counted-skip :
    (skips : List ℕ) (n : ℕ)
    → length skips ≡ n
    → leb max_skip_nodes n ≡ true
    → (y : ℕ) × (rest : List ℕ) × (skips ≡ y ∷ rest) × (length rest + 1 ≡ n)
counted-skip [] n e full = absurd (ground (arith, e, full))
counted-skip (y ∷ rest) n e full = (y, rest, refl, ground (arith, e))

-- A collector that a node can open a unit in.
record Roomy (g : Flist) (c : Flist) (r : Flist × Flist) : Type 0 where
  own : Units r.0.list_head r.0.skip_head
  counted : length r.0.skip_head ≡ r.0.skip_cnt
  units : Units r.1.list_head r.1.skip_head
  same_unit : r.1.skip_unit ≡ g.skip_unit

return_unit-Roomy :
    (c g : Flist)
    → Both c g
    → leb max_skip_nodes c.skip_cnt ≡ true
    → (r : Flist × Flist) × (return_unit c g ≡ some r) × Roomy g c r
unfolding return_unit slist_pop slist_cut_splice slist_push
return_unit-Roomy c g both full =
    let (y, rest, e, n) = counted-skip c.skip_head c.skip_cnt both.collects.counted full in
    let u = subst (Units c.list_head) e both.collects.units in
    rw e (
      (
        record c {
          list_head = (cut_after y c.list_head).1;
          skip_head = rest;
          list_cnt = c.list_cnt - c.skip_unit;
          skip_cnt = c.skip_cnt - 1;
        },
        record g {
          list_head = (cut_after y c.list_head).0 ++ g.list_head;
          skip_head = y ∷ g.skip_head;
          list_cnt = g.list_cnt + c.skip_unit;
          skip_cnt = g.skip_cnt + 1;
        },
      ),
      refl,
      record {
        own = cut_after-rest y u;
        counted = omega (arith, n);
        units = cut_after-front y g.list_head u both.units both.apart;
        same_unit = refl;
      },
    )

make_room-Roomy :
    (c g : Flist)
    → Both c g
    → (r : Flist × Flist) × ((if leb max_skip_nodes c.skip_cnt
          then return_unit c g
          else some (c, g))
        ≡ some r)
      × Roomy g c r
make_room-Roomy c g both = elim (Bool-cases (leb max_skip_nodes c.skip_cnt)) [
  | inl full ↦ rw full (return_unit-Roomy c g both full)
  | inr room ↦ rw room (
    (c, g),
    refl,
    record {
      own = both.collects.units;
      counted = both.collects.counted;
      units = both.units;
      same_unit = refl;
    },
  )
]

pub open_skip : (l : List ℕ) → slist_empty l ≡ false → (y : ℕ) × (rest : List ℕ) × (l ≡ y ∷ rest)
unfolding slist_empty
open_skip [] filled = cc
open_skip (y ∷ rest) filled = (y, rest, refl)

put_local_collector-Placed :
    (t : ℕ) (c g : Flist)
    → Both c g
    → count t c.list_head ≡ 0
    → (r : Flist × Flist) × (put_local_collector t c g ≡ some r) × Placed g r
unfolding put_local_collector slist_push slist_empty
put_local_collector-Placed t c g both fresh = elim (Bool-cases (c.list_cnt % c.skip_unit == 0)) [
  | inl new_unit ↦
      (let ((c', g'), e, r) = make_room-Roomy c g both in
        rw (new_unit, e)
          (
            (push_list t (push_skip t c'), g'),
            refl,
            record {
              collects = record {
                units = closing r.own;
                counted = omega (arith, r.counted);
                open_unit = λ h. refl;
              };
              units = r.units;
              same_unit = r.same_unit;
            },
          ))
  | inr same ↦
      (let (y, rest, e) = open_skip c.skip_head (both.collects.open_unit same) in
        rw same (
          (push_list t c, g),
          refl,
          record {
            collects = record {
              units =
                  subst (Units (t ∷ c.list_head)) (sym e)
                    (inner fresh (subst (Units c.list_head) e both.collects.units));
              counted = both.collects.counted;
              open_unit = λ h. both.collects.open_unit same;
            };
            units = both.units;
            same_unit = refl;
          },
        ))
]

push-steps :
    (p : Pool) (t : ℕ) {r : Flist × Flist}
    → put_local_collector t (or_new p.collector p.global.skip_unit) p.global ≡ some r
    → push_collector t p ≡ some (record p { collector = some r.0; global = r.1 })
unfolding push_collector
push-steps p t e = rw e refl

-- `PUSH_COLLECTOR` of an object that is in none of the lists returns, and keeps them well-formed.
pub push_collector-WellFormed :
    (p : Pool) (t : ℕ)
    → WellFormed p
    → stock p t ≡ 0
    → (p' : Pool) × (push_collector t p ≡ some p') × WellFormed p'
unfolding stock
push_collector-WellFormed p t ok fresh =
    let c = or_new p.collector p.global.skip_unit in
    let both : Both c p.global = record {
      collects = ok.collects;
      units = ok.units;
      apart = λ x. omega (arith, ok.once x);
    } in
    let ((c', g'), e, placed) =
      put_local_collector-Placed t c p.global both (omega (arith, fresh)) in
    let h = push-steps p t e in
    (
      record p { collector = some c'; global = g' },
      h,
      record {
        units = placed.units;
        collects = placed.collects;
        once = λ x. ground (arith, push_collector-stock p t x h, ok.once x, fresh);
      },
    )
