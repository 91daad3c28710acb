-- ===== src/Allocator/Conserve.antt =====
-- src/allocator.c: no object is lost or handed out twice.
use libnvmmio.Prelude.{
  ℕ, ◌+◌, ◌%◌, ◌≡◌, refl, Bool-cases, inl, inr, some, ◌>>=◌, >>=-eq-some, List, [], ◌∷◌, ◌++◌,
  arith, ◌==◌, if◌then◌else◌, leb,
}
use libnvmmio.Config.{max_skip_nodes}
use libnvmmio.Slist.{slist_push, slist_pop, slist_empty, cut_after, slist_cut_splice}
use libnvmmio.Allocator.{
  Flist, alloc_flist, push_skip, push_list, fill_local_provider, return_unit, put_local_collector,
}
use libnvmmio.Allocator.Pool.{Pool, or_new, pop_provider, push_collector}

-- 1 where two objects are one.
abbrev pub one_if : ℕ → ℕ → ℕ
one_if x y = if x == y then 1 else 0

unfoldable pub count : ℕ → List ℕ → ℕ
count x [] = 0
count x (y ∷ ys) = one_if y x + count x ys

pub count-append : (x : ℕ) (xs ys : List ℕ) → count x (xs ++ ys) ≡ count x xs + count x ys
unfolding count
count-append x [] ys = omega arith
count-append x (y ∷ xs) ys = omega (arith, count-append x xs ys)

pub count-cut_after :
    (x node : ℕ) (xs : List ℕ)
    → count x (cut_after node xs).0 + count x (cut_after node xs).1 ≡ count x xs
unfolding count cut_after
count-cut_after x node [] = refl
count-cut_after x node (y ∷ ys) = ground (arith, count-cut_after x node ys)

-- How often an object stands in the lists of a pool.
unfoldable pub stock : Pool → ℕ → ℕ
stock p x =
    count x (or_new p.provider 0).list_head
    + count x (or_new p.collector p.global.skip_unit).list_head
    + count x p.global.list_head

fill_local_provider-count :
    (provider global : Flist) {r : Flist × Flist} (x : ℕ)
    → fill_local_provider provider global ≡ some r
    → count x r.0.list_head + count x r.1.list_head
      ≡ count x provider.list_head + count x global.list_head
unfolding fill_local_provider slist_cut_splice
fill_local_provider-count provider global x h =
    let ((node, skips), e, h') = >>=-eq-some (slist_pop global.skip_head) _ h in
    ground (
      arith,
      count-cut_after x node global.list_head,
      count-append x (cut_after node global.list_head).0 provider.list_head,
    )

return_unit-count :
    (collector global : Flist) {r : Flist × Flist} (x : ℕ)
    → return_unit collector global ≡ some r
    → count x r.0.list_head + count x r.1.list_head
      ≡ count x collector.list_head + count x global.list_head
unfolding return_unit slist_cut_splice
return_unit-count collector global x h =
    let ((node, skips), e, h') = >>=-eq-some (slist_pop collector.skip_head) _ h in
    ground (
      arith,
      count-cut_after x node collector.list_head,
      count-append x (cut_after node collector.list_head).0 global.list_head,
    )

make_room-count :
    (collector global : Flist) {r : Flist × Flist} (x : ℕ)
    → (if leb max_skip_nodes collector.skip_cnt
        then return_unit collector global
        else some (collector, global))
      ≡ some r
    → count x r.0.list_head + count x r.1.list_head
      ≡ count x collector.list_head + count x global.list_head
make_room-count collector global x h = elim (Bool-cases (leb max_skip_nodes collector.skip_cnt)) [
  | inl full ↦ return_unit-count collector global x (rw full at h)
  | inr room ↦ ground arith
]

put_local_collector-count :
    (node : ℕ) (collector global : Flist) {r : Flist × Flist} (x : ℕ)
    → put_local_collector node collector global ≡ some r
    → count x r.0.list_head + count x r.1.list_head
      ≡ count x collector.list_head + count x global.list_head + one_if node x
unfolding put_local_collector slist_push count
put_local_collector-count node collector global x h =
    elim (Bool-cases (collector.list_cnt % collector.skip_unit == 0)) [
      | inl new_unit ↦
          let (s, e, h') =
            >>=-eq-some
              (if leb max_skip_nodes collector.skip_cnt
                then return_unit collector global
                else some (collector, global))
              (λ (s : Flist × Flist). some (push_list node (push_skip node s.0), s.1))
              (rw new_unit at h) in
          ground (arith, make_room-count collector global x e)
      | inr same_unit ↦ ground arith
    ]

refill-count :
    (provider global : Flist) {r : Flist × Flist} (x : ℕ)
    → (if slist_empty provider.list_head
        then fill_local_provider provider global
        else some (provider, global))
      ≡ some r
    → count x r.0.list_head + count x r.1.list_head
      ≡ count x provider.list_head + count x global.list_head
refill-count provider global x h = elim (Bool-cases (slist_empty provider.list_head)) [
  | inl empty ↦ fill_local_provider-count provider global x (rw empty at h)
  | inr some_left ↦ ground arith
]

slist_pop-count :
    (x : ℕ) (l : List ℕ) {o : ℕ} {rest : List ℕ}
    → slist_pop l ≡ some (o, rest)
    → count x l ≡ one_if o x + count x rest
unfolding slist_pop count
slist_pop-count x [] h = cc
slist_pop-count x (o ∷ l) h = ground arith

-- `POP_PROVIDER` hands out an object of the pool and takes just that one from its lists.
pub pop_provider-stock :
    (p : Pool) {t : ℕ} {p' : Pool} (x : ℕ)
    → pop_provider p ≡ some (t, p')
    → stock p x ≡ stock p' x + one_if t x
unfolding pop_provider stock alloc_flist
pop_provider-stock p x h =
    let provider = or_new p.provider 0 in
    let ((filled, global), e, h') =
      >>=-eq-some
        (if slist_empty provider.list_head
          then fill_local_provider provider p.global
          else some (provider, p.global))
        (λ (s : Flist × Flist). slist_pop s.0.list_head >>= (λ (t : ℕ × List ℕ).
          some (t.0, record p { provider = some (record s.0 { list_head = t.1 }); global = s.1 })))
        h in
    let ((o, rest), e', h'') =
      >>=-eq-some (slist_pop filled.list_head)
        (λ (t : ℕ × List ℕ).
          some (
            t.0,
            record p { provider = some (record filled { list_head = t.1 }); global = global },
          ))
        h' in
    ground (arith, refill-count provider p.global x e, slist_pop-count x filled.list_head e')

-- `PUSH_COLLECTOR` puts just the object given back on the lists of the pool.
pub push_collector-stock :
    (p : Pool) {p' : Pool} (t x : ℕ)
    → push_collector t p ≡ some p'
    → stock p' x ≡ stock p x + one_if t x
unfolding push_collector stock alloc_flist
push_collector-stock p t x h =
    let ((c, g), e, h') =
      >>=-eq-some (put_local_collector t (or_new p.collector p.global.skip_unit) p.global) _ h in
    ground (arith, put_local_collector-count t (or_new p.collector p.global.skip_unit) p.global x e)
