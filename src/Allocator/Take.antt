-- ===== src/Allocator/Take.antt =====
-- src/allocator.h: several `POP_PROVIDER` of one thread in a row.
use libnvmmio.Prelude.{
  ℕ, zero, suc, ◌+◌, ◌≤◌, ◌<◌, ◌≡◌, refl, inl, inr, false, Bool-cases, Option, some, ◌>>=◌,
  >>=-eq-some, List, [], ◌∷◌, if◌then◌else◌, length, length-append, arith,
}
use mathlib.Core.Logic.{◌⊎◌}
use libnvmmio.Slist.{slist_pop, slist_empty, cut_after, slist_cut_splice}
use libnvmmio.Allocator.{Flist, fill_local_provider}
use libnvmmio.Allocator.Pool.{Pool, or_new, pop_provider}
use libnvmmio.Allocator.Conserve.{count, stock, pop_provider-stock}
use libnvmmio.Allocator.Supply.{WellFormed, HasLeft, pop_provider-WellFormed}

-- The objects that `POP_PROVIDER` can still hand out.
unfoldable pub left : Pool → ℕ
left p = length (or_new p.provider 0).list_head + length p.global.list_head

empty-cases : (l : List ℕ) → (length l ≡ 0) ⊎ (slist_empty l ≡ false)
unfolding slist_empty
empty-cases [] = inl refl
empty-cases (x ∷ l) = inr refl

pub left-HasLeft : (p : Pool) → 0 < left p → HasLeft p
unfolding left
left-HasLeft p some_left = elim (empty-cases (or_new p.provider 0).list_head) [
  | inr filled ↦ inl filled
  | inl none_here ↦ elim (empty-cases p.global.list_head) [
    | inr filled ↦ inr filled
    | inl none_there ↦ absurd (omega (arith, none_here, none_there))
  ]
]

length-cut_after :
    (node : ℕ) (xs : List ℕ)
    → length (cut_after node xs).0 + length (cut_after node xs).1 ≡ length xs
unfolding cut_after
length-cut_after node [] = refl
length-cut_after node (y ∷ ys) = ground (arith, length-cut_after node ys)

fill_local_provider-length :
    (provider global : Flist) {r : Flist × Flist}
    → fill_local_provider provider global ≡ some r
    → length r.0.list_head + length r.1.list_head
      ≡ length provider.list_head + length global.list_head
unfolding fill_local_provider slist_cut_splice
fill_local_provider-length provider global h =
    let ((node, skips), e, h') = >>=-eq-some (slist_pop global.skip_head) _ h in
    ground (
      arith,
      length-cut_after node global.list_head,
      length-append (cut_after node global.list_head).0 provider.list_head,
    )

refill-length :
    (provider global : Flist) {r : Flist × Flist}
    → (if slist_empty provider.list_head
        then fill_local_provider provider global
        else some (provider, global))
      ≡ some r
    → length r.0.list_head + length r.1.list_head
      ≡ length provider.list_head + length global.list_head
refill-length provider global h = elim (Bool-cases (slist_empty provider.list_head)) [
  | inl empty ↦ fill_local_provider-length provider global (rw empty at h)
  | inr some_left ↦ ground arith
]

slist_pop-length :
    (l : List ℕ) {o : ℕ} {rest : List ℕ} → slist_pop l ≡ some (o, rest) → length l ≡ 1 + length rest
unfolding slist_pop
slist_pop-length [] h = cc
slist_pop-length (o ∷ l) h = ground arith

pub pop_provider-left :
    (p : Pool) {t : ℕ} {p' : Pool} → pop_provider p ≡ some (t, p') → left p ≡ 1 + left p'
unfolding pop_provider left
pop_provider-left p h =
    let ((filled, global), e, h') =
      >>=-eq-some
        (if slist_empty (or_new p.provider 0).list_head
          then fill_local_provider (or_new p.provider 0) p.global
          else some (or_new p.provider 0, p.global))
        (λ (s : Flist × Flist). slist_pop s.0.list_head >>= (λ (t : ℕ × List ℕ).
          some (t.0, record p { provider = some (record s.0 { list_head = t.1 }); global = s.1 })))
        h in
    let ((o, rest), e', h'') = >>=-eq-some (slist_pop filled.list_head) _ h' in
    ground
      (arith, refill-length (or_new p.provider 0) p.global e, slist_pop-length filled.list_head e')

unfoldable pub take : ℕ → Pool → Option (List ℕ × Pool)
take zero p = some ([], p)
take (suc n) p = do (t, p') ← pop_provider p; (ts, p'') ← take n p'; some (t ∷ ts, p'')

-- What `n` calls give.
pub record Taken (n : ℕ) (p : Pool) (ts : List ℕ) (p' : Pool) : Type 0 where
  pub number : length ts ≡ n
  pub from_stock : (x : ℕ) → count x ts + stock p' x ≡ stock p x
  pub well_formed : WellFormed p'

pub take-Taken :
    (n : ℕ) (p : Pool)
    → WellFormed p
    → n ≤ left p
    → (ts : List ℕ) × (p' : Pool) × (take n p ≡ some (ts, p')) × Taken n p ts p'
unfolding take count
take-Taken zero p ok enough =
    ([], p, refl, record { number = refl; from_stock = λ x. omega arith; well_formed = ok })
take-Taken (suc n) p ok enough =
    let (t, p', e, ok') = pop_provider-WellFormed p ok (left-HasLeft p (omega arith)) in
    let (ts, p'', e', taken) = take-Taken n p' ok' (omega (arith, pop_provider-left p e)) in
    (
      t ∷ ts,
      p'',
      rw (e, e') refl,
      record {
        number = omega (arith, taken.number);
        from_stock = λ x. omega (arith, taken.from_stock x, pop_provider-stock p x e);
        well_formed = taken.well_formed;
      },
    )
