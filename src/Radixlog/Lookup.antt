-- ===== src/Radixlog/Lookup.antt =====
-- src/radixlog.c: `get_log_table` against `find_log_table`.
use libnvmmio.Prelude.{
  ℕ, ◌≡◌, refl, true, Bool-cases, inl, inr, some, ◌>>=◌, >>=-eq-some, sym, ==_iff, ◌∙◌,
}
use libnvmmio.Allocator.Conserve.{stock}
use libnvmmio.Radixlog.{TableType, RadixRoot, lgd_index, lud_index, lmd_index}
use libnvmmio.Radixlog.Walk.{
  Tables, TableHeap, check_prev_table, find_from, find_log_table, get_from, get_log_table,
}
use libnvmmio.Radixlog.Cache.{piece, find_from-piece, Grows, Grows-refl, get_from-Grows, at_result}

-- The table that the root keeps is the one that a walk finds, for every offset that the root's
-- check lets pass.
pub record IsCached (root : RadixRoot) (tables : Tables) : Type 0 where
  pub hit :
      (offset : ℕ)
      → check_prev_table root.prev_table_index offset ≡ true
      → find_log_table root tables offset ≡ some root.prev_table

-- The table that lookups skip to is no free one.
abbrev pub SkipInUse : RadixRoot → TableHeap → Type 0
SkipInUse root h = (s : ℕ) → root.skip ≡ some s → stock h.pool s ≡ 0

find_from-Grows :
    {h h' : TableHeap} (type : TableType) (t x c : ℕ)
    → Grows h h'
    → find_from type t h.tables x ≡ some c
    → find_from type t h'.tables x ≡ some c
unfolding find_from
find_from-Grows TableType.table t x c g e = e
find_from-Grows TableType.lmd t x c g e = g.links t (lmd_index x) c e
find_from-Grows {h} TableType.lud t x c g e =
    let (m, e1, e2) =
      >>=-eq-some ((h.tables t).entries (lud_index x))
        (λ (m : ℕ). (h.tables m).entries (lmd_index x)) e in
    rw (g.links t (lud_index x) m e1) (g.links m (lmd_index x) c e2)
find_from-Grows {h} TableType.lgd t x c g e =
    let (u, e1, e') =
      >>=-eq-some ((h.tables t).entries (lgd_index x))
        (λ (u : ℕ).
          (h.tables u).entries (lud_index x) >>= λ (m : ℕ). (h.tables m).entries (lmd_index x))
        e in
    let (m, e2, e3) =
      >>=-eq-some ((h.tables u).entries (lud_index x))
        (λ (m : ℕ). (h.tables m).entries (lmd_index x)) e' in
    rw (g.links t (lgd_index x) u e1, g.links u (lud_index x) m e2) (g.links m (lmd_index x) c e3)

-- What a call of `get_log_table` for `offset` leaves behind.
pub record Got (root : RadixRoot) (h : TableHeap) (offset : ℕ) (r : ℕ × RadixRoot × TableHeap)
    : Type 0 where
  pub found : find_log_table r.1 r.2.tables offset ≡ some r.0
  pub cached : IsCached r.1 r.2.tables
  pub kept :
      (x c : ℕ) → find_log_table root h.tables x ≡ some c → find_log_table r.1 r.2.tables x ≡ some c
  pub grows : Grows h r.2
  pub skip : r.1.skip ≡ root.skip

module _ (root : RadixRoot) (h : TableHeap) (offset : ℕ) (in_use : SkipInUse root h) where
  walked :
      {s t : ℕ} {h' : TableHeap}
      → root.skip ≡ some s
      → get_from (h.tables s).type s offset h ≡ some (t, h')
      → Got root h offset (t, record root { prev_table = t; prev_table_index = piece offset }, h')
  unfolding find_log_table check_prev_table
  walked {s} {t} {h'} has e = record {
    found = rw (has, same_type) (get_from-Grows _ s offset h e).1;
    cached = record {
      hit = λ y q.
          rw (has, same_type)
            (find_from-piece _ s h'.tables y offset (sym ((==_iff (piece offset) (piece y)).0 q))
              ∙ (get_from-Grows _ s offset h e).1);
    };
    kept = λ x c q. rw (has, same_type) (find_from-Grows _ s x c grows (rw has at q));
    grows = grows;
    skip = refl;
  }
    where
      grows : Grows h h'
      grows = (get_from-Grows _ s offset h e).0

      same_type : (h'.tables s).type ≡ (h.tables s).type
      same_type = grows.types s (in_use s has)

  -- After `get_log_table` a lookup of the same offset finds the table that was returned, what other
  -- lookups found they still find, and the kept table is right again. The table that lookups skip to
  -- must not be a free one.
  pub get_log_table-Got :
      IsCached root h.tables
      → {r : ℕ × RadixRoot × TableHeap} → get_log_table root offset h ≡ some r
      → Got root h offset r
  unfolding get_log_table
  get_log_table-Got cached {r} e =
      elim (Bool-cases (check_prev_table root.prev_table_index offset)) [
        | inl hit ↦ at_result (Got root h offset) (rw hit at e) (record {
          found = cached.hit offset hit;
          cached = cached;
          kept = λ x c q. q;
          grows = Grows-refl h;
          skip = refl;
        })
        | inr miss ↦
            let (s, has, e') = >>=-eq-some root.skip _ (rw miss at e) in
            let ((t, h'), got, e'') = >>=-eq-some (get_from (h.tables s).type s offset h) _ e' in
            at_result (Got root h offset) e'' (walked has got)
      ]
