-- ===== src/Mmio/Checkpoint/Levels.antt =====
-- src/radixlog.c: the levels of the log index, and its walk after slots of the last level are emptied.
use libnvmmio.Prelude.{
  ℕ, ◌≤◌, ◌≡◌, ◌≢◌, refl, inl, inr, Option-cases, some, arith, ◌∙◌, sym, >>=-eq-some,
}
use mathlib.Core.Path.{subst}
use libnvmmio.Radixlog.{TableType, RadixRoot, lgd_index, lud_index, lmd_index}
use libnvmmio.Radixlog.Cache.{piece, find_from-piece}
use libnvmmio.Radixlog.Walk.{Tables, find_from, find_log_table}
use libnvmmio.Mmio.World.{World}
use libnvmmio.Mmio.Checkpoint.Unchanged.{Kept}

-- Each table above the last level holds tables of the next level, and a table that a walk finds has
-- its log size.
pub record Levels (root : RadixRoot) (tables : Tables) : Type 0 where
  pub below_lgd :
      (t i c : ℕ)
      → (tables t).type ≡ TableType.lgd
      → (tables t).entries i ≡ some c
      → (tables c).type ≡ TableType.lud
  pub below_lud :
      (t i c : ℕ)
      → (tables t).type ≡ TableType.lud
      → (tables t).entries i ≡ some c
      → (tables c).type ≡ TableType.lmd
  pub below_lmd :
      (t i c : ℕ)
      → (tables t).type ≡ TableType.lmd
      → (tables t).entries i ≡ some c
      → (tables c).type ≡ TableType.table
  pub sized : (offset t : ℕ) → find_log_table root tables offset ≡ some t → (tables t).log_size ≤ 9

lmd-upper : (type : TableType) → type ≡ TableType.lmd → type ≢ TableType.table
lmd-upper type e last = cc

lud-upper : (type : TableType) → type ≡ TableType.lud → type ≢ TableType.table
lud-upper type e last = cc

lgd-upper : (type : TableType) → type ≡ TableType.lgd → type ≢ TableType.table
lgd-upper type e last = cc

module _ (root : RadixRoot) (tables : Tables) (levels : Levels root tables) (offset : ℕ) where
  find_from-leaf :
      (type : TableType) (t c : ℕ)
      → (tables t).type ≡ type
      → find_from type t tables offset ≡ some c
      → (tables c).type ≡ TableType.table
  unfolding find_from
  find_from-leaf TableType.table t c e found = ground (arith, e, found)
  find_from-leaf TableType.lmd t c e found = levels.below_lmd t (lmd_index offset) c e found
  find_from-leaf TableType.lud t c e found =
      let (m, at_t, at_m) = >>=-eq-some ((tables t).entries (lud_index offset)) _ found in
      levels.below_lmd m (lmd_index offset) c (levels.below_lud t (lud_index offset) m e at_t) at_m
  find_from-leaf TableType.lgd t c e found =
      let (u, at_t, found') = >>=-eq-some ((tables t).entries (lgd_index offset)) _ found in
      let (m, at_u, at_m) = >>=-eq-some ((tables u).entries (lud_index offset)) _ found' in
      let lud = levels.below_lgd t (lgd_index offset) u e at_t in
      levels.below_lmd m (lmd_index offset) c (levels.below_lud u (lud_index offset) m lud at_u)
        at_m

  -- A walk ends in a table of the last level.
  pub find_log_table-leaf :
      (t : ℕ) → find_log_table root tables offset ≡ some t → (tables t).type ≡ TableType.table
  unfolding find_log_table
  find_log_table-leaf t found =
      let (skip, at_root, found') = >>=-eq-some root.skip _ found in
      find_from-leaf (tables skip).type skip t refl found'

-- A walk goes by the 2 MB piece alone.
pub find_log_table-piece :
    (root : RadixRoot) (tables : Tables) (x y : ℕ)
    → piece x ≡ piece y
    → find_log_table root tables x ≡ find_log_table root tables y
unfolding find_log_table
find_log_table-piece root tables x y same = elim (Option-cases root.skip) [
  | inl gone ↦ rw gone refl
  | inr (skip, at_root) ↦ rw at_root (find_from-piece (tables skip).type skip tables x y same)
]

module _ (root : RadixRoot) (w w' : World) (levels : Levels root w.tables.tables)
    (kept : Kept w w') where
  find_lmd-Kept :
      (t offset : ℕ)
      → (w.tables.tables t).type ≡ TableType.lmd
      → find_from TableType.lmd t w'.tables.tables offset
        ≡ find_from TableType.lmd t w.tables.tables offset
  unfolding find_from
  find_lmd-Kept t offset e = kept.same_upper t (lmd_index offset) (lmd-upper _ e)

  find_lud-Kept :
      (t offset : ℕ)
      → (w.tables.tables t).type ≡ TableType.lud
      → find_from TableType.lud t w'.tables.tables offset
        ≡ find_from TableType.lud t w.tables.tables offset
  unfolding find_from find_lmd-Kept
  find_lud-Kept t offset e =
      let i = lud_index offset in
      rw (kept.same_upper t i (lud-upper _ e))
        (elim (Option-cases ((w.tables.tables t).entries i)) [
          | inl gone ↦ rw gone refl
          | inr (m, at_t) ↦ rw at_t (find_lmd-Kept m offset (levels.below_lud t i m e at_t))
        ])

  find_lgd-Kept :
      (t offset : ℕ)
      → (w.tables.tables t).type ≡ TableType.lgd
      → find_from TableType.lgd t w'.tables.tables offset
        ≡ find_from TableType.lgd t w.tables.tables offset
  unfolding find_from
  find_lgd-Kept t offset e =
      let i = lgd_index offset in
      rw (kept.same_upper t i (lgd-upper _ e))
        (elim (Option-cases ((w.tables.tables t).entries i)) [
          | inl gone ↦ rw gone refl
          | inr (u, at_t) ↦ rw at_t (find_lud-Kept u offset (levels.below_lgd t i u e at_t))
        ])

  find_from-Kept :
      (type : TableType) (t offset : ℕ)
      → (w.tables.tables t).type ≡ type
      → find_from type t w'.tables.tables offset ≡ find_from type t w.tables.tables offset
  unfolding find_from
  find_from-Kept TableType.lmd t offset e = find_lmd-Kept t offset e
  find_from-Kept TableType.lud t offset e = find_lud-Kept t offset e
  find_from-Kept TableType.lgd t offset e = find_lgd-Kept t offset e
  find_from-Kept TableType.table t offset e = refl

  -- A walk finds the same table after slots of the last level are emptied.
  pub find_log_table-Kept :
      (offset : ℕ)
      → find_log_table root w'.tables.tables offset ≡ find_log_table root w.tables.tables offset
  unfolding find_log_table
  find_log_table-Kept offset = elim (Option-cases root.skip) [
    | inl gone ↦ rw gone refl
    | inr (skip, at_root) ↦
        rw (at_root, kept.same_type skip)
          (find_from-Kept (w.tables.tables skip).type skip offset refl)
  ]

  -- The levels stay.
  pub Levels-Kept : Levels root w'.tables.tables
  Levels-Kept = record {
    below_lgd = λ t i c e at_i.
        let e' = sym (kept.same_type t) ∙ e in
        kept.same_type c
        ∙ levels.below_lgd t i c e' (sym (kept.same_upper t i (lgd-upper _ e')) ∙ at_i);
    below_lud = λ t i c e at_i.
        let e' = sym (kept.same_type t) ∙ e in
        kept.same_type c
        ∙ levels.below_lud t i c e' (sym (kept.same_upper t i (lud-upper _ e')) ∙ at_i);
    below_lmd = λ t i c e at_i.
        let e' = sym (kept.same_type t) ∙ e in
        kept.same_type c
        ∙ levels.below_lmd t i c e' (sym (kept.same_upper t i (lmd-upper _ e')) ∙ at_i);
    sized = λ offset t at_t.
        subst (λ s. s ≤ 9) (sym (kept.same_size t))
          (levels.sized offset t (sym (find_log_table-Kept offset) ∙ at_t));
  }
