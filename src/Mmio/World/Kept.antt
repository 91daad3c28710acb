-- ===== src/Mmio/World/Kept.antt =====
-- src/mmio.c: what LOCK_ENTRIES and UNLOCK_ENTRIES leave as it is.
use libnvmmio.Prelude.{
  ℕ, zero, suc, ◌+◌, ◌≡◌, refl, inl, inr, Bool-cases, none, some, List, [], ◌∷◌, ◌∙◌, ap, arith,
  Option-cases,
}
use mathlib.Core.Path.{subst}
use libnvmmio.Prelude.Words.{to_int, int_positive, int_sub}
use libnvmmio.Mmio.{Mmio}
use libnvmmio.Mmio.World.{World, LockType, lock_entry, lock_loop, lock_entries, unlock_entries}

-- The memory is the same, and the mapping but for its index of logs.
pub record Kept (w w' : World) : Type 0 where
  pub mem : w'.mem ≡ w.mem
  pub mmio : w'.mmio ≡ record w.mmio { radixlog = w'.mmio.radixlog }

pub Kept-refl : (w : World) → Kept w w
Kept-refl w = record { mem = refl; mmio = refl }

pub Kept-trans : {u v w : World} → Kept u v → Kept v w → Kept u w
Kept-trans {u} {v} {w} a b = record {
  mem = b.mem ∙ a.mem;
  mmio = b.mmio ∙ ap (λ (m : Mmio). record m { radixlog = w.mmio.radixlog }) a.mmio;
}

lock_entry-Kept :
    {w w' : World} {p log_len : ℕ} (type : LockType) (n off : ℕ)
    → lock_entry type n off w ≡ some (p, log_len, w')
    → Kept w w'
unfolding lock_entry
lock_entry-Kept {w} {w'} type n off h = record { mem = ground (arith, h); mmio = ground (arith, h) }

lock_loop-Kept :
    {w w' : World} {ps' : List ℕ} (rounds : ℕ) (type : LockType) (n off : ℕ) (ps : List ℕ)
    → lock_loop rounds type n off ps w ≡ some (ps', w')
    → Kept w w'
unfolding lock_loop
lock_loop-Kept zero type n off ps h = cc
lock_loop-Kept {w} {w'} {ps'} (suc rounds) type n off ps h = elim (Bool-cases (int_positive n)) [
  | inr done ↦
      (let e : some (ps, w) ≡ some (ps', w') = rw done at h in subst (Kept w) (cc e) (Kept-refl w))
  | inl goes ↦ elim (Option-cases (lock_entry type n off w)) [
    | inl failed ↦ (let e : none ≡ some (ps', w') = rw (goes, failed) at h in cc e)
    | inr ((p, log_len, w1), e1) ↦ Kept-trans (lock_entry-Kept type n off e1) (
        lock_loop-Kept rounds type (int_sub n log_len) (off + log_len) (p ∷ ps)
          (rw (goes, e1) at h))
  ]
]

-- LOCK_ENTRIES changes neither the memory nor the mapping, but for the index.
pub lock_entries-Kept :
    {w w' : World} {ps : List ℕ} (type : LockType) (offset len : ℕ)
    → lock_entries type offset len w ≡ some (ps, w')
    → Kept w w'
unfolding lock_entries
lock_entries-Kept type offset len h =
    lock_loop-Kept (suc (to_int len)) type (to_int len) offset [] h

pub unlock_entries-Kept : (ps : List ℕ) (w : World) → Kept w (unlock_entries ps w)
unfolding unlock_entries
unlock_entries-Kept [] w = Kept-refl w
unlock_entries-Kept (p ∷ ps) w =
    Kept-trans (record { mem = refl; mmio = refl }) (unlock_entries-Kept ps _)
