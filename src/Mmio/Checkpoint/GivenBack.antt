-- ===== src/Mmio/Checkpoint/GivenBack.antt =====
-- src/radixlog.c: the pools after `free_idx_entry`.
use libnvmmio.Prelude.{
  equal_or_not, ℕ, ◌+◌, ◌≡◌, ◌≢◌, refl, inl, inr, some, update, update_self, update_ne, ◌∙◌, sym,
  ap,
}
use mathlib.Core.Path.{subst}
use libnvmmio.Allocator.Conserve.{stock, one_if, push_collector-stock}
use libnvmmio.Allocator.Supply.{WellFormed}
use libnvmmio.Allocator.Accept.{push_collector-WellFormed}
use libnvmmio.Radixlog.Entries.{EntryHeap, free_idx_entry, free_log_data}

-- What an entry given back leaves of the heap.
pub record Freed (p size : ℕ) (h h' : EntryHeap) : Type 0 where
  pub entries_ok : WellFormed h'.pool
  pub data_ok : (s : ℕ) → WellFormed (h'.data_pools s)
  pub entry_back : (x : ℕ) → stock h'.pool x ≡ stock h.pool x + one_if p x
  pub log_back :
      (x : ℕ)
      → stock (h'.data_pools size) x ≡ stock (h.data_pools size) x + one_if (h.entries p).log x
  pub other_pools : (s : ℕ) → size ≢ s → h'.data_pools s ≡ h.data_pools s

pub free_idx_entry-Freed :
    (p size : ℕ) (h : EntryHeap)
    → WellFormed h.pool
    → ((s : ℕ) → WellFormed (h.data_pools s))
    → stock h.pool p ≡ 0
    → stock (h.data_pools size) (h.entries p).log ≡ 0
    → (h' : EntryHeap) × (free_idx_entry p size h ≡ some h') × Freed p size h h'
unfolding free_idx_entry free_log_data
free_idx_entry-Freed p size h entries_ok data_ok entry_out log_out =
    let (blocks, e, data_ok') =
      push_collector-WellFormed (h.data_pools size) (h.entries p).log (data_ok size) log_out in
    let (pool, e', entries_ok') = push_collector-WellFormed h.pool p entries_ok entry_out in
    let at_size = update_self h.data_pools size blocks in
    rw (e, e')
      (
        _,
        refl,
        record {
          entries_ok = entries_ok';
          data_ok = λ s. elim (equal_or_not size s) [
            | inl same ↦
                subst (λ r. WellFormed (update h.data_pools size blocks r)) same
                  (subst WellFormed (sym at_size) data_ok')
            | inr ne ↦ subst WellFormed (sym (update_ne h.data_pools size s blocks ne)) (data_ok s)
          ];
          other_pools = λ s ne. update_ne h.data_pools size s blocks ne;
          entry_back = λ x. push_collector-stock h.pool p x e';
          log_back = λ x.
              ap (λ b. stock b x) at_size
              ∙ push_collector-stock (h.data_pools size) (h.entries p).log x e;
        },
      )
