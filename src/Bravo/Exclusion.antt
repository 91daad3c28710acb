-- ===== src/Bravo/Exclusion.antt =====
-- src/bravo.c: who can have a lock together with its writer.
use libnvmmio.Prelude.{ℕ, ◌≡◌, Bool, arith}
use libnvmmio.Bravo.{BravoState, Way, reading, writing, fast, slow, Reach}
use libnvmmio.Bravo.Invariant.{Inv, IsApart, Reach-Inv}

module _ {uses : ℕ → ℕ → Bool} {s : BravoState} (inv : Inv uses s.mem s.pc) where
  open inv use {exclusive, shared, owned, plain, barred}

  writer-alone : (t w l : ℕ) (k : Way) → s.pc w ≡ writing l → s.pc t ≡ reading k l → ⊥
  writer-alone t w l fast ew er = ground (arith, ew, er, owned w l, plain w l, barred t l)
  writer-alone t w l slow ew er = ground (arith, ew, er, owned w l, shared t l, exclusive l w t)

  one_writer : (v w l : ℕ) → s.pc v ≡ writing l → s.pc w ≡ writing l → v ≡ w
  one_writer v w l ev ew = ground (arith, ev, ew, owned v l, owned w l)

-- In every reachable state, where no two calls of the program share a slot, no thread reads under a
-- lock while another writes under it, and no two threads write.
pub mutual_exclusion :
    {uses : ℕ → ℕ → Bool} {s : BravoState}
    → IsApart uses
    → Reach uses s
    → (w l : ℕ) → s.pc w ≡ writing l
    → ((t : ℕ) (k : Way) → ¬ (s.pc t ≡ reading k l)) × ((v : ℕ) → s.pc v ≡ writing l → v ≡ w)
mutual_exclusion {uses} {s} apart r w l ew = (
  λ t k er. writer-alone (Reach-Inv apart r) t w l k ew er,
  λ v ev. one_writer (Reach-Inv apart r) v w l ev ew,
)
