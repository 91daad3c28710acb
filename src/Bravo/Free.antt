-- ===== src/Bravo/Free.antt =====
-- src/bravo.c: the locks when no thread is in a call.
use libnvmmio.Prelude.{
  ℕ, ◌≡◌, ◌≢◌, inl, inr, Bool, true, false, Bool-cases, Option-cases, none, some, arith,
}
use libnvmmio.Bravo.{BravoState, BravoMem, idle, writing, wrlock, claim_plain, Reach}
use libnvmmio.Bravo.Invariant.{Inv, IsApart, Reach-Inv}
use libnvmmio.Bravo.Run.{Alone, still, Alone-moved, writing-Alone}

module _ {uses : ℕ → ℕ → Bool} {s : BravoState} (inv : Inv uses s.mem s.pc)
    (quiet : (t : ℕ) → s.pc t ≡ idle) where
  open inv use {held, claims, taken}

  no_writer : (l : ℕ) → (s.mem.locks l).writer ≡ none
  no_writer l = elim (Option-cases (s.mem.locks l).writer) [
    | inl free ↦ free
    | inr (w, e) ↦ ground (arith, claims w l, quiet w, e)
  ]

  no_reader : (l t : ℕ) → (s.mem.locks l).readers t ≡ false
  no_reader l t = ground (arith, held t l, quiet t)

  no_slot : (i : ℕ) → s.mem.visible_readers i ≡ none
  no_slot i = elim (Option-cases (s.mem.visible_readers i)) [
    | inl free ↦ free
    | inr (l, e) ↦ (let (t, same, set) = taken i l e in ground (arith, set, quiet t))
  ]

  hidden : (l i : ℕ) → s.mem.visible_readers i ≢ some l
  hidden l i e = ground (arith, no_slot i, e)

  write_alone : (t l : ℕ) → uses t l ≡ true → (m : BravoMem) × Alone uses t s m (writing l)
  write_alone t l u =
      let at_rest = still uses t (quiet t) in
      elim (Bool-cases (s.mem.locks l).rbias) [
        | inl biased ↦
            writing-Alone uses t l u (no_writer l) (no_reader l) biased (hidden l) at_rest
        | inr unbiased ↦
            (let claim = Alone-moved uses t at_rest (wrlock u (no_writer l) (no_reader l)) in
              (_, Alone-moved uses t claim (claim_plain (ground (arith, unbiased)))))
      ]

-- In a reachable state where no two calls share a slot and no thread is in a call, every lock is
-- free, every slot is NULL, and from that state any thread that writes takes its lock by steps of
-- its own, with every other thread where it was.
pub quiet-free :
    {uses : ℕ → ℕ → Bool} {s : BravoState}
    → IsApart uses
    → Reach uses s
    → ((t : ℕ) → s.pc t ≡ idle)
    → ((l : ℕ) → (s.mem.locks l).writer ≡ none)
      × ((l t : ℕ) → (s.mem.locks l).readers t ≡ false)
      × ((i : ℕ) → s.mem.visible_readers i ≡ none)
      × ((t l : ℕ) → uses t l ≡ true → (m : BravoMem) × Alone uses t s m (writing l))
quiet-free {uses} {s} apart r quiet =
    let inv = Reach-Inv apart r in
    (no_writer inv quiet, no_reader inv quiet, no_slot inv quiet, write_alone inv quiet)
