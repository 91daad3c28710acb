-- ===== src/Bravo/Run.antt =====
-- src/bravo.c: steps of one thread that nothing disturbs.
use mathlib.Core.Path.{subst}
use libnvmmio.Prelude.{
  ℕ, zero, suc, ◌+◌, ◌≡◌, ◌≢◌, refl, sym, Bool, true, false, none, some, update, update_self,
  update_ne, arith, ◌∙◌,
}
use libnvmmio.Bravo.{
  BravoMem, Pc, scan, idle, writing, Move, wrlock, claim_biased, reset_bias, pass, scanned,
  BravoState, pick, Reach, later,
}
use libnvmmio.Bravo.Hash.{nr_slots}

abbrev pub moved : (t : ℕ) → BravoState → BravoMem → Pc → BravoState
moved t s m p = record { mem = m; pc = update s.pc t p }

module _ (uses : ℕ → ℕ → Bool) where
  -- Steps of thread `t`, and of no other.
  pub data Own (t : ℕ) (s : BravoState) : BravoState → Type 0 where
    stay : Own t s s
    go :
        {s' : BravoState} {m : BravoMem} {p : Pc}
        → Own t s s'
        → Move uses t s'.mem (s'.pc t) m p
        → Own t s (moved t s' m p)

  pub Reach-Own : {t : ℕ} {s s' : BravoState} → Reach uses s → Own t s s' → Reach uses s'
  Reach-Own r stay = r
  Reach-Own {t} r (go own mv) = later (Reach-Own r own) (pick t mv)

  -- What thread `t` reaches from `s` by its own steps: it stands at `p` with memory `m`, and the
  -- others where they were.
  pub record Alone (t : ℕ) (s : BravoState) (m : BravoMem) (p : Pc) : Type 0 where
    pub last : BravoState
    pub own : Own t s last
    pub mem : last.mem ≡ m
    pub here : last.pc t ≡ p
    pub others : (u : ℕ) → t ≢ u → last.pc u ≡ s.pc u

  -- Before the first step.
  pub still : {s : BravoState} {p : Pc} (t : ℕ) → s.pc t ≡ p → Alone t s s.mem p
  still {s} t e = record { last = s; own = stay; mem = refl; here = e; others = λ u ne. refl }

  pub Alone-moved :
      {s : BravoState} {m m' : BravoMem} {p p' : Pc} (t : ℕ)
      → Alone t s m p
      → Move uses t m p m' p'
      → Alone t s m' p'
  Alone-moved {s} {m} {m'} {p} {p'} t a mv = record {
    last = moved t a.last m' p';
    own = go a.own (
        subst (λ q. Move uses t a.last.mem q m' p') (sym a.here)
          (subst (λ x. Move uses t x p m' p') (sym a.mem) mv));
    mem = refl;
    here = update_self a.last.pc t p';
    others = λ u ne. update_ne a.last.pc t u p' ne ∙ a.others u ne;
  }

  -- The scan of the slots that are left, none of which shows the lock.
  scan-Alone :
      {s : BravoState} {m : BravoMem} {start l : ℕ} (t left i : ℕ)
      → ((j : ℕ) → m.visible_readers j ≢ some l)
      → i + left ≡ nr_slots
      → Alone t s m (scan start i l)
      → Alone t s m (scan start nr_slots l)
  scan-Alone {s} {m} {start} {l} t zero i hidden e a =
      subst (λ j. Alone t s m (scan start j l)) (omega (arith, e)) a
  scan-Alone t (suc left) i hidden e a =
      scan-Alone t left (suc i) hidden (omega (arith, e))
        (Alone-moved t a (pass (omega (arith, e)) (hidden i)))

  -- A lock that nobody holds and no slot shows is taken by a writer, by its own steps alone.
  pub writing-Alone :
      {s : BravoState} {m : BravoMem} (t l : ℕ)
      → uses t l ≡ true
      → (m.locks l).writer ≡ none
      → ((u : ℕ) → (m.locks l).readers u ≡ false)
      → (m.locks l).rbias ≡ true
      → ((j : ℕ) → m.visible_readers j ≢ some l)
      → Alone t s m idle
      → (m' : BravoMem) × Alone t s m' (writing l)
  writing-Alone {s} {m} t l u free none_reads biased hidden a =
      let a1 = Alone-moved t a (wrlock u free none_reads) in
      let a2 = Alone-moved t a1 (claim_biased (ground (arith, biased))) in
      let a3 = Alone-moved t a2 (reset_bias 0) in
      let a4 = scan-Alone t nr_slots 0 hidden refl a3 in
      (_, Alone-moved t a4 (scanned 0 (omega arith)))
