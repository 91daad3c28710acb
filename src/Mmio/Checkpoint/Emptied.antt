-- ===== src/Mmio/Checkpoint/Emptied.antt =====
-- src/mmio.c: what the inner loop of checkpoint_mmio leaves in the slots of a table.
use libnvmmio.Prelude.{
  equal_or_not, ℕ, zero, suc, ◌+◌, ◌≤◌, ◌<◌, ◌≡◌, refl, inl, inr, Bool-cases, Option-cases, none,
  some, update_self, update_ne, arith, ltb, ◌∙◌, sym, ap,
}
use mathlib.Core.Path.{subst}
use mathlib.Core.Logic.{◌⊎◌}
use libnvmmio.Lock.{RwLock, unlocked, write_trylock}
use libnvmmio.Memory.{Pmem}
use libnvmmio.Radixlog.{IdxEntry, TableType}
use libnvmmio.Mmio.World.{World}
use libnvmmio.Mmio.Checkpoint.{checkpoint_slot, checkpoint_slots, retire}
use libnvmmio.Mmio.Checkpoint.Blocks.{Key, key_equal_or_not, slot, slot-leaf}
use libnvmmio.Mmio.Checkpoint.Slots.{Sound, Step, both-Step, same-Step, locked, locked-Step}
use libnvmmio.Mmio.Checkpoint.Retired.{retire-Step}

module _ (home len : Key → ℕ) (pmem : Pmem) (current_epoch : ℕ) where
  -- The entry of the slot, if there is one, is committed and not locked.
  abbrev pub Idle : World → Key → Type 0
  Idle w k =
      (p : ℕ)
      → slot w k ≡ some p
      → ((w.heap.entries p).epoch < current_epoch) × ((w.heap.entries p).rwlock ≡ unlocked)

  -- A step leaves a slot and its entry alone.
  pub record Untouched (w w' : World) (k : Key) : Type 0 where
    pub same_slot : slot w' k ≡ slot w k
    pub same_entry : (q : ℕ) → slot w k ≡ some q → w'.heap.entries q ≡ w.heap.entries q

  -- A step empties a slot or leaves it alone.
  abbrev pub Left : World → World → Key → Type 0
  Left w w' k = (slot w' k ≡ none) ⊎ Untouched w w' k

  pub same-Untouched : (w : World) (k : Key) → Untouched w w k
  same-Untouched w k = record { same_slot = refl; same_entry = λ q there. refl }

  pub none-Left : {w w' : World} (k : Key) → slot w k ≡ none → Left w w' k → slot w' k ≡ none
  none-Left k gone (inl gone') = gone'
  none-Left k gone (inr same) = same.same_slot ∙ gone

  pub both-Left : {u v w : World} (k : Key) → Left u v k → Left v w k → Left u w k
  both-Left k a (inl gone) = inl gone
  both-Left k (inl gone) (inr b) = inl (b.same_slot ∙ gone)
  both-Left k (inr a) (inr b) = inr (record {
    same_slot = b.same_slot ∙ a.same_slot;
    same_entry = λ q there. b.same_entry q (a.same_slot ∙ there) ∙ a.same_entry q there;
  })

  -- A slot that is left alone still has a committed entry that is not locked.
  pub Left-Idle : {w w' : World} (k : Key) → Left w w' k → Idle w k → Idle w' k
  Left-Idle k (inl gone) idle p there = absurd (ground (arith, gone, there))
  Left-Idle k (inr same) idle p there =
      let there' = sym same.same_slot ∙ there in
      subst (λ (e : IdxEntry). (e.epoch < current_epoch) × (e.rwlock ≡ unlocked))
        (sym (same.same_entry p there')) (idle p there')

  -- A round for slot `k`.
  record Round (k : Key) (w w' : World) : Type 0 where
    step : Step home len w w'
    same_mmio : w'.mmio ≡ w.mmio
    left : (j : Key) → Left w w' j
    emptied : Idle w k → slot w' k ≡ none

  skipped-Round :
      (k : Key) (w : World) → Sound home len w → (Idle w k → slot w k ≡ none) → Round k w w
  skipped-Round k w sound gone = record {
    step = same-Step home len w sound;
    same_mmio = refl;
    left = λ j. inr (same-Untouched w j);
    emptied = gone;
  }

  write_trylock-unlocked : (l : RwLock) → l ≡ unlocked → write_trylock l ≡ none → ⊥
  unfolding write_trylock
  write_trylock-unlocked l free held = cc

  retire-locked :
      (k : Key) (p log_size : ℕ) (w : World) (sound : Sound home len w)
      → slot w k ≡ some p
      → log_size ≡ (w.tables.tables k.0).log_size
      → (l : RwLock)
      → (w' : World) × (retire pmem k.0 k.1 p log_size (locked home len w sound p l) ≡ some w')
        × Round k w w'
  retire-locked k p log_size w sound there own_size l =
      let w1 = locked home len w sound p l in
      let step = locked-Step home len w sound p l in
      let (w', e, next, cleared) =
        retire-Step home len pmem k p log_size w1 step.sound there
          (own_size ∙ sym (step.sound.lent.sized k p there)) in
      (
        w',
        e,
        record {
          step = both-Step home len step next;
          same_mmio = cleared.same_mmio;
          left = λ j. elim (key_equal_or_not k j) [
            | inl same ↦ inl (subst (λ i. slot w' i ≡ none) same cleared.slot_here)
            | inr ne ↦ inr (record {
              same_slot = cleared.slot_other j ne;
              same_entry = λ q at_j.
                  cleared.entry_other j q ne at_j
                  ∙ update_ne w.heap.entries p q (record (w.heap.entries p) { rwlock = l })
                      (sound.blocks.once k j p q ne there at_j);
            })
          ];
          emptied = λ idle. cleared.slot_here;
        },
      )

  checkpoint_slot-Round :
      (t i log_size : ℕ) (w : World)
      → Sound home len w
      → (w.tables.tables t).type ≡ TableType.table
      → log_size ≡ (w.tables.tables t).log_size
      → (w' : World) × (checkpoint_slot pmem current_epoch t i log_size w ≡ some w')
        × Round (t, i) w w'
  unfolding checkpoint_slot
  checkpoint_slot-Round t i log_size w sound leaf own_size =
      let entries = slot-leaf w (t, i) leaf in
      elim (Option-cases ((w.tables.tables t).entries i)) [
        | inl gone ↦
            rw (checkpoint_slot, gone)
              (w, refl, skipped-Round (t, i) w sound (λ idle. entries ∙ gone))
        | inr (p, at_i) ↦
            (let there = entries ∙ at_i in
              elim (Bool-cases (ltb (w.heap.entries p).epoch current_epoch)) [
                | inr new ↦
                    rw (checkpoint_slot, at_i, new)
                      (
                        w,
                        refl,
                        skipped-Round (t, i) w sound
                            (λ idle. absurd (ground (arith, (idle p there).0, new))),
                      )
                | inl old ↦ elim (Option-cases (write_trylock (w.heap.entries p).rwlock)) [
                  | inl held ↦
                      rw (checkpoint_slot, at_i, old, held)
                        (
                          w,
                          refl,
                          skipped-Round (t, i) w sound
                              (λ idle. absurd (
                                write_trylock-unlocked (w.heap.entries p).rwlock (idle p there).1
                                  held)),
                        )
                  | inr (l, e) ↦
                      (let w1 = locked home len w sound p l in
                        let e' = record (w.heap.entries p) { rwlock = l } in
                        let at_p = update_self w.heap.entries p e' in
                        elim (Bool-cases (ltb (w1.heap.entries p).epoch current_epoch)) [
                          | inl again ↦
                              rw (checkpoint_slot, at_i, old, e, again)
                                (retire-locked (t, i) p log_size w sound there own_size l)
                          | inr changed ↦
                              absurd
                                (ground (arith, ap (λ (x : IdxEntry). x.epoch) at_p, old, changed))
                        ])
                ]
              ])
      ]

  -- What the rounds for the slots from `i` to `i + rounds - 1` of table `t` leave: every block reads
  -- as before, and a slot whose entry is committed and not locked is empty.
  pub record Swept (t i rounds : ℕ) (w w' : World) : Type 0 where
    pub step : Step home len w w'
    pub same_mmio : w'.mmio ≡ w.mmio
    pub left : (k : Key) → Left w w' k
    pub emptied : (j : ℕ) → i ≤ j → j < i + rounds → Idle w (t, j) → slot w' (t, j) ≡ none

  -- Where the entries of all tables log the blocks of their slots under REDO, apart from each other,
  -- and are not on the free lists, the inner loop of checkpoint_mmio over a table of the last level
  -- returns; every block reads as before; each slot of every table is left alone or emptied; and
  -- each slot that the loop passes whose entry is committed and not locked is empty, so that the
  -- file itself holds the block.
  pub checkpoint_slots-Swept :
      (rounds t i log_size : ℕ) (w : World)
      → Sound home len w
      → (w.tables.tables t).type ≡ TableType.table
      → log_size ≡ (w.tables.tables t).log_size
      → (w' : World) × (checkpoint_slots pmem rounds current_epoch t i log_size w ≡ some w')
        × Swept t i rounds w w'
  unfolding checkpoint_slots
  checkpoint_slots-Swept zero t i log_size w sound leaf own_size = (
    w,
    refl,
    record {
      step = same-Step home len w sound;
      same_mmio = refl;
      left = λ k. inr (same-Untouched w k);
      emptied = λ j ge lt idle. absurd (omega arith);
    },
  )
  checkpoint_slots-Swept (suc rounds) t i log_size w sound leaf own_size =
      let (w1, e, round) = checkpoint_slot-Round t i log_size w sound leaf own_size in
      let kept = round.step.kept in
      let (w', e', rest) =
        checkpoint_slots-Swept rounds t (i + 1) log_size w1 round.step.sound
          (kept.same_type t ∙ leaf) (own_size ∙ sym (kept.same_size t)) in
      (
        w',
        rw e e',
        record {
          step = both-Step home len round.step rest.step;
          same_mmio = rest.same_mmio ∙ round.same_mmio;
          left = λ k. both-Left k (round.left k) (rest.left k);
          emptied = λ j ge lt idle. elim (equal_or_not i j) [
            | inl same ↦
                none-Left (t, j)
                  (subst (λ k. slot w1 (t, k) ≡ none) same
                    (round.emptied (subst (λ k. Idle w (t, k)) (sym same) idle)))
                  (rest.left (t, j))
            | inr ne ↦
                rest.emptied j (omega (arith, ne)) (omega arith)
                  (Left-Idle (t, j) (round.left (t, j)) idle)
          ];
        },
      )
