-- ===== src/Bravo/Collision.antt =====
-- src/bravo.c: two calls for different locks that share a slot.
use libnvmmio.Prelude.{ℕ, ◌≡◌, ◌≢◌, refl, sym, Bool, true, false, none, some, update, arith, ◌∙◌}
use libnvmmio.Bravo.{
  BravoState, BravoMem, ReadCall, idle, reading, writing, fast, read_biased, cas_win, cas_lose,
  still_biased, rdlock, bias_set, seen, clear, init, start, Reach, new_lock, put_lock, put_slot,
}
use libnvmmio.Bravo.Hash.{bravo_hash}
use libnvmmio.Bravo.Run.{stay, Reach-Own, Alone, still, Alone-moved, writing-Alone}

module _ (uses : ℕ → ℕ → Bool) (t u l k : ℕ) (others : t ≢ u) (differ : l ≢ k)
    (shared : bravo_hash t l ≡ bravo_hash u k) (reads : uses t l ≡ true)
    (reads_too : uses u k ≡ true) (writes : uses u l ≡ true) where
  -- Thread `t` reads under `l` by its slot.
  abbrev taken : BravoMem
  taken = put_slot (bravo_hash t l) (some l) init.mem

  first : Alone uses t init taken (reading fast l)
  first =
      let a0 : Alone uses t init init.mem idle = still uses t refl in
      let a1 = Alone-moved uses t a0 (read_biased {c = ReadCall.lock} reads refl) in
      let a2 = Alone-moved uses t a1 (cas_win refl) in Alone-moved uses t a2 (still_biased refl)

  -- Thread `u` reads under `k` by the pthread lock, as the slot is taken, and resets the slot when it
  -- unlocks.
  abbrev lost : BravoMem
  lost =
      put_slot (bravo_hash u k) none
        (put_lock k (record new_lock { readers = update (λ v. false) u true }) taken)

  second : Alone uses u first.last lost idle
  second =
      let b0 : Alone uses u first.last taken idle = record {
        last = first.last;
        own = stay;
        mem = first.mem;
        here = first.others u others;
        others = λ v ne. refl;
      } in
      let b1 = Alone-moved uses u b0 (read_biased {c = ReadCall.lock} reads_too refl) in
      let b2 = Alone-moved uses u b1 (cas_lose (ground (arith, shared))) in
      let b3 = Alone-moved uses u b2 (rdlock refl) in
      let b4 = Alone-moved uses u b3 (bias_set (ground arith)) in
      let b5 = Alone-moved uses u b4 (seen {l' = l} (ground (arith, shared))) in
      Alone-moved uses u b5 clear

  -- Where two calls of different threads for different locks share a slot, and the second thread also
  -- uses the lock of the first, some steps lead to a state in which the first thread still reads
  -- under its lock by its slot and the second writes under it: the second reset the slot of the
  -- first when it unlocked its own lock.
  pub collision : (s : BravoState) × Reach uses s × (s.pc t ≡ reading fast l) × (s.pc u ≡ writing l)
  collision =
      let (m, a) =
        writing-Alone uses u l writes (ground (arith, differ)) (λ v. ground (arith, differ))
          (ground (arith, differ)) (λ j e. ground (arith, shared, e)) second in
      (
        a.last,
        Reach-Own uses (Reach-Own uses start first.own) a.own,
        a.others t (λ e. others (sym e)) ∙ first.here,
        a.here,
      )
