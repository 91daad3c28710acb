-- ===== src/Bravo/Invariant/Moves.antt =====
-- src/bravo.c: a move of thread `t` keeps each field of `Inv`.
use libnvmmio.Prelude.{ℕ, ◌≡◌, refl, Bool, true, false, some, update, arith}
use native.Mathlib.Decide.{ℕ_discrete}
use libnvmmio.Bravo.{
  BravoMem, Pc, reading, fast, slow, Move, read_biased, read_plain, cas_win, still_biased, retract,
  rdlock, set_bias, seen, unseen, clear, wrlock, claim_plain, reset_bias, pass, scanned,
  write_unlock,
}
use libnvmmio.Bravo.Hash.{bravo_hash, bravo_hash-lt}
use libnvmmio.Bravo.Invariant.Defs.{
  slot_lock, fast_lock, slow_lock, write_lock, plain_lock, call_lock, crossed, writer_scans,
  IsApart, SlotOwner, Inv,
}

call-slot_lock : (p : Pc) {l : ℕ} → slot_lock p ≡ some l → call_lock p ≡ some l
call-slot_lock p q = ground arith

module _ {uses : ℕ → ℕ → Bool} {m : BravoMem} {pc : ℕ → Pc} (inv : Inv uses m pc) (t : ℕ) where
  open inv use {
    used, straight, exclusive, shared, held, claims, owned, visible, taken, plain, barred,
  }

  Move-used :
      {p p' : Pc} {m' : BravoMem}
      → Move uses t m p m' p'
      → pc t ≡ p
      → (s l : ℕ) → call_lock (update pc t p' s) ≡ some l
      → uses s l ≡ true
  Move-used (read_biased u b) e s l q = ground (arith, used s l, u)
  Move-used (read_plain u b) e s l q = ground (arith, used s l, u)
  Move-used mv e s l q = ground (arith, used s l)

  Move-exclusive :
      {p p' : Pc} {m' : BravoMem}
      → Move uses t m p m' p'
      → pc t ≡ p
      → (l w s : ℕ) → (m'.locks l).writer ≡ some w
      → (m'.locks l).readers s ≡ false
  Move-exclusive (rdlock free) e l w s q = ground (arith, exclusive l w s, free)
  Move-exclusive (wrlock u free none_reads) e l w s q =
      ground (arith, exclusive l w s, none_reads s)
  Move-exclusive mv e l w s q = ground (arith, exclusive l w s)

  Move-shared :
      {p p' : Pc} {m' : BravoMem}
      → Move uses t m p m' p'
      → pc t ≡ p
      → (s l : ℕ) → slow_lock (update pc t p' s) ≡ some l
      → (m'.locks l).readers s ≡ true
  Move-shared (rdlock free) e s l q = ground (arith, shared s l)
  Move-shared mv e s l q = ground (arith, shared s l, straight t)

  Move-owned :
      {p p' : Pc} {m' : BravoMem}
      → Move uses t m p m' p'
      → pc t ≡ p
      → (s l : ℕ) → write_lock (update pc t p' s) ≡ some l
      → (m'.locks l).writer ≡ some s
  Move-owned (wrlock u free none_reads) e s l q = ground (arith, owned s l, free)
  Move-owned mv e s l q = ground (arith, owned s l, owned t l)

  Move-claims :
      {p p' : Pc} {m' : BravoMem}
      → Move uses t m p m' p'
      → pc t ≡ p
      → (s l : ℕ) → (m'.locks l).writer ≡ some s
      → write_lock (update pc t p' s) ≡ some l
  Move-claims (wrlock u free none_reads) e s l q = ground (arith, claims s l)
  Move-claims mv e s l q = ground (arith, claims s l)

  Move-plain :
      {p p' : Pc} {m' : BravoMem}
      → Move uses t m p m' p'
      → pc t ≡ p
      → (s l : ℕ) → plain_lock (update pc t p' s) ≡ some l
      → (m'.locks l).rbias ≡ false
  Move-plain (set_bias {l = l'}) e s l q =
      ground (arith, plain s l, owned s l, shared t l', exclusive l s t)
  Move-plain (claim_plain b) e s l q = ground (arith, plain s l, b)
  Move-plain mv e s l q = ground (arith, plain s l)

  Move-taken :
      {p p' : Pc} {m' : BravoMem}
      → Move uses t m p m' p'
      → pc t ≡ p
      → (i l : ℕ) → m'.visible_readers i ≡ some l
      → SlotOwner (update pc t p') i l
  Move-taken (cas_win {c} {l = l'} free) e i l q = elim (ℕ_discrete (bravo_hash t l') i) [
    | yes here ↦ (t, ground (arith, here, q), ground (arith, here, q))
    | no other ↦
        let (s, h, o) = taken i l (ground (arith, other, q)) in (s, h, ground (arith, h, o, e))
  ]
  Move-taken (retract {l = l'}) e i l q =
      let (s, h, o) = taken i l (ground (arith, q)) in (s, h, ground (arith, h, o, e, q))
  Move-taken (clear {k = fast} {l = l'}) e i l q =
      let (s, h, o) = taken i l (ground (arith, q)) in (s, h, ground (arith, h, o, e, q))
  Move-taken (clear {k = slow} {l = l'}) e i l q = ground (arith, straight t)
  Move-taken (unseen {k = fast} {l = l'} free) e i l q =
      let (s, h, o) = taken i l q in (s, h, ground (arith, o, e, visible t l', free))
  Move-taken (seen {k = fast} some_lock) e i l q =
      let (s, h, o) = taken i l q in (s, h, ground (arith, o, e))
  Move-taken (seen {k = slow} some_lock) e i l q =
      let (s, h, o) = taken i l q in (s, h, ground (arith, o, e))
  Move-taken mv e i l q = let (s, h, o) = taken i l q in (s, h, ground (arith, h, o, e))

  Move-barred :
      {p p' : Pc} {m' : BravoMem}
      → Move uses t m p m' p'
      → pc t ≡ p
      → (s l : ℕ) → fast_lock (update pc t p' s) ≡ some l
      → (m'.locks l).rbias ≡ false
      → writer_scans (m'.locks l).writer (update pc t p') l (bravo_hash s l) ≡ true
  Move-barred (still_biased {c} {l = l'} b) e s l q r = ground (arith, barred s l, b)
  Move-barred (wrlock {l = l'} u free none_reads) e s l q r = ground (arith, barred s l, free)
  Move-barred (reset_bias {l = l'} start) e s l q r = ground (arith, barred s l, owned t l')
  Move-barred (pass {start} {i} {l = l'} lt other) e s l q r =
      ground (arith, barred s l, owned t l', visible s l, other)
  Move-barred (scanned {start} {l = l'} now le) e s l q r =
      ground (arith, barred s l, owned t l', bravo_hash-lt s l)
  Move-barred (write_unlock {l = l'}) e s l q r = ground (arith, barred s l, owned t l')
  Move-barred mv e s l q r = ground (arith, barred s l)

  module _ (apart : IsApart uses) where
    -- A reader that came the slow way has no slot set.
    slow-unseen :
        {l l' : ℕ} → pc t ≡ reading slow l → m.visible_readers (bravo_hash t l) ≡ some l' → ⊥
    slow-unseen {l} {l'} e q =
        let (s, same_slot, set) = taken (bravo_hash t l) l' q in
        let (own, same_lock) =
          apart s l' t l (used s l' (call-slot_lock (pc s) set)) (ground (arith, used t l))
            same_slot in
        ground (arith, e, set, own, same_lock)

    Move-held :
        {p p' : Pc} {m' : BravoMem}
        → Move uses t m p m' p'
        → pc t ≡ p
        → (s l : ℕ) → (m'.locks l).readers s ≡ true
        → slow_lock (update pc t p' s) ≡ some l
    Move-held (rdlock free) e s l q = ground (arith, held s l)
    Move-held (seen {k = fast} x) e s l q = ground (arith, held s l)
    Move-held (seen {k = slow} x) e s l q = absurd (slow-unseen e x)
    Move-held mv e s l q = ground (arith, held s l, straight t)

    Move-straight :
        {p p' : Pc} {m' : BravoMem}
        → Move uses t m p m' p'
        → pc t ≡ p
        → (s : ℕ) → crossed (update pc t p' s) ≡ false
    Move-straight (seen {k = fast} q) e s = ground (arith, straight s)
    Move-straight (seen {k = slow} q) e s = absurd (slow-unseen e q)
    Move-straight (unseen {k = fast} {l} q) e s = ground (arith, visible t l, q)
    Move-straight (unseen {k = slow} q) e s = ground (arith, straight s)
    Move-straight mv e s = ground (arith, straight s)

    Move-visible :
        {p p' : Pc} {m' : BravoMem}
        → Move uses t m p m' p'
        → pc t ≡ p
        → (s l : ℕ) → slot_lock (update pc t p' s) ≡ some l
        → m'.visible_readers (bravo_hash s l) ≡ some l
    Move-visible (cas_win free) e s l q = ground (arith, visible s l, free)
    Move-visible (retract {l = l'}) e s l q =
        ground (arith, visible s l, apart t l' s l, used t l', used s l)
    Move-visible (clear {k = fast} {l = l'}) e s l q =
        ground (arith, visible s l, apart t l' s l, used t l', used s l)
    Move-visible (clear {k = slow} {l = l'}) e s l q = ground (arith, straight t)
    Move-visible mv e s l q = ground (arith, visible s l)

    pub Move-Inv :
        {p' : Pc} {m' : BravoMem} → Move uses t m (pc t) m' p' → Inv uses m' (update pc t p')
    Move-Inv mv = record {
      used = Move-used mv refl;
      straight = Move-straight mv refl;
      exclusive = Move-exclusive mv refl;
      shared = Move-shared mv refl;
      held = Move-held mv refl;
      claims = Move-claims mv refl;
      owned = Move-owned mv refl;
      visible = Move-visible mv refl;
      taken = Move-taken mv refl;
      plain = Move-plain mv refl;
      barred = Move-barred mv refl;
    }
