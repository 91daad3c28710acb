-- ===== src/Mmio/World/Rounds.antt =====
-- src/mmio.c: the rounds of LOCK_ENTRIES.
use libnvmmio.Prelude.{
  ℕ, zero, suc, ◌+◌, ◌-◌, ◌^◌, ◌≤◌, ◌<◌, ◌≡◌, inl, inr, true, false, Bool-cases, Option-cases,
  Option, none, some, >>=-eq-some, List, [], ◌∷◌, arith,
}
use libnvmmio.Prelude.Words.{to_int, int_positive, sign_extend, int_sub}
use libnvmmio.Radixlog.{log_bytes, log_offset_of, table_index}
use libnvmmio.Radixlog.Bounds.{log_bytes_pos, log_bytes-le}
use libnvmmio.Radixlog.Cache.{at_result}
use libnvmmio.Radixlog.Walk.{get_log_table}
use libnvmmio.Radixlog.Entries.{get_log_size, get_log_entry}
use libnvmmio.Radixlog.Sized.{
  IsSized, get_log_table-IsSized, get_log_size-IsSized, get_log_entry-IsSized,
}
use libnvmmio.Mmio.World.{World, LockType, trylock, lock_entry, lock_loop, lock_entries}

-- What a round that locks an entry gives.
record Round (log_len : ℕ) (w : World) : Type 0 where
  some_bytes : 0 < log_len
  few : log_len ≤ 2 ^ 21
  sized : IsSized w.tables.tables

log_len-bounds :
    (s off : ℕ)
    → s ≤ 9
    → (0 < log_bytes s - log_offset_of off s) × (log_bytes s - log_offset_of off s ≤ 2 ^ 21)
log_len-bounds s off le = omega (arith, log_bytes_pos s, log_bytes-le s le)

lock_entry-Round :
    {w' : World} {p log_len : ℕ} (type : LockType) (n off : ℕ) (w : World)
    → lock_entry type n off w ≡ some (p, log_len, w')
    → IsSized w.tables.tables
    → Round log_len w'
unfolding lock_entry
lock_entry-Round type n off w h sized =
    let ((t, root, tables), e1, h1) =
      >>=-eq-some (get_log_table w.mmio.radixlog off w.tables) _ h in
    let sized1 = get_log_table-IsSized w.mmio.radixlog off w.tables e1 sized in
    let log_size = (get_log_size t off (sign_extend n) tables.tables).0 in
    let sized_tables = (get_log_size t off (sign_extend n) tables.tables).1 in
    let (le, sized2) = get_log_size-IsSized t off (sign_extend n) tables.tables sized1 in
    let ((q, filled, heap), e2, h2) =
      >>=-eq-some
        (get_log_entry w.mmio.epoch t (table_index log_size off) log_size (sized_tables, w.heap)) _
        h1 in
    let sized3 =
      get_log_entry-IsSized w.mmio.epoch t (table_index log_size off) log_size sized_tables w.heap
        e2 sized2 in
    let (l, e3, h3) = >>=-eq-some (trylock type (heap.entries q).rwlock) _ h2 in
    let (pos, few) = log_len-bounds log_size off le in
    at_result (λ (x : ℕ × ℕ × World). Round x.1 x.2) h3
      (record { some_bytes = pos; few = few; sized = sized3 })

-- The `while` loop of LOCK_ENTRIES with `n` bytes to go at `off`, in the world `w`, ends with `r`:
-- with no bytes left, in a round that ends the program or waits for ever, or after a round from
-- which it goes on.
data Locks (type : LockType) : (n off : ℕ) → List ℕ → World → Option (List ℕ × World) → Type 0 where
  over :
      {n off : ℕ} {ps : List ℕ} {w : World}
      → int_positive n ≡ false
      → Locks type n off ps w (some (ps, w))
  fails :
      {n off : ℕ} {ps : List ℕ} {w : World}
      → int_positive n ≡ true
      → lock_entry type n off w ≡ none
      → Locks type n off ps w none
  next :
      {n off p log_len : ℕ} {ps : List ℕ} {w w' : World} {r : Option (List ℕ × World)}
      → int_positive n ≡ true
      → lock_entry type n off w ≡ some (p, log_len, w')
      → Locks type (int_sub n log_len) (off + log_len) (p ∷ ps) w' r
      → Locks type n off ps w r

-- The bytes to go after a round: fewer, or not positive.
int_sub-le :
    (n log_len rounds : ℕ)
    → int_positive n ≡ true
    → n ≤ suc rounds
    → 0 < log_len
    → log_len ≤ 2 ^ 21
    → int_positive (int_sub n log_len) ≡ true
    → int_sub n log_len ≤ rounds
int_sub-le n log_len rounds pos le some_bytes few pos' =
    ground (arith, pos, le, some_bytes, few, pos')

lock_loop-Locks :
    (rounds : ℕ) (type : LockType) (n off : ℕ) (ps : List ℕ) (w : World)
    → IsSized w.tables.tables
    → (int_positive n ≡ true → n ≤ rounds)
    → Locks type n off ps w (lock_loop (suc rounds) type n off ps w)
unfolding lock_loop
lock_loop-Locks zero type n off ps w sized enough = elim (Bool-cases (int_positive n)) [
  | inl goes ↦ absurd (ground (arith, goes, enough goes))
  | inr done ↦ rw done (over done)
]
lock_loop-Locks (suc rounds) type n off ps w sized enough = elim (Bool-cases (int_positive n)) [
  | inr done ↦ rw done (over done)
  | inl goes ↦ elim (Option-cases (lock_entry type n off w)) [
    | inl failed ↦ rw (goes, failed) (fails goes failed)
    | inr ((p, log_len, w'), e) ↦
        (let r = lock_entry-Round type n off w e sized in
          rw (goes, e)
            (next goes e (
              lock_loop-Locks rounds type (int_sub n log_len) (off + log_len) (p ∷ ps) w' r.sized
                (int_sub-le n log_len rounds goes (enough goes) r.some_bytes r.few))))
  ]
]

-- Where the tables have one of the ten sizes or none yet, the rounds that the loop of LOCK_ENTRIES is
-- given are never used up: the run is over, or stands in a round that fails or waits for ever.
lock_entries-Locks :
    (type : LockType) (offset len : ℕ) (w : World)
    → IsSized w.tables.tables
    → Locks type (to_int len) offset [] w (lock_entries type offset len w)
unfolding lock_entries
lock_entries-Locks type offset len w sized =
    lock_loop-Locks (to_int len) type (to_int len) offset [] w sized (λ e. omega arith)
