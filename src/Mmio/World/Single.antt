-- ===== src/Mmio/World/Single.antt =====
-- src/mmio.c: LOCK_ENTRIES for a request in one block, and again for a part of the block.
use libnvmmio.Prelude.{
  ℕ, zero, suc, ◌+◌, ◌-◌, ◌^◌, ◌≤◌, ◌<◌, ◌≡◌, refl, sym, ◌∙◌, ap, inl, inr, true, false, Bool-cases,
  some, >>=-eq-some, List, [], ◌∷◌, ◌==◌, arith, update_self,
}
use mathlib.Core.Path.{subst}
use libnvmmio.Prelude.Words.{to_int, int_positive, sign_extend, int_sub}
use libnvmmio.Lock.{RwLock, held, writing, write_trylock}
use libnvmmio.Radixlog.{IdxEntry, log_bytes, log_offset_of, table_index, RadixRoot}
use libnvmmio.Radixlog.Blocks.{table_index-add, piece-add}
use libnvmmio.Radixlog.Bounds.{log_offset_of-add}
use libnvmmio.Radixlog.Cache.{piece, at_result}
use libnvmmio.Radixlog.Sized.{IsSized, get_log_table-IsSized, get_log_size-IsSized}
use libnvmmio.Radixlog.Walk.{Tables, TableHeap, get_log_table, check_prev_table, get_from}
use libnvmmio.Radixlog.Entries.{EntryHeap, get_log_size, get_log_entry, claim_entry}
use libnvmmio.Mmio.World.{World, LockType, trylock, lock_entry, lock_loop, lock_entries, put_entry}

-- The table of the piece is kept from the last call.
pub record Cached (off t : ℕ) (root : RadixRoot) : Type 0 where
  pub index : root.prev_table_index ≡ piece off
  pub table : root.prev_table ≡ t

get_log_table-Cached :
    (root : RadixRoot) (off : ℕ) (h : TableHeap) {r : ℕ × RadixRoot × TableHeap}
    → get_log_table root off h ≡ some r
    → Cached off r.0 r.1
unfolding get_log_table check_prev_table
get_log_table-Cached root off h {r} e = elim (Bool-cases (root.prev_table_index == piece off)) [
  | inl hit ↦
      at_result (λ (s : ℕ × RadixRoot × TableHeap). Cached off s.0 s.1) (rw hit at e)
        (record { index = ground (arith, hit); table = refl })
  | inr miss ↦
      let (skip, e1, e2) = >>=-eq-some root.skip _ (rw miss at e) in
      let ((t, h'), e3, e4) = >>=-eq-some (get_from (h.tables skip).type skip off h) _ e2 in
      at_result (λ (s : ℕ × RadixRoot × TableHeap). Cached off s.0 s.1) e4
        (record { index = refl; table = refl })
]

-- A later call for the piece finds the table, and changes nothing.
Cached-get_log_table :
    (root : RadixRoot) (off x t : ℕ) (h : TableHeap)
    → Cached off t root
    → piece x ≡ piece off
    → get_log_table root x h ≡ some (t, root, h)
unfolding get_log_table check_prev_table
Cached-get_log_table root off x t h c same = ground (arith, c.index, c.table, same)

-- The log size that a call of get_log_size gives is set.
get_log_size-set :
    (t off n : ℕ) (tables : Tables)
    → ((get_log_size t off n tables).1 t).log_size ≡ (get_log_size t off n tables).0
unfolding get_log_size
get_log_size-set t off n tables = ground arith

-- A later call gives it again, and changes nothing.
get_log_size-again :
    (t s off n : ℕ) (tables : Tables)
    → (tables t).log_size ≡ s
    → s ≤ 9
    → get_log_size t off n tables ≡ (s, tables)
unfolding get_log_size
get_log_size-again t s off n tables set le = ground (arith, set, le)

get_log_entry-slot :
    (epoch t index s : ℕ) (tables : Tables) (h : EntryHeap) {r : ℕ × Tables × EntryHeap}
    → get_log_entry epoch t index s (tables, h) ≡ some r
    → ((r.1 t).entries index ≡ some r.0) × ((r.1 t).log_size ≡ (tables t).log_size)
unfolding get_log_entry claim_entry
get_log_entry-slot epoch t index s tables h e = ground (arith, e)

-- What a round of LOCK_ENTRIES for the offset `off` has found and locked.
pub record Locked (off p log_len : ℕ) (w : World) : Type 0 where
  pub t : ℕ
  pub s : ℕ
  pub cached : Cached off t w.mmio.radixlog
  pub sized : (w.tables.tables t).log_size ≡ s
  pub small : s ≤ 9
  pub slot : (w.tables.tables t).entries (table_index s off) ≡ some p
  pub entry_sized : (w.heap.entries p).log_size ≡ s
  pub len : log_len ≡ log_bytes s - log_offset_of off s

pub lock_entry-Locked :
    {w' : World} {p log_len : ℕ} (type : LockType) (n off : ℕ) (w : World)
    → lock_entry type n off w ≡ some (p, log_len, w')
    → IsSized w.tables.tables
    → Locked off p log_len w'
unfolding lock_entry
lock_entry-Locked type n off w h sized =
    let ((t, root, tables), e1, h1) =
      >>=-eq-some (get_log_table w.mmio.radixlog off w.tables) _ h in
    let sized1 = get_log_table-IsSized w.mmio.radixlog off w.tables e1 sized in
    let log_size = (get_log_size t off (sign_extend n) tables.tables).0 in
    let sized_tables = (get_log_size t off (sign_extend n) tables.tables).1 in
    let (le, sized2) = get_log_size-IsSized t off (sign_extend n) tables.tables sized1 in
    let ((q, filled, heap), e2, h2) =
      >>=-eq-some
        (get_log_entry w.mmio.epoch t (table_index log_size off) log_size (sized_tables, w.heap)) _
        h1 in
    let (in_slot, kept_size) =
      get_log_entry-slot w.mmio.epoch t (table_index log_size off) log_size sized_tables w.heap
        e2 in
    let (l, e3, h3) = >>=-eq-some (trylock type (heap.entries q).rwlock) _ h2 in
    at_result (λ (x : ℕ × ℕ × World). Locked off x.0 x.1 x.2) h3
      (record {
        t = t;
        s = log_size;
        cached = get_log_table-Cached w.mmio.radixlog off w.tables e1;
        sized = kept_size ∙ get_log_size-set t off (sign_extend n) tables.tables;
        small = le;
        slot = in_slot;
        entry_sized = ap (λ (e : IdxEntry). e.log_size) (update_self heap.entries q _);
        len = refl;
      })

-- The entry of the block, locked once more.
abbrev pub relocked : (p s : ℕ) → RwLock → World → World
relocked p s l w = put_entry p (record (w.heap.entries p) { rwlock = l; log_size = s }) w

-- In a world with the same index, a round for another offset of the block finds the same entry.
pub Locked-lock_entry :
    {off p log_len : ℕ} {w : World} (locked : Locked off p log_len w) (v : World) (type : LockType)
    (n d : ℕ) (l : RwLock)
    → v.tables ≡ w.tables
    → v.mmio.radixlog ≡ w.mmio.radixlog
    → log_offset_of off locked.s + d < log_bytes locked.s
    → trylock type (v.heap.entries p).rwlock ≡ some l
    → lock_entry type n (off + d) v
      ≡ some (p, log_bytes locked.s - (log_offset_of off locked.s + d), relocked p locked.s l v)
unfolding lock_entry get_log_entry
Locked-lock_entry {off} {p} {log_len} {w} locked v type n d l same_tables same_root inside free =
    let k = piece-add locked.s off d locked.small inside in
    let c = subst (Cached off locked.t) (sym same_root) locked.cached in
    let e1 = Cached-get_log_table v.mmio.radixlog off (off + d) locked.t v.tables c k in
    let e2 =
      get_log_size-again locked.t locked.s (off + d) (sign_extend n) v.tables.tables
        (subst (λ (h : TableHeap). (h.tables locked.t).log_size ≡ locked.s) (sym same_tables)
          locked.sized)
        locked.small in
    let e3 = table_index-add locked.s off d inside in
    let e4 =
      subst (λ (h : TableHeap). (h.tables locked.t).entries (table_index locked.s off) ≡ some p)
        (sym same_tables) locked.slot in
    rw (e1, e2, e3, e4, free, log_offset_of-add locked.s off d inside) refl

lock_loop-done :
    (rounds : ℕ) (type : LockType) (n off : ℕ) (ps : List ℕ) (w : World)
    → 0 < rounds
    → int_positive n ≡ false
    → lock_loop rounds type n off ps w ≡ some (ps, w)
unfolding lock_loop
lock_loop-done zero type n off ps w pos ends = absurd (omega arith)
lock_loop-done (suc rounds) type n off ps w pos ends = rw ends

-- A request that ends in the block of its first round takes one round.
pub lock_entries-one :
    {p log_len : ℕ} {w' : World} (type : LockType) (offset len : ℕ) (w : World)
    → lock_entry type (to_int len) offset w ≡ some (p, log_len, w')
    → 0 < len
    → len ≤ log_len
    → log_len ≤ 2 ^ 21
    → lock_entries type offset len w ≡ some (p ∷ [], w')
unfolding lock_entries lock_loop
lock_entries-one {p} {log_len} {w'} type offset len w e some_bytes fits few =
    let whole : to_int len ≡ len = omega arith in
    let goes : int_positive (to_int len) ≡ true = ground (arith, some_bytes, fits, few) in
    let ends : int_positive (int_sub (to_int len) log_len) ≡ false =
      ground (arith, some_bytes, fits, few) in
    rw (goes, e)
      (lock_loop-done (to_int len) type (int_sub (to_int len) log_len) (offset + log_len) (p ∷ [])
        w' (omega (arith, some_bytes, whole)) ends)

write_trylock-writing : (l : RwLock) {l' : RwLock} → write_trylock l ≡ some l' → l' ≡ writing
unfolding write_trylock
write_trylock-writing (held zero) e = cc
write_trylock-writing (held (suc k)) e = cc
write_trylock-writing writing e = cc

-- The entry that a writer has locked.
pub lock_entry-writing :
    {w' : World} {p log_len : ℕ} (n off : ℕ) (w : World)
    → lock_entry LockType.wr n off w ≡ some (p, log_len, w')
    → (w'.heap.entries p).rwlock ≡ writing
unfolding lock_entry trylock
lock_entry-writing n off w h =
    let ((t, root, tables), e1, h1) =
      >>=-eq-some (get_log_table w.mmio.radixlog off w.tables) _ h in
    let log_size = (get_log_size t off (sign_extend n) tables.tables).0 in
    let sized_tables = (get_log_size t off (sign_extend n) tables.tables).1 in
    let ((q, filled, heap), e2, h2) =
      >>=-eq-some
        (get_log_entry w.mmio.epoch t (table_index log_size off) log_size (sized_tables, w.heap)) _
        h1 in
    let (l, e3, h3) = >>=-eq-some (write_trylock (heap.entries q).rwlock) _ h2 in
    at_result (λ (x : ℕ × ℕ × World). (x.2.heap.entries x.0).rwlock ≡ writing) h3
      (ap (λ (e : IdxEntry). e.rwlock) (update_self heap.entries q _)
        ∙ write_trylock-writing (heap.entries q).rwlock e3)
