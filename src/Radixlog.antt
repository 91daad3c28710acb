-- ===== src/Radixlog.antt =====
-- src/radixlog.h: the shapes of the log index, and the arithmetic of its macros.
pub mod Bounds
pub mod Size
pub mod Walk
pub mod Init
pub mod Rooted
pub mod Depth
pub mod Cache
pub mod Lookup
pub mod Blocks
pub mod Sized
pub mod Entries
use libnvmmio.Prelude.{ℕ, ◌+◌, ◌-◌, ◌/◌, ◌%◌, ◌^◌, Option}
use libnvmmio.Lock.{RwLock}

-- `table_type_t`
pub data TableType : Type 0 where
  table lmd lud lgd : TableType

-- `policy_t` of src/mmio.h
pub data Policy : Type 0 where
  undo redo : Policy

-- `idx_entry_t`; `rwlock` is the lock behind `rwlockp`. The member `list` is not here: the list of
-- locked entries is a list of pointers.
pub record IdxEntry : Type 0 where
  pub epoch : ℕ  -- 20 bits
  pub offset : ℕ  -- 21 bits
  pub len : ℕ  -- 22 bits
  pub policy : Policy
  pub log : ℕ
  pub dst : ℕ
  pub rwlock : RwLock
  pub log_size : ℕ

-- `log_table_t`: an entry points to a table or, in a `table`, to an index entry.
pub record LogTable : Type 0 where
  pub log_size : ℕ
  pub type : TableType
  pub entries : ℕ → Option ℕ

-- `radix_root_t`
pub record RadixRoot : Type 0 where
  pub lgd : Option ℕ
  pub skip : Option ℕ
  pub prev_table : ℕ
  pub prev_table_index : ℕ

-- PTRS_PER_TABLE
abbrev pub ptrs_per_table : ℕ
ptrs_per_table = 2 ^ 9

abbrev pub page_shift : ℕ
page_shift = 12

abbrev pub lgd_shift : ℕ
lgd_shift = 39

abbrev pub lud_shift : ℕ
lud_shift = 30

abbrev pub lmd_shift : ℕ
lmd_shift = 21

-- LOG_SHIFT(s), in an order in which no difference goes below 0.
abbrev pub log_shift : ℕ → ℕ
log_shift s = lmd_shift - (lmd_shift - page_shift) + s

-- LOG_SIZE(s)
unfoldable pub log_bytes : ℕ → ℕ
log_bytes s = 2 ^ log_shift s

-- LOG_OFFSET(addr, s), and what `addr & LOG_MASK(s)` leaves.
abbrev pub log_offset_of : ℕ → ℕ → ℕ
log_offset_of addr s = addr % log_bytes s

abbrev pub log_base_of : ℕ → ℕ → ℕ
log_base_of addr s = addr - addr % log_bytes s

-- NR_ENTRIES(s). C gives a shift by a negative count no meaning; the count is taken modulo 64 here,
-- as the machine takes it, so that a table without a size, whose shift is by -1, has 2^63.
unfoldable pub nr_entries : ℕ → ℕ
nr_entries s = 2 ^ ((lmd_shift + 2 ^ 6 - log_shift s) % 2 ^ 6)

-- TABLE_MASK is `table_span - 1`.
abbrev pub table_span : ℕ
table_span = 2 ^ 27

abbrev pub lgd_index : ℕ → ℕ
lgd_index offset = offset / 2 ^ lgd_shift % ptrs_per_table

abbrev pub lud_index : ℕ → ℕ
lud_index offset = offset / 2 ^ lud_shift % ptrs_per_table

abbrev pub lmd_index : ℕ → ℕ
lmd_index offset = offset / 2 ^ lmd_shift % ptrs_per_table

abbrev pub table_index : ℕ → ℕ → ℕ
table_index s offset = offset / log_bytes s % nr_entries s

-- NEXT_TABLE_TYPE; below TABLE there is none.
