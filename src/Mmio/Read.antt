-- ===== src/Mmio/Read.antt =====
-- src/mmio.c: `read_redolog`, which joins the bytes of the logs and of the file.
pub mod Cases
pub mod Block
use libnvmmio.Prelude.{
  ℕ, ◌+◌, ◌-◌, ◌%◌, ◌≤◌, ◌<◌, ◌≡◌, ◌≢◌, refl, ◌⊎◌, inl, inr, Bool-cases, Bool, true, false, ◌&&◌,
  List, [], ◌∷◌, arith, ltb, leb, if◌then◌else◌, ◌∙◌,
}
use libnvmmio.Memory.{Mem, memcpy, within, Apart}
use libnvmmio.Radixlog.{IdxEntry, log_bytes, log_offset_of}
use libnvmmio.Mmio.Overlap.{Overlap, check_log, Drawn, check_log-Drawn}
use libnvmmio.Mmio.View.{view}

-- The variables of the loop.
pub record ReadCursor : Type 0 where
  pub dst : ℕ
  pub offset : ℕ
  pub len : ℕ

-- `memcpy(dst, src, n)` and the three updates that go with it.
abbrev pub copy_on : Mem × ReadCursor → (src n : ℕ) → Mem × ReadCursor
copy_on (mem, c) src n =
    (memcpy mem c.dst src n, record { dst = c.dst + n; offset = c.offset + n; len = c.len - n })

-- The `switch` on `check_log`.
unfoldable pub read_case :
    Overlap
    → Mem × ReadCursor
    → (file_addr log_start log_end req_start req_end : ℕ) → Mem × ReadCursor
read_case Overlap.case_1 (mem, c) file_addr log_start log_end req_start req_end =
    copy_on (mem, c) (file_addr + c.offset) (req_end - req_start)
read_case Overlap.case_2 (mem, c) file_addr log_start log_end req_start req_end =
    let head = copy_on (mem, c) (file_addr + c.offset) (log_start - req_start) in
    copy_on head log_start (req_end - log_start)
read_case Overlap.case_3 (mem, c) file_addr log_start log_end req_start req_end =
    let head = copy_on (mem, c) (file_addr + c.offset) (log_start - req_start) in
    let middle = copy_on head log_start (log_end - log_start) in
    copy_on middle (file_addr + middle.1.offset + (log_end - req_start)) (req_end - log_end)
read_case Overlap.case_4 (mem, c) file_addr log_start log_end req_start req_end =
    copy_on (mem, c) req_start (req_end - req_start)
read_case Overlap.case_5 (mem, c) file_addr log_start log_end req_start req_end =
    let head = copy_on (mem, c) req_start (log_end - req_start) in
    copy_on head (file_addr + head.1.offset) (req_end - log_end)
read_case Overlap.case_6 (mem, c) file_addr log_start log_end req_start req_end =
    copy_on (mem, c) (file_addr + c.offset) (req_end - req_start)

-- One round of the loop of `read_redolog`.
unfoldable pub read_entry : IdxEntry → (file_addr : ℕ) → Mem × ReadCursor → Mem × ReadCursor
read_entry e file_addr (mem, c) =
    let log_offset = log_offset_of c.offset e.log_size in
    let log_max_len = log_bytes e.log_size - log_offset in
    let n = if ltb log_max_len c.len then log_max_len else c.len in
    let log_start = e.log + e.offset in
    let log_end = log_start + e.len in
    let req_start = e.log + log_offset in
    let req_end = req_start + n in
    if ltb 0 e.len
    then read_case (check_log req_start req_end log_start log_end) (mem, c) file_addr log_start
        log_end req_start req_end
    else copy_on (mem, c) (file_addr + c.offset) n

unfoldable pub read_redolog : List IdxEntry → (file_addr : ℕ) → Mem × ReadCursor → Mem × ReadCursor
read_redolog [] file_addr s = s
read_redolog (e ∷ es) file_addr s = read_redolog es file_addr (read_entry e file_addr s)
