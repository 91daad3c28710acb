-- ===== src/Mmio/Read/Cases.antt =====
-- src/mmio.c: the six cases of `read_redolog` at one entry.
use libnvmmio.Prelude.{ℕ, ◌+◌, ◌*◌, ◌-◌, ◌≤◌, ◌<◌, ◌≡◌, ◌≢◌, true, false, arith, ◌∙◌}
use libnvmmio.Memory.{Mem, within, Apart}
use libnvmmio.Radixlog.{IdxEntry, log_bytes}
use libnvmmio.Mmio.Overlap.{Overlap, Drawn}
use libnvmmio.Mmio.View.{view}
use libnvmmio.Mmio.Read.{ReadCursor, copy_on, read_case}

copy-zero : (s : Mem × ReadCursor) (src n a : ℕ) → n ≡ 0 → (copy_on s src n).0 a ≡ s.0 a
copy-zero (mem, c) src n a z = ground arith

pub copy_on-out :
    (s : Mem × ReadCursor) (src n a : ℕ)
    → within s.1.dst n a ≡ false
    → (copy_on s src n).0 a ≡ s.0 a
copy_on-out (mem, c) src n a out = rw out

module _ (e : IdxEntry) (mem : Mem) (c : ReadCursor) (file_addr : ℕ)
    (fits : e.offset + e.len ≤ log_bytes e.log_size) (o : ℕ) (n : ℕ)
    (lt : o + n ≤ log_bytes e.log_size) (block : o ≤ c.offset)
    (log_apart : Apart e.log (log_bytes e.log_size) c.dst n)
    (file_apart : Apart (file_addr + (c.offset - o)) (log_bytes e.log_size) c.dst n) where
  abbrev log_start : ℕ
  log_start = e.log + e.offset

  abbrev log_end : ℕ
  log_end = e.log + e.offset + e.len

  abbrev req_start : ℕ
  req_start = e.log + o

  abbrev req_end : ℕ
  req_end = e.log + o + n

  abbrev head : Mem × ReadCursor
  head = copy_on (mem, c) (file_addr + c.offset) (log_start - req_start)

  abbrev middle : Mem × ReadCursor
  middle = copy_on head log_start (log_end - log_start)

  pub read_case-view :
      (v : Overlap) (k : ℕ)
      → (e.log + e.offset + e.len < e.log + o + n → v ≢ Overlap.case_3)
      → k < n
      → Drawn v req_start req_end log_start log_end
      → (read_case v (mem, c) file_addr log_start log_end req_start req_end).0 (c.dst + k)
        ≡ view mem e (file_addr + (c.offset - o)) (o + k)
  unfolding read_case
  read_case-view Overlap.case_1 k tail klt d = ground arith
  read_case-view Overlap.case_2 k tail klt d = ground arith
  read_case-view Overlap.case_3 k tail klt d =
      let same : e.log + o + n ≡ e.log + e.offset + e.len = grind arith in
      copy-zero middle (file_addr + middle.1.offset + (log_end - req_start)) (req_end - log_end)
        (c.dst + k) (omega arith)
      ∙ ground arith
  read_case-view Overlap.case_4 k tail klt d = ground arith
  read_case-view Overlap.case_5 k tail klt d = ground arith
  read_case-view Overlap.case_6 k tail klt d = ground arith

  pub read_case-frame :
      (v : Overlap) (a : ℕ)
      → within c.dst n a ≡ false
      → Drawn v req_start req_end log_start log_end
      → (read_case v (mem, c) file_addr log_start log_end req_start req_end).0 a ≡ mem a
  unfolding read_case
  read_case-frame Overlap.case_1 a out d = ground arith
  read_case-frame Overlap.case_2 a out d = ground arith
  read_case-frame Overlap.case_3 a out d =
      copy_on-out middle (file_addr + middle.1.offset + (log_end - req_start)) (req_end - log_end) a
        (ground arith)
      ∙ copy_on-out head log_start (log_end - log_start) a (ground arith)
      ∙ copy_on-out (mem, c) (file_addr + c.offset) (log_start - req_start) a (ground arith)
  read_case-frame Overlap.case_4 a out d = ground arith
  read_case-frame Overlap.case_5 a out d = ground arith
  read_case-frame Overlap.case_6 a out d = ground arith

  pub read_case-cursor :
      (v : Overlap)
      → Drawn v req_start req_end log_start log_end
      → (read_case v (mem, c) file_addr log_start log_end req_start req_end).1
        ≡ record { dst = c.dst + n; offset = c.offset + n; len = c.len - n }
  unfolding read_case
  read_case-cursor Overlap.case_1 d = ground arith
  read_case-cursor Overlap.case_2 d = ground arith
  read_case-cursor Overlap.case_3 d = ground arith
  read_case-cursor Overlap.case_4 d = ground arith
  read_case-cursor Overlap.case_5 d = ground arith
  read_case-cursor Overlap.case_6 d = ground arith

  -- The last copy of case 3 starts too far on in the file, by the length of what stands before it.
  pub read_case-tail :
      (k : ℕ)
      → e.offset + e.len ≤ o + k
      → k < n
      → o ≤ e.offset
      → Apart (file_addr + (c.offset - o)) (2 * log_bytes e.log_size) c.dst n
      → (read_case Overlap.case_3 (mem, c) file_addr log_start log_end req_start req_end).0
          (c.dst + k)
        ≡ mem (file_addr + c.offset + k + (e.offset + e.len - o))
  unfolding read_case
  read_case-tail k past klt before apart =
      let src = file_addr + middle.1.offset + (log_end - req_start) in
      let hit : within middle.1.dst (req_end - log_end) (c.dst + k) ≡ true = ground arith in
      let from : src + (c.dst + k - middle.1.dst)
          ≡ file_addr + c.offset + k + (e.offset + e.len - o) =
        omega arith in
      rw (hit, from)
        (copy_on-out head log_start (log_end - log_start) _ (ground arith)
          ∙ copy_on-out (mem, c) (file_addr + c.offset) (log_start - req_start) _ (ground arith))
