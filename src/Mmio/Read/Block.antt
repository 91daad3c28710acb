-- ===== src/Mmio/Read/Block.antt =====
-- src/mmio.c: one round of `read_redolog`, against what the block reads as.
use libnvmmio.Prelude.{
  ℕ, ◌+◌, ◌*◌, ◌-◌, ◌≤◌, ◌<◌, ◌≡◌, refl, inl, inr, Bool-cases, true, false, arith, ltb, ltb→lt,
  if◌then◌else◌,
}
use libnvmmio.Memory.{Mem, within, Apart}
use libnvmmio.Radixlog.{IdxEntry, log_bytes, log_offset_of}
use libnvmmio.Radixlog.Bounds.{log_bytes_pos}
use libnvmmio.Mmio.Overlap.{Overlap, check_log, Drawn, check_log-Drawn}
use libnvmmio.Mmio.View.{view}
use libnvmmio.Mmio.Read.{ReadCursor, read_entry}
use libnvmmio.Mmio.Read.Cases.{
  read_case-view, read_case-frame, read_case-cursor, read_case-tail, copy_on-out,
}

-- The bytes of a request of `len` from `offset` on that are in the block of `e`.
abbrev pub share : IdxEntry → (offset len : ℕ) → ℕ
share e offset len =
    let room = log_bytes e.log_size - log_offset_of offset e.log_size in
    if ltb room len then room else len

-- The log lies inside the part from `o` on, `n` bytes long, and ends before it does.
abbrev pub HasTail : IdxEntry → (o n : ℕ) → Type 0
HasTail e o n = (0 < e.len) × (o ≤ e.offset) × (e.offset + e.len < o + n)

module _ (e : IdxEntry) (mem : Mem) (c : ReadCursor) (file_addr : ℕ)
    (fits : e.offset + e.len ≤ log_bytes e.log_size) where
  abbrev o : ℕ
  o = log_offset_of c.offset e.log_size

  abbrev n : ℕ
  n = share e c.offset c.len

  abbrev case : Overlap
  case = check_log (e.log + o) (e.log + o + n) (e.log + e.offset) (e.log + e.offset + e.len)

  module _ (log_apart : Apart e.log (log_bytes e.log_size) c.dst n)
      (file_apart : Apart (file_addr + (c.offset - o)) (log_bytes e.log_size) c.dst n) where
    block : o ≤ c.offset
    block = omega arith

    room : o + n ≤ log_bytes e.log_size
    room = ground (arith, log_bytes_pos e.log_size)

    drawn :
        (v : Overlap)
        → case ≡ v
        → Drawn v (e.log + o) (e.log + o + n) (e.log + e.offset) (e.log + e.offset + e.len)
    drawn v q =
        (check_log-Drawn (e.log + o) (e.log + o + n) (e.log + e.offset) (e.log + e.offset + e.len)
            (omega arith) (omega arith) v).0
          q

    -- Where the request does not go on behind the log, and the log and the block of the file are apart
    -- from the buffer, each of its bytes in this block is what the block reads as.
    pub read_entry-view :
        (k : ℕ)
        → ¬ HasTail e o n
        → k < n
        → (read_entry e file_addr (mem, c)).0 (c.dst + k)
          ≡ view mem e (file_addr + (c.offset - o)) (o + k)
    unfolding read_entry
    read_entry-view k no_tail lt = elim (Bool-cases (ltb 0 e.len)) [
      | inl log ↦ rw log (
          read_case-view e mem c file_addr fits o n room block log_apart file_apart case k
            (λ past is_third.
              no_tail
                (ltb→lt 0 e.len log, omega (arith, drawn Overlap.case_3 is_third), omega arith))
            lt (drawn case refl))
      | inr none_yet ↦ rw none_yet (ground arith)
    ]

    -- No byte outside the buffer changes, and the cursor moves on by what was read.
    pub read_entry-frame :
        (a : ℕ) → within c.dst n a ≡ false → (read_entry e file_addr (mem, c)).0 a ≡ mem a
    unfolding read_entry
    read_entry-frame a out = elim (Bool-cases (ltb 0 e.len)) [
      | inl log ↦ rw log (
          read_case-frame e mem c file_addr fits o n room block log_apart file_apart case a out
            (drawn case refl))
      | inr none_yet ↦ rw none_yet (copy_on-out (mem, c) (file_addr + c.offset) n a out)
    ]

    pub read_entry-cursor :
        (read_entry e file_addr (mem, c)).1
        ≡ record { dst = c.dst + n; offset = c.offset + n; len = c.len - n }
    unfolding read_entry
    read_entry-cursor = elim (Bool-cases (ltb 0 e.len)) [
      | inl log ↦ rw log (
          read_case-cursor e mem c file_addr fits o n room block log_apart file_apart case
            (drawn case refl))
      | inr none_yet ↦ rw none_yet
    ]

    -- Behind a log inside the request, the bytes come from too far on in the file: from as many
    -- bytes on as the log ends behind the start of the request.
    pub read_entry-tail :
        (k : ℕ)
        → HasTail e o n
        → e.offset + e.len ≤ o + k
        → k < n
        → Apart (file_addr + (c.offset - o)) (2 * log_bytes e.log_size) c.dst n
        → (read_entry e file_addr (mem, c)).0 (c.dst + k)
          ≡ mem (file_addr + c.offset + k + (e.offset + e.len - o))
    unfolding read_entry
    read_entry-tail k tail past lt apart =
        let log : ltb 0 e.len ≡ true = ground arith in
        let third : case ≡ Overlap.case_3 =
          (check_log-Drawn (e.log + o) (e.log + o + n) (e.log + e.offset) (e.log + e.offset + e.len)
              (omega arith) (omega arith) Overlap.case_3).1
            (omega arith) in
        rw (log, third)
          (read_case-tail e mem c file_addr fits o n room block log_apart file_apart k past lt
            tail.1 apart)
