-- ===== src/File/Position.antt =====
-- src/file.c: the position of an open file, and the end of the file.
use libnvmmio.Prelude.{
  ℕ, ◌+◌, ◌-◌, ◌^◌, ◌≤◌, ◌<◌, ◌≡◌, sym, none, some, >>=-eq-some, if◌then◌else◌, ◌∙◌, ap, arith, ltb,
  update_self,
}
use mathlib.Core.Path.{subst}
use libnvmmio.Memory.{Pmem}
use libnvmmio.Mmio.{Mmio}
use libnvmmio.Mmio.World.{World}
use libnvmmio.Mmio.Expend.{Kernel, check_fsize}
use libnvmmio.Mmio.ReadCall.{mmio_read}
use libnvmmio.Mmio.ReadCall.Count.{Counted, mmio_read-Counted, read_count}
use libnvmmio.FileHash.Delete.{world_of}
use libnvmmio.File.{
  FileStruct, Calls, get_file, put_file, to_ret, advance, off_lt, seek_target, lseek_call,
  read_call, read_open, write_call, write_open, moved_on,
}
use libnvmmio.File.Host.{Posix, Whence}

-- The size that an open file has.
abbrev pub size_of : {K : Type 0} → FileStruct → Calls K → ℕ
size_of file s = (s.process.files.mmios file.mmio).fsize

-- The file is open, with its position in the file, and the file is shorter than 2^63.
pub record IsOpen {K : Type 0} (s : Calls K) (fd : ℕ) (file : FileStruct) : Type 0 where
  pub entry : get_file fd s ≡ some file
  pub inside : file.pos ≤ size_of file s
  pub small : size_of file s < 2 ^ 63

read_count-min :
    (mmio : Mmio) (pos len : ℕ)
    → pos ≤ mmio.fsize
    → mmio.fsize < 2 ^ 63
    → len < 2 ^ 31
    → read_count mmio pos len ≡ (if ltb (mmio.fsize - pos) len then mmio.fsize - pos else len)
unfolding check_fsize
read_count-min mmio pos len inside small few = ground (arith, inside, small, few)

read_count-le :
    (mmio : Mmio) (pos len : ℕ)
    → pos ≤ mmio.fsize
    → mmio.fsize < 2 ^ 63
    → len < 2 ^ 31
    → (read_count mmio pos len < 2 ^ 31) × (pos + read_count mmio pos len ≤ mmio.fsize)
unfolding check_fsize
read_count-le mmio pos len inside small few = ground (arith, inside, small, few)

pub to_ret-small : (n : ℕ) → n < 2 ^ 31 → to_ret n ≡ n
to_ret-small n lt = ground (arith, lt)

module _ {K : Type 0} (posix : Posix K) {fd : ℕ} {file : FileStruct} {s : Calls K}
    (opened : IsOpen s fd file) where
  pub read_call-open : (buf len : ℕ) → read_call posix fd buf len s ≡ read_open fd file buf len s
  unfolding read_call
  read_call-open buf len = rw (read_call, opened.entry)

  -- What a read that returns leaves.
  pub record ReadTo (len : ℕ) (r : ℕ × Calls K) : Type 0 where
    pub count :
        r.0 ≡ (if ltb (size_of file s - file.pos) len then size_of file s - file.pos else len)
    pub entry : get_file fd r.1 ≡ some (record file { pos = file.pos + r.0 })
    pub size : size_of file r.1 ≡ size_of file s
    pub inside : file.pos + r.0 ≤ size_of file s

  read_open-ReadTo :
      (buf len : ℕ) (r : ℕ × World)
      → len < 2 ^ 31
      → Counted (world_of file.mmio s.process) file.pos len r
      → ReadTo len (moved_on fd file s r)
  read_open-ReadTo buf len r few counted =
      let mmio = s.process.files.mmios file.mmio in
      let (small, inside) = read_count-le mmio file.pos len opened.inside opened.small few in
      let same : to_ret r.0 ≡ r.0 = to_ret-small r.0 (omega (arith, counted.count, small)) in
      let within : file.pos + to_ret r.0 ≤ mmio.fsize =
        omega (arith, same, counted.count, inside) in
      record {
        count =
            same ∙ counted.count ∙ read_count-min mmio file.pos len opened.inside opened.small few;
        entry =
            update_self s.fd_table fd (some (advance file (to_ret r.0)))
            ∙ ap (λ p. some (record file { pos = p })) (omega (arith, within, opened.small));
        size =
            ap (λ (m : Mmio). m.fsize) (update_self s.process.files.mmios file.mmio r.1.mmio)
            ∙ counted.fsize;
        inside = within;
      }

  -- `read` of an open file whose position is in the file, if it returns: it returns the length that
  -- was asked for, or what is left of the file, moves the position on by that, and leaves the
  -- position in the file and the size of the file as it was. The length is below 2 GB.
  pub read_call-ReadTo :
      (buf len : ℕ) {r : ℕ × Calls K}
      → len < 2 ^ 31
      → read_call posix fd buf len s ≡ some r
      → ReadTo len r
  unfolding read_open
  read_call-ReadTo buf len {r} few h =
      let (r', e, h1) =
        >>=-eq-some (mmio_read file.pos buf len (world_of file.mmio s.process)) _
          (sym (read_call-open buf len) ∙ h) in
      let back : moved_on fd file s r' ≡ r = cc h1 in
      subst (ReadTo len) back (
        read_open-ReadTo buf len r' few
          (mmio_read-Counted file.pos buf len (world_of file.mmio s.process) e))

  -- What a write that returns leaves.
  pub record Wrote (r : ℕ × Calls K) : Type 0 where
    pub entry : get_file fd r.1 ≡ some (advance file r.0)
    pub inside : r.0 < 2 ^ 31 → (advance file r.0).pos ≤ size_of file r.1

  pub write_call-open :
      (pmem : Pmem) (kernel : Kernel) (buf len : ℕ)
      → write_call posix pmem kernel fd buf len s ≡ write_open pmem kernel fd file buf len s
  unfolding write_call
  write_call-open pmem kernel buf len = rw (write_call, opened.entry)

off_lt-small : (a b : ℕ) → a < 2 ^ 63 → b < 2 ^ 63 → off_lt a b ≡ ltb a b
off_lt-small a b ha hb = ground (arith, ha, hb)

module _ {K : Type 0} (posix : Posix K) {fd : ℕ} {file : FileStruct} {s : Calls K}
    (opened : IsOpen s fd file) where
  -- `lseek` of an open file to a target below 2^63: it returns the target, with the position there and
  -- all else as it was, exactly where the target is in the file, and else the program ends.
  pub lseek_call-target :
      (offset target : ℕ) (whence : Whence)
      → seek_target whence file.pos (size_of file s) offset ≡ some target
      → target < 2 ^ 63
      → lseek_call posix fd offset whence s ≡ (
          if ltb (size_of file s) target
          then none
          else some (target, put_file fd (some (record file { pos = target })) s))
  unfolding lseek_call
  lseek_call-target offset target whence e lt =
      rw (lseek_call, opened.entry, e, off_lt-small (size_of file s) target opened.small lt)
