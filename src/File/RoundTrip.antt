-- ===== src/File/RoundTrip.antt =====
-- src/file.c: what `write` was given is what `read` returns after an `lseek` back, for an open file.
use libnvmmio.Prelude.{
  ℕ, suc, ◌+◌, ◌%◌, ◌^◌, ◌≤◌, ◌<◌, ◌≡◌, ◌∙◌, refl, ap, some, false, arith, ltb, update_self,
}
use libnvmmio.Prelude.Words.{to_int}
use libnvmmio.Lock.{held}
use libnvmmio.Memory.{Pmem, Apart}
use libnvmmio.Radixlog.{Policy, log_bytes}
use libnvmmio.Radixlog.Sized.{IsSized}
use libnvmmio.Mmio.{Mmio}
use libnvmmio.Mmio.View.{Logs}
use libnvmmio.Mmio.Logged.{Request}
use libnvmmio.Mmio.World.{World, LockType, lock_entry}
use libnvmmio.Mmio.ReadCall.{mmio_read}
use libnvmmio.Mmio.Expend.{Kernel}
use libnvmmio.Mmio.Write.{mmio_write}
use libnvmmio.Mmio.Write.Block.{start_of, size_after}
use libnvmmio.Mmio.Calls.{with_readers}
use libnvmmio.Mmio.RoundTrip.{mmio_read-mmio_write}
use libnvmmio.FileHash.Delete.{Process, world_of, put_world}
use libnvmmio.File.{
  FileStruct, Calls, put_file, advance, to_ret, moved_on, lseek_call, read_call, read_open,
  write_call, write_open, seek_target,
}
use libnvmmio.File.Host.{Posix, Whence}
use libnvmmio.File.Position.{
  IsOpen, size_of, to_ret-small, read_call-open, write_call-open, lseek_call-target,
}

-- A mapping and the memory that are put back are found again.
world_of-put_world : (m : ℕ) (w : World) (s : Process) → world_of m (put_world m w s) ≡ w
world_of-put_world m w s = ap (λ x. record w { mmio = x }) (update_self s.files.mmios m w.mmio)

module _ {K : Type 0} (posix : Posix K) {fd : ℕ} {file : FileStruct} {s : Calls K}
    (opened : IsOpen s fd file) where
  abbrev wrote : (len : ℕ) → World → Calls K
  wrote len w = (moved_on fd file s (len, w)).1

  -- The file after a write.
  module _ (len : ℕ) (w : World) (small : len < 2 ^ 31) (below : file.pos + len < 2 ^ 63)
      (fsize : w.mmio.fsize ≡ size_after (world_of file.mmio s.process) file.pos len) where
    size_lem : size_of file (wrote len w) ≡ w.mmio.fsize
    size_lem = ap (λ (m : Mmio). m.fsize) (update_self s.process.files.mmios file.mmio w.mmio)

    pos_lem : (advance file (to_ret len)).pos ≡ file.pos + len
    pos_lem = omega (arith, to_ret-small len small, below)

    ends_at : file.pos + len ≤ w.mmio.fsize
    ends_at = ground (arith, fsize)

    still_small : w.mmio.fsize < 2 ^ 63
    still_small = ground (arith, fsize, below, opened.small)

    wrote-IsOpen : IsOpen (wrote len w) fd (advance file (to_ret len))
    wrote-IsOpen = record {
      entry = update_self s.fd_table fd (some (advance file (to_ret len)));
      inside = omega (arith, pos_lem, ends_at, size_lem);
      small = omega (arith, still_small, size_lem);
    }

    -- Back to a place in what was written.
    module _ (d : ℕ) (back : d ≤ len) where
      abbrev moved : FileStruct
      moved = record file { pos = file.pos + d }

      abbrev sought : Calls K
      sought = put_file fd (some moved) (wrote len w)

      lseek_lem :
          lseek_call posix fd (file.pos + d) Whence.seek_set (wrote len w)
          ≡ some (file.pos + d, sought)
      unfolding seek_target
      lseek_lem =
          let in_file : ltb (size_of file (wrote len w)) (file.pos + d) ≡ false =
            ground (arith, size_lem, ends_at, back) in
          lseek_call-target posix wrote-IsOpen (file.pos + d) (file.pos + d) Whence.seek_set refl
            (omega (arith, below, back))
          ∙ rw in_file refl

      sought-IsOpen : IsOpen sought fd moved
      sought-IsOpen = record {
        entry = update_self (wrote len w).fd_table fd (some moved);
        inside = omega (arith, ends_at, size_lem, back);
        small = omega (arith, still_small, size_lem);
      }

      read_lem :
          (rbuf rlen : ℕ) (w' : World)
          → rlen < 2 ^ 31
          → mmio_read (file.pos + d) rbuf rlen w ≡ some (rlen, w')
          → read_call posix fd rbuf rlen sought
            ≡ some (rlen, (moved_on fd moved sought (rlen, w')).1)
      unfolding read_open
      read_lem rbuf rlen w' few e =
          let here : mmio_read (file.pos + d) rbuf rlen (world_of file.mmio sought.process)
              ≡ some (rlen, w') =
            ap (mmio_read (file.pos + d) rbuf rlen) (world_of-put_world file.mmio w s.process)
            ∙ e in
          read_call-open posix sought-IsOpen rbuf rlen
          ∙ rw here
              (ap (λ n. some (n, (moved_on fd moved sought (rlen, w')).1)) (to_ret-small rlen few))

  write_lem :
      (pmem : Pmem) (kernel : Kernel) (buf len : ℕ) (w : World)
      → len < 2 ^ 31
      → mmio_write pmem kernel fd file.pos buf len (world_of file.mmio s.process) ≡ some (len, w)
      → write_call posix pmem kernel fd buf len s ≡ some (len, wrote len w)
  unfolding write_open
  write_lem pmem kernel buf len w small e =
      write_call-open posix opened pmem kernel buf len
      ∙ rw e (ap (λ n. some (n, wrote len w)) (to_ret-small len small))

module _ {K : Type 0} (posix : Posix K) (policy : Policy) (pmem : Pmem) (kernel : Kernel) (fd : ℕ)
    (file : FileStruct) (s : Calls K) (opened : IsOpen s fd file) (block buf len k p log_len : ℕ)
    (w1 : World) (free : (s.process.files.mmios file.mmio).rwlock ≡ held k)
    (room : (s.process.files.mmios file.mmio).start + file.pos + len
      ≤ (s.process.files.mmios file.mmio).end)
    (sized : IsSized s.process.tables.tables)
    (found : lock_entry LockType.wr
        (to_int len)
        file.pos
        (with_readers (suc k) (world_of file.mmio s.process))
      ≡ some (p, log_len, w1))
    (some_bytes : 0 < len) (fits : len ≤ log_len) (small : len < 2 ^ 31)
    (below : file.pos + len < 2 ^ 63)
    (req : Request (w1.heap.entries p) block (start_of w1 file.pos buf len))
    (aligned : block % log_bytes (w1.heap.entries p).log_size ≡ 0)
    (logs : Logs policy (w1.heap.entries p) block) (same : w1.mmio.policy ≡ policy) where
  -- A write to an open file, an lseek back to a place in what was written, and a read of the rest of
  -- it or less.
  pub read_call-write_call :
      (d rbuf rlen : ℕ)
      → 0 < rlen
      → d + rlen ≤ len
      → Apart (w1.heap.entries p).log (log_bytes (w1.heap.entries p).log_size) rbuf rlen
      → Apart block (log_bytes (w1.heap.entries p).log_size) rbuf rlen
      → (s1 : Calls K) × (s2 : Calls K) × (s3 : Calls K) × (write_call posix pmem kernel fd buf len
            s
          ≡ some (len, s1))
        × (lseek_call posix fd (file.pos + d) Whence.seek_set s1 ≡ some (file.pos + d, s2))
        × (read_call posix fd rbuf rlen s2 ≡ some (rlen, s3))
        × ((i : ℕ) → i < rlen → s3.process.mem (rbuf + i) ≡ s.process.mem (buf + (d + i)))
  read_call-write_call d rbuf rlen some_read inside log_apart block_apart =
      let (w', w'', wrote_to, read_from, bytes, fsize) =
        mmio_read-mmio_write policy pmem kernel fd block file.pos buf len k p log_len
          (world_of file.mmio s.process) w1 free room sized found some_bytes fits small req aligned
          logs same d rbuf rlen some_read inside log_apart block_apart in
      let back : d ≤ len = omega (arith, inside) in
      (
        wrote posix opened len w',
        sought posix opened len w' small below fsize d back,
        (moved_on fd (moved posix opened len w' small below fsize d back)
            (sought posix opened len w' small below fsize d back) (rlen, w'')).1,
        write_lem posix opened pmem kernel buf len w' small wrote_to,
        lseek_lem posix opened len w' small below fsize d back,
        read_lem posix opened len w' small below fsize d back rbuf rlen w''
            (omega (arith, inside, small)) read_from,
        bytes,
      )
