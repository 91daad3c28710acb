-- ===== src/File/Sharing.antt =====
-- src/file.c: an open of a file that is mapped already, and the close that follows.
use libnvmmio.Prelude.{
  ℕ, ◌<◌, ◌≡◌, ◌≢◌, refl, Option, true, none, some, ◌>>=◌, ◌∙◌, ap, arith, update_self, update_ne,
}
use libnvmmio.Memory.{Pmem}
use libnvmmio.Mmio.Expend.{Kernel}
use libnvmmio.FileHash.{Files, add_ref, get_mmio_hash}
use libnvmmio.FileHash.Map.{
  mapping_of, refs, add_ref-ino, add_ref-refs, add_ref-mapping_of, find_node-same_inos,
}
use libnvmmio.FileHash.Delete.{Closing}
use libnvmmio.FileHash.Drop.{OneEach, released, delete_mmio_hash-released, nodes_of-same_inos}
use libnvmmio.File.{FileStruct, Calls, get_file, put_file, close_call}
use libnvmmio.File.Host.{Posix}
use libnvmmio.File.Open.{find_or_map, libnvmmio_open}

module _ {K : Type 0} (posix : Posix K) (kernel : Kernel) (pmem : Pmem) (closing : Closing)
    (fd flags mode ino fsize p : ℕ) (s : Calls K)
    (stat : posix.fxstat fd s.host ≡ some (ino, fsize)) (allocates : posix.malloc s.host ≡ true)
    (mapped : mapping_of s.process.files ino ≡ some p) where
  abbrev shared : Files
  shared = add_ref p s.process.files

  abbrev opened_file : FileStruct
  opened_file = record { mmio = p; flags = flags; mode = mode; pos = 0; ino = ino }

  abbrev opened : Calls K
  opened =
      put_file fd (some opened_file) (record s { process = record s.process { files = shared } })

  get_mmio_hash-found : get_mmio_hash ino s.process.files ≡ (some p, shared)
  unfolding get_mmio_hash
  get_mmio_hash-found = rw (get_mmio_hash, mapped)

  find_or_map-shared :
      find_or_map posix kernel fd flags ino fsize s
      ≡ some (p, record s { process = record s.process { files = shared } })
  unfolding find_or_map
  find_or_map-shared = rw (
    find_or_map,
    ap (λ (x : Option ℕ × Files). x.0) get_mmio_hash-found,
    ap (λ (x : Option ℕ × Files). x.1) get_mmio_hash-found,
  )

  libnvmmio_open-opened : libnvmmio_open posix kernel fd flags mode s ≡ some opened
  unfolding libnvmmio_open
  libnvmmio_open-opened = rw (libnvmmio_open, stat, find_or_map-shared, allocates)

  module _ (one : OneEach s.process.files) (some_holder : 0 < refs s.process.files p) where
    shared-OneEach : OneEach shared
    unfolding add_ref
    shared-OneEach x =
        rw
          (nodes_of-same_inos s.process.files.mmios shared.mmios x (add_ref-ino p s.process.files)
            (shared.file_hash _))
          (one x)

    abbrev closed : Calls K
    closed = record (put_file fd none (record opened { process = released p opened.process })) {
      host = (posix.close fd s.host).1;
    }

    shared-more : 1 < refs shared p
    shared-more = ground (arith, add_ref-refs p s.process.files p, some_holder)

    close_call-closed :
        close_call posix pmem closing fd opened ≡ some ((posix.close fd s.host).0, closed)
    unfolding close_call
    close_call-closed = rw (
      close_call,
      update_self s.fd_table fd (some opened_file),
      delete_mmio_hash-released pmem closing fd ino flags opened.process p shared-OneEach
          (add_ref-mapping_of p s.process.files ino ∙ mapped) shared-more,
    )

    released-refs : (q : ℕ) → refs closed.process.files q ≡ refs s.process.files q
    unfolding add_ref
    released-refs q = ground arith

    released-mapping_of : (x : ℕ) → mapping_of closed.process.files x ≡ mapping_of s.process.files x
    unfolding add_ref
    released-mapping_of x =
        find_node-same_inos s.process.files.mmios closed.process.files.mmios x (λ q. ground arith) _

    -- An open of an inode that has a mapping with a holder, in a table without two nodes for an
    -- inode, where malloc succeeds, and the close that follows, both return, and leave every count
    -- and every mapping of the table as it was, the memory too, and the descriptor free. The open
    -- finds inode and size.
    pub close-open :
        (s' : Calls K) × ((libnvmmio_open posix kernel fd flags mode s
            >>= close_call posix pmem closing fd)
          ≡ some ((posix.close fd s.host).0, s'))
        × ((q : ℕ) → refs s'.process.files q ≡ refs s.process.files q)
        × ((x : ℕ) → mapping_of s'.process.files x ≡ mapping_of s.process.files x)
        × (s'.process.mem ≡ s.process.mem)
        × (get_file fd s' ≡ none)
        × ((g : ℕ) → fd ≢ g → get_file g s' ≡ get_file g s)
    close-open = (
      closed,
      rw libnvmmio_open-opened close_call-closed,
      released-refs,
      released-mapping_of,
      refl,
      update_self opened.fd_table fd none,
      λ g ne.
          update_ne opened.fd_table fd g none ne ∙ update_ne s.fd_table fd g (some opened_file) ne,
    )
