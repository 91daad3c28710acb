-- ===== src/File/NewFile.antt =====
-- src/file.c: an open of a file that is not mapped yet, with the get_new_mmio of src/allocator.c.
use libnvmmio.Prelude.{
  ℕ, ◌+◌, ◌≤◌, ◌<◌, ◌≡◌, ◌≢◌, refl, sym, inl, inr, true, none, some, Option, Bool-cases, ◌==◌,
  if◌then◌else◌, ◌∙◌, ap, arith, update_self, update_ne,
}
use mathlib.Core.Path.{subst}
use libnvmmio.Prelude.Words.{sub64}
use libnvmmio.Config.{default_mmap_size}
use libnvmmio.Memory.{Mem}
use libnvmmio.Allocator.Pool.{Pool, pop_provider}
use libnvmmio.Allocator.Conserve.{stock, count, pop_provider-stock}
use libnvmmio.Allocator.Supply.{WellFormed, HasLeft, pop_provider-WellFormed}
use libnvmmio.Allocator.Take.{left}
use libnvmmio.Radixlog.{RadixRoot}
use libnvmmio.Radixlog.Walk.{TableHeap, get_deepest_table_type}
use libnvmmio.Radixlog.Init.{init_radixlog}
use libnvmmio.Radixlog.Rooted.{Rooted, init_radixlog-Rooted}
use libnvmmio.Mmio.{Mmio}
use libnvmmio.Mmio.Expend.{Kernel}
use libnvmmio.FileHash.{Files, get_hash_index, add_ref, put_mmio_hash}
use libnvmmio.FileHash.Map.{
  mapping_of, refs, Put, put_mmio_hash-Put, get_mmio_hash-missing, put_mmio_hash-missing,
}
use libnvmmio.FileHash.Buckets.{find_node-without}
use libnvmmio.FileHash.Delete.{Process, put_mmio}
use libnvmmio.File.{Calls, get_file, put_file}
use libnvmmio.File.Host.{Posix}
use libnvmmio.File.Open.{get_prot, get_new_mmio, find_or_map, libnvmmio_open}

-- How long the mapping of a file is.
abbrev pub mapped_len : (fsize : ℕ) → ℕ
mapped_len fsize = if fsize == 0 then default_mmap_size else fsize

-- A free mapping has no holder and is in no bucket.
abbrev pub AllFree : Process → Type 0
AllFree s =
    (p : ℕ)
    → 0 < stock s.mmio_pool p
    → (refs s.files p ≡ 0) × ((i : ℕ) → count p (s.files.file_hash i) ≡ 0)

module _ {K : Type 0} (posix : Posix K) (kernel : Kernel) (fd flags mode ino fsize : ℕ)
    (s : Calls K) (addr : ℕ) (mem : Mem) where
  -- The mapping `p` after it is made.
  abbrev made : ℕ → RadixRoot → Mmio
  made p root = record (s.process.files.mmios p) {
    radixlog = root;
    start = addr;
    end = addr + mapped_len fsize;
    fsize = fsize;
    ino = ino;
  }

  -- What an open of a file leaves that was not mapped before.
  pub record Opened (s' : Calls K) : Type 0 where
    pub p : ℕ
    pub entry :
        get_file fd s' ≡ some (record { mmio = p; flags = flags; mode = mode; pos = 0; ino = ino })
    pub mapped : mapping_of s'.process.files ino ≡ some p
    pub kept : (x : ℕ) → x ≢ ino → mapping_of s'.process.files x ≡ mapping_of s.process.files x
    pub one_holder : refs s'.process.files p ≡ 1
    pub others : (q : ℕ) → p ≢ q → s'.process.files.mmios q ≡ s.process.files.mmios q
    pub start : (s'.process.files.mmios p).start ≡ addr
    pub end : (s'.process.files.mmios p).end ≡ addr + mapped_len fsize
    pub size : (s'.process.files.mmios p).fsize ≡ fsize
    pub same_mem : s'.process.mem ≡ mem
    pub rooted :
        Rooted
          (get_deepest_table_type (sub64 (mapped_len fsize) 1))
          ((s'.process.files.mmios p).radixlog, s'.process.tables)

  module _ (p : ℕ) (rest : Pool) (popped : pop_provider s.process.mmio_pool ≡ some (p, rest))
      (root : RadixRoot) (tables : TableHeap)
      (indexed : init_radixlog
          (s.process.files.mmios p).radixlog
          (mapped_len fsize)
          s.process.tables
        ≡ some (root, tables))
      (fallocates : kernel.posix_fallocate fd default_mmap_size ≡ true) (prot : ℕ)
      (access : get_prot flags ≡ some prot)
      (maps : posix.mmap fd (mapped_len fsize) prot s.process.mem s.host ≡ some (addr, mem)) where
    abbrev new_process : Process
    new_process =
        put_mmio p (made p root) (record s.process { mem = mem; tables = tables; mmio_pool = rest })

    abbrev new_calls : Calls K
    new_calls = record s { process = new_process }

    get_new_mmio_lem : get_new_mmio posix kernel fd flags ino fsize s ≡ some (p, new_calls)
    unfolding get_new_mmio
    get_new_mmio_lem = elim (Bool-cases (fsize == 0)) [
      | inl no_bytes ↦
          rw (popped, no_bytes, fallocates, access, rw no_bytes at maps, rw no_bytes at indexed)
            refl
      | inr bytes ↦ rw (popped, bytes, access, rw bytes at maps, rw bytes at indexed) refl
    ]

    module _ (unmapped : mapping_of s.process.files ino ≡ none)
        (no_holder : refs s.process.files p ≡ 0)
        (unlisted : (i : ℕ) → count p (s.process.files.file_hash i) ≡ 0) where
      same_ino : (new_process.files.mmios p).ino ≡ ino
      same_ino = ap (λ (m : Mmio). m.ino) (update_self s.process.files.mmios p (made p root))

      others_lem : (q : ℕ) → p ≢ q → new_process.files.mmios q ≡ s.process.files.mmios q
      others_lem q ne = update_ne s.process.files.mmios p q (made p root) ne

      same_mapping : (x : ℕ) → mapping_of new_process.files x ≡ mapping_of s.process.files x
      same_mapping x =
          find_node-without s.process.files.mmios new_process.files.mmios p
            (λ q ne. ap (λ (m : Mmio). m.ino) (others_lem q ne)) x
            (s.process.files.file_hash (get_hash_index x)) (unlisted (get_hash_index x))

      still_unmapped : mapping_of new_process.files ino ≡ none
      still_unmapped = same_mapping ino ∙ unmapped

      abbrev put : ℕ × Files
      put = put_mmio_hash ino p new_process.files

      put_lem : Put new_process.files ino p put
      put_lem = put_mmio_hash-Put ino p new_process.files same_ino

      put_result : put.0 ≡ p
      put_result =
          ap (λ (r : ℕ × Files). r.0) (put_mmio_hash-missing ino p new_process.files still_unmapped)

      put_mmios : put.1.mmios ≡ (add_ref p new_process.files).mmios
      put_mmios =
          ap (λ (r : ℕ × Files). r.1.mmios)
            (put_mmio_hash-missing ino p new_process.files still_unmapped)

      abbrev opened_calls : Calls K
      opened_calls =
          put_file fd
            (some (record { mmio = put.0; flags = flags; mode = mode; pos = 0; ino = ino }))
            (record new_calls { process = record new_process { files = put.1 } })

      find_or_map_lem :
          find_or_map posix kernel fd flags ino fsize s
          ≡ some (put.0, record new_calls { process = record new_process { files = put.1 } })
      unfolding find_or_map
      find_or_map_lem =
          let missing = get_mmio_hash-missing ino s.process.files unmapped in
          rw (find_or_map, ap (λ (r : Option ℕ × Files). r.0) missing, get_new_mmio_lem) refl

      libnvmmio_open_lem :
          posix.fxstat fd s.host ≡ some (ino, fsize)
          → posix.malloc s.host ≡ true
          → libnvmmio_open posix kernel fd flags mode s ≡ some opened_calls
      unfolding libnvmmio_open
      libnvmmio_open_lem stat allocates = rw (stat, find_or_map_lem, allocates) refl

      opened-mmio : opened_calls.process.files.mmios p ≡ record (made p root) { ref = 1 }
      unfolding add_ref
      opened-mmio =
          ap (λ f. f p) put_mmios
          ∙ update_self new_process.files.mmios p _
          ∙ ap (λ (m : Mmio). record m { ref = m.ref + 1 })
              (update_self s.process.files.mmios p (made p root))
          ∙ ap (λ n. record (made p root) { ref = n + 1 }) no_holder

      opened-others : (q : ℕ) → p ≢ q → opened_calls.process.files.mmios q ≡ s.process.files.mmios q
      unfolding add_ref
      opened-others q ne =
          ap (λ f. f q) put_mmios ∙ update_ne new_process.files.mmios p q _ ne ∙ others_lem q ne

      opened_calls-Opened :
          Rooted (get_deepest_table_type (sub64 (mapped_len fsize) 1)) (root, tables)
          → Opened opened_calls
      opened_calls-Opened rooted = record {
        p = p;
        entry =
            update_self s.fd_table fd _
            ∙ ap (λ x. some (record { mmio = x; flags = flags; mode = mode; pos = 0; ino = ino }))
                put_result;
        mapped = put_lem.mapped ∙ ap some put_result;
        kept = λ x ne. put_lem.kept x ne ∙ same_mapping x;
        one_holder = ap (λ (m : Mmio). m.ref) opened-mmio;
        others = opened-others;
        start = ap (λ (m : Mmio). m.start) opened-mmio;
        end = ap (λ (m : Mmio). m.end) opened-mmio;
        size = ap (λ (m : Mmio). m.fsize) opened-mmio;
        same_mem = refl;
        rooted =
            subst
              (λ (m : Mmio).
                Rooted (get_deepest_table_type (sub64 (mapped_len fsize) 1)) (m.radixlog, tables))
              (sym opened-mmio) rooted;
      }

  -- Where fstat gives an inode that has no mapping, malloc, posix_fallocate and mmap succeed, the
  -- flags have an access mode, the free mappings and tables are well-formed, a mapping and four
  -- tables are left, and a free mapping has no holder and is in no bucket: libnvmmio_open returns,
  -- with the file open at its start on a mapping with one holder that the table has for the inode, as
  -- long as the file or 1 MB for an empty one, with a new log index; other inodes and mappings are as
  -- before.
  pub libnvmmio_open-Opened :
      posix.fxstat fd s.host ≡ some (ino, fsize)
      → posix.malloc s.host ≡ true
      → mapping_of s.process.files ino ≡ none
      → kernel.posix_fallocate fd default_mmap_size ≡ true
      → (prot : ℕ) → get_prot flags ≡ some prot
      → posix.mmap fd (mapped_len fsize) prot s.process.mem s.host ≡ some (addr, mem)
      → WellFormed s.process.mmio_pool
      → HasLeft s.process.mmio_pool
      → AllFree s.process
      → WellFormed s.process.tables.pool
      → 4 ≤ left s.process.tables.pool
      → (s' : Calls K) × (libnvmmio_open posix kernel fd flags mode s ≡ some s') × Opened s'
  libnvmmio_open-Opened stat allocates unmapped fallocates prot access maps pool_ok has_left
        all_free tables_ok enough =
      let (p, rest, popped, rest_ok) =
        pop_provider-WellFormed s.process.mmio_pool pool_ok has_left in
      let ((root, tables), indexed, rooted) =
        init_radixlog-Rooted (s.process.files.mmios p).radixlog (mapped_len fsize) s.process.tables
          tables_ok enough in
      let (no_holder, unlisted) =
        all_free p (ground (arith, pop_provider-stock s.process.mmio_pool p popped)) in
      (
        opened_calls p rest popped root tables indexed fallocates prot access maps unmapped
            no_holder unlisted,
        libnvmmio_open_lem p rest popped root tables indexed fallocates prot access maps unmapped
            no_holder unlisted stat allocates,
        opened_calls-Opened p rest popped root tables indexed fallocates prot access maps unmapped
            no_holder unlisted rooted,
      )
