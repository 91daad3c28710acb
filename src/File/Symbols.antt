-- ===== src/File/Symbols.antt =====
-- src/file.c: `init_fops`, which finds the calls of the C library by `dlsym`, and the calls that only
-- pass their arguments on, which look for their symbol again where it is missing.
use libnvmmio.Prelude.{
  ℕ, ◌≡◌, refl, inl, inr, Bool, true, Bool-cases, Option, none, some, ◌>>=◌, if◌then◌else◌,
}
use libnvmmio.Memory.{Mem}
use libnvmmio.File.{Calls, lseek_call}
use libnvmmio.File.Host.{Posix, Whence}

-- The names that `dlsym` is asked for: `stat` is found as `__xstat64`.
pub data Symbol : Type 0 where
  sym_open sym_open64 sym_read sym_write sym_pread sym_pwrite sym_fsync sym_lseek sym_truncate
        sym_ftruncate sym_stat sym_fxstat sym_close :
      Symbol

-- `struct fops_struct`: whether each pointer is set. Nothing sets that of `lstat`.
pub record Fops : Type 0 where
  pub has_open : Bool
  pub has_open64 : Bool
  pub has_read : Bool
  pub has_write : Bool
  pub has_pread : Bool
  pub has_pwrite : Bool
  pub has_fsync : Bool
  pub has_lseek : Bool
  pub has_truncate : Bool
  pub has_ftruncate : Bool
  pub has_stat : Bool
  pub has_fxstat : Bool
  pub has_lstat : Bool
  pub has_close : Bool

-- `dlsym(RTLD_NEXT, ...)`: whether the C library has the symbol.
abbrev pub Dlsym : Type 0
Dlsym = Symbol → Bool

-- The rest of the C library.
pub record PassedOn (K : Type 0) : Type 0 where
  pub truncate : (path length : ℕ) → Mem → K → ℕ × Mem × K
  pub stat : (path statbuf : ℕ) → Mem → K → ℕ × Mem × K
  pub fxstat : (fd statbuf : ℕ) → Mem → K → ℕ × Mem × K

-- What the C library leaves of the memory and of what the kernel keeps.
abbrev returned : {K : Type 0} → Calls K → ℕ × Mem × K → ℕ × Calls K
returned s (ret, mem, host) =
    (ret, record s { process = record s.process { mem = mem }; host = host })

unfoldable pub lseek64_call :
    {K : Type 0} → Posix K → (fd offset : ℕ) → Whence → Calls K → Option (ℕ × Calls K)
lseek64_call posix fd offset whence s = lseek_call posix fd offset whence s

module _ (dlsym : Dlsym) where
  -- A pointer that stays NULL ends the program.
  unfoldable pub find_symbol : Symbol → (Fops → Fops) → Fops → Option Fops
  find_symbol symbol set fops = if dlsym symbol then some (set fops) else none

  unfoldable pub init_fops : Fops → Option Fops
  init_fops fops0 = do
    fops1 ← find_symbol Symbol.sym_open (λ (f : Fops). record f { has_open = true }) fops0
    fops2 ← find_symbol Symbol.sym_open64 (λ (f : Fops). record f { has_open64 = true }) fops1
    fops3 ← find_symbol Symbol.sym_read (λ (f : Fops). record f { has_read = true }) fops2
    fops4 ← find_symbol Symbol.sym_write (λ (f : Fops). record f { has_write = true }) fops3
    fops5 ← find_symbol Symbol.sym_pread (λ (f : Fops). record f { has_pread = true }) fops4
    fops6 ← find_symbol Symbol.sym_pwrite (λ (f : Fops). record f { has_pwrite = true }) fops5
    fops7 ← find_symbol Symbol.sym_fsync (λ (f : Fops). record f { has_fsync = true }) fops6
    fops8 ← find_symbol Symbol.sym_lseek (λ (f : Fops). record f { has_lseek = true }) fops7
    fops9 ← find_symbol Symbol.sym_truncate (λ (f : Fops). record f { has_truncate = true }) fops8
    fops10 ←
        find_symbol Symbol.sym_ftruncate (λ (f : Fops). record f { has_ftruncate = true }) fops9
    fops11 ← find_symbol Symbol.sym_stat (λ (f : Fops). record f { has_stat = true }) fops10
    fops12 ← find_symbol Symbol.sym_fxstat (λ (f : Fops). record f { has_fxstat = true }) fops11
    find_symbol Symbol.sym_close (λ (f : Fops). record f { has_close = true }) fops12

  -- `if (posix.f == NULL)`, before a call.
  unfoldable pub find_missing : Bool → Symbol → (Fops → Fops) → Fops → Option Fops
  find_missing there symbol set fops = if there then some fops else find_symbol symbol set fops

  module _ {K : Type 0} (passed : PassedOn K) where
    unfoldable pub truncate_call : (path length : ℕ) → Fops × Calls K → Option (ℕ × Fops × Calls K)
    truncate_call path length (fops, s) = do
      fops' ←
          find_missing fops.has_truncate Symbol.sym_truncate
            (λ (f : Fops). record f { has_truncate = true }) fops
      let (ret, s') = returned s (passed.truncate path length s.process.mem s.host)
      some (ret, fops', s')

    unfoldable pub stat_call : (path statbuf : ℕ) → Fops × Calls K → Option (ℕ × Fops × Calls K)
    stat_call path statbuf (fops, s) = do
      fops' ←
          find_missing fops.has_stat Symbol.sym_stat (λ (f : Fops). record f { has_stat = true })
            fops
      let (ret, s') = returned s (passed.stat path statbuf s.process.mem s.host)
      some (ret, fops', s')

    unfoldable pub fstat_call : (fd statbuf : ℕ) → Fops × Calls K → Option (ℕ × Fops × Calls K)
    fstat_call fd statbuf (fops, s) = do
      fops' ←
          find_missing fops.has_fxstat Symbol.sym_fxstat
            (λ (f : Fops). record f { has_fxstat = true }) fops
      let (ret, s') = returned s (passed.fxstat fd statbuf s.process.mem s.host)
      some (ret, fops', s')

abbrev pub all_set : Fops → Fops
all_set fops = record fops {
  has_open = true;
  has_open64 = true;
  has_read = true;
  has_write = true;
  has_pread = true;
  has_pwrite = true;
  has_fsync = true;
  has_lseek = true;
  has_truncate = true;
  has_ftruncate = true;
  has_stat = true;
  has_fxstat = true;
  has_close = true;
}

module _ (dlsym : Dlsym) (found : (symbol : Symbol) → dlsym symbol ≡ true) where
  -- Where the C library has every symbol, init_fops returns with every pointer set but that of lstat.
  pub init_fops-all_set : (fops : Fops) → init_fops dlsym fops ≡ some (all_set fops)
  unfolding init_fops find_symbol
  init_fops-all_set fops =
      rw
        (
          found Symbol.sym_open,
          found Symbol.sym_open64,
          found Symbol.sym_read,
          found Symbol.sym_write,
          found Symbol.sym_pread,
          found Symbol.sym_pwrite,
          found Symbol.sym_fsync,
          found Symbol.sym_lseek,
          found Symbol.sym_truncate,
          found Symbol.sym_ftruncate,
          found Symbol.sym_stat,
          found Symbol.sym_fxstat,
          found Symbol.sym_close,
        )
        refl

  find_missing-found :
      (there : Bool) (symbol : Symbol) (set : Fops → Fops) (fops : Fops)
      → (fops' : Fops) × (find_missing dlsym there symbol set fops ≡ some fops')
  unfolding find_missing find_symbol
  find_missing-found there symbol set fops = elim (Bool-cases there) [
    | inl set_before ↦ rw set_before (fops, refl)
    | inr missing ↦ rw (missing, found symbol) (set fops, refl)
  ]

  -- A call that is made before init_fops does what it does after.
  pub truncate_call-all_set :
      {K : Type 0} (passed : PassedOn K) (path length : ℕ) (fops : Fops) (s : Calls K)
      → (r : ℕ × Calls K) × (fops' : Fops) × (truncate_call dlsym passed path length (fops, s)
          ≡ some (r.0, fops', r.1))
        × (truncate_call dlsym passed path length (all_set fops, s) ≡ some (r.0, all_set fops, r.1))
  unfolding truncate_call find_missing
  truncate_call-all_set passed path length fops s =
      let (fops', e) =
        find_missing-found fops.has_truncate Symbol.sym_truncate
          (λ (f : Fops). record f { has_truncate = true }) fops in
      (returned s (passed.truncate path length s.process.mem s.host), fops', rw e refl, refl)

  pub stat_call-all_set :
      {K : Type 0} (passed : PassedOn K) (path statbuf : ℕ) (fops : Fops) (s : Calls K)
      → (r : ℕ × Calls K) × (fops' : Fops) × (stat_call dlsym passed path statbuf (fops, s)
          ≡ some (r.0, fops', r.1))
        × (stat_call dlsym passed path statbuf (all_set fops, s) ≡ some (r.0, all_set fops, r.1))
  unfolding stat_call find_missing
  stat_call-all_set passed path statbuf fops s =
      let (fops', e) =
        find_missing-found fops.has_stat Symbol.sym_stat
          (λ (f : Fops). record f { has_stat = true }) fops in
      (returned s (passed.stat path statbuf s.process.mem s.host), fops', rw e refl, refl)

  pub fstat_call-all_set :
      {K : Type 0} (passed : PassedOn K) (fd statbuf : ℕ) (fops : Fops) (s : Calls K)
      → (r : ℕ × Calls K) × (fops' : Fops) × (fstat_call dlsym passed fd statbuf (fops, s)
          ≡ some (r.0, fops', r.1))
        × (fstat_call dlsym passed fd statbuf (all_set fops, s) ≡ some (r.0, all_set fops, r.1))
  unfolding fstat_call find_missing
  fstat_call-all_set passed fd statbuf fops s =
      let (fops', e) =
        find_missing-found fops.has_fxstat Symbol.sym_fxstat
          (λ (f : Fops). record f { has_fxstat = true }) fops in
      (returned s (passed.fxstat fd statbuf s.process.mem s.host), fops', rw e refl, refl)
