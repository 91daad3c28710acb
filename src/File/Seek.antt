-- ===== src/File/Seek.antt =====
-- src/file.c: where `lseek` puts the position of an open file, told with signed offsets.
use libnvmmio.Prelude.{
  ℕ, ◌+◌, ◌-◌, ◌^◌, ◌≤◌, ◌<◌, ◌≡◌, refl, inl, inr, none, some, ltb, arith, ◌∙◌, update_self,
  update_ne, ap, Bool-cases, ◌≢◌,
}
use mathlib.Core.Logic.{◌⊎◌}
use libnvmmio.File.{FileStruct, Calls, get_file, put_file, seek_target, lseek_call}
use libnvmmio.File.Host.{Posix, Whence}
use libnvmmio.File.Position.{IsOpen, size_of, lseek_call-target}

-- What an offset counts from: the start of the file, the position, or the end.
pub data CountsFrom (pos size : ℕ) : Whence → ℕ → Type 0 where
  from_start : CountsFrom pos size Whence.seek_set 0
  from_position : CountsFrom pos size Whence.seek_cur pos
  from_end : CountsFrom pos size Whence.seek_end size

-- The pattern `offset` stands for as many bytes forward, or for some bytes back.
pub data Leads (base target : ℕ) : (offset : ℕ) → Type 0 where
  forward : {n : ℕ} → base + n ≡ target → Leads base target n
  backward : {n : ℕ} → 0 < n → n ≤ base → base - n ≡ target → Leads base target (2 ^ 64 - n)

module _ {K : Type 0} (posix : Posix K) {fd : ℕ} {file : FileStruct} {s : Calls K}
    (opened : IsOpen s fd file) where
  -- The call returned the target, the file is open at the target, and nothing else changed.
  pub record Sought (target : ℕ) (r : ℕ × Calls K) : Type 0 where
    pub ret : r.0 ≡ target
    pub entry : get_file fd r.1 ≡ some (record file { pos = target })
    pub others : (g : ℕ) → fd ≢ g → get_file g r.1 ≡ get_file g s
    pub process : r.1.process ≡ s.process
    pub host : r.1.host ≡ s.host
    pub is_open : IsOpen r.1 fd (record file { pos = target })

  seek_target_lem :
      (whence : Whence) (base offset target : ℕ)
      → CountsFrom file.pos (size_of file s) whence base
      → Leads base target offset
      → target < 2 ^ 63
      → seek_target whence file.pos (size_of file s) offset ≡ some target
  unfolding seek_target
  seek_target_lem whence base offset target from_start (forward to) lt =
      ap some (omega (arith, to, lt))
  seek_target_lem whence base offset target from_start (backward some_bytes le to) lt =
      absurd (omega (arith, some_bytes, le))
  seek_target_lem whence base offset target from_position (forward to) lt =
      ap some (omega (arith, to, lt))
  seek_target_lem whence base offset target from_position (backward {n = n} some_bytes le to) lt =
      ap some (omega (arith, some_bytes, le, to, lt, opened.inside, opened.small))
  seek_target_lem whence base offset target from_end (forward to) lt =
      ap some (omega (arith, to, lt))
  seek_target_lem whence base offset target from_end (backward {n = n} some_bytes le to) lt =
      ap some (omega (arith, some_bytes, le, to, lt, opened.small))

  abbrev sought : ℕ → ℕ × Calls K
  sought target = (target, put_file fd (some (record file { pos = target })) s)

  sought-Sought : (target : ℕ) → target ≤ size_of file s → Sought target (sought target)
  sought-Sought target le = record {
    ret = refl;
    entry = update_self s.fd_table fd (some (record file { pos = target }));
    others = λ g ne. update_ne s.fd_table fd g (some (record file { pos = target })) ne;
    process = refl;
    host = refl;
    is_open = record {
      entry = update_self s.fd_table fd (some (record file { pos = target }));
      inside = le;
      small = opened.small;
    };
  }

  -- `lseek` of an open file by an offset, forward or back from the start, the position or the end, to a
  -- target below 2^63: if the target is not behind the end of the file, the call returns it and
  -- leaves the file open there, with all else as it was; otherwise the program ends.
  pub lseek_call-Sought :
      (whence : Whence) (base offset target : ℕ)
      → CountsFrom file.pos (size_of file s) whence base
      → Leads base target offset
      → target < 2 ^ 63
      → ((r : ℕ × Calls K) × (target ≤ size_of file s)
          × (lseek_call posix fd offset whence s ≡ some r)
          × Sought target r)
        ⊎ ((size_of file s < target) × (lseek_call posix fd offset whence s ≡ none))
  lseek_call-Sought whence base offset target counts leads lt =
      let e =
        lseek_call-target posix opened offset target whence
          (seek_target_lem whence base offset target counts leads lt) lt in
      elim (Bool-cases (ltb (size_of file s) target)) [
        | inl behind ↦ inr (ground (arith, behind), e ∙ rw behind refl)
        | inr inside ↦
            (let le : target ≤ size_of file s = ground (arith, inside) in
              inl (sought target, le, e ∙ rw inside refl, sought-Sought target le))
      ]
