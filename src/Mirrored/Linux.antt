-- ===== src/Mirrored/Linux.antt =====
-- src/mirrored/linux.rs: `allocate_mirrored` and `deallocate_mirrored` as the system calls that they
-- make, and what a list of system calls leaves open and mapped.
pub mod Mirror
pub mod Release
use slice_deque.Common.{
  ℕ, ◌+◌, ◌-◌, ◌/◌, ◌%◌, Bool, true, false, ◌&&◌, Option, none, some, List, [], ◌∷◌, leb, ltb, ◌==◌,
  if◌then◌else◌, usize_mod, Run, done, failed, panicked, Result, ok, err,
}
use slice_deque.Mirrored.Buffer.{AllocError, oom, other, Platform}

-- The answers of the system to the calls: a descriptor or an address, or whether the call succeeds.
-- A `memfd_create` that fails says whether `errno` is `ENOSYS`.
pub record Kernel : Type 0 where
  pub page_size : ℕ
  pub memfd_create : Result Bool ℕ
  pub mkstemp : Option ℕ
  pub ftruncate : ℕ → ℕ → Bool
  pub mmap : ℕ → ℕ → Option ℕ
  pub mmap_fixed : ℕ → ℕ → ℕ → Bool
  pub munmap : ℕ → ℕ → Bool
  pub close : ℕ → Bool

-- A system call with its arguments and its answer: `mmap bytes fd`, `mmap_fixed address bytes fd`,
-- `munmap address bytes`.
pub data Call : Type 0 where
  call_memfd_create : Result Bool ℕ → Call
  call_mkstemp : Option ℕ → Call
  call_unlink : Call
  call_ftruncate : ℕ → ℕ → Bool → Call
  call_mmap : ℕ → ℕ → Option ℕ → Call
  call_mmap_fixed : ℕ → ℕ → ℕ → Bool → Call
  call_munmap : ℕ → ℕ → Bool → Call
  call_close : ℕ → Bool → Call

-- The calls of a process, the last one first.
abbrev pub Trace : Type 0
Trace = List Call

-- A descriptor is open from the call that returns it to the call of `close` on it, which gives it
-- up even where it reports an error.
unfoldable pub is_open : Trace → ℕ → Bool
is_open [] x = false
is_open (call_memfd_create (ok fd) ∷ t) x = let rest = is_open t x in if fd == x then true else rest
is_open (call_mkstemp (some fd) ∷ t) x = let rest = is_open t x in if fd == x then true else rest
is_open (call_close fd b ∷ t) x = let rest = is_open t x in if fd == x then false else rest
is_open (call ∷ t) x = is_open t x

-- `a` is one of the `bytes` addresses from `p` on.
abbrev pub spans : ℕ → ℕ → ℕ → Bool
spans p bytes a = leb p a && ltb a (p + bytes)

-- The descriptor and the offset in its file behind the address `a`, as the last call leaves it that
-- maps or unmaps that address.
unfoldable pub backing : Trace → ℕ → Option (ℕ × ℕ)
backing [] a = none
backing (call_mmap bytes fd (some p) ∷ t) a =
    let rest = backing t a in if spans p bytes a then some (fd, a - p) else rest
backing (call_mmap_fixed p bytes fd true ∷ t) a =
    let rest = backing t a in if spans p bytes a then some (fd, a - p) else rest
backing (call_munmap p bytes true ∷ t) a =
    let rest = backing t a in if spans p bytes a then none else rest
backing (call ∷ t) a = backing t a

-- The temporary file, from the answers of `memfd_create` and, where there is no such call, of
-- `mkstemp`.
unfoldable pub temporary_file : Result Bool ℕ → Option ℕ → Trace → Trace × Option ℕ
temporary_file (ok fd) m t = (call_memfd_create (ok fd) ∷ t, some fd)
temporary_file (err true) (some fd) t =
    (call_unlink ∷ call_mkstemp (some fd) ∷ call_memfd_create (err true) ∷ t, some fd)
temporary_file (err true) none t = (call_mkstemp none ∷ call_memfd_create (err true) ∷ t, none)
temporary_file (err false) m t = (call_memfd_create (err false) ∷ t, none)

module _ (K : Kernel) where
  abbrev pub closing : ℕ → Trace → Trace
  closing fd t = call_close fd (K.close fd) ∷ t

  -- The second mapping, over the second half of the first one at `p`.
  unfoldable pub map_second : ℕ → ℕ → ℕ → Trace → Run Trace AllocError ℕ
  map_second size fd p t =
      let half = size / 2 in
      let p2 = (p + half) % usize_mod in
      let t' = call_mmap_fixed p2 half fd (K.mmap_fixed p2 half fd) ∷ t in
      if K.mmap_fixed p2 half fd
      then done (closing fd t') p
      else failed (closing fd (call_munmap p size (K.munmap p size) ∷ t')) other

  unfoldable pub map_first : ℕ → ℕ → Trace → Run Trace AllocError ℕ
  unfolding map_second
  map_first size fd t =
      let t' = call_mmap size fd (K.mmap size fd) ∷ t in
      elim (K.mmap size fd) [ none ↦ failed (closing fd t') oom | some p ↦ map_second size fd p t' ]

  -- What follows once the file is there.
  unfoldable pub map_file : ℕ → Trace × Option ℕ → Run Trace AllocError ℕ
  unfolding map_first
  map_file size (t, none) = failed t other
  map_file size (t, some fd) =
      let t' = call_ftruncate fd (size / 2) (K.ftruncate fd (size / 2)) ∷ t in
      if K.ftruncate fd (size / 2) then map_first size fd t' else failed (closing fd t') oom

  unfoldable pub allocate_mirrored : ℕ → Trace → Run Trace AllocError ℕ
  unfolding temporary_file map_file
  allocate_mirrored size t =
      if size == 0
      then panicked
      else if (size / 2) % K.page_size == 0
      then map_file size (temporary_file K.memfd_create K.mkstemp t)
      else panicked

  unfoldable pub deallocate_mirrored : ℕ → ℕ → Trace → Run Trace AllocError (Unit {0})
  deallocate_mirrored p size t =
      if p == 0
      then panicked
      else if size == 0
      then panicked
      else if size % K.page_size == 0
      then done (call_munmap p size (K.munmap p size) ∷ t) tt
      else panicked

-- The platform that the buffer sees: what a call returns after the calls `t`. `err` stands in for
-- a panic, which no size of a buffer causes.
abbrev pub answer : Run Trace AllocError ℕ → Result AllocError ℕ
answer (done t p) = ok p
answer (failed t e) = err e
answer panicked = err other

abbrev pub linux : Kernel → Trace → Platform
linux K t = record {
  granularity = K.page_size;
  allocate_mirrored = λ size. answer (allocate_mirrored K size t);
}
