-- ===== src/Tests/Linux.antt =====
-- Runs of src/mirrored/linux.rs: a system with pages of four bytes, which maps at most 4096 bytes.
use slice_deque.Common.{
  ℕ, ◌+◌, ◌/◌, ◌≤◌, ◌<◌, ◌≡◌, refl, true, false, arith, none, some, [], ◌∷◌, leb, if◌then◌else◌,
  usize_mod, failed, Option, Bool, ok,
}
use slice_deque.Mirrored.Buffer.{other}
use slice_deque.Mirrored.Linux.{
  Kernel, Trace, call_memfd_create, call_ftruncate, call_mmap, call_mmap_fixed, call_munmap,
  call_close, temporary_file, map_second, map_first, map_file, allocate_mirrored,
}
use slice_deque.Mirrored.Linux.Mirror.{Allocated, allocate_mirrored-Allocated}

abbrev mapped_at : ℕ → ℕ → Option ℕ
mapped_at size fd = if leb size 4096 then some 4096 else none

-- Descriptor 3, address 4096; the second mapping succeeds as `fixes` says.
abbrev kernel : Bool → Kernel
kernel fixes = record {
  page_size = 4;
  memfd_create = ok 3;
  mkstemp = none;
  ftruncate = λ fd bytes. true;
  mmap = mapped_at;
  mmap_fixed = λ p bytes fd. fixes;
  munmap = λ p bytes. true;
  close = λ fd. true;
}

mapped_at-inside :
    (size fd p : ℕ) → mapped_at size fd ≡ some p → (size / 2 ≤ p) × (0 < p) × (p + size < usize_mod)
mapped_at-inside size fd p e = ground arith

-- The calls of a successful allocation, the last one first.
abbrev calls : Trace
calls =
    call_close 3 true
    ∷ call_mmap_fixed 4104 8 3 true
    ∷ call_mmap 16 3 (some 4096)
    ∷ call_ftruncate 3 8 true
    ∷ call_memfd_create (ok 3)
    ∷ []

-- Where the second mapping is refused the first one is undone.
undoes :
    allocate_mirrored (kernel false) 16 []
    ≡ failed
        (call_close 3 true
          ∷ call_munmap 4096 16 true
          ∷ call_mmap_fixed 4104 8 3 false
          ∷ call_mmap 16 3 (some 4096)
          ∷ call_ftruncate 3 8 true
          ∷ call_memfd_create (ok 3)
          ∷ [])
        other
unfolding allocate_mirrored map_file map_first map_second temporary_file
undoes = refl

allocate_mirrored-Allocated_example : Allocated [] 16 (allocate_mirrored (kernel false) 16 [])
allocate_mirrored-Allocated_example =
    allocate_mirrored-Allocated (kernel false) [] 16 refl (λ p bytes. refl)
      (λ fd p e. (mapped_at-inside 16 fd p e).2) (omega arith) refl
