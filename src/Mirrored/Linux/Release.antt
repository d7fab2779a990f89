-- ===== src/Mirrored/Linux/Release.antt =====
-- src/mirrored/linux.rs: `deallocate_mirrored` after `allocate_mirrored`, and the two of them behind
-- the buffer.
use slice_deque.Common.{
  ℕ, ◌+◌, ◌*◌, ◌<◌, ◌≡◌, true, some, usize_mod, Run, done, failed, panicked, arith,
}
use slice_deque.Mirrored.Buffer.{AllocError}
use slice_deque.Mirrored.Size.{size_in_bytes}
use slice_deque.Mirrored.Size.Round.{size_in_bytes_bounds}
use slice_deque.Mirrored.Linux.{Kernel, Trace, allocate_mirrored, deallocate_mirrored}
use slice_deque.Mirrored.Linux.Mirror.{
  OpensNothing, MapsNothing, Allocated, allocate_mirrored-Allocated,
}

module _ (K : Kernel) (t₀ : Trace) (size : ℕ) where
  -- What `deallocate_mirrored(p, size)` does after the calls `t`: it returns, and leaves nothing
  -- mapped and no descriptor open but what was so after `t₀`.
  abbrev pub Released : Trace → ℕ → Type 0
  Released t p =
      (t' : Trace) × (deallocate_mirrored K p size t ≡ done t' tt)
      × OpensNothing t₀ t'
      × MapsNothing t₀ t'

-- An address that `allocate_mirrored` returns is one that `mmap` returned.
module _ (K : Kernel) (size : ℕ) where
  abbrev From : Run Trace AllocError ℕ → Type 0
  From (done t p) = (fd : ℕ) × (K.mmap size fd ≡ some p)
  From (failed t e) = Unit {0}
  From panicked = Unit {0}

-- At the size that the buffer computes for `len` elements, `allocate_mirrored` does not panic: what
-- it leaves behind is as at any positive size that is two times whole pages.
pub allocate_mirrored-size_in_bytes :
    (K : Kernel) (t : Trace) (size len : ℕ)
    → 0 < K.page_size
    → len * size + 2 * K.page_size < usize_mod
    → ((p bytes : ℕ) → K.munmap p bytes ≡ true)
    → ((fd p : ℕ)
        → K.mmap (size_in_bytes K.page_size size len) fd ≡ some p
        → p + size_in_bytes K.page_size size len < usize_mod)
    → Allocated t
        (size_in_bytes K.page_size size len)
        (allocate_mirrored K (size_in_bytes K.page_size size len) t)
allocate_mirrored-size_in_bytes K t size len page fits unmaps placed =
    let (positive, even, whole, holds, spare) =
      size_in_bytes_bounds K.page_size size len page fits in
    allocate_mirrored-Allocated K t _ even unmaps placed (omega arith) whole
