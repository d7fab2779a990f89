-- ===== src/Mirrored/Sysv/Release.antt =====
-- src/mirrored/sysv.rs: what is left after `allocate_mirrored`, and after `deallocate_mirrored` of
-- what it returned.
use slice_deque.Common.{ℕ, ◌/◌, ◌%◌, ◌≡◌, ◌≢◌, Run, done, failed, panicked}
use slice_deque.Mirrored.Buffer.{AllocError}
use slice_deque.Mirrored.Space.{Trace, OpensNothing, MapsNothing, Allocated}
use slice_deque.Mirrored.Sysv.{Kernel, allocate_mirrored, deallocate_mirrored}
use slice_deque.Mirrored.Sysv.Mirror.{Obliging, Placed, allocate_mirrored-Placed}

module _ (K : Kernel) (t₀ : Trace) (size : ℕ) (obliging : Obliging K size) (even : size % 2 ≡ 0)
    (some_size : size ≢ 0) (whole : (size / 2) % K.page_size ≡ 0) where
  Placed-Allocated :
      (r : Run Trace AllocError ℕ) → Placed K size obliging t₀ r → Allocated t₀ size r
  Placed-Allocated (done t p) (allocated, placed) = allocated
  Placed-Allocated (failed t e) h = h
  Placed-Allocated panicked h = h

  -- `allocate_mirrored` over System V shared memory, at a positive even size of which half is
  -- whole pages, does not panic; on success both halves show the same bytes of one object and
  -- nothing else is newly mapped, on failure nothing is; either way no object stays open; if
  -- the system gives up what it is asked to, attaches where it is told and reserves within the
  -- address space.
  pub attached_memory-Allocated : Allocated t₀ size (allocate_mirrored K size t₀)
  attached_memory-Allocated =
      Placed-Allocated (allocate_mirrored K size t₀)
        (allocate_mirrored-Placed K size obliging t₀ even some_size whole)

  -- What `deallocate_mirrored(p, size)` does after the calls `t`: it returns, and leaves nothing
  -- mapped and nothing open but what was so after `t₀`.
  abbrev pub Released : Trace → ℕ → Type 0
  Released t p =
      (t' : Trace) × (deallocate_mirrored K p size t ≡ done t' tt)
      × OpensNothing t₀ t'
      × MapsNothing t₀ t'
