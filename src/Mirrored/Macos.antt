-- ===== src/Mirrored/Macos.antt =====
-- src/mirrored/macos.rs: `allocate_mirrored`, `deallocate_mirrored` and `dealloc` as the calls of
-- mach that they make.
pub mod Mirror
use slice_deque.Common.{
  ℕ, ◌+◌, ◌/◌, ◌%◌, Bool, true, false, Option, none, some, ◌∷◌, ◌==◌, if◌then◌else◌, usize_mod, Run,
  done, failed, panicked, and_then,
}
use slice_deque.Mirrored.Buffer.{AllocError, oom, other}
use slice_deque.Mirrored.Space.{Trace, mapped, unmapped, remapped, opened, refused}

-- The answers of mach: an address or a handle, or whether the call succeeds (`KERN_SUCCESS`).
-- `mach_vm_allocate` is asked for memory anywhere, and `mach_vm_allocate_fixed` for memory in place
-- of what is at its address: `mach_vm_allocate_fixed address bytes`.
-- `mach_vm_remap to bytes from` maps again at `to` what is at `from`.
pub record Kernel : Type 0 where
  pub vm_page_size : ℕ
  pub mach_vm_allocate : ℕ → Option ℕ
  pub mach_vm_allocate_fixed : ℕ → ℕ → Bool
  pub mach_make_memory_entry : ℕ → ℕ → Option ℕ
  pub mach_vm_remap : ℕ → ℕ → ℕ → Bool
  pub mach_vm_deallocate : ℕ → ℕ → Bool

module _ (K : Kernel) where
  unfoldable pub dealloc : ℕ → ℕ → Trace → Run Trace (Unit {0}) (Unit {0})
  dealloc p size t =
      if size == 0
      then panicked
      else if size % K.vm_page_size == 0
      then if p == 0
        then panicked
        else if K.mach_vm_deallocate p size
        then done (unmapped p size ∷ t) tt
        else failed (refused ∷ t) tt
      else panicked

  -- The error path that gives the memory back: `return Err(AllocError::Other)` after `dealloc`.
  unfoldable pub give_back : Run Trace (Unit {0}) (Unit {0}) → Run Trace AllocError ℕ
  give_back (done t u) = failed t other
  give_back (failed t e) = panicked
  give_back panicked = panicked

  -- The second half shows the first one.
  unfoldable pub remap_second : ℕ → ℕ → Trace → Run Trace AllocError ℕ
  unfolding give_back dealloc
  remap_second size p t =
      let half = size / 2 in
      let to = (p + half) % usize_mod in
      if K.mach_vm_remap to half p
      then done (remapped to half p ∷ t) p
      else give_back (dealloc p size (refused ∷ t))

  -- What follows the answer of `mach_make_memory_entry_64`.
  unfoldable pub entry_made : ℕ → ℕ → Trace → Option ℕ → Run Trace AllocError ℕ
  unfolding give_back dealloc remap_second
  entry_made size p t none = give_back (dealloc p size (refused ∷ t))
  entry_made size p t (some handle) = remap_second size p (opened handle ∷ t)

  -- The first half becomes an object of its own. Memory at `p` is the object `p`.
  unfoldable pub split_first : ℕ → ℕ → Trace → Run Trace AllocError ℕ
  unfolding entry_made
  split_first size p t =
      let half = size / 2 in
      if K.mach_vm_allocate_fixed p half
      then entry_made size p (mapped p half p ∷ t) (K.mach_make_memory_entry half p)
      else failed (refused ∷ t) other

  -- What follows the answer of the first `mach_vm_allocate`.
  unfoldable pub allocated_all : ℕ → Trace → Option ℕ → Run Trace AllocError ℕ
  unfolding split_first
  allocated_all size t none = failed (refused ∷ t) oom
  allocated_all size t (some p) = split_first size p (mapped p size p ∷ t)

  unfoldable pub allocate_mirrored : ℕ → Trace → Run Trace AllocError ℕ
  unfolding allocated_all
  allocate_mirrored size t =
      if size == 0
      then panicked
      else if (size / 2) % K.vm_page_size == 0
      then allocated_all size t (K.mach_vm_allocate size)
      else panicked

  -- The `expect` after `dealloc`.
  unfoldable pub expect_dealloc : Run Trace (Unit {0}) (Unit {0}) → Run Trace AllocError (Unit {0})
  expect_dealloc (done t u) = done t u
  expect_dealloc (failed t e) = panicked
  expect_dealloc panicked = panicked

  unfoldable pub deallocate_mirrored : ℕ → ℕ → Trace → Run Trace AllocError (Unit {0})
  unfolding dealloc expect_dealloc
  deallocate_mirrored p size t =
      if p == 0
      then panicked
      else if size == 0
      then panicked
      else if size % K.vm_page_size == 0
      then expect_dealloc (dealloc p size t)
      else panicked
