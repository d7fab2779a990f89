-- ===== src/Mirrored/Macos/Mirror.antt =====
-- What the calls of src/mirrored/macos.rs leave behind.
use slice_deque.Common.{
  ℕ, ◌+◌, ◌-◌, ◌/◌, ◌%◌, ◌<◌, ◌≡◌, ◌≢◌, inl, inr, true, false, Option, none, some, ◌∷◌, refl, ◌∙◌,
  subst, ◌==◌, usize_mod, Run, done, failed, panicked, arith, Bool-cases,
}
use slice_deque.Mirrored.Buffer.{AllocError, other}
use slice_deque.Mirrored.Space.{
  Trace, opened, mapped, unmapped, remapped, refused, is_open, backing, byte, OpensOnly,
  MapsNothing, MapsWithin, Mirrors,
}
use slice_deque.Mirrored.Space.Laws.{
  spans-within, spans-before, spans-first, spans-second, whole_pages, unmapped-MapsNothing,
}
use slice_deque.Mirrored.Macos.{
  Kernel, dealloc, give_back, remap_second, entry_made, split_first, allocated_all,
  allocate_mirrored, expect_dealloc, deallocate_mirrored,
}

-- A system that gives up what it is asked to, and allocates `size` bytes inside the address space.
pub record Obliging (K : Kernel) (size : ℕ) : Type 0 where
  pub deallocates : (p bytes : ℕ) → K.mach_vm_deallocate p bytes ≡ true
  pub placed : (p : ℕ) → K.mach_vm_allocate size ≡ some p → (0 < p) × (p + size < usize_mod)

-- A size at which `allocate_mirrored` does not panic.
pub record Mirrorable (K : Kernel) (size : ℕ) : Type 0 where
  pub even : size % 2 ≡ 0
  pub some_size : size ≢ 0
  pub whole : (size / 2) % K.vm_page_size ≡ 0

-- The calls of an allocation that succeeds.
abbrev pub remaps : Trace → ℕ → ℕ → ℕ → Trace
remaps t p size handle =
    remapped (p + size / 2) (size / 2) p
    ∷ opened handle
    ∷ mapped p (size / 2) p
    ∷ mapped p size p
    ∷ t

-- Remapping shows the first half again.
remaps-Mirrors : (t : Trace) (p size handle : ℕ) → Mirrors (remaps t p size handle) p (size / 2)
unfolding backing
remaps-Mirrors t p size handle = (
  p,
  λ i lt.
      let before = spans-before (p + size / 2) (size / 2) (p + i) (omega arith) in
      let first = spans-within p (size / 2) (p + i) (omega arith) (omega arith) in
      let second =
        spans-within (p + size / 2) (size / 2) (p + size / 2 + i) (omega arith) (omega arith) in
      let near : p + i - p ≡ i = omega arith in
      let far : p + size / 2 + i - (p + size / 2) ≡ i = omega arith in
      (rw (before, first, near), rw (second, far, first, near)),
)

remaps-MapsWithin : (t : Trace) (p size handle : ℕ) → MapsWithin t (remaps t p size handle) p size
unfolding backing
remaps-MapsWithin t p size handle a outside =
    let first = spans-first p size a outside in
    let second = spans-second p size a outside in rw (second, first, outside) (inr refl)

mapped_all-MapsWithin :
    (t : Trace) (p size : ℕ) → MapsWithin t (mapped p (size / 2) p ∷ mapped p size p ∷ t) p size
unfolding backing
mapped_all-MapsWithin t p size a outside =
    let first = spans-first p size a outside in rw (first, outside) (inr refl)

module _ (K : Kernel) (size : ℕ) (obliging : Obliging K size) (mirrorable : Mirrorable K size) where
  dealloc-unmapped :
      (p : ℕ) (t : Trace) → 0 < p → dealloc K p size t ≡ done (unmapped p size ∷ t) tt
  unfolding dealloc
  dealloc-unmapped p t pos =
      let some_address : (p == 0) ≡ false = ground arith in
      let nonzero = mirrorable.some_size in
      let positive : (size == 0) ≡ false = ground arith in
      let multiple = whole_pages K.vm_page_size size mirrorable.even mirrorable.whole in
      let pages : (size % K.vm_page_size == 0) ≡ true = ground arith in
      rw (positive, pages, some_address, obliging.deallocates p size)

  -- The `allocate_mirrored` of a size that it does not refuse.
  allocate_mirrored-allocated :
      (t : Trace) → allocate_mirrored K size t ≡ allocated_all K size t (K.mach_vm_allocate size)
  unfolding allocate_mirrored
  allocate_mirrored-allocated t =
      let nonzero = mirrorable.some_size in
      let positive : (size == 0) ≡ false = ground arith in
      let whole = mirrorable.whole in
      let pages : ((size / 2) % K.vm_page_size == 0) ≡ true = ground arith in rw (positive, pages)

  module _ (t₀ : Trace) where
    -- What `allocate_mirrored(size)` should come back with, after the calls `t₀`: mirrored memory, or
    -- an error with nothing mapped. One handle may stay open, that of the memory entry.
    abbrev pub Allocated : Run Trace AllocError ℕ → Type 0
    Allocated (done t p) =
        ((handle : ℕ) × OpensOnly t₀ t handle)
        × Mirrors t p (size / 2)
        × MapsWithin t₀ t p size
        × ((0 < p) × (p + size < usize_mod))
    Allocated (failed t e) = ((handle : ℕ) × OpensOnly t₀ t handle) × MapsNothing t₀ t
    Allocated panicked = ⊥

    give_back-Allocated :
        (t : Trace) (p handle : ℕ)
        → 0 < p
        → OpensOnly t₀ t handle
        → MapsWithin t₀ t p size
        → Allocated (give_back K (dealloc K p size t))
    unfolding give_back is_open
    give_back-Allocated t p handle pos opens maps =
        rw (dealloc-unmapped p t pos) ((handle, opens), unmapped-MapsNothing t₀ t p size maps)

    remap_second-Allocated :
        (p handle : ℕ)
        → 0 < p
        → p + size < usize_mod
        → Allocated
            (remap_second K size p (opened handle ∷ mapped p (size / 2) p ∷ mapped p size p ∷ t₀))
    unfolding remap_second is_open backing
    remap_second-Allocated p handle pos fits =
        let to : (p + size / 2) % usize_mod ≡ p + size / 2 = omega arith in
        let opens : OpensOnly t₀ (opened handle ∷ t₀) handle = λ x e differs. ground arith in
        elim (Bool-cases (K.mach_vm_remap (p + size / 2) (size / 2) p)) [
          | inl granted ↦
              rw (to, granted)
                (
                  (handle, opens),
                  remaps-Mirrors t₀ p size handle,
                  remaps-MapsWithin t₀ p size handle,
                  (pos, fits),
                )
          | inr denied ↦
              rw (to, denied)
                (give_back-Allocated
                  (refused ∷ opened handle ∷ mapped p (size / 2) p ∷ mapped p size p ∷ t₀) p handle
                  pos opens (mapped_all-MapsWithin t₀ p size))
        ]

    entry_made-Allocated :
        (p : ℕ) (r : Option ℕ)
        → 0 < p
        → p + size < usize_mod
        → Allocated (entry_made K size p (mapped p (size / 2) p ∷ mapped p size p ∷ t₀) r)
    unfolding entry_made is_open backing
    entry_made-Allocated p none pos fits =
        give_back-Allocated (refused ∷ mapped p (size / 2) p ∷ mapped p size p ∷ t₀) p 0 pos
          (λ x e differs. e) (mapped_all-MapsWithin t₀ p size)
    entry_made-Allocated p (some handle) pos fits = remap_second-Allocated p handle pos fits

    allocated_all-Allocated :
        (r : Option ℕ)
        → K.mach_vm_allocate size ≡ r
        → ((p bytes : ℕ) → K.mach_vm_allocate_fixed p bytes ≡ true)
        → Allocated (allocated_all K size t₀ r)
    unfolding allocated_all split_first is_open backing
    allocated_all-Allocated none e overwrites = ((0, λ x e differs. e), λ a. inr refl)
    allocated_all-Allocated (some p) e overwrites =
        let (pos, fits) = obliging.placed p e in
        rw (overwrites p (size / 2))
          (entry_made-Allocated p (K.mach_make_memory_entry (size / 2) p) pos fits)

    pub memory_entry-Allocated :
        ((p bytes : ℕ) → K.mach_vm_allocate_fixed p bytes ≡ true)
        → Allocated (allocate_mirrored K size t₀)
    memory_entry-Allocated overwrites =
        rw (allocate_mirrored-allocated t₀)
          (allocated_all-Allocated (K.mach_vm_allocate size) refl overwrites)

    -- What `allocate_mirrored` returned, `deallocate_mirrored` gives back without a panic,
    -- and then nothing is mapped but what was so before.
    pub memory_entry-Released :
        ((p bytes : ℕ) → K.mach_vm_allocate_fixed p bytes ≡ true)
        → (t : Trace) (p : ℕ) → allocate_mirrored K size t₀ ≡ done t p
        → (t' : Trace) × (deallocate_mirrored K p size t ≡ done t' tt) × MapsNothing t₀ t'
    unfolding deallocate_mirrored expect_dealloc dealloc
    memory_entry-Released overwrites t p e =
        let (opens, mirrors, maps, (pos, fits)) =
          subst (λ r. Allocated r) e (memory_entry-Allocated overwrites) in
        let some_address : (p == 0) ≡ false = ground arith in
        let nonzero = mirrorable.some_size in
        let positive : (size == 0) ≡ false = ground arith in
        let multiple = whole_pages K.vm_page_size size mirrorable.even mirrorable.whole in
        let pages : (size % K.vm_page_size == 0) ≡ true = ground arith in
        (
          unmapped p size ∷ t,
          rw (some_address, positive, pages, obliging.deallocates p size),
          unmapped-MapsNothing t₀ t p size maps,
        )

  -- Where the second allocation is refused, `allocate_mirrored` on macOS fails and leaves all
  -- `size` bytes of the first one mapped.
  pub allocate_mirrored-overwrite :
      (t : Trace) (p : ℕ)
      → K.mach_vm_allocate size ≡ some p
      → K.mach_vm_allocate_fixed p (size / 2) ≡ false
      → (t' : Trace) × (allocate_mirrored K size t ≡ failed t' other)
        × ((i : ℕ) → i < size → backing t' (p + i) ≡ some (byte p i))
  unfolding allocated_all split_first backing
  allocate_mirrored-overwrite t p e denied = (
    refused ∷ mapped p size p ∷ t,
    allocate_mirrored-allocated t ∙ rw (e, denied),
    λ i lt.
        let within = spans-within p size (p + i) (omega arith) (omega arith) in
        let near : p + i - p ≡ i = omega arith in rw (within, near),
  )
