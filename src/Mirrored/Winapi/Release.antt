-- ===== src/Mirrored/Winapi/Release.antt =====
-- src/mirrored/winapi.rs: what is left after `allocate_mirrored`, and after `deallocate_mirrored`
-- of what it returned.
use slice_deque.Common.{
  ℕ, ◌+◌, ◌/◌, ◌%◌, ◌<◌, ◌≡◌, inr, true, false, Option, none, some, ◌∷◌, refl, ◌∙◌, subst, ◌==◌,
  usize_mod, Run, done, failed, panicked, and_then, arith,
}
use slice_deque.Mirrored.Buffer.{AllocError, oom}
use slice_deque.Mirrored.Space.{
  Trace, opened, unmapped, refused, is_open, backing, OpensNothing, MapsNothing, Allocated,
}
use slice_deque.Mirrored.Space.Laws.{
  whole_pages, opened-OpensOnly, closed-OpensNothing, unmapped_twice-MapsNothing,
}
use slice_deque.Mirrored.Space.Rounds.{next_round}
use slice_deque.Mirrored.Winapi.{
  Kernel, granule, expect, file_mapping_created, create_file_mapping, region_found, map_both,
  map_loop, close_after, with_file_mapping, allocate_mirrored, deallocate_mirrored,
  dw_maximum_size_low, dw_maximum_size_high,
}
use slice_deque.Mirrored.Winapi.Mirror.{
  Obliging, Mirrorable, Ended, map_loop-Ended, close_file_mapping-closed,
  reserve_virtual_memory-found,
}

module _ (K : Kernel) (size : ℕ) (obliging : Obliging K size) (mirrorable : Mirrorable K size) where
  -- The mapping that `create_file_mapping` asks the system for.
  abbrev pub file_mapping : Option ℕ
  file_mapping =
      K.create_file_mapping_w (dw_maximum_size_high K (size / 2)) (dw_maximum_size_low K (size / 2))

  -- `allocate_mirrored` comes to its loop.
  allocate_mirrored-loop :
      (t : Trace) (r : Option ℕ)
      → file_mapping ≡ r
      → allocate_mirrored K size t ≡ with_file_mapping K size (file_mapping_created K t r)
  unfolding allocate_mirrored create_file_mapping
  allocate_mirrored-loop t r e =
      let even = mirrorable.even in
      let nonzero = mirrorable.some_size in
      let positive : (size == 0) ≡ false = ground arith in
      let some_half : (size / 2 == 0) ≡ false = ground arith in
      let whole = mirrorable.whole in
      let pages : ((size / 2) % granule K == 0) ≡ true = ground arith in
      rw (positive, pages, some_half, e)

  module _ (t₀ : Trace)
      (finds : (round : ℕ) → (p : ℕ) × (K.virtual_alloc round size ≡ some p)) where
    -- `Allocated`, and where the memory is.
    abbrev Placed : Run Trace AllocError ℕ → Type 0
    Placed (done t p) = Allocated t₀ size (done t p) × ((0 < p) × (p + size < usize_mod))
    Placed (failed t e) = Allocated t₀ size (failed t e)
    Placed panicked = ⊥

    close_after-Placed :
        (h : ℕ) (handle : 0 < h) (r : Run Trace AllocError ℕ)
        → Ended K size obliging mirrorable t₀ h handle r
        → Placed (close_after K h r)
    unfolding close_after expect and_then backing
    close_after-Placed h handle (done t p) (opens, mirrors, maps, placed) =
        rw (close_file_mapping-closed K size obliging mirrorable h t handle)
          ((closed-OpensNothing t₀ t h opens, mirrors, maps), placed)
    close_after-Placed h handle (failed t e) ended = ended
    close_after-Placed h handle panicked ended = ended

    with_file_mapping-Placed :
        (r : Option ℕ)
        → file_mapping ≡ r
        → Placed (with_file_mapping K size (file_mapping_created K t₀ r))
    unfolding with_file_mapping file_mapping_created is_open backing
    with_file_mapping-Placed none e = (λ x e. e, λ a. inr refl)
    with_file_mapping-Placed (some h) e =
        let handle = obliging.handles _ _ h e in
        close_after-Placed h handle (map_loop K h size 0 11 (opened h ∷ t₀)) (
          map_loop-Ended K size obliging mirrorable t₀ h handle finds 11 0 (opened h ∷ t₀)
            (opened-OpensOnly t₀ h) (λ a. inr refl))

    allocate_mirrored-Placed : Placed (allocate_mirrored K size t₀)
    allocate_mirrored-Placed =
        rw (allocate_mirrored-loop t₀ file_mapping refl)
          (with_file_mapping-Placed file_mapping refl)

    Placed-Allocated : (r : Run Trace AllocError ℕ) → Placed r → Allocated t₀ size r
    Placed-Allocated (done t p) (allocated, placed) = allocated
    Placed-Allocated (failed t e) h = h
    Placed-Allocated panicked h = h

    -- `allocate_mirrored` on Windows, where every round finds a region, does as over System
    -- V shared memory: mirrored memory or an error with nothing newly mapped, and no handle
    -- left open.
    pub file_views-Allocated : Allocated t₀ size (allocate_mirrored K size t₀)
    file_views-Allocated = Placed-Allocated (allocate_mirrored K size t₀) allocate_mirrored-Placed

    -- What `deallocate_mirrored(p, size)` does after the calls `t`: it returns, and leaves nothing
    -- mapped and nothing open but what was so after `t₀`.
    abbrev pub Released : Trace → ℕ → Type 0
    Released t p =
        (t' : Trace) × (deallocate_mirrored K p size t ≡ done t' tt)
        × OpensNothing t₀ t'
        × MapsNothing t₀ t'

    -- What `allocate_mirrored` returned, `deallocate_mirrored` unmaps without a panic, and
    -- then nothing is open or mapped but what was so before.
    pub file_views-Released :
        (t : Trace) (p : ℕ) → allocate_mirrored K size t₀ ≡ done t p → Released t p
    unfolding deallocate_mirrored expect is_open and_then
    file_views-Released t p e =
        let ((opens, mirrors, maps), (pos, fits)) =
          subst (λ r. Placed r) e allocate_mirrored-Placed in
        let p2 : (p + size / 2) % usize_mod ≡ p + size / 2 = omega arith in
        let some_address : (p == 0) ≡ false = ground arith in
        let nonzero = mirrorable.some_size in
        let positive : (size == 0) ≡ false = ground arith in
        let multiple = whole_pages (granule K) size mirrorable.even mirrorable.whole in
        let pages : (size % granule K == 0) ≡ true = ground arith in
        let second : (p + size / 2 == 0) ≡ false = ground arith in
        (
          unmapped (p + size / 2) (size / 2) ∷ unmapped p (size / 2) ∷ t,
          rw (
            some_address,
            positive,
            pages,
            obliging.unmaps p,
            p2,
            second,
            obliging.unmaps (p + size / 2),
          ),
          opens,
          unmapped_twice-MapsNothing t₀ t p size 0 mirrorable.even maps,
        )

  -- Where the first round finds no region, `allocate_mirrored` on Windows fails for want of
  -- memory and leaves the handle of the file mapping open.
  pub allocate_mirrored-refused :
      (t : Trace) (h : ℕ)
      → file_mapping ≡ some h
      → K.virtual_alloc 0 size ≡ none
      → (t' : Trace) × (allocate_mirrored K size t ≡ failed t' oom) × (is_open t' h ≡ true)
  unfolding with_file_mapping file_mapping_created map_loop region_found map_both next_round
      close_after is_open
  allocate_mirrored-refused t h e none_left =
      let same : (h == h) ≡ true = ground arith in
      let reserve =
        reserve_virtual_memory-found K size obliging mirrorable 0 (opened h ∷ t) none none_left in
      (refused ∷ opened h ∷ t, allocate_mirrored-loop t (some h) e ∙ rw reserve, rw same)
