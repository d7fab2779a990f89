-- ===== src/Mirrored/Winapi/Mirror.antt =====
-- What the system calls of src/mirrored/winapi.rs leave behind.
use slice_deque.Common.{
  ℕ, suc, zero, ◌+◌, ◌/◌, ◌%◌, ◌<◌, ◌≡◌, ◌≢◌, ◌⊎◌, inl, inr, true, false, Option, none, some, ◌∷◌,
  refl, ◌==◌, usize_mod, Run, done, failed, panicked, and_then, arith,
}
use slice_deque.Mirrored.Buffer.{AllocError}
use slice_deque.Mirrored.Space.{
  Trace, closed, reserved, mapped, unmapped, refused, is_open, backing, OpensNothing, OpensOnly,
  MapsNothing,
}
use slice_deque.Mirrored.Space.Laws.{
  whole_pages, closed-OpensNothing, unmapped-MapsNothing, reserved-MapsWithin, mapped-MapsWithin,
  mapped_twice-Mirrors, mapped_twice-MapsWithin,
}
use slice_deque.Mirrored.Space.Rounds.{Round, next_round, Rounded, GoesOn}
use slice_deque.Mirrored.Winapi.{
  Kernel, granule, expect, close_file_mapping, region_found, reserve_virtual_memory, view_mapped,
  map_view_of_file, unmap_view_of_file, first_half_unmapped, second_half_mapped, first_half_mapped,
  map_both, map_loop,
}

-- A system that gives up what it is asked to, maps at the address it is told, returns no null
-- handle as one, and finds regions of `size` bytes inside the address space.
pub record Obliging (K : Kernel) (size : ℕ) : Type 0 where
  pub closes : (h : ℕ) → K.close_handle h ≡ true
  pub frees : (p : ℕ) → K.virtual_free p ≡ true
  pub unmaps : (p : ℕ) → K.unmap_view_of_file p ≡ true
  pub handles : (high low h : ℕ) → K.create_file_mapping_w high low ≡ some h → 0 < h
  pub maps : (round h bytes p r : ℕ) → K.map_view_of_file_ex round h bytes p ≡ some r → r ≡ p
  pub placed :
      (round p : ℕ) → K.virtual_alloc round size ≡ some p → (0 < p) × (p + size < usize_mod)

-- A size of which `allocate_mirrored` does not panic.
pub record Mirrorable (K : Kernel) (size : ℕ) : Type 0 where
  pub even : size % 2 ≡ 0
  pub some_size : size ≢ 0
  pub whole : (size / 2) % granule K ≡ 0

module _ (K : Kernel) (size : ℕ) (obliging : Obliging K size) (mirrorable : Mirrorable K size) where
  pub close_file_mapping-closed :
      (h : ℕ) (t : Trace) → 0 < h → close_file_mapping K h t ≡ done (closed h ∷ t) tt
  unfolding close_file_mapping
  close_file_mapping-closed h t pos =
      let some_handle : (h == 0) ≡ false = ground arith in rw (some_handle, obliging.closes h)

  unmap_view_of_file-unmapped :
      (p bytes : ℕ) (t : Trace)
      → 0 < p
      → unmap_view_of_file K p bytes t ≡ done (unmapped p bytes ∷ t) tt
  unfolding unmap_view_of_file
  unmap_view_of_file-unmapped p bytes t pos =
      let some_address : (p == 0) ≡ false = ground arith in rw (some_address, obliging.unmaps p)

  pub reserve_virtual_memory-found :
      (round : ℕ) (t : Trace) (r : Option ℕ)
      → K.virtual_alloc round size ≡ r
      → reserve_virtual_memory K round size t ≡ region_found K size t r
  unfolding reserve_virtual_memory
  reserve_virtual_memory-found round t r e =
      let positive : (size == 0) ≡ false = let nonzero = mirrorable.some_size in ground arith in
      let multiple = whole_pages (granule K) size mirrorable.even mirrorable.whole in
      let pages : (size % granule K == 0) ≡ true = ground arith in rw (positive, pages, e)

  -- The two ends of `map_view_of_file`.
  map_view_of_file-cases :
      (round h p : ℕ) (t : Trace)
      → 0 < h
      → 0 < p
      → (map_view_of_file K round h (size / 2) p t ≡ done (mapped p (size / 2) h ∷ t) tt)
        ⊎ (map_view_of_file K round h (size / 2) p t ≡ failed (refused ∷ t) tt)
  unfolding map_view_of_file view_mapped
  map_view_of_file-cases round h p t handle pos =
      let some_handle : (h == 0) ≡ false = ground arith in
      let some_address : (p == 0) ≡ false = ground arith in
      let even = mirrorable.even in
      let nonzero = mirrorable.some_size in
      let some_half : (size / 2 == 0) ≡ false = ground arith in
      let whole = mirrorable.whole in
      let pages : ((size / 2) % granule K == 0) ≡ true = ground arith in
      rw (some_handle, some_address, some_half, pages)
        (go (K.map_view_of_file_ex round h (size / 2) p) refl)
    where
      go :
          (r : Option ℕ)
          → K.map_view_of_file_ex round h (size / 2) p ≡ r
          → (view_mapped K h (size / 2) t r ≡ done (mapped p (size / 2) h ∷ t) tt)
            ⊎ (view_mapped K h (size / 2) t r ≡ failed (refused ∷ t) tt)
      go none e = inr refl
      go (some r) e = inl (rw (obliging.maps round h (size / 2) p r e) refl)

  module _ (t₀ : Trace) (h : ℕ) (handle : 0 < h) where
    -- A round leaves mirrored memory or nothing behind, and does not fail.
    abbrev Proceeds : Round → Type 0
    Proceeds r = Rounded t₀ size h r × GoesOn r

    second_half_mapped-Proceeds :
        (t : Trace) (round p : ℕ)
        → OpensOnly t₀ t h
        → MapsNothing t₀ t
        → 0 < p
        → p + size < usize_mod
        → Proceeds (
            second_half_mapped K h
              (size / 2)
              p
              (map_view_of_file K round h (size / 2) (p + size / 2) (mapped p (size / 2) h ∷ t)))
    unfolding second_half_mapped first_half_unmapped is_open backing
    second_half_mapped-Proceeds t round p opens maps pos fits =
        elim (map_view_of_file-cases round h (p + size / 2) (mapped p (size / 2) h ∷ t) handle
          (omega arith)) [
            | inl e ↦ rw e (
              (
                opens,
                mapped_twice-Mirrors t₀ t p size h,
                mapped_twice-MapsWithin t₀ t p size h maps,
                (pos, fits),
              ),
              tt,
            )
            | inr e ↦
                let undone =
                  unmap_view_of_file-unmapped p (size / 2) (refused ∷ mapped p (size / 2) h ∷ t)
                    pos in
                rw (e, undone)
                  (
                    (
                      opens,
                      unmapped-MapsNothing t₀ (refused ∷ mapped p (size / 2) h ∷ t) p (size / 2)
                          (mapped-MapsWithin t₀ t p (size / 2) h maps),
                    ),
                    tt,
                  )
          ]

    map_both-Proceeds :
        (t : Trace) (round p : ℕ)
        → K.virtual_alloc round size ≡ some p
        → OpensOnly t₀ t h
        → MapsNothing t₀ t
        → Proceeds (map_both K round h (size / 2) (region_found K size t (some p)))
    unfolding map_both region_found first_half_mapped is_open backing
    map_both-Proceeds t round p e opens maps =
        let (pos, fits) = obliging.placed round p e in
        let p2 : (p + size / 2) % usize_mod ≡ p + size / 2 = omega arith in
        let cleared =
          unmapped-MapsNothing t₀ (reserved p size ∷ t) p size
            (reserved-MapsWithin t₀ t p size maps) in
        rw (obliging.frees p)
          (elim (map_view_of_file-cases round h p (unmapped p size ∷ reserved p size ∷ t) handle
            pos) [
              | inl first ↦
                  rw (first, p2)
                    (second_half_mapped-Proceeds (unmapped p size ∷ reserved p size ∷ t) round p
                      opens cleared pos fits)
              | inr first ↦ rw first ((opens, cleared), tt)
            ])

    -- What the loop comes to where every round finds a region: mirrored memory, or an error with the
    -- handle closed.
    abbrev pub Ended : Run Trace AllocError ℕ → Type 0
    Ended (done t p) = Rounded t₀ size h (done t (some p))
    Ended (failed t e) = OpensNothing t₀ t × MapsNothing t₀ t
    Ended panicked = ⊥

    next_round-Ended :
        (r : Round) (rest : Trace → Run Trace AllocError ℕ)
        → Proceeds r
        → ((t : Trace) → OpensOnly t₀ t h → MapsNothing t₀ t → Ended (rest t))
        → Ended (next_round r rest)
    unfolding next_round
    next_round-Ended (done t (some p)) rest (rounded, goes) after = rounded
    next_round-Ended (done t none) rest ((opens, maps), goes) after = after t opens maps
    next_round-Ended (failed t e) rest (rounded, goes) after = absurd goes
    next_round-Ended panicked rest (rounded, goes) after = absurd goes

    pub map_loop-Ended :
        ((round : ℕ) → (p : ℕ) × (K.virtual_alloc round size ≡ some p))
        → (left no_iters : ℕ) (t : Trace) → OpensOnly t₀ t h
        → MapsNothing t₀ t
        → Ended (map_loop K h size no_iters left t)
    unfolding map_loop expect and_then backing
    map_loop-Ended finds zero no_iters t opens maps =
        rw (close_file_mapping-closed h t handle) (closed-OpensNothing t₀ t h opens, maps)
    map_loop-Ended finds (suc left) no_iters t opens maps =
        let (p, e) = finds no_iters in
        rw (reserve_virtual_memory-found no_iters t (some p) e) (
          next_round-Ended (map_both K no_iters h (size / 2) (region_found K size t (some p)))
            (map_loop K h size (suc no_iters) left) (map_both-Proceeds t no_iters p e opens maps)
            (map_loop-Ended finds left (suc no_iters)))
