-- ===== src/Mirrored/Sysv/Mirror.antt =====
-- What the system calls of src/mirrored/sysv.rs leave behind.
use slice_deque.Common.{
  ℕ, suc, zero, ◌+◌, ◌/◌, ◌%◌, ◌<◌, ◌≡◌, ◌≢◌, ◌⊎◌, inl, inr, true, false, Option, none, some, ◌∷◌,
  refl, ◌==◌, usize_mod, Run, done, failed, panicked, and_then, arith,
}
use slice_deque.Mirrored.Buffer.{AllocError, other}
use slice_deque.Mirrored.Space.{
  Trace, opened, reserved, mapped, unmapped, refused, is_open, backing, OpensOnly, MapsNothing,
  Allocated,
}
use slice_deque.Mirrored.Space.Laws.{
  opened-OpensOnly, closed-OpensNothing, unmapped-MapsNothing, reserved-MapsWithin,
  mapped-MapsWithin, mapped_twice-Mirrors, mapped_twice-MapsWithin,
}
use slice_deque.Mirrored.Space.Rounds.{Rounded, Looped, next_round-Looped}
use slice_deque.Mirrored.Sysv.{
  Kernel, drop_shared_memory, drop_memory_map, attached, attach, attach_second, attach_first,
  attach_both, attach_loop, release_shared_memory, with_shared_memory, allocate_mirrored,
}

-- A system that gives up what it is asked to, attaches at the address it is told, and reserves
-- `size` bytes inside the address space.
pub record Obliging (K : Kernel) (size : ℕ) : Type 0 where
  pub removes : (id : ℕ) → K.shmctl id ≡ true
  pub unmaps : (p bytes : ℕ) → K.munmap p bytes ≡ true
  pub detaches : (p : ℕ) → K.shmdt p ≡ true
  pub attaches : (round p r : ℕ) → K.shmat round p ≡ some r → r ≡ p
  pub placed : (round p : ℕ) → K.mmap round size ≡ some p → (0 < p) × (p + size < usize_mod)

module _ (K : Kernel) (size : ℕ) (obliging : Obliging K size) where
  -- The two ends of `attach`.
  pub attach-cases :
      (round id bytes p : ℕ) (t : Trace)
      → 0 < p
      → (attach K round id bytes p t ≡ done (mapped p bytes id ∷ t) p)
        ⊎ (attach K round id bytes p t ≡ failed (refused ∷ t) other)
  unfolding attach attached
  attach-cases round id bytes p t pos =
      let some_address : (p == 0) ≡ false = ground arith in
      rw some_address (go (K.shmat round p) refl)
    where
      go :
          (r : Option ℕ)
          → K.shmat round p ≡ r
          → (attached K id bytes p t r ≡ done (mapped p bytes id ∷ t) p)
            ⊎ (attached K id bytes p t r ≡ failed (refused ∷ t) other)
      go none e = inr refl
      go (some r) e =
          let same = obliging.attaches round p r e in
          let stays : (p == p) ≡ true = ground arith in inl (rw (same, stays) refl)

  module _ (t₀ : Trace) (id : ℕ) where
    attach_second-Rounded :
        (t : Trace) (round p : ℕ)
        → OpensOnly t₀ t id
        → MapsNothing t₀ t
        → 0 < p
        → p + size < usize_mod
        → Rounded t₀ size id (
            attach_second K
              (size / 2)
              p
              (attach K round id (size / 2) (p + size / 2) (mapped p (size / 2) id ∷ t)))
    unfolding attach_second drop_memory_map is_open backing and_then
    attach_second-Rounded t round p opens maps pos fits =
        elim (attach-cases round id (size / 2) (p + size / 2) (mapped p (size / 2) id ∷ t)
          (omega arith)) [
            | inl e ↦ rw e (
              opens,
              mapped_twice-Mirrors t₀ t p size id,
              mapped_twice-MapsWithin t₀ t p size id maps,
              (pos, fits),
            )
            | inr e ↦
                rw (e, obliging.detaches p)
                  (
                    opens,
                    unmapped-MapsNothing t₀ (refused ∷ mapped p (size / 2) id ∷ t) p (size / 2)
                        (mapped-MapsWithin t₀ t p (size / 2) id maps),
                  )
          ]

    attach_both-Rounded :
        (t : Trace) (round : ℕ) (r : Option ℕ)
        → K.mmap round size ≡ r
        → OpensOnly t₀ t id
        → MapsNothing t₀ t
        → Rounded t₀ size id (attach_both K round id size t r)
    unfolding attach_both attach_first is_open backing
    attach_both-Rounded t round none e opens maps = (opens, maps)
    attach_both-Rounded t round (some p) e opens maps =
        let (pos, fits) = obliging.placed round p e in
        let p2 : (p + size / 2) % usize_mod ≡ p + size / 2 = omega arith in
        let cleared =
          unmapped-MapsNothing t₀ (reserved p size ∷ t) p size
            (reserved-MapsWithin t₀ t p size maps) in
        rw (p2, obliging.unmaps p size)
          (elim (attach-cases round id (size / 2) p (unmapped p size ∷ reserved p size ∷ t) pos) [
            | inl first ↦ rw first (
                attach_second-Rounded (unmapped p size ∷ reserved p size ∷ t) round p opens cleared
                  pos fits)
            | inr first ↦ rw first (opens, cleared)
          ])

    attach_loop-Looped :
        (left round : ℕ) (t : Trace)
        → OpensOnly t₀ t id
        → MapsNothing t₀ t
        → Looped t₀ size id (attach_loop K id size round left t)
    unfolding attach_loop
    attach_loop-Looped zero round t opens maps = (opens, maps)
    attach_loop-Looped (suc left) round t opens maps =
        next_round-Looped t₀ size id (attach_both K round id size t (K.mmap round size))
          (attach_loop K id size (suc round) left)
          (attach_both-Rounded t round (K.mmap round size) refl opens maps)
          (attach_loop-Looped left (suc round))

  module _ (t₀ : Trace) where
    -- `Allocated`, and where the memory is.
    abbrev pub Placed : Run Trace AllocError ℕ → Type 0
    Placed (done t p) = Allocated t₀ size (done t p) × ((0 < p) × (p + size < usize_mod))
    Placed (failed t e) = Allocated t₀ size (failed t e)
    Placed panicked = ⊥

    release-Placed :
        (id : ℕ) (r : Run Trace AllocError ℕ)
        → Looped t₀ size id r
        → Placed (release_shared_memory K id r)
    unfolding release_shared_memory drop_shared_memory backing and_then
    release-Placed id (done t p) (opens, mirrors, maps, placed) =
        rw (obliging.removes id) ((closed-OpensNothing t₀ t id opens, mirrors, maps), placed)
    release-Placed id (failed t e) (opens, maps) =
        rw (obliging.removes id) (closed-OpensNothing t₀ t id opens, maps)
    release-Placed id panicked h = h

    with_shared_memory-Placed : (r : Option ℕ) → Placed (with_shared_memory K size t₀ r)
    unfolding with_shared_memory is_open backing
    with_shared_memory-Placed none = (λ x e. e, λ a. inr refl)
    with_shared_memory-Placed (some id) =
        release-Placed id (attach_loop K id size 1 10 (opened id ∷ t₀))
          (attach_loop-Looped t₀ id 10 1 (opened id ∷ t₀) (opened-OpensOnly t₀ id) (λ a. inr refl))

    module _ (even : size % 2 ≡ 0) (some_size : size ≢ 0)
        (whole : (size / 2) % K.page_size ≡ 0) where
      pub allocate_mirrored-Placed : Placed (allocate_mirrored K size t₀)
      unfolding allocate_mirrored
      allocate_mirrored-Placed =
          let r = with_shared_memory-Placed (K.shmget (size / 2)) in
          let positive : (size == 0) ≡ false = ground arith in
          let some_half : (size / 2 == 0) ≡ false = ground arith in
          let pages : ((size / 2) % K.page_size == 0) ≡ true = ground arith in
          rw (positive, pages, some_half) r
