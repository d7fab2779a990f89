-- ===== src/Mirrored/Winapi.antt =====
-- src/mirrored/winapi.rs: `allocate_mirrored` and `deallocate_mirrored` over file mappings, and the
-- calls of the system that they wrap.
pub mod Mirror
pub mod Release
use slice_deque.Common.{
  ℕ, suc, zero, ◌+◌, ◌/◌, ◌%◌, ◌^◌, max, Bool, true, false, Option, none, some, ◌∷◌, ◌==◌,
  if◌then◌else◌, usize_mod, Run, done, failed, panicked, and_then,
}
use slice_deque.Mirrored.Buffer.{AllocError, oom, other}
use slice_deque.Mirrored.Space.{Trace, opened, closed, reserved, mapped, unmapped, refused}
use slice_deque.Mirrored.Space.Rounds.{Round, next_round}

-- The answers of the system: a handle or an address where it is not null, or whether the call
-- succeeds. `virtual_alloc` and `map_view_of_file_ex` may answer otherwise in each round of the
-- loop, which they take first: `virtual_alloc round size` and
-- `map_view_of_file_ex round file_mapping size address`.
pub record Kernel : Type 0 where
  pub page_size : ℕ
  pub allocation_granularity : ℕ
  pub create_file_mapping_w : ℕ → ℕ → Option ℕ
  pub close_handle : ℕ → Bool
  pub virtual_alloc : ℕ → ℕ → Option ℕ
  pub virtual_free : ℕ → Bool
  pub map_view_of_file_ex : ℕ → ℕ → ℕ → ℕ → Option ℕ
  pub unmap_view_of_file : ℕ → Bool

-- The `expect` that follows a call that returns `Result<(), ()>`.
unfoldable pub expect : Run Trace (Unit {0}) (Unit {0}) → Run Trace AllocError (Unit {0})
expect (done t u) = done t u
expect (failed t e) = panicked
expect panicked = panicked

module _ (K : Kernel) where
  abbrev pub granule : ℕ
  granule = max K.page_size K.allocation_granularity

  -- The two halves of a size, each of them 32 bits wide.
  abbrev pub dw_maximum_size_low : ℕ → ℕ
  dw_maximum_size_low size = size % 2 ^ 32

  abbrev pub dw_maximum_size_high : ℕ → ℕ
  dw_maximum_size_high size = (size / 2 ^ 32) % 2 ^ 32

  unfoldable pub file_mapping_created : Trace → Option ℕ → Run Trace AllocError ℕ
  file_mapping_created t none = failed (refused ∷ t) oom
  file_mapping_created t (some h) = done (opened h ∷ t) h

  unfoldable pub create_file_mapping : ℕ → Trace → Run Trace AllocError ℕ
  unfolding file_mapping_created
  create_file_mapping size t =
      if size == 0
      then panicked
      else if size % granule == 0
      then file_mapping_created t
          (K.create_file_mapping_w (dw_maximum_size_high size) (dw_maximum_size_low size))
      else panicked

  unfoldable pub close_file_mapping : ℕ → Trace → Run Trace (Unit {0}) (Unit {0})
  close_file_mapping h t =
      if h == 0
      then panicked
      else if K.close_handle h
      then done (closed h ∷ t) tt
      else failed (refused ∷ t) tt

  -- The region that was found is given back at once.
  unfoldable pub region_found : ℕ → Trace → Option ℕ → Run Trace AllocError ℕ
  region_found size t none = failed (refused ∷ t) oom
  region_found size t (some r) =
      if K.virtual_free r
      then done (unmapped r size ∷ reserved r size ∷ t) r
      else failed (refused ∷ reserved r size ∷ t) other

  unfoldable pub reserve_virtual_memory : ℕ → ℕ → Trace → Run Trace AllocError ℕ
  unfolding region_found
  reserve_virtual_memory round size t =
      if size == 0
      then panicked
      else if size % granule == 0
      then region_found size t (K.virtual_alloc round size)
      else panicked

  unfoldable pub view_mapped : ℕ → ℕ → Trace → Option ℕ → Run Trace (Unit {0}) (Unit {0})
  view_mapped h size t none = failed (refused ∷ t) tt
  view_mapped h size t (some r) = done (mapped r size h ∷ t) tt

  unfoldable pub map_view_of_file : ℕ → ℕ → ℕ → ℕ → Trace → Run Trace (Unit {0}) (Unit {0})
  unfolding view_mapped
  map_view_of_file round h size address t =
      if h == 0
      then panicked
      else if address == 0
      then panicked
      else if size == 0
      then panicked
      else if size % granule == 0
      then view_mapped h size t (K.map_view_of_file_ex round h size address)
      else panicked

  -- The view at `address` has `bytes` bytes.
  unfoldable pub unmap_view_of_file : ℕ → ℕ → Trace → Run Trace (Unit {0}) (Unit {0})
  unmap_view_of_file address bytes t =
      if address == 0
      then panicked
      else if K.unmap_view_of_file address
      then done (unmapped address bytes ∷ t) tt
      else failed (refused ∷ t) tt

  -- The view of the first half is unmapped, or the handle is closed and the call panics.
  unfoldable pub first_half_unmapped : ℕ → Run Trace (Unit {0}) (Unit {0}) → Round
  unfolding close_file_mapping
  first_half_unmapped h (done t u) = done t none
  first_half_unmapped h (failed t e) = and_then (expect (close_file_mapping h t)) (λ t'. panicked)
  first_half_unmapped h panicked = panicked

  -- The end of a round: the second half mapped or not, where the first one is mapped at `p`.
  unfoldable pub second_half_mapped : ℕ → ℕ → ℕ → Run Trace (Unit {0}) (Unit {0}) → Round
  unfolding unmap_view_of_file first_half_unmapped
  second_half_mapped h half p (done t u) = done t (some p)
  second_half_mapped h half p (failed t e) = first_half_unmapped h (unmap_view_of_file p half t)
  second_half_mapped h half p panicked = panicked

  unfoldable pub first_half_mapped : ℕ → ℕ → ℕ → ℕ → Run Trace (Unit {0}) (Unit {0}) → Round
  unfolding map_view_of_file second_half_mapped
  first_half_mapped round h half p (done t u) =
      second_half_mapped h half p (map_view_of_file round h half ((p + half) % usize_mod) t)
  first_half_mapped round h half p (failed t e) = done t none
  first_half_mapped round h half p panicked = panicked

  -- A round, from what `reserve_virtual_memory` returned on.
  unfoldable pub map_both : ℕ → ℕ → ℕ → Run Trace AllocError ℕ → Round
  unfolding map_view_of_file first_half_mapped
  map_both round h half (done t p) =
      first_half_mapped round h half p (map_view_of_file round h half p t)
  map_both round h half (failed t e) = failed t e
  map_both round h half panicked = panicked

  -- The loop, with `no_iters` as its counter, where `left` rounds are left.
  unfoldable pub map_loop : ℕ → ℕ → ℕ → ℕ → Trace → Run Trace AllocError ℕ
  unfolding close_file_mapping expect reserve_virtual_memory map_both
  map_loop h size no_iters zero t =
      and_then (expect (close_file_mapping h t)) (λ t'. failed t' other)
  map_loop h size no_iters (suc left) t =
      next_round (map_both no_iters h (size / 2) (reserve_virtual_memory no_iters size t))
        (map_loop h size (suc no_iters) left)

  abbrev pub max_no_alloc_iters : ℕ
  max_no_alloc_iters = 10

  -- What follows the loop.
  unfoldable pub close_after : ℕ → Run Trace AllocError ℕ → Run Trace AllocError ℕ
  unfolding close_file_mapping expect
  close_after h (done t p) = and_then (expect (close_file_mapping h t)) (λ t'. done t' p)
  close_after h (failed t e) = failed t e
  close_after h panicked = panicked

  -- What follows `create_file_mapping`. The loop stops where `no_iters` is more than
  -- `max_no_alloc_iters`.
  unfoldable pub with_file_mapping : ℕ → Run Trace AllocError ℕ → Run Trace AllocError ℕ
  unfolding map_loop close_after
  with_file_mapping size (done t h) = close_after h (map_loop h size 0 (suc max_no_alloc_iters) t)
  with_file_mapping size (failed t e) = failed t e
  with_file_mapping size panicked = panicked

  unfoldable pub allocate_mirrored : ℕ → Trace → Run Trace AllocError ℕ
  unfolding create_file_mapping with_file_mapping
  allocate_mirrored size t =
      let half = size / 2 in
      if size == 0
      then panicked
      else if half % granule == 0
      then with_file_mapping size (create_file_mapping half t)
      else panicked

  unfoldable pub deallocate_mirrored : ℕ → ℕ → Trace → Run Trace AllocError (Unit {0})
  unfolding unmap_view_of_file expect
  deallocate_mirrored p size t =
      let half = size / 2 in
      if p == 0
      then panicked
      else if size == 0
      then panicked
      else if size % granule == 0
      then and_then (expect (unmap_view_of_file p half t))
          (λ t'. expect (unmap_view_of_file ((p + half) % usize_mod) half t'))
      else panicked
