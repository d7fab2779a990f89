-- ===== src/Deque/Ends.antt =====
-- The operations at the two ends: `front`, `back`, the pushes and pops, the truncations, the
-- removals by a swap of src/lib.rs.
pub mod Access
pub mod Swap
pub mod Write
pub mod Push
pub mod Pop
use slice_deque.Common.{
  ℕ, zero, suc, ◌+◌, ◌-◌, ◌*◌, ◌≤◌, Bool, ◌&&◌, Option, none, some, List, [], map, length, ltb, leb,
  if◌then◌else◌, pos, negsuc, neg, wrapping_sub, Run, done, failed, panicked,
}
use slice_deque.Mirrored.Memory.{load, store, view, fill}
use slice_deque.Mirrored.Buffer.{Layout, Platform, AllocError}
use slice_deque.Deque.{
  SliceDeque, capacity, is_full, is_empty, as_slice, cells_of, geometry_of, add, with_cells,
  with_elems, read_at, write_at, move_tail_unchecked, move_tail, move_head_unchecked, move_head,
}
use slice_deque.Deque.Reserve.{unwrap, try_reserve, reserve, with_capacity}

module _ (l : Layout) {A : Type 0} where
  unfoldable pub front : SliceDeque A → Option (Option A)
  front d = read_at l d 0

  unfoldable pub back : SliceDeque A → Option (Option A)
  back d = read_at l d (wrapping_sub d.len 1)

  -- The slice from index `n` on, of `k` elements: `&mut self[n..n + k]`.
  abbrev pub slice_from : SliceDeque A → ℕ → ℕ → List (Option A)
  slice_from d n k = view (geometry_of l d) (cells_of l d) (add l d.begin n) k

  unfoldable pub pop_back : SliceDeque A → SliceDeque A × Option (Option A)
  pop_back d = elim (read_at l d (wrapping_sub d.len 1)) [
    | none ↦ (d, none)
    | some v ↦ (move_tail_unchecked d (negsuc 0), some v)
  ]

  -- `drop_in_place` on a slice once the deque has let go of it: the value is what it drops.
  unfoldable pub then_drop :
      List (Option A)
      → Run (SliceDeque A) AllocError (Unit {0})
      → Run (SliceDeque A) AllocError (List (Option A))
  then_drop s (done d u) = done d s
  then_drop s (failed d e) = failed d e
  then_drop s panicked = panicked

  unfoldable pub truncate_back : SliceDeque A → ℕ → Run (SliceDeque A) AllocError (List (Option A))
  unfolding then_drop
  truncate_back d n =
      if leb d.len n
      then done d []
      else then_drop (slice_from d n (d.len - n)) (move_tail d (neg (d.len - n)))

  unfoldable pub truncate : SliceDeque A → ℕ → Run (SliceDeque A) AllocError (List (Option A))
  unfolding truncate_back
  truncate d n = truncate_back d n

  unfoldable pub clear : SliceDeque A → Run (SliceDeque A) AllocError (List (Option A))
  unfolding truncate
  clear d = truncate d 0

  -- `mem::swap` of two elements of the slice.
  abbrev pub swap_elements : SliceDeque A → ℕ → ℕ → SliceDeque A
  swap_elements d i j =
      let g = geometry_of l d in
      let c = cells_of l d in
      let p = add l d.begin i in
      let q = add l d.begin j in with_cells d (store g (store g c p (load g c q)) q (load g c p))

  -- `<[T]>::swap`
  unfoldable pub swap : SliceDeque A → ℕ → ℕ → Run (SliceDeque A) AllocError (Unit {0})
  swap d i j = if ltb i d.len && ltb j d.len then done (swap_elements d i j) tt else panicked

  -- What pops the element after a swap.
  unfoldable pub swapped_then :
      (SliceDeque A → SliceDeque A × Option (Option A))
      → Run (SliceDeque A) AllocError (Unit {0})
      → Run (SliceDeque A) AllocError (Option (Option A))
  swapped_then pop (done d u) = let (d', v) = pop d in done d' v
  swapped_then pop (failed d e) = failed d e
  swapped_then pop panicked = panicked

  unfoldable pub swap_remove_back :
      SliceDeque A → ℕ → Run (SliceDeque A) AllocError (Option (Option A))
  unfolding swapped_then
  swap_remove_back d index =
      if is_empty d then done d none else swapped_then pop_back (swap d index (d.len - 1))

  module _ (P : Platform) where
    unfoldable pub truncate_front :
        SliceDeque A → ℕ → Run (SliceDeque A) AllocError (List (Option A))
    unfolding then_drop
    truncate_front d n =
        if leb d.len n
        then done d []
        else then_drop (slice_from d 0 (d.len - n)) (move_head l P d (pos (d.len - n)))

    unfoldable pub pop_front : SliceDeque A → SliceDeque A × Option (Option A)
    pop_front d = elim (read_at l d 0) [
      | none ↦ (d, none)
      | some v ↦ (move_head_unchecked l P d (pos 1), some v)
    ]

    unfoldable pub swap_remove_front :
        SliceDeque A → ℕ → Run (SliceDeque A) AllocError (Option (Option A))
    unfolding swapped_then
    swap_remove_front d index =
        if is_empty d then done d none else swapped_then pop_front (swap d index 0)

    -- Room for one more element: `try_reserve(1)` in a full deque.
    unfoldable pub with_room : SliceDeque A → Run (SliceDeque A) AllocError (Unit {0})
    with_room d = if is_full d then try_reserve l P d 1 else done d tt

    -- What the pushes do once there is room: on error the value comes back with it.
    unfoldable pub write_front :
        A
        → Run (SliceDeque A) AllocError (Unit {0})
        → Run (SliceDeque A) (A × AllocError) (Unit {0})
    write_front value (done d u) = write_at l (move_head_unchecked l P d (negsuc 0)) 0 value
    write_front value (failed d e) = failed d (value, e)
    write_front value panicked = panicked

    unfoldable pub write_back :
        A
        → Run (SliceDeque A) AllocError (Unit {0})
        → Run (SliceDeque A) (A × AllocError) (Unit {0})
    write_back value (done d u) =
        let d' = move_tail_unchecked d (pos 1) in write_at l d' (wrapping_sub d'.len 1) value
    write_back value (failed d e) = failed d (value, e)
    write_back value panicked = panicked

    unfoldable pub try_push_front :
        SliceDeque A → A → Run (SliceDeque A) (A × AllocError) (Unit {0})
    unfolding with_room write_front
    try_push_front d value = write_front value (with_room d)

    unfoldable pub push_front : SliceDeque A → A → Run (SliceDeque A) AllocError (Unit {0})
    unfolding try_push_front
    push_front d value = unwrap (try_push_front d value)

    unfoldable pub try_push_back : SliceDeque A → A → Run (SliceDeque A) (A × AllocError) (Unit {0})
    unfolding with_room write_back
    try_push_back d value = write_back value (with_room d)

    unfoldable pub push_back : SliceDeque A → A → Run (SliceDeque A) AllocError (Unit {0})
    unfolding try_push_back
    push_back d value = unwrap (try_push_back d value)
