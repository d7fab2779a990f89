-- ===== src/Deque/Clones.antt =====
-- The parts of src/lib.rs that clone elements into a deque or compare them: `extend_from_slice`,
-- without the feature `unstable`, `clone_from`, `from_elem`, `remove_item` and `dedup`. The clones of
-- a slice are the list `xs`; `eq` is the comparison of the elements.
pub mod Overwritten
pub mod Found
use slice_deque.Common.{
  ℕ, zero, suc, ◌+◌, Bool, Option, none, some, List, [], ◌∷◌, length, map, if◌then◌else◌, pos, Run,
  done, failed, panicked, and_then,
}
use slice_deque.Mirrored.Memory.{view, fill}
use slice_deque.Mirrored.Buffer.{Layout, Platform, AllocError}
use slice_deque.Deque.{
  SliceDeque, cells_of, geometry_of, add, with_cells, move_tail_unchecked, read_at,
}
use slice_deque.Deque.Reserve.{reserve, with_capacity}
use slice_deque.Deque.Ends.{clear}
use slice_deque.Deque.Edit.{remove}
use slice_deque.Deque.Filter.{with_element, dedup_by}
use slice_deque.Deque.Extend.{push_each, Generator, extend_with}

module _ (l : Layout) {A : Type 0} where
  -- `clone_from_slice` of the places behind the slice: each assignment drops what is in its place.
  -- The value is what they drop.
  unfoldable pub overwritten :
      List A
      → Run (SliceDeque A) AllocError (Unit {0})
      → Run (SliceDeque A) AllocError (List (Option A))
  overwritten xs (done d u) =
      let d' = move_tail_unchecked d (pos (length xs)) in
      let p = add l d'.begin d.len in
      done (with_cells d' (fill (geometry_of l d') (cells_of l d') p (map some xs)))
        (view (geometry_of l d') (cells_of l d') p (length xs))
  overwritten xs (failed d e) = failed d e
  overwritten xs panicked = panicked

  -- `self.iter().position(|x| *x == *item)`, of `k` elements from `i` on.
  unfoldable pub position :
      (A → Bool) → (k i : ℕ) → SliceDeque A → Run (SliceDeque A) AllocError (Option ℕ)
  unfolding with_element
  position eq zero i d = done d none
  position eq (suc k) i d =
      let rest = position eq k (suc i) d in
      with_element (read_at l d i) (λ x. if eq x then done d (some i) else rest)

  unfoldable pub dedup :
      (A → A → Bool) → SliceDeque A → Run (SliceDeque A) AllocError (List (Option A))
  unfolding dedup_by
  dedup eq = dedup_by l (λ s a b. (eq a b, s)) (tt {0})

  module _ (P : Platform) where
    unfoldable pub extend_from_slice :
        SliceDeque A → List A → Run (SliceDeque A) AllocError (List (Option A))
    unfolding overwritten
    extend_from_slice d xs = overwritten xs (reserve l P d (length xs))

    -- What `clone_from` does once the deque is cleared of `vs`.
    unfoldable pub cleared :
        List A
        → Run (SliceDeque A) AllocError (List (Option A))
        → Run (SliceDeque A) AllocError (List (Option A))
    unfolding push_each
    cleared xs (done d vs) = and_then (push_each l P xs d) (λ d'. done d' vs)
    cleared xs (failed d e) = failed d e
    cleared xs panicked = panicked

    unfoldable pub clone_from :
        SliceDeque A → List A → Run (SliceDeque A) AllocError (List (Option A))
    unfolding clear cleared
    clone_from d xs = cleared xs (clear l d)

    -- `ExtendElement`, of an element of which clones are equal to it.
    abbrev pub extend_element : A → Generator (Unit {0}) A
    extend_element x = record { next = λ s. (x, s); last = λ s. x }

    unfoldable pub element_repeated :
        A → ℕ → Run (Unit {0}) AllocError (SliceDeque A) → Run (SliceDeque A) AllocError (Unit {0})
    unfolding extend_with
    element_repeated x n (done u d) = extend_with l P (extend_element x) d n tt
    element_repeated x n (failed u e) = panicked
    element_repeated x n panicked = panicked

    unfoldable pub from_elem : A → ℕ → Run (SliceDeque A) AllocError (Unit {0})
    unfolding element_repeated
    from_elem x n = element_repeated x n (with_capacity l P n)

    -- The removed element as `Some`.
    unfoldable pub item_removed :
        Run (SliceDeque A) AllocError (Option A) → Run (SliceDeque A) AllocError (Option (Option A))
    item_removed (done d v) = done d (some v)
    item_removed (failed d e) = failed d e
    item_removed panicked = panicked

    -- What `remove_item` does with the position.
    unfoldable pub remove_found :
        Run (SliceDeque A) AllocError (Option ℕ) → Run (SliceDeque A) AllocError (Option (Option A))
    unfolding remove item_removed
    remove_found (done d none) = done d none
    remove_found (done d (some i)) = item_removed (remove l P d i)
    remove_found (failed d e) = failed d e
    remove_found panicked = panicked

    unfoldable pub remove_item :
        (A → Bool) → SliceDeque A → Run (SliceDeque A) AllocError (Option (Option A))
    unfolding position remove_found
    remove_item eq d = remove_found (position eq d.len 0 d)
