-- ===== src/Deque/Iterate.antt =====
-- The parts of src/lib.rs that take their elements from an iterator: `extend_desugared`, which is
-- `extend`, and `from_iter_default`, which is `from_iter`, without the feature `unstable`. An
-- iterator is the list of the items that it has left, and its `size_hint` is a function of them.
pub mod Extended
use slice_deque.Common.{
  ℕ, ◌+◌, ◌-◌, Option, none, some, List, [], ◌∷◌, ltb, ◌==◌, if◌then◌else◌, pos, usize_mod, Run,
  done, failed, panicked, and_then,
}
use slice_deque.Mirrored.Memory.{store}
use slice_deque.Mirrored.Buffer.{Layout, Platform, AllocError}
use slice_deque.Deque.{
  SliceDeque, is_full, cells_of, geometry_of, add, with_cells, move_tail_unchecked, new,
}
use slice_deque.Deque.Reserve.{checked_add, reserve, with_capacity}

-- `size_hint` of an iterator, by the items that it has left: a lower bound, and an upper one if
-- there is one.
abbrev pub SizeHint : Type 0 → Type 0
SizeHint A = List A → ℕ × Option ℕ

-- The upper bound, or the lower one where there is none.
unfoldable pub upper_or_lower : ℕ × Option ℕ → ℕ
upper_or_lower (lower, none) = lower
upper_or_lower (lower, some upper) = upper

abbrev pub saturating_add : ℕ → ℕ → ℕ
saturating_add a b = if ltb (a + b) usize_mod then a + b else usize_mod - 1

module _ (l : Layout) {A : Type 0} where
  -- `ptr::write(self.get_unchecked_mut(len), element)` and `self.move_tail_unchecked(1)`.
  abbrev pub written : SliceDeque A → ℕ → A → SliceDeque A
  written d len element =
      move_tail_unchecked
        (with_cells d (store (geometry_of l d) (cells_of l d) (add l d.begin len) (some element)))
        (pos 1)

  module _ (P : Platform) where
    -- `self.reserve(additional_cap)`, where `none` is an overflow.
    unfoldable pub reserve_checked :
        SliceDeque A → Option ℕ → Run (SliceDeque A) AllocError (Unit {0})
    reserve_checked d none = panicked
    reserve_checked d (some additional_cap) = reserve l P d additional_cap

    -- The room for the next element.
    unfoldable pub room_for : ℕ × Option ℕ → SliceDeque A → Run (SliceDeque A) AllocError (Unit {0})
    unfolding reserve_checked
    room_for hint d =
        if is_full d then reserve_checked d (checked_add (upper_or_lower hint) 1) else done d tt

    unfoldable pub extend_desugared :
        SizeHint A → List A → SliceDeque A → Run (SliceDeque A) AllocError (Unit {0})
    unfolding room_for
    extend_desugared size_hint [] d = done d tt
    extend_desugared size_hint (element ∷ items) d =
        and_then (room_for (size_hint items) d)
          (λ d'. extend_desugared size_hint items (written d' d.len element))

    -- What `from_iter_default` does with the deque that `with_capacity` made.
    unfoldable pub extend_from_first :
        SizeHint A
        → A
        → List A
        → Run (Unit {0}) AllocError (SliceDeque A)
        → Run (SliceDeque A) AllocError (Unit {0})
    unfolding extend_desugared
    extend_from_first size_hint element items (done u d) =
        extend_desugared size_hint items (written d 0 element)
    extend_from_first size_hint element items (failed u e) = panicked
    extend_from_first size_hint element items panicked = panicked

    unfoldable pub from_iter_default :
        SizeHint A → List A → Run (SliceDeque A) AllocError (Unit {0})
    unfolding extend_from_first
    from_iter_default size_hint [] = done (new l) tt
    from_iter_default size_hint (element ∷ items) =
        extend_from_first size_hint element items
          (with_capacity l P (saturating_add (size_hint items).0 1))
